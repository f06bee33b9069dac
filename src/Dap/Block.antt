-- ===== src/Dap/Block.antt =====
-- `dap_transfer_block` of cmd/dap.rs: one request byte for a run of accesses.
use esp32_dap_proxy.Prelude.{
  ℕ, zero, suc, min, ◌+◌, ◌/◌, ◌^◌, ◌<◌, ◌≡◌, refl, true, false, Option, some, List, [], ◌∷◌, ◌++◌,
  ◌>>=◌, arith, ltb, if◌then◌else◌, length, drop, get_elem?, copy_at,
}
use esp32_dap_proxy.Prelude.Bytes.{IsByte, u16_from_le_bytes, u16_to_le_bytes}
use esp32_dap_proxy.Frame.{sub_usize}
use esp32_dap_proxy.Transport.{Transport}
use esp32_dap_proxy.Dap.State.{Dap, st_ok, st_proto}
use esp32_dap_proxy.Dap.Loop.{
  Loop, Step, apndp_of, rnw_of, address_of, is_reserved, access, rounds, perform, stopped-Performs,
}
use esp32_dap_proxy.Dap.Access.{Parsed, list_access, access-Performs, GoesOn}
use esp32_dap_proxy.Dap.Outcome.{ListsAtMost, list_access-ListsAtMost}

module _ (t : Transport) where
  -- The body of the loop: there is no request byte to read.
  unfoldable pub block_round : ℕ → List ℕ → Loop t → Option (Step t)
  block_round rb req l = access t (2 ^ 16) (apndp_of rb) (rnw_of rb) (address_of rb) req l

  -- `resp[..3].copy_from_slice(&[0, 0, ST_PROTO]); return 3`
  unfoldable pub malformed_block : Dap t → List ℕ → Option (Dap t × List ℕ × ℕ)
  malformed_block d resp = copy_at 0 (0 ∷ 0 ∷ st_proto ∷ []) resp >>= λ resp'. some (d, resp', 3)

  -- From the loop on.
  unfoldable pub run_block : Dap t → ℕ → ℕ → List ℕ → List ℕ → Option (Dap t × List ℕ × ℕ)
  run_block d count rb req resp =
      rounds t (block_round rb req) count
        (record { dap = d; resp = resp; pos = 5; rpos = 3; done = 0 })
      >>= λ (status, l). copy_at 0 (u16_to_le_bytes l.done) l.resp >>= λ resp₁.
          copy_at 2 (status ∷ []) resp₁ >>= λ resp₂. some (l.dap, resp₂, l.rpos)

  unfoldable pub dap_transfer_block : Dap t → List ℕ → List ℕ → Option (Dap t × List ℕ × ℕ)
  unfolding malformed_block run_block
  dap_transfer_block d req resp =
      if ltb (length req) 5
      then malformed_block d resp
      else get_elem? req 2 >>= λ c0. get_elem? req 3 >>= λ c1. get_elem? req 4 >>= λ rb.
          let count = min (u16_from_le_bytes c0 c1) (sub_usize (length resp) 3 / 4) in
          if is_reserved rb then malformed_block d resp else run_block d count rb req resp

-- The accesses that a block request lists.
unfoldable pub parse_block : ℕ → ℕ → List ℕ → Parsed
parse_block rb zero bs = ([], st_ok)
parse_block rb (suc n) bs =
    list_access (apndp_of rb) (rnw_of rb) (address_of rb) (λ r. parse_block rb n r) bs

pub parse_block-ListsAtMost : (rb n : ℕ) (bs : List ℕ) → ListsAtMost n (parse_block rb n bs)
unfolding parse_block
parse_block-ListsAtMost rb zero bs = record {
  short = omega arith;
  whole = λ e. refl;
  well_formed = λ e. refl;
}
parse_block-ListsAtMost rb (suc n) bs =
    list_access-ListsAtMost n (apndp_of rb) (rnw_of rb) (address_of rb) (parse_block rb n) bs
      (parse_block-ListsAtMost rb n)

module _ (t : Transport) where
  block-GoesOn :
      (rb n : ℕ) (req : List ℕ)
      → GoesOn t (2 ^ 16) n req (rounds t (block_round t rb req) n) (parse_block rb n)
  unfolding rounds parse_block perform block_round
  block-GoesOn rb zero req front bs e d pre rest done room small =
      stopped-Performs t d st_ok (length front) pre rest done
  block-GoesOn rb (suc n) req front bs e d pre rest done room small = rw e at (
      access-Performs t (2 ^ 16) (address_of rb) n (rounds t (block_round t rb req) n)
        (parse_block rb n) (apndp_of rb) (rnw_of rb) front bs d pre rest done room small
        (rw e (block-GoesOn rb n req)))

  -- DAP_TransferBlock answers with the 16-bit count of accesses that succeeded, the status, and the
  -- words read: the accesses are performed in order up to the first that fails, and there are no more
  -- of them than the buffer has room for words. The rest of the buffer stays. The request has its
  -- whole header of five bytes, the bytes of its count are bytes, its request byte has no reserved
  -- bit, and the buffer has at least 3 and fewer than 2 ^ 31 + 3 bytes.
  pub dap_transfer_block-perform :
      (d : Dap t) (cmd index c0 c1 rb x0 x1 x2 : ℕ) (body rest : List ℕ)
      → IsByte c0
      → IsByte c1
      → is_reserved rb ≡ false
      → length rest < 2 ^ 31
      → let count = min (u16_from_le_bytes c0 c1) (length rest / 4) in
        let r = perform t (parse_block rb count body).0 (parse_block rb count body).1 d in
        dap_transfer_block t d (cmd ∷ index ∷ c0 ∷ c1 ∷ rb ∷ body) (x0 ∷ x1 ∷ x2 ∷ rest)
        ≡ some (
          r.dap,
          (u16_to_le_bytes r.done ++ (r.status ∷ r.out)) ++ drop (length r.out) rest,
          3 + length r.out,
        )
  unfolding dap_transfer_block
  dap_transfer_block-perform d cmd index c0 c1 rb x0 x1 x2 body rest byte0 byte1 plain small =
      let req = cmd ∷ index ∷ c0 ∷ c1 ∷ rb ∷ body in
      let asked = u16_from_le_bytes c0 c1 in
      let count = min asked (length rest / 4) in
      let long : ltb (length req) 5 ≡ false = ground arith in
      let left : sub_usize (length (x0 ∷ x1 ∷ x2 ∷ rest)) 3 ≡ length rest = omega arith in
      let (pos', e) =
        block-GoesOn rb count req (cmd ∷ index ∷ c0 ∷ c1 ∷ rb ∷ []) body refl d (x0 ∷ x1 ∷ x2 ∷ [])
          rest 0 (omega arith) (omega arith) in
      let counted : 0
            + (perform t (parse_block rb count body).0 (parse_block rb count body).1 d).done
          ≡ (perform t (parse_block rb count body).0 (parse_block rb count body).1 d).done =
        omega arith in
      rw (long, left, plain, e, counted)

  -- A request byte with a reserved bit is answered as malformed, and no access is made.
  pub dap_transfer_block_malformed :
      (d : Dap t) (cmd index c0 c1 rb x0 x1 x2 : ℕ) (body rest : List ℕ)
      → is_reserved rb ≡ true
      → dap_transfer_block t d (cmd ∷ index ∷ c0 ∷ c1 ∷ rb ∷ body) (x0 ∷ x1 ∷ x2 ∷ rest)
        ≡ some (d, 0 ∷ 0 ∷ st_proto ∷ rest, 3)
  unfolding dap_transfer_block
  dap_transfer_block_malformed d cmd index c0 c1 rb x0 x1 x2 body rest bad =
      let long : ltb (length (cmd ∷ index ∷ c0 ∷ c1 ∷ rb ∷ body)) 5 ≡ false = ground arith in
      rw (long, bad)

  -- So is a request too short to hold a request byte.
  pub dap_transfer_block_short :
      (d : Dap t) (req : List ℕ) (x0 x1 x2 : ℕ) (rest : List ℕ)
      → length req < 5
      → dap_transfer_block t d req (x0 ∷ x1 ∷ x2 ∷ rest) ≡ some (d, 0 ∷ 0 ∷ st_proto ∷ rest, 3)
  unfolding dap_transfer_block
  dap_transfer_block_short d req x0 x1 x2 rest h =
      let cut : ltb (length req) 5 ≡ true = ground arith in rw cut
