-- ===== src/Dap/Transfer.antt =====
-- `dap_transfer` of cmd/dap.rs: a list of accesses, each with its own request byte.
use esp32_dap_proxy.Prelude.{
  ℕ, zero, suc, ◌+◌, ◌*◌, ◌^◌, ◌≤◌, ◌<◌, ◌≡◌, refl, ◌∙◌, true, false, Option, some, List, [], ◌∷◌,
  ◌++◌, ◌>>=◌, arith, ltb, leb, drop, if◌then◌else◌, length, get_elem?, get_elem?-length, copy_at,
  length-append, append_assoc, Bool-cases, inl, inr,
}
use esp32_dap_proxy.Transport.{Transport}
use esp32_dap_proxy.Dap.State.{Dap, st_ok, st_proto}
use esp32_dap_proxy.Dap.Loop.{
  Loop, Step, stop, apndp_of, rnw_of, address_of, is_reserved, access, rounds, perform,
  stopped-Performs,
}
use esp32_dap_proxy.Dap.Access.{cursor, Parsed, list_access, access-Performs, GoesOn}

module _ (t : Transport) where
  -- The body of the loop.
  unfoldable pub transfer_round : List ℕ → Loop t → Option (Step t)
  transfer_round req l =
      if leb (length req) l.pos
      then some (stop st_proto l)
      else get_elem? req l.pos >>= λ rb.
          let l' = record l { pos = l.pos + 1 } in
          if is_reserved rb
          then some (stop st_proto l')
          else access t (2 ^ 8) (apndp_of rb) (rnw_of rb) (address_of rb) req l'

  -- The handler: `resp` is the buffer behind the command's byte, and the count is of its bytes.
  unfoldable pub dap_transfer : Dap t → List ℕ → List ℕ → Option (Dap t × List ℕ × ℕ)
  unfolding transfer_round
  dap_transfer d req resp =
      if ltb (length req) 3
      then (copy_at 0 (0 ∷ st_proto ∷ []) resp >>= λ resp'. some (d, resp', 2))
      else get_elem? req 2 >>= λ count.
          rounds t (transfer_round req) count
            (record { dap = d; resp = resp; pos = 3; rpos = 2; done = 0 })
          >>= λ (status, l). copy_at 0 (l.done ∷ []) l.resp >>= λ resp₁.
              copy_at 1 (status ∷ []) resp₁ >>= λ resp₂. some (l.dap, resp₂, l.rpos)

-- The specification of a request: the accesses that it lists, at most `n`, and the status to end with
-- when they all succeed. A malformed request lists the accesses in front of its fault.
unfoldable pub parse : ℕ → List ℕ → Parsed
parse zero bs = ([], st_ok)
parse (suc n) [] = ([], st_proto)
parse (suc n) (rb ∷ bs) =
    if is_reserved rb
    then ([], st_proto)
    else list_access (apndp_of rb) (rnw_of rb) (address_of rb) (λ r. parse n r) bs

module _ (t : Transport) where
  -- The first part of a round: the request byte at the position.
  round-byte :
      (req front bs : List ℕ) (rb : ℕ) (l : Loop t)
      → front ++ rb ∷ bs ≡ req
      → l.pos ≡ length front
      → transfer_round t req l ≡ (
          if is_reserved rb
          then some (stop st_proto (record l { pos = l.pos + 1 }))
          else access t
              (2 ^ 8)
              (apndp_of rb)
              (rnw_of rb)
              (address_of rb)
              req
              (record l { pos = l.pos + 1 }))
  unfolding transfer_round
  round-byte req front bs rb l whole e =
      let inside : leb (length (front ++ rb ∷ bs)) l.pos ≡ false =
        ground (arith, length-append front (rb ∷ bs)) in
      rw (← whole, inside, e, get_elem?-length front rb bs)

  round-end :
      (req front : List ℕ) (l : Loop t)
      → front ++ [] ≡ req
      → l.pos ≡ length front
      → transfer_round t req l ≡ some (stop st_proto l)
  unfolding transfer_round
  round-end req front l whole e =
      let past : leb (length (front ++ [])) l.pos ≡ true = ground (arith, length-append front []) in
      rw (← whole, past)

  -- The loop performs the accesses that the rest of the request lists.
  transfer-GoesOn :
      (n : ℕ) (req : List ℕ) → GoesOn t (2 ^ 8) n req (rounds t (transfer_round t req) n) (parse n)
  unfolding rounds parse perform
  transfer-GoesOn zero req front bs e d pre rest done room small =
      stopped-Performs t d st_ok (length front) pre rest done
  transfer-GoesOn (suc n) req front [] e d pre rest done room small =
      let here = cursor t d (pre ++ rest) (length front) (length pre) done in
      rw (round-end req front here e refl)
        (stopped-Performs t d st_proto (length front) pre rest done)
  transfer-GoesOn (suc n) req front (rb ∷ bs) e d pre rest done room small =
      let here = cursor t d (pre ++ rest) (length front) (length pre) done in
      elim (Bool-cases (is_reserved rb)) [
        | inl bad ↦
            rw (round-byte req front bs rb here e refl, bad)
              (stopped-Performs t d st_proto (length front + 1) pre rest done)
        | inr good ↦
            let front' = front ++ rb ∷ [] in
            let longer : length front' ≡ length front + 1 = length-append front (rb ∷ []) in
            let same : front' ++ bs ≡ req = append_assoc front (rb ∷ []) bs ∙ e in
            let again = rounds t (transfer_round t req) n in
            rw (round-byte req front bs rb here e refl, good)
              (rw (longer, same) at
                (access-Performs t (2 ^ 8) (address_of rb) n again (parse n) (apndp_of rb)
                  (rnw_of rb) front' bs d pre rest done room small
                  (rw same (transfer-GoesOn n req))))
      ]

  -- DAP_Transfer answers with the count of accesses that succeeded, the status, and the words read,
  -- one after the other: the accesses that the request lists are performed in order up to the first
  -- that fails. The rest of the buffer stays. The buffer has room for a word for each access.
  pub dap_transfer-perform :
      (d : Dap t) (cmd index count x0 x1 : ℕ) (body rest : List ℕ)
      → count < 256
      → 4 * count ≤ length rest
      → let r = perform t (parse count body).0 (parse count body).1 d in
        dap_transfer t d (cmd ∷ index ∷ count ∷ body) (x0 ∷ x1 ∷ rest)
        ≡ some (r.dap, (r.done ∷ r.status ∷ r.out) ++ drop (length r.out) rest, 2 + length r.out)
  unfolding dap_transfer
  dap_transfer-perform d cmd index count x0 x1 body rest byte room =
      let req = cmd ∷ index ∷ count ∷ body in
      let long : ltb (length req) 3 ≡ false = ground arith in
      let (pos', e) =
        transfer-GoesOn count req (cmd ∷ index ∷ count ∷ []) body refl d (x0 ∷ x1 ∷ []) rest 0 room
          (omega arith) in
      let counted : 0 + (perform t (parse count body).0 (parse count body).1 d).done
          ≡ (perform t (parse count body).0 (parse count body).1 d).done =
        omega arith in
      rw (long, e, counted)

  -- A request too short to hold a count is answered as malformed.
  pub dap_transfer_short :
      (d : Dap t) (req : List ℕ) (x0 x1 : ℕ) (rest : List ℕ)
      → length req < 3
      → dap_transfer t d req (x0 ∷ x1 ∷ rest) ≡ some (d, 0 ∷ st_proto ∷ rest, 2)
  unfolding dap_transfer
  dap_transfer_short d req x0 x1 rest h = ground arith
