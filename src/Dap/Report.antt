-- ===== src/Dap/Report.antt =====
-- What the responses of `dap_transfer` and `dap_transfer_block` of cmd/dap.rs tell the host.
use esp32_dap_proxy.Prelude.{
  ℕ, ◌+◌, ◌*◌, ◌/◌, ◌≤◌, ◌<◌, ◌^◌, ◌≡◌, ◌↔◌, min, false, some, List, ◌∷◌, ◌++◌, arith, length, drop,
}
use esp32_dap_proxy.Prelude.Bytes.{IsByte, u16_from_le_bytes, u16_to_le_bytes}
use esp32_dap_proxy.Transport.{Transport}
use esp32_dap_proxy.Dap.State.{Dap, st_ok}
use esp32_dap_proxy.Dap.Loop.{is_reserved, perform}
use esp32_dap_proxy.Dap.Transfer.{dap_transfer, parse, dap_transfer-perform}
use esp32_dap_proxy.Dap.Block.{
  dap_transfer_block, parse_block, dap_transfer_block-perform, parse_block-ListsAtMost,
}
use esp32_dap_proxy.Dap.Outcome.{parse-ListsAtMost, perform-Reports}

module _ (t : Transport) where
  -- The count in the response of DAP_Transfer is at most the one asked for, no more than a word is
  -- returned for each access counted, and the status is OK exactly when all accesses succeeded. The
  -- buffer has room for a word for each access.
  pub dap_transfer_report :
      (d : Dap t) (cmd index count x0 x1 : ℕ) (body rest : List ℕ)
      → count < 256
      → 4 * count ≤ length rest
      → (d' : Dap t) × (done : ℕ) × (status : ℕ) × (words : List ℕ) × (n : ℕ) × (dap_transfer t d
            (cmd ∷ index ∷ count ∷ body)
            (x0 ∷ x1 ∷ rest)
          ≡ some (d', done ∷ status ∷ words, n))
        × (done ≤ count)
        × (n ≤ 2 + 4 * done)
        × ((status ≡ st_ok) ↔ (done ≡ count))
  dap_transfer_report d cmd index count x0 x1 body rest byte room =
      let p = parse count body in
      let r = perform t p.0 p.1 d in
      let says = perform-Reports t count p d (parse-ListsAtMost count body) in
      (
        r.dap,
        r.done,
        r.status,
        r.out ++ drop (length r.out) rest,
        2 + length r.out,
        dap_transfer-perform t d cmd index count x0 x1 body rest byte room,
        says.done_le,
        omega (arith, says.out_le),
        says.complete,
      )

  -- The same of DAP_TransferBlock, whose count has 16 bits: there the count asked for is cut to the
  -- words that the buffer has room for, and the status is OK exactly when all of these succeeded. The
  -- request byte has no reserved bit.
  dap_transfer_block_report :
      (d : Dap t) (cmd index c0 c1 rb x0 x1 x2 : ℕ) (body rest : List ℕ)
      → IsByte c0
      → IsByte c1
      → is_reserved rb ≡ false
      → length rest < 2 ^ 31
      → let count = min (u16_from_le_bytes c0 c1) (length rest / 4) in
        (d' : Dap t) × (done : ℕ) × (status : ℕ) × (words : List ℕ) × (n : ℕ) × (dap_transfer_block
            t d
            (cmd ∷ index ∷ c0 ∷ c1 ∷ rb ∷ body)
            (x0 ∷ x1 ∷ x2 ∷ rest)
          ≡ some (d', u16_to_le_bytes done ++ (status ∷ words), n))
        × (done ≤ count)
        × (n ≤ 3 + 4 * done)
        × ((status ≡ st_ok) ↔ (done ≡ count))
  dap_transfer_block_report d cmd index c0 c1 rb x0 x1 x2 body rest byte0 byte1 plain small =
      let count = min (u16_from_le_bytes c0 c1) (length rest / 4) in
      let p = parse_block rb count body in
      let r = perform t p.0 p.1 d in
      let says = perform-Reports t count p d (parse_block-ListsAtMost rb count body) in
      (
        r.dap,
        r.done,
        r.status,
        r.out ++ drop (length r.out) rest,
        3 + length r.out,
        dap_transfer_block-perform t d cmd index c0 c1 rb x0 x1 x2 body rest byte0 byte1 plain
            small,
        says.done_le,
        omega (arith, says.out_le),
        says.complete,
      )
