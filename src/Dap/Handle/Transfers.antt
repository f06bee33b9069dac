-- ===== src/Dap/Handle/Transfers.antt =====
-- The two transfer commands of cmd/dap.rs answer every request.
use esp32_dap_proxy.Prelude.{
  ℕ, min, ◌+◌, ◌/◌, ◌^◌, ◌≤◌, ◌<◌, ◌≡◌, false, List, ◌∷◌, ◌++◌, arith, length, drop, length-append,
  length-drop, Bool-cases, inl, inr,
}
use esp32_dap_proxy.Prelude.Bytes.{IsByte, All, u16_from_le_bytes, u16_to_le_bytes}
use esp32_dap_proxy.Transport.{Transport}
use esp32_dap_proxy.Dap.State.{Dap, st_proto}
use esp32_dap_proxy.Dap.Loop.{is_reserved, perform}
use esp32_dap_proxy.Dap.Transfer.{dap_transfer, dap_transfer-perform, dap_transfer_short, parse}
use esp32_dap_proxy.Dap.Outcome.{Reports, perform-Reports, parse-ListsAtMost}
use esp32_dap_proxy.Dap.Block.{
  dap_transfer_block, dap_transfer_block-perform, dap_transfer_block_short,
  dap_transfer_block_malformed, parse_block, parse_block-ListsAtMost,
}
use esp32_dap_proxy.Dap.Handle.Commands.{Answered}

module _ (t : Transport) where
  -- An overlay of no more than the buffer keeps its size.
  pub length-overlay :
      (out rest : List ℕ)
      → length out ≤ length rest
      → length (out ++ drop (length out) rest) ≡ length rest
  length-overlay out rest h =
      omega (arith, length-append out (drop (length out) rest), length-drop (length out) rest)

  pub dap_transfer-Answered :
      (d : Dap t) (req : List ℕ) (x0 x1 : ℕ) (rest : List ℕ)
      → All IsByte req
      → 1020 ≤ length rest
      → Answered t (2 + length rest) (dap_transfer t d req (x0 ∷ x1 ∷ rest))
  dap_transfer-Answered d (cmd ∷ index ∷ count ∷ body) x0 x1 rest bytes room =
      let r = perform t (parse count body).0 (parse count body).1 d in
      let reports : Reports t count r =
        perform-Reports t count (parse count body) d (parse-ListsAtMost count body) in
      let small : length r.out ≤ length rest =
        omega (arith, reports.done_le, reports.out_le, bytes.1.1.0) in
      (
        r.dap,
        (r.done ∷ r.status ∷ r.out) ++ drop (length r.out) rest,
        2 + length r.out,
        dap_transfer-perform t d cmd index count x0 x1 body rest (omega arith) (omega arith),
        omega (arith, length-overlay r.out rest small),
        omega arith,
        omega arith,
      )
  dap_transfer-Answered d req x0 x1 rest bytes room = (
    d,
    _,
    2,
    dap_transfer_short t d req x0 x1 rest (omega arith),
    omega arith,
    omega arith,
    omega arith,
  )

  malformed_fits : (x0 x1 x2 : ℕ) (rest : List ℕ) → length (0 ∷ 0 ∷ x0 ∷ rest) ≡ 3 + length rest
  malformed_fits x0 x1 x2 rest = omega arith

  pub block_run-Answered :
      (d : Dap t) (cmd index c0 c1 rb x0 x1 x2 : ℕ) (body rest : List ℕ)
      → IsByte c0
      → IsByte c1
      → is_reserved rb ≡ false
      → length rest < 2 ^ 31
      → Answered t
          (3 + length rest)
          (dap_transfer_block t d (cmd ∷ index ∷ c0 ∷ c1 ∷ rb ∷ body) (x0 ∷ x1 ∷ x2 ∷ rest))
  block_run-Answered d cmd index c0 c1 rb x0 x1 x2 body rest byte0 byte1 plain small =
      let count = min (u16_from_le_bytes c0 c1) (length rest / 4) in
      let p = parse_block rb count body in
      let r = perform t p.0 p.1 d in
      let reports : Reports t count r =
        perform-Reports t count p d (parse_block-ListsAtMost rb count body) in
      let fits : length r.out ≤ length rest = omega (arith, reports.done_le, reports.out_le) in
      (
        r.dap,
        (u16_to_le_bytes r.done ++ (r.status ∷ r.out)) ++ drop (length r.out) rest,
        3 + length r.out,
        dap_transfer_block-perform t d cmd index c0 c1 rb x0 x1 x2 body rest byte0 byte1 plain
            small,
        omega (arith, length-overlay r.out rest fits),
        omega arith,
        omega arith,
      )

  pub dap_transfer_block-Answered :
      (d : Dap t) (req : List ℕ) (x0 x1 x2 : ℕ) (rest : List ℕ)
      → All IsByte req
      → length rest < 2 ^ 31
      → Answered t (3 + length rest) (dap_transfer_block t d req (x0 ∷ x1 ∷ x2 ∷ rest))
  dap_transfer_block-Answered d (cmd ∷ index ∷ c0 ∷ c1 ∷ rb ∷ body) x0 x1 x2 rest bytes small =
      elim (Bool-cases (is_reserved rb)) [
        | inl bad ↦ (
          d,
          0 ∷ 0 ∷ st_proto ∷ rest,
          3,
          dap_transfer_block_malformed t d cmd index c0 c1 rb x0 x1 x2 body rest bad,
          omega arith,
          omega arith,
          omega arith,
        )
        | inr plain ↦
            block_run-Answered d cmd index c0 c1 rb x0 x1 x2 body rest bytes.1.1.0 bytes.1.1.1.0
              plain small
      ]
  dap_transfer_block-Answered d req x0 x1 x2 rest bytes small = (
    d,
    0 ∷ 0 ∷ st_proto ∷ rest,
    3,
    dap_transfer_block_short t d req x0 x1 x2 rest (omega arith),
    omega arith,
    omega arith,
    omega arith,
  )
