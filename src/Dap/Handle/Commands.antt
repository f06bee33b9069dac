-- ===== src/Dap/Handle/Commands.antt =====
-- The commands of cmd/dap.rs that make no list of accesses answer every request.
use esp32_dap_proxy.Prelude.{
  ℕ, ◌+◌, ◌%◌, ◌^◌, ◌≤◌, ◌≡◌, ◌∙◌, true, false, some, List, [], ◌∷◌, arith, if◌then◌else◌, length,
  copy_at_fits, Bool-cases, inl, inr, ltb, leb, get_or,
}
use esp32_dap_proxy.Transport.{Transport}
use esp32_dap_proxy.Dap.State.{Dap}
use esp32_dap_proxy.Dap.Simple.{
  Reply, answer, info_answer, info_text, info_number, dap_info, dap_connect, dap_transfer_config,
  dap_write_abort, dap_swj_clock, dap_swj_sequence, dap_swj_pins, sequence_bytes,
}

module _ (t : Transport) where
  -- An answer: the buffer keeps its size, and at least one byte of it and no more than all are sent.
  abbrev pub Answered : ℕ → Reply t → Type 0
  Answered size r =
      (d : Dap t) × (resp : List ℕ) × (n : ℕ) × (r ≡ some (d, resp, n))
      × (length resp ≡ size)
      × (1 ≤ n)
      × (n ≤ size)

  pub answer-Answered :
      (d : Dap t) (bytes resp : List ℕ)
      → 1 ≤ length bytes
      → length bytes ≤ length resp
      → Answered (length resp) (answer t d bytes resp)
  answer-Answered d bytes resp some_byte fits =
      let (out, e, l) = copy_at_fits 0 bytes resp (omega arith) in
      (d, out, length bytes, rw e, l, some_byte, fits)

  pub one-Answered :
      (d : Dap t) (b : ℕ) (resp : List ℕ)
      → 1 ≤ length resp
      → Answered (length resp) (answer t d (b ∷ []) resp)
  one-Answered d b resp h = answer-Answered d (b ∷ []) resp (omega arith) h

  pub info_answer-Answered :
      (d : Dap t) (id : ℕ) (text resp : List ℕ)
      → length text ≤ 15
      → 16 ≤ length resp
      → Answered (length resp) (info_answer t d id text resp)
  info_answer-Answered d id [] resp h fits =
      answer-Answered d (info_number id) resp (ground arith) (ground arith)
  info_answer-Answered d id (c ∷ cs) resp h fits =
      let (r₁, e₁, l₁) = copy_at_fits 0 (length (c ∷ cs) % 2 ^ 8 ∷ []) resp (omega arith) in
      let (r₂, e₂, l₂) = copy_at_fits 1 (c ∷ cs) r₁ (omega arith) in
      (d, r₂, 1 + length (c ∷ cs), rw (e₁, e₂), l₂ ∙ l₁, omega arith, omega arith)

  pub dap_info-Answered :
      (d : Dap t) (req resp : List ℕ)
      → 16 ≤ length resp
      → Answered (length resp) (dap_info t d req resp)
  unfolding dap_info
  dap_info-Answered d req resp h =
      let id = if ltb 1 (length req) then get_or req 1 0 else 0 in
      info_answer-Answered d id (info_text id) resp (ground arith) h

  pub dap_connect-Answered :
      (d : Dap t) (resp : List ℕ) → 1 ≤ length resp → Answered (length resp) (dap_connect t d resp)
  unfolding dap_connect
  dap_connect-Answered d resp h = one-Answered _ _ resp h

  -- The guards of the other commands: what they read is inside the request.
  pub dap_transfer_config-Answered :
      (d : Dap t) (req resp : List ℕ)
      → 1 ≤ length resp
      → Answered (length resp) (dap_transfer_config t d req resp)
  unfolding dap_transfer_config
  dap_transfer_config-Answered d (a ∷ b ∷ c ∷ e ∷ f ∷ g ∷ req) resp h =
      let long : leb 6 (length (a ∷ b ∷ c ∷ e ∷ f ∷ g ∷ req)) ≡ true = ground arith in
      rw long (one-Answered _ 0 resp h)
  dap_transfer_config-Answered d req resp h = one-Answered d 0 resp h

  pub dap_write_abort-Answered :
      (d : Dap t) (req resp : List ℕ)
      → 1 ≤ length resp
      → Answered (length resp) (dap_write_abort t d req resp)
  unfolding dap_write_abort
  dap_write_abort-Answered d (a ∷ b ∷ c ∷ e ∷ f ∷ g ∷ req) resp h =
      let long : leb 6 (length (a ∷ b ∷ c ∷ e ∷ f ∷ g ∷ req)) ≡ true = ground arith in
      rw long (one-Answered _ 0 resp h)
  dap_write_abort-Answered d req resp h = one-Answered d 0 resp h

  pub dap_swj_clock-Answered :
      (d : Dap t) (resp : List ℕ)
      → 1 ≤ length resp
      → Answered (length resp) (dap_swj_clock t d resp)
  unfolding dap_swj_clock
  dap_swj_clock-Answered d resp h = one-Answered d 0 resp h

  pub dap_swj_sequence-Answered :
      (d : Dap t) (req resp : List ℕ)
      → 1 ≤ length resp
      → Answered (length resp) (dap_swj_sequence t d req resp)
  unfolding dap_swj_sequence
  dap_swj_sequence-Answered d (a ∷ bits ∷ req) resp h =
      let long : ltb (length (a ∷ bits ∷ req)) 2 ≡ false = ground arith in
      elim (Bool-cases (ltb (length (a ∷ bits ∷ req)) (2 + sequence_bytes bits))) [
        | inl cut ↦ rw (long, cut) (one-Answered d 0xFF resp h)
        | inr whole ↦ rw (long, whole) (one-Answered _ 0 resp h)
      ]
  dap_swj_sequence-Answered d req resp h = one-Answered d 0xFF resp h

  pub dap_swj_pins-Answered :
      (d : Dap t) (req resp : List ℕ)
      → 1 ≤ length resp
      → Answered (length resp) (dap_swj_pins t d req resp)
  unfolding dap_swj_pins
  dap_swj_pins-Answered d (a ∷ b ∷ c ∷ e ∷ f ∷ g ∷ i ∷ j ∷ k ∷ l ∷ req) resp h =
      let long : ltb (length (a ∷ b ∷ c ∷ e ∷ f ∷ g ∷ i ∷ j ∷ k ∷ l ∷ req)) 10 ≡ false =
        ground arith in
      rw long (one-Answered _ _ resp h)
  dap_swj_pins-Answered d req resp h = one-Answered d 0xFF resp h
