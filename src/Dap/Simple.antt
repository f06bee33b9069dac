-- ===== src/Dap/Simple.antt =====
-- The commands of cmd/dap.rs that make no list of accesses. `req` is the whole request, and `resp`
-- the buffer behind the command's byte.
use esp32_dap_proxy.Prelude.{
  ℕ, zero, suc, ◌+◌, ◌/◌, ◌%◌, ◌^◌, Bool, true, false, Option, some, List, [], ◌∷◌, Result, ok, err,
  ◌>>=◌, ltb, leb, ◌==◌, if◌then◌else◌, length, take, drop, get_elem?, get_or, copy_at, bit_and,
  bit_or,
}
use esp32_dap_proxy.Prelude.Bytes.{u16_from_le_bytes}
use esp32_dap_proxy.Transport.{Transport, TransportError}
use esp32_dap_proxy.Dap.State.{
  Dap, dp_dpidr, dp_abort, dp_ctrl_stat, cdbgpwrupreq, csyspwrupreq, cdbgpwrupack, csyspwrupack,
}
use esp32_dap_proxy.Dap.Loop.{word_at}

-- The texts of `dap_info`.
abbrev pub info_text : ℕ → List ℕ
info_text id =
    if id == 0x01
    then b'e' ∷ b's' ∷ b'p' ∷ []
    else if id == 0x02
    then (b'm' ∷ b'y' ∷ b'-' ∷ b'e' ∷ b's' ∷ b'p' ∷ b'-' ∷ b'd' ∷ b'e' ∷ b'b' ∷ b'u' ∷ b'g' ∷ b'g'
        ∷ b'e' ∷ b'r' ∷ [])
    else if id == 0x04
    then b'1' ∷ b'.' ∷ b'2' ∷ b'.' ∷ b'0' ∷ []
    else []

-- The numbers of `dap_info`, with their length in front.
abbrev pub info_number : ℕ → List ℕ
info_number id =
    if id == 0xF0
    then 1 ∷ 0x01 ∷ []
    else if id == 0xFE
    then 1 ∷ 1 ∷ []
    else if id == 0xFF
    then 2 ∷ 0x00 ∷ 0x02 ∷ []
    else 0 ∷ []

-- CDBGPWRUPACK | CSYSPWRUPACK
abbrev pub is_powered : ℕ → Bool
is_powered stat =
    bit_and stat (bit_or cdbgpwrupack csyspwrupack) == bit_or cdbgpwrupack csyspwrupack

-- `bits.div_ceil(8)`
abbrev pub sequence_bytes : ℕ → ℕ
sequence_bytes bits = (bits + 7) / 8

module _ (t : Transport) where
  open t use {State}

  abbrev pub Reply : Type 0
  Reply = Option (Dap t × List ℕ × ℕ)

  -- Bytes written from the start of the buffer, and nothing else.
  abbrev pub answer : Dap t → List ℕ → List ℕ → Reply
  answer d bytes resp = copy_at 0 bytes resp >>= λ resp'. some (d, resp', length bytes)

  -- With the text, or else the number, that the identifier asks for.
  abbrev pub info_answer : Dap t → ℕ → List ℕ → List ℕ → Reply
  info_answer d id [] resp = answer d (info_number id) resp
  info_answer d id (c ∷ cs) resp = copy_at 0 (length (c ∷ cs) % 2 ^ 8 ∷ []) resp >>= λ resp₁.
      copy_at 1 (c ∷ cs) resp₁ >>= λ resp₂. some (d, resp₂, 1 + length (c ∷ cs))

  unfoldable pub dap_info : Dap t → List ℕ → List ℕ → Reply
  dap_info d req resp =
      let id = if ltb 1 (length req) then get_or req 1 0 else 0 in
      info_answer d id (info_text id) resp

  -- `for i in 0..200`, `n` rounds left: whether the acknowledgement came.
  abbrev pub decide_poll : Result ℕ TransportError → Dap t → Bool × Dap t → Bool × Dap t
  decide_poll (ok stat) d next = if is_powered stat then (true, d) else next
  decide_poll (err e) d next = next

  unfoldable pub poll : ℕ → Dap t → Bool × Dap t
  poll zero d = (false, d)
  poll (suc n) d =
      let (r, s) = t.read_dp dp_ctrl_stat d.transport in
      let d' = record d { transport = s } in let next = poll n d' in decide_poll r d' next

  -- The three calls in front of the loop; their results are only printed.
  unfoldable pub power_up : Dap t → Dap t
  power_up d =
      let (_, s₁) = t.init d.transport in
      let (_, s₂) = t.read_dp dp_dpidr s₁ in
      let (_, s₃) = t.write_dp dp_ctrl_stat (bit_or cdbgpwrupreq csyspwrupreq) s₂ in
      record d { transport = s₃ }

  unfoldable pub dap_connect : Dap t → List ℕ → Reply
  dap_connect d resp =
      let (connected, d') = poll 200 (power_up d) in
      answer d' ((if connected then 0x01 else 0x00) ∷ []) resp

  unfoldable pub dap_transfer_config : Dap t → List ℕ → List ℕ → Reply
  dap_transfer_config d req resp =
      if leb 6 (length req)
      then (get_elem? req 2 >>= λ lo. get_elem? req 3 >>= λ hi.
          answer (record d { wait_retry = u16_from_le_bytes lo hi }) (0x00 ∷ []) resp)
      else answer d (0x00 ∷ []) resp

  unfoldable pub dap_write_abort : Dap t → List ℕ → List ℕ → Reply
  dap_write_abort d req resp =
      if leb 6 (length req)
      then (word_at req 2 >>= λ word.
          answer (record d { transport = (t.write_dp dp_abort word d.transport).1 }) (0x00 ∷ [])
            resp)
      else answer d (0x00 ∷ []) resp

  unfoldable pub dap_swj_clock : Dap t → List ℕ → Reply
  dap_swj_clock d resp = answer d (0x00 ∷ []) resp

  unfoldable pub dap_swj_sequence : Dap t → List ℕ → List ℕ → Reply
  dap_swj_sequence d req resp =
      if ltb (length req) 2
      then answer d (0xFF ∷ []) resp
      else get_elem? req 1 >>= λ bits.
          if ltb (length req) (2 + sequence_bytes bits)
          then answer d (0xFF ∷ []) resp
          else let sent =
              t.swj_sequence bits (take (sequence_bytes bits) (drop 2 req)) d.transport in
            answer (record d { transport = sent.1 }) (0x00 ∷ []) resp

  abbrev pub unwrap_or : Result ℕ TransportError → ℕ → ℕ
  unwrap_or (ok v) d = v
  unwrap_or (err e) d = d

  unfoldable pub dap_swj_pins : Dap t → List ℕ → List ℕ → Reply
  dap_swj_pins d req resp =
      if ltb (length req) 10
      then answer d (0xFF ∷ []) resp
      else get_elem? req 1 >>= λ out. get_elem? req 2 >>= λ sel. word_at req 6 >>= λ wait.
          let (r, s) = t.swj_pins out sel wait d.transport in
          answer (record d { transport = s }) (unwrap_or r 0x00 ∷ []) resp
