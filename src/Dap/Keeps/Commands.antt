-- ===== src/Dap/Keeps/Commands.antt =====
-- Each command of cmd/dap.rs keeps what the transport keeps, and leaves bytes in the buffer.
use esp32_dap_proxy.Prelude.{
  ℕ, zero, suc, ◌+◌, ◌%◌, ◌^◌, ◌≡◌, refl, Bool, List, [], ◌∷◌, Result, ok, err, ◌==◌, arith, ltb,
  leb, length, get_or, get_elem?, if◌then◌else◌,
}
use esp32_dap_proxy.Prelude.Bytes.{IsByte, All, u16_to_le_bytes}
use esp32_dap_proxy.Transport.{Transport, TransportError}
use esp32_dap_proxy.Dap.State.{Dap, dp_dpidr, dp_ctrl_stat}
use esp32_dap_proxy.Dap.Loop.{word_at}
use esp32_dap_proxy.Dap.Simple.{
  Reply, answer, info_text, info_number, is_powered, sequence_bytes, info_answer, dap_info,
  decide_poll, poll, power_up, dap_connect, dap_transfer_config, dap_write_abort, dap_swj_sequence,
  unwrap_or, dap_swj_pins,
}
use esp32_dap_proxy.Dap.Keeps.{Keeps, Holds, bind-Holds, if-Holds, any-Holds, copy_at-Holds}

pub get_or-IsByte : (xs : List ℕ) (i d : ℕ) → All IsByte xs → IsByte d → IsByte (get_or xs i d)
get_or-IsByte [] i d h k = k
get_or-IsByte (x ∷ xs) zero d h k = h.0
get_or-IsByte (x ∷ xs) (suc i) d h k = get_or-IsByte xs i d h.1 k

u16_to_le_bytes-IsByte : (v : ℕ) → All IsByte (u16_to_le_bytes v)
u16_to_le_bytes-IsByte v = ground arith

info_text-IsByte : (id : ℕ) → All IsByte (info_text id)
info_text-IsByte id = if-Holds (All IsByte) (id == 0x01) _ _ (ground arith) (
    if-Holds (All IsByte) (id == 0x02) _ _ (ground arith)
      (if-Holds (All IsByte) (id == 0x04) _ _ (ground arith) tt))

info_number-IsByte : (id : ℕ) → All IsByte (info_number id)
info_number-IsByte id = if-Holds (All IsByte) (id == 0xF0) _ _ (ground arith) (
    if-Holds (All IsByte) (id == 0xFE) _ _ (ground arith)
      (if-Holds (All IsByte) (id == 0xFF) _ _ (ground arith) (ground arith)))

-- The result of a method that returns a byte.
byte_result :
    (t : Transport) (r : Result ℕ TransportError)
    → ((v : ℕ) → r ≡ ok v → IsByte v)
    → IsByte (unwrap_or t r 0)
byte_result t (ok v) h = h v refl
byte_result t (err e) h = omega arith

module _ (t : Transport) (P : t.State → Type 0) where
  -- A reply keeps the property of the transport and leaves bytes in the buffer.
  abbrev pub IsKept : Dap t × List ℕ × ℕ → Type 0
  IsKept (d, resp, n) = P d.transport × All IsByte resp

  abbrev pub KeptReply : Reply t → Type 0
  KeptReply r = Holds IsKept r

  pub answer-Keeps :
      (d : Dap t) (bytes resp : List ℕ)
      → P d.transport
      → All IsByte bytes
      → All IsByte resp
      → KeptReply (answer t d bytes resp)
  answer-Keeps d bytes resp h b k =
      bind-Holds (All IsByte) IsKept _ _ (copy_at-Holds IsByte 0 bytes resp b k)
        (λ resp' b'. (h, b'))

  pub byte-Keeps :
      (d : Dap t) (x : ℕ) (resp : List ℕ)
      → P d.transport
      → IsByte x
      → All IsByte resp
      → KeptReply (answer t d (x ∷ []) resp)
  byte-Keeps d x resp h b k = answer-Keeps d (x ∷ []) resp h (b, tt) k

  info_answer-Keeps :
      (d : Dap t) (id : ℕ) (text resp : List ℕ)
      → P d.transport
      → All IsByte text
      → All IsByte resp
      → KeptReply (info_answer t d id text resp)
  info_answer-Keeps d id [] resp h b k = answer-Keeps d _ resp h (info_number-IsByte id) k
  info_answer-Keeps d id (c ∷ cs) resp h b k =
      bind-Holds (All IsByte) IsKept _ _
        (copy_at-Holds IsByte 0 (length (c ∷ cs) % 2 ^ 8 ∷ []) resp (omega arith, tt) k)
        (λ resp₁ b₁.
          bind-Holds (All IsByte) IsKept _ _ (copy_at-Holds IsByte 1 (c ∷ cs) resp₁ b b₁)
            (λ resp₂ b₂. (h, b₂)))

  pub dap_info-Keeps :
      (d : Dap t) (req resp : List ℕ)
      → P d.transport
      → All IsByte resp
      → KeptReply (dap_info t d req resp)
  unfolding dap_info
  dap_info-Keeps d req resp h k =
      let id = if ltb 1 (length req) then get_or req 1 0 else 0 in
      info_answer-Keeps d id (info_text id) resp h (info_text-IsByte id) k

  module _ (kept : Keeps t P) where
    decide_poll-Keeps :
        (r : Result ℕ TransportError) (d : Dap t) (next : Bool × Dap t)
        → P d.transport
        → P next.1.transport
        → P (decide_poll t r d next).1.transport
    decide_poll-Keeps (ok stat) d next h k =
        if-Holds (λ (x : Bool × Dap t). P x.1.transport) (is_powered stat) _ _ h k
    decide_poll-Keeps (err e) d next h k = k

    poll-Keeps : (n : ℕ) (d : Dap t) → P d.transport → P (poll t n d).1.transport
    unfolding poll
    poll-Keeps zero d h = h
    poll-Keeps (suc n) d h =
        let after = kept.after_read_dp dp_ctrl_stat d.transport h in
        let d' = record d { transport = (t.read_dp dp_ctrl_stat d.transport).1 } in
        decide_poll-Keeps (t.read_dp dp_ctrl_stat d.transport).0 d' (poll t n d') after
          (poll-Keeps n d' after)

    power_up-Keeps : (d : Dap t) → P d.transport → P (power_up t d).transport
    unfolding power_up
    power_up-Keeps d h =
        kept.after_write_dp _ _ _ (kept.after_read_dp dp_dpidr _ (kept.after_init _ h))

    pub dap_connect-Keeps :
        (d : Dap t) (resp : List ℕ)
        → P d.transport
        → All IsByte resp
        → KeptReply (dap_connect t d resp)
    unfolding dap_connect
    dap_connect-Keeps d resp h k =
        let d' = power_up t d in
        byte-Keeps (poll t 200 d').1 _ resp (poll-Keeps 200 d' (power_up-Keeps d h))
          (if-Holds IsByte (poll t 200 d').0 _ _ (omega arith) (omega arith)) k

    pub dap_transfer_config-Keeps :
        (d : Dap t) (req resp : List ℕ)
        → P d.transport
        → All IsByte resp
        → KeptReply (dap_transfer_config t d req resp)
    unfolding dap_transfer_config
    dap_transfer_config-Keeps d req resp h k =
        if-Holds KeptReply (leb 6 (length req)) _ _
          (bind-Holds (λ b. Unit {0}) IsKept _ _ (any-Holds (get_elem? req 2))
            (λ lo u.
              bind-Holds (λ b. Unit {0}) IsKept _ _ (any-Holds (get_elem? req 3))
                (λ hi u'. byte-Keeps _ 0x00 resp h (omega arith) k)))
          (byte-Keeps d 0x00 resp h (omega arith) k)

    pub dap_write_abort-Keeps :
        (d : Dap t) (req resp : List ℕ)
        → P d.transport
        → All IsByte resp
        → KeptReply (dap_write_abort t d req resp)
    unfolding dap_write_abort
    dap_write_abort-Keeps d req resp h k =
        if-Holds KeptReply (leb 6 (length req)) _ _
          (bind-Holds (λ b. Unit {0}) IsKept _ _ (any-Holds (word_at req 2))
            (λ word u. byte-Keeps _ 0x00 resp (kept.after_write_dp _ word _ h) (omega arith) k))
          (byte-Keeps d 0x00 resp h (omega arith) k)

    pub dap_swj_sequence-Keeps :
        (d : Dap t) (req resp : List ℕ)
        → P d.transport
        → All IsByte resp
        → KeptReply (dap_swj_sequence t d req resp)
    unfolding dap_swj_sequence
    dap_swj_sequence-Keeps d req resp h k =
        let refused = byte-Keeps d 0xFF resp h (omega arith) k in
        if-Holds KeptReply (ltb (length req) 2) _ _ refused (
          bind-Holds (λ b. Unit {0}) IsKept _ _ (any-Holds (get_elem? req 1))
            (λ bits u.
              if-Holds KeptReply (ltb (length req) (2 + sequence_bytes bits)) _ _ refused
                (byte-Keeps _ 0x00 resp (kept.after_sequence bits _ _ h) (omega arith) k)))

    pub dap_swj_pins-Keeps :
        (d : Dap t) (req resp : List ℕ)
        → P d.transport
        → All IsByte resp
        → KeptReply (dap_swj_pins t d req resp)
    unfolding dap_swj_pins
    dap_swj_pins-Keeps d req resp h k =
        if-Holds KeptReply (ltb (length req) 10) _ _ (byte-Keeps d 0xFF resp h (omega arith) k) (
          bind-Holds (λ b. Unit {0}) IsKept _ _ (any-Holds (get_elem? req 1))
            (λ out u.
              bind-Holds (λ b. Unit {0}) IsKept _ _ (any-Holds (get_elem? req 2))
                (λ sel u'.
                  bind-Holds (λ b. Unit {0}) IsKept _ _ (any-Holds (word_at req 6))
                    (λ wait u''.
                      let s = d.transport in
                      byte-Keeps _ _ resp (kept.after_pins out sel wait s h)
                        (byte_result t (t.swj_pins out sel wait s).0
                          (λ v e. kept.pins_fit out sel wait s h e))
                        k))))
