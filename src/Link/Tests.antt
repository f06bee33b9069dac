-- ===== src/Link/Tests.antt =====
-- Runs of link.rs on connections whose bytes are a list. A connection that cannot be read to the
-- length asked for has ended; no new connection is accepted.
use esp32_dap_proxy.Prelude.{
  ℕ, ◌+◌, ◌%◌, ◌^◌, ◌≤◌, ◌≡◌, refl, true, some, List, [], ◌∷◌, ◌++◌, ok, err, leb, arith,
  if◌then◌else◌, length, take, drop,
}
use esp32_dap_proxy.Tcp.{send_frame, written}
use esp32_dap_proxy.Link.{Net, end_of_stream, timed_out, frame_too_large, DapLink, new, request}
use esp32_dap_proxy.Prelude.Text.{codes}
use esp32_dap_proxy.Prelude.Numbers.{digits}
use esp32_dap_proxy.Link.Text.{display}
use esp32_dap_proxy.Link.Frames.{Supply}
use esp32_dap_proxy.Link.Errors.{Dropped, request-Dropped}
use esp32_dap_proxy.Link.Exchange.{request-send_frame}

abbrev net : Net
net = record {
  World = Unit {0};
  Stream = List ℕ;
  connect = λ w. (err timed_out, w);
  read_exact =
      λ n s. if leb n (length s) then (ok (take n s), drop n s) else (err end_of_stream, s);
  write_all = λ bytes s. (ok tt, s);
}

read_exact_enough :
    (n : ℕ) (s : List ℕ)
    → n ≤ length s
    → ((net.read_exact n s).0 ≡ ok (take n s)) × ((net.read_exact n s).1 ≡ drop n s)
read_exact_enough n s h = ground arith

abbrev supply : Supply net
supply = record { coming = λ s. s; read_enough = read_exact_enough }

request-Dropped_example : Dropped net (request net (0x02 ∷ []) (new net tt))
request-Dropped_example = request-Dropped net (0x02 ∷ []) (new net tt) (omega arith)

-- A stray byte, a response, and one byte more.
abbrev answered : List ℕ
answered = (0x00 ∷ []) ++ ((send_frame written written true (0x02 ∷ 0x01 ∷ [])).0 ++ (0x07 ∷ []))

abbrev waiting_link : DapLink net
waiting_link = record (new net tt) { stream = some answered }

request-send_frame_example :
    (s₂ : List ℕ) × (request net (0x02 ∷ []) waiting_link ≡ (
      ok (0x02 ∷ 0x01 ∷ []),
      record waiting_link { stream = some s₂; requests = (waiting_link.requests + 1) % 2 ^ 64 },
    ))
    × (s₂ ≡ 0x07 ∷ [])
request-send_frame_example =
    request-send_frame net supply waiting_link answered answered (0x02 ∷ []) (0x00 ∷ [])
      (0x02 ∷ 0x01 ∷ []) (0x07 ∷ []) refl refl refl (ground arith) (omega arith) (omega arith)
      (omega arith)

too_large : display [] (frame_too_large 4097) ≡ codes "帧长度非法: 4097"
unfolding display digits
too_large = refl
