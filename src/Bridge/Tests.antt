-- ===== src/Bridge/Tests.antt =====
-- A run of bridge.rs: a response of five bytes, taken in three pieces.
use esp32_dap_proxy.Prelude.{
  ℕ, ◌≡◌, refl, List, [], ◌∷◌, ok, err, leb, if◌then◌else◌, length, take, drop,
}
use esp32_dap_proxy.Frame.Wire.{encode, head_bytes}
use esp32_dap_proxy.Link.{
  Net, end_of_stream, connect, request, try_request, ensure, write_all, read_frame, skip,
  read_payload, read_exact,
}
use esp32_dap_proxy.Bridge.{DapBridge, new, bulk_out, bulk_in, bulk_ins}

-- Every connection brings the same response.
abbrev net : Net
net = record {
  World = Unit {0};
  Stream = List ℕ;
  connect = λ w. (ok (0xDA ∷ 5 ∷ 0 ∷ 1 ∷ 2 ∷ 3 ∷ 4 ∷ 5 ∷ []), w);
  read_exact =
      λ n s. if leb n (length s) then (ok (take n s), drop n s) else (err end_of_stream, s);
  write_all = λ bytes s. (ok tt, s);
}

abbrev start : DapBridge net
start = new net tt

abbrev response : List ℕ
response = 1 ∷ 2 ∷ 3 ∷ 4 ∷ 5 ∷ []

responds :
    request net (0x00 ∷ []) start.link ≡ (ok response, (request net (0x00 ∷ []) start.link).1)
unfolding request try_request ensure connect write_all encode head_bytes read_frame skip
    read_payload read_exact
responds = refl

in_pieces :
    (bulk_ins net (λ n. n) (2 ∷ 1 ∷ 9 ∷ []) (bulk_out net (0x00 ∷ []) start).1).0
    ≡ (2, 1 ∷ 2 ∷ []) ∷ (1, 3 ∷ []) ∷ (9, 4 ∷ 5 ∷ []) ∷ []
unfolding bulk_out bulk_in bulk_ins request try_request ensure connect write_all encode head_bytes
    read_frame skip read_payload read_exact
in_pieces = refl
