-- ===== src/Usbip/Parse.antt =====
-- The client reads the replies of usbip.rs back.
use esp32_dap_proxy.Prelude.{
  ℕ, ◌/◌, ◌%◌, ◌^◌, ◌<◌, ◌≡◌, refl, true, some, List, [], ◌∷◌, ◌++◌, leb, arith, length,
  take-length, drop-length, length-append,
}
use esp32_dap_proxy.Prelude.Bytes.{All, IsU32, u32_from_be_bytes}
use esp32_dap_proxy.Usbip.Reply.{submit_reply, unlink_reply}
use esp32_dap_proxy.Usbip.Client.{Ret, submitted, unlinked, parse_ret, parse_rets}

-- One reply.
pub parse_ret-submit_reply :
    (seqnum status : ℕ) (bytes rest : List ℕ)
    → IsU32 seqnum
    → IsU32 status
    → length bytes < 2 ^ 32
    → parse_ret (submit_reply seqnum status bytes ++ rest)
      ≡ some (submitted seqnum status bytes, rest)
unfolding parse_ret submit_reply
parse_ret-submit_reply seqnum status bytes rest h k l =
    let word : (v : ℕ)
        → IsU32 v
        → u32_from_be_bytes (v / 16777216 % 256) (v / 65536 % 256) (v / 256 % 256) (v % 256) ≡ v =
      λ v lt. omega arith in
    let fits : length bytes % 2 ^ 32 ≡ length bytes = omega arith in
    let whole : leb (length bytes) (length (bytes ++ rest)) ≡ true =
      ground (arith, length-append bytes rest) in
    let long : leb 48 (length (submit_reply seqnum status bytes ++ rest)) ≡ true = ground arith in
    rw (
      long,
      fits,
      word seqnum h,
      word status k,
      word (length bytes) l,
      whole,
      take-length bytes rest,
      drop-length bytes rest,
    )

pub parse_ret-unlink_reply :
    (seqnum : ℕ) (rest : List ℕ)
    → IsU32 seqnum
    → parse_ret (unlink_reply seqnum ++ rest) ≡ some (unlinked seqnum, rest)
unfolding parse_ret unlink_reply
parse_ret-unlink_reply seqnum rest h =
    let word : u32_from_be_bytes (seqnum / 16777216 % 256) (seqnum / 65536 % 256)
          (seqnum / 256 % 256) (seqnum % 256)
        ≡ seqnum =
      omega arith in
    let long : leb 48 (length (unlink_reply seqnum ++ rest)) ≡ true = ground arith in
    rw (long, word)

-- The bytes of a reply, and of several.
abbrev pub encode_ret : Ret → List ℕ
encode_ret (submitted seqnum status bytes) = submit_reply seqnum status bytes
encode_ret (unlinked seqnum) = unlink_reply seqnum

abbrev pub encode_rets : List Ret → List ℕ
encode_rets [] = []
encode_rets (r ∷ rs) = encode_ret r ++ encode_rets rs

-- The numbers fit their fields.
abbrev pub IsRet : Ret → Type 0
IsRet (submitted seqnum status bytes) = IsU32 seqnum × IsU32 status × (length bytes < 2 ^ 32)
IsRet (unlinked seqnum) = IsU32 seqnum

parse_ret-encode_ret :
    (r : Ret) (rest : List ℕ) → IsRet r → parse_ret (encode_ret r ++ rest) ≡ some (r, rest)
parse_ret-encode_ret (submitted seqnum status bytes) rest h =
    parse_ret-submit_reply seqnum status bytes rest h.0 h.1 h.2
parse_ret-encode_ret (unlinked seqnum) rest h = parse_ret-unlink_reply seqnum rest h

pub parse_rets-encode_rets :
    (rs : List Ret) → All IsRet rs → parse_rets (length rs) (encode_rets rs) ≡ some (rs, [])
unfolding parse_rets
parse_rets-encode_rets [] h = refl
parse_rets-encode_rets (r ∷ rs) h =
    rw (parse_ret-encode_ret r (encode_rets rs) h.0, parse_rets-encode_rets rs h.1)
