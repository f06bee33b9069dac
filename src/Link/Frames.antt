-- ===== src/Link/Frames.antt =====
-- `read_frame` of the host's link.rs against the wire form of a frame.
use esp32_dap_proxy.Prelude.{
  ℕ, zero, suc, ◌*◌, ◌/◌, ◌%◌, ◌^◌, ◌≤◌, ◌<◌, length-append, ◌≡◌, ap, ◌∙◌, false, some, List, [],
  ◌∷◌, ◌++◌, ok, ◌==◌, ltb, arith, length, take, drop, take-length, drop-length, bit_and, bit_or,
}
use esp32_dap_proxy.Prelude.Bits.{or-field, and-byte}
use esp32_dap_proxy.Frame.{frame_magic}
use esp32_dap_proxy.Frame.Wire.{encode, head_bytes}
use esp32_dap_proxy.Frame.RoundTrip.{IsNoise}
use esp32_dap_proxy.Link.{Net, DapLink, Done, length_of, read_exact, skip, read_payload, read_frame}

-- What tokio's `read_exact` does on a connection whose bytes have all come: the bytes asked for, if
-- there are enough of them.
pub record Supply (net : Net) : Type 0 where
  pub coming : net.Stream → List ℕ
  pub read_enough :
      (n : ℕ) (s : net.Stream)
      → n ≤ length (coming s)
      → ((net.read_exact n s).0 ≡ ok (take n (coming s)))
        × (coming (net.read_exact n s).1 ≡ drop n (coming s))

length_of-head :
    (len : ℕ) → len < 65536 → length_of (bit_and len 0xff % 256 ∷ len / 256 % 256 ∷ []) ≡ len
length_of-head len h =
    let lo : bit_and len 0xff % 256 ≡ len % 256 = omega (arith, and-byte len) in
    let joined : bit_or (len % 256) (len / 256 % 256 * 2 ^ 8) ≡ len =
      omega (arith, or-field 8 (len % 256) (len / 256 % 256)) in
    rw (lo, joined)

module _ (net : Net) (supply : Supply net) where
  open supply use {coming}

  abbrev held : DapLink net → net.Stream → DapLink net
  held l s = record l { stream = some s }

  -- A step of the link returns a value and leaves the bytes given.
  abbrev Gives : {A : Type 0} → Done net A → A → DapLink net → List ℕ → Type 0
  Gives r a l ys = (s' : net.Stream) × (r ≡ (ok a, held l s')) × (coming s' ≡ ys)

  read_exact-Gives :
      (l : DapLink net) (s : net.Stream) (xs ys : List ℕ)
      → coming s ≡ xs ++ ys
      → Gives (read_exact net (length xs) (held l s)) xs l ys
  unfolding read_exact
  read_exact-Gives l s xs ys e =
      let n = length xs in
      let enough : n ≤ length (coming s) = omega (arith, ap length e ∙ length-append xs ys) in
      let (got, left) = supply.read_enough n s enough in
      (
        (net.read_exact n s).1,
        rw (got, e, take-length xs ys),
        left ∙ ap (drop n) e ∙ drop-length xs ys,
      )

  skip-Gives :
      (n : ℕ) (l : DapLink net) (s : net.Stream) (noise ys : List ℕ)
      → coming s ≡ noise ++ (frame_magic ∷ ys)
      → IsNoise noise
      → length noise ≤ n
      → Gives (skip net n (held l s)) tt l ys
  unfolding skip
  skip-Gives zero l s [] ys e q h =
      let (s', r, left) = read_exact-Gives l s (frame_magic ∷ []) ys e in (s', rw r, left)
  skip-Gives (suc n) l s [] ys e q h =
      let (s', r, left) = read_exact-Gives l s (frame_magic ∷ []) ys e in (s', rw r, left)
  skip-Gives zero l s (x ∷ xs) ys e q h = absurd (omega arith)
  skip-Gives (suc n) l s (x ∷ xs) ys e q h =
      let (s', r, left) = read_exact-Gives l s (x ∷ []) (xs ++ (frame_magic ∷ ys)) e in
      let (s'', r', left') = skip-Gives n l s' xs ys left q.1 (omega arith) in
      let loud : (x == frame_magic) ≡ false = ground arith in (s'', rw (r, loud) r', left')

  read_payload-Gives :
      (l : DapLink net) (s : net.Stream) (p rest : List ℕ)
      → coming s ≡ (bit_and (length p) 0xff % 256 ∷ length p / 256 % 256 ∷ []) ++ (p ++ rest)
      → length p ≤ 4096
      → Gives (read_payload net (held l s)) p l rest
  unfolding read_payload
  read_payload-Gives l s p rest e h =
      let len = length p in
      let (s₁, r₁, left₁) =
        read_exact-Gives l s (bit_and len 0xff % 256 ∷ len / 256 % 256 ∷ []) (p ++ rest) e in
      let (s₂, r₂, left₂) = read_exact-Gives l s₁ p rest left₁ in
      let fits : ltb 4096 len ≡ false = ground arith in
      (s₂, rw (r₁, length_of-head len (omega arith), fits, r₂), left₂)

  -- From the bytes of a connection, after at most 4096 bytes that are no magic byte, `read_frame`
  -- returns the payload, of at most 4096 bytes, whose wire form comes next, and leaves the bytes
  -- behind it. The bytes are assumed to have come, and to be read in order.
  pub read_frame-encode :
      (l : DapLink net) (s : net.Stream) (noise p rest : List ℕ)
      → l.stream ≡ some s
      → coming s ≡ noise ++ (encode p ++ rest)
      → IsNoise noise
      → length noise ≤ 4096
      → length p ≤ 4096
      → (s' : net.Stream) × (read_frame net l ≡ (ok p, record l { stream = some s' }))
        × (coming s' ≡ rest)
  unfolding read_frame encode head_bytes
  read_frame-encode l s noise p rest here e q low h =
      let len = length p in
      let (s₁, r₁, left₁) = skip-Gives 4096 l s noise _ e q low in
      let (s₂, r₂, left₂) = read_payload-Gives l s₁ p rest left₁ h in
      let same : l ≡ held l s = ap (λ o. record l { stream = o }) here in
      (s₂, ap (read_frame net) same ∙ rw (r₁, r₂), left₂)
