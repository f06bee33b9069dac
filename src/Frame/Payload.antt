-- ===== src/Frame/Payload.antt =====
-- A payload that goes byte by byte through the deframer of channel/frame.rs.
use esp32_dap_proxy.Prelude.{
  ℕ, suc, ◌+◌, ◌%◌, ◌^◌, ◌≤◌, ◌<◌, ◌≡◌, refl, sym, ap, ◌∙◌, Option, none, some, List, [], ◌∷◌, ◌++◌,
  arith, min, length, set, length-set, take, take_all, take-append_le, take-set, length-append,
  append_assoc, ltb, ltb→lt, if◌then◌else◌, inl, inr, Bool-cases,
}
use esp32_dap_proxy.Frame.{magic, payload, Deframer, feed, feed_all, cons_some}

-- Between two frames.
pub record Idle (n : ℕ) (d : Deframer) : Type 0 where
  pub full : length d.buf ≡ n
  pub idle : d.state ≡ magic

-- The buffer after the next byte of a payload, which is written as far as it fits.
abbrev pub next_buf : ℕ → List ℕ → List ℕ → ℕ → List ℕ
next_buf n buf q b = if ltb (length q) n then set buf (length q) b else buf

pub length-next : (n : ℕ) (buf q : List ℕ) (b : ℕ) → length (next_buf n buf q b) ≡ length buf
length-next n buf q b = ground (arith, length-set buf (length q) b)

pub write_next :
    (n : ℕ) (buf q : List ℕ) (b : ℕ)
    → length buf ≡ n
    → take (min (length q) n) buf ≡ take n q
    → take (min (length q + 1) n) (next_buf n buf q b) ≡ take n (q ++ (b ∷ []))
write_next n buf q b e h = elim (Bool-cases (ltb (length q) n)) [
  | inl t ↦
      let lt : length q < n = ltb→lt (length q) n t in
      let k : min (length q + 1) n ≡ suc (length q) = omega arith in
      let m : min (length q) n ≡ length q = omega arith in
      rw
        (
          t,
          k,
          take-set (length q) buf b (omega arith),
          take_all n (q ++ (b ∷ [])) (omega (arith, length-append q (b ∷ []))),
        )
        (ap (λ zs. zs ++ (b ∷ [])) (rw (m, take_all n q (omega arith)) at h))
  | inr t ↦
      let le : n ≤ length q = ground arith in
      let k : min (length q + 1) n ≡ n = omega arith in
      let m : min (length q) n ≡ n = omega arith in
      rw (t, k, take-append_le n q (b ∷ []) le) (rw m at h)
]

-- `feed` on a payload byte that is not the last, and on the last.
pub feed_more :
    (n : ℕ) (buf q : List ℕ) (left rejects b : ℕ)
    → 1 ≤ left
    → length q + suc left < 65536
    → feed n
        (record { buf = buf; fill = length q; state = payload (suc left); rejects = rejects })
        b
      ≡ (
        record {
          buf = next_buf n buf q b;
          fill = length q + 1;
          state = payload left;
          rejects = rejects;
        },
        none,
      )
unfolding feed
feed_more n buf q left rejects b h w = ground arith

pub feed_last :
    (n : ℕ) (buf q : List ℕ) (rejects b : ℕ)
    → length buf ≡ n
    → take (min (length q) n) buf ≡ take n q
    → length q + 1 < 65536
    → feed n (record { buf = buf; fill = length q; state = payload 1; rejects = rejects }) b ≡ (
      record { buf = next_buf n buf q b; fill = length q + 1; state = magic; rejects = 0 },
      some (take n (q ++ (b ∷ []))),
    )
unfolding feed
feed_last n buf q rejects b e h w =
    let f : (length q + 1) % 2 ^ 32 ≡ length q + 1 = omega arith in rw (f, write_next n buf q b e h)

pub cons_step :
    (n : ℕ) (d : Deframer) {d' : Deframer} {o : Option (List ℕ)} (b : ℕ) (bs : List ℕ)
    → feed n d b ≡ (d', o)
    → feed_all n d (b ∷ bs) ≡ ((feed_all n d' bs).0, cons_some o (feed_all n d' bs).1)
unfolding feed_all
cons_step n d b bs e = rw e

-- The frame that the bytes of a payload complete, whatever came before.
abbrev pub Completes : ℕ → Deframer × List (List ℕ) → List ℕ → Type 0
Completes n r p = Idle n r.0 × (r.0.rejects ≡ 0) × (r.1 ≡ take n p ∷ [])

pub feed_payload_all :
    (n : ℕ) (buf q : List ℕ) (fill rejects b : ℕ) (bs : List ℕ)
    → fill ≡ length q
    → length buf ≡ n
    → take (min (length q) n) buf ≡ take n q
    → length q + length bs < 65535
    → Completes n
        (feed_all n
          (record { buf = buf; fill = fill; state = payload (length (b ∷ bs)); rejects = rejects })
          (b ∷ bs))
        (q ++ (b ∷ bs))
feed_payload_all n buf q fill rejects b [] f e h w =
    rw (f, cons_step n _ b [] (feed_last n buf q rejects b e h (omega arith)))
      (unfold feed_all in (record { full = length-next n buf q b ∙ e; idle = refl }, refl, refl))
feed_payload_all n buf q fill rejects b (c ∷ bs) f e h w =
    let more = feed_more n buf q (length (c ∷ bs)) rejects b (omega arith) (omega arith) in
    let q' = q ++ (b ∷ []) in
    let grown : length q' ≡ length q + 1 = length-append q (b ∷ []) in
    rw (f, cons_step n _ b (c ∷ bs) more)
      (rw (append_assoc q (b ∷ []) (c ∷ bs)) at (
        feed_payload_all n (next_buf n buf q b) q' (length q + 1) rejects c bs (sym grown)
          (length-next n buf q b ∙ e) (rw grown (write_next n buf q b e h)) (omega arith)))
