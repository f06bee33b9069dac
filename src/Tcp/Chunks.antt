-- ===== src/Tcp/Chunks.antt =====
-- `recv_frame` of channel/tcp.rs against the bytes of the stream, however they are cut into reads.
use esp32_dap_proxy.Prelude.{
  ℕ, ◌≤◌, ◌≡◌, refl, false, Option, none, some, List, [], ◌∷◌, ◌++◌, map, arith, ltb, length, ◌∙◌,
  ap, inl, inr, Option-cases, subst, ◌⊎◌, sym,
}
use esp32_dap_proxy.Prelude.Bytes.{All}
use esp32_dap_proxy.Frame.{Deframer, feed, is_garbage, max_rejects}
use esp32_dap_proxy.Tcp.{
  ReadEvent, chunk, Recv, received, Found, return_or, deliver, first_frame, recv_frame,
}

-- The reads of a stream in pieces.
abbrev pub joined : List (List ℕ) → List ℕ
joined [] = []
joined (c ∷ cs) = c ++ joined cs

abbrev pub reads : List (List ℕ) → List ReadEvent
reads cs = map chunk cs

-- At no byte has the deframer thrown away too much.
abbrev pub IsCalm : ℕ → Deframer → List ℕ → Type 0
IsCalm n d [] = d.rejects ≤ max_rejects
IsCalm n d (b ∷ bs) = (d.rejects ≤ max_rejects) × IsCalm n (feed n d b).0 bs

-- The first frame of two stretches: in the first of them, or else in the second.
abbrev pub or_else :
    ℕ → Deframer × Option (List ℕ) × List ℕ → List ℕ → Deframer × Option (List ℕ) × List ℕ
or_else n (d, some f, rest) ys = (d, some f, rest ++ ys)
or_else n (d, none, rest) ys = first_frame n d ys

pub first_frame-append :
    (n : ℕ) (d : Deframer) (xs ys : List ℕ)
    → first_frame n d (xs ++ ys) ≡ or_else n (first_frame n d xs) ys
unfolding first_frame
first_frame-append n d [] ys = refl
first_frame-append n d (x ∷ xs) ys = elim (Option-cases (feed n d x).1) [
  | inl e ↦ rw e (first_frame-append n (feed n d x).0 xs ys)
  | inr (f, e) ↦ rw e
]

IsCalm-append :
    (n : ℕ) (d : Deframer) (xs ys : List ℕ) {d' : Deframer} {r : List ℕ}
    → IsCalm n d (xs ++ ys)
    → first_frame n d xs ≡ (d', none, r)
    → IsCalm n d' ys
unfolding first_frame
IsCalm-append n d [] ys {d'} h e = subst (λ z. IsCalm n z ys) (ap (λ (t : Found). t.0) e) h
IsCalm-append n d (x ∷ xs) ys h e = elim (Option-cases (feed n d x).1) [
  | inl o ↦ IsCalm-append n (feed n d x).0 xs ys h.1 (rw (o, return_or) at e)
  | inr (f, o) ↦ let c = rw (o, return_or) at e in absurd (cc c)
]

IsCalm-start : (n : ℕ) (d : Deframer) (xs : List ℕ) → IsCalm n d xs → d.rejects ≤ max_rejects
IsCalm-start n d [] h = h
IsCalm-start n d (x ∷ xs) h = h.0

pub Found-cases :
    (r : Found)
    → ((d : Deframer) × (rest : List ℕ) × (r ≡ (d, none, rest)))
      ⊎ ((d : Deframer) × (f : List ℕ) × (rest : List ℕ) × (r ≡ (d, some f, rest)))
Found-cases (d, none, rest) = inl (d, rest, refl)
Found-cases (d, some f, rest) = inr (d, f, rest, refl)

no_reads :
    (r : List ℕ) (cs : List (List ℕ)) → All (λ c. 1 ≤ length c) cs → r ++ joined cs ≡ [] → cs ≡ []
no_reads r [] h e = refl
no_reads [] ([] ∷ cs) h e = absurd (omega arith)
no_reads [] ((b ∷ bs) ∷ cs) h e = absurd (cc)
no_reads (x ∷ r) (c ∷ cs) h e = absurd (cc)

abbrev pub after : ℕ → ℕ → List ReadEvent → Found → Recv
after n room es found = deliver room found es (recv_frame n room found.0 es)

-- However the stream is cut into reads, the frame that it completes at its end is received, and the
-- reads behind it are left.
pub recv_frame-reads :
    (n room : ℕ) (d : Deframer) (cs : List (List ℕ)) (more : List ReadEvent) {d' : Deframer}
    {f : List ℕ}
    → All (λ c. 1 ≤ length c) cs
    → IsCalm n d (joined cs)
    → first_frame n d (joined cs) ≡ (d', some f, [])
    → length f ≤ room
    → recv_frame n room d (reads cs ++ more) ≡ received f d' more
unfolding recv_frame
recv_frame-reads n room d [] more h q e l = absurd (unfold first_frame in cc)
recv_frame-reads n room d ([] ∷ cs) more h q e l = absurd (omega arith)
recv_frame-reads n room d ((b ∷ bs) ∷ cs) more {d'} {f} h q e l =
    let whole = sym (first_frame-append n d (b ∷ bs) (joined cs)) ∙ e in
    elim (Found-cases (first_frame n d (b ∷ bs))) [
      | inl (d₁, r, o) ↦
          let calm = IsCalm-append n d (b ∷ bs) (joined cs) q o in
          let low = IsCalm-start n d₁ (joined cs) calm in
          let quiet : is_garbage d₁ ≡ false = ground arith in
          let later = sym (ap (λ t. or_else n t (joined cs)) o) ∙ whole in
          ap (after n room (reads cs ++ more)) o
          ∙ rw quiet (recv_frame-reads n room d₁ cs more h.1 calm later l)
      | inr (d₁, g, r, o) ↦
          let here = sym (ap (λ t. or_else n t (joined cs)) o) ∙ whole in
          let fits : ltb room (length f) ≡ false = ground arith in
          let none_left = no_reads r cs h.1 (ap (λ (t : Found). t.2) here) in
          ap (after n room (reads cs ++ more)) o ∙ ground (arith, here, none_left)
    ]
