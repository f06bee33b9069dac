-- ===== src/Bridge/Drain.antt =====
-- The bulk reads of bridge.rs after a request.
use esp32_dap_proxy.Prelude.{
  ℕ, suc, ◌+◌, ◌≤◌, ◌≡◌, refl, ap, ◌∙◌, none, some, List, [], ◌∷◌, ◌++◌, ok, leb, arith, length,
  take, drop, take-append-drop, length-take, length-drop, append-nil, Bool-cases, inl, inr,
}
use esp32_dap_proxy.Prelude.Bytes.{All}
use esp32_dap_proxy.Link.{Net, DapLink, request}
use esp32_dap_proxy.Bridge.{DapBridge, bulk_out, bulk_in, bulk_ins}

module _ {ℓ} {A : Type ℓ} where
  -- What the reads asked for, what they got, one behind the other, and the sum of their limits.
  abbrev pub askers : List (A × List ℕ) → List A
  askers [] = []
  askers ((x, piece) ∷ xs) = x ∷ askers xs

  abbrev pub data_of : List (A × List ℕ) → List ℕ
  data_of [] = []
  data_of ((x, piece) ∷ xs) = piece ++ data_of xs

  abbrev pub total : (A → ℕ) → List A → ℕ
  total limit [] = 0
  total limit (x ∷ xs) = limit x + total limit xs

module _ {ℓ} {A : Type ℓ} (net : Net) (limit : A → ℕ) where
  abbrev pub WithinLimit : A × List ℕ → Type 0
  WithinLimit (x, piece) = length piece ≤ limit x

  -- There is a piece for each read; the pieces make up the bytes given, none is longer than its limit,
  -- and nothing stays behind.
  pub record Drains (xs : List A) (r : List (A × List ℕ) × DapBridge net) (bytes : List ℕ)
      : Type ℓ where
    pub each : askers r.0 ≡ xs
    pub whole : data_of r.0 ≡ bytes
    pub bounded : All WithinLimit r.0
    pub empty : r.1.pending ≡ none

  none-Drains :
      (xs : List A) (b : DapBridge net) → b.pending ≡ none → Drains xs (bulk_ins net limit xs b) []
  unfolding bulk_ins bulk_in
  none-Drains [] b e = record { each = refl; whole = refl; bounded = tt; empty = e }
  none-Drains (x ∷ xs) b e =
      let d = none-Drains xs (record b { pending = none }) refl in
      rw e (record {
        each = ap (λ ys. x ∷ ys) d.each;
        whole = d.whole;
        bounded = (omega arith, d.bounded);
        empty = d.empty;
      })

  some-Drains :
      (xs : List A) (b : DapBridge net) (bytes : List ℕ)
      → b.pending ≡ some bytes
      → 1 ≤ length bytes
      → length bytes ≤ total limit xs
      → Drains xs (bulk_ins net limit xs b) bytes
  unfolding bulk_ins bulk_in
  some-Drains [] b bytes e l h = absurd (omega arith)
  some-Drains (x ∷ xs) b bytes e l h = elim (Bool-cases (leb (length bytes) (limit x))) [
    | inl last ↦
        let d = none-Drains xs (record b { pending = none }) refl in
        rw (e, last)
          (record {
            each = ap (λ ys. x ∷ ys) d.each;
            whole = ap (λ t. bytes ++ t) d.whole ∙ append-nil bytes;
            bounded = (ground arith, d.bounded);
            empty = d.empty;
          })
    | inr more ↦
        let over : suc (limit x) ≤ length bytes = ground arith in
        let d =
          some-Drains xs (record b { pending = some (drop (limit x) bytes) }) (drop (limit x) bytes)
            refl (omega (arith, length-drop (limit x) bytes))
            (omega (arith, length-drop (limit x) bytes)) in
        rw (e, more)
          (record {
            each = ap (λ ys. x ∷ ys) d.each;
            whole = ap (λ t. take (limit x) bytes ++ t) d.whole ∙ take-append-drop (limit x) bytes;
            bounded = (omega (arith, length-take (limit x) bytes), d.bounded);
            empty = d.empty;
          })
  ]

  -- After a request that succeeds, bulk reads whose limits add up to the response's length return
  -- the response in order, in pieces no longer than their limits, and leave nothing behind.
  pub bulk_ins-Drains :
      (b : DapBridge net) (command response : List ℕ) (l : DapLink net) (xs : List A)
      → request net command b.link ≡ (ok response, l)
      → length response ≤ total limit xs
      → Drains xs (bulk_ins net limit xs (bulk_out net command b).1) response
  unfolding bulk_out
  bulk_ins-Drains b command [] l xs e h = rw e (none-Drains xs _ refl)
  bulk_ins-Drains b command (y ∷ ys) l xs e h =
      rw e (some-Drains xs _ (y ∷ ys) refl (omega arith) h)
