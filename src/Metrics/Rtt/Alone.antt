-- ===== src/Metrics/Rtt/Alone.antt =====
-- A call of `note_rtt` of metrics.rs that no other call disturbs.
use esp32_dap_proxy.Prelude.{
  ℕ, zero, suc, ◌≡◌, refl, ap, ◌∙◌, true, false, ltb, ◌==◌, arith, Bool-cases, inl, inr,
}
use esp32_dap_proxy.Metrics.Rtt.{
  Rtt, Pc, entered, averaging, averaged, comparing, swapping, returned, advance,
}

-- Steps of one call, with no step of another between them and no failure without a reason.
unfoldable pub alone : ℕ → ℕ → Rtt → Pc → Rtt × Pc
alone zero v m pc = (m, pc)
alone (suc n) v m pc = let (m', pc') = advance false v m pc in alone n v m' pc'

alone-returned : (n v : ℕ) (m : Rtt) → (alone n v m returned).1 ≡ returned
unfolding alone advance
alone-returned zero v m = refl
alone-returned (suc n) v m = alone-returned n v m

alone_then :
    (n v : ℕ) (m : Rtt) (pc : Pc) {m' : Rtt} {pc' : Pc}
    → advance false v m pc ≡ (m', pc')
    → (alone n v m' pc').1 ≡ returned
    → (alone (suc n) v m pc).1 ≡ returned
unfolding alone
alone_then n v m pc e h = ap (λ (r : Rtt × Pc). (alone n v r.0 r.1).1) e ∙ h

-- A maximum that is the present one decides.
alone-current : (n v : ℕ) (m : Rtt) → (alone (suc n) v m (swapping m.largest)).1 ≡ returned
unfolding advance
alone-current n v m =
    let same : (m.largest == m.largest) ≡ true = ground arith in
    elim (Bool-cases (ltb m.largest v)) [
      | inl larger ↦
          let m' = record m { largest = v } in
          alone_then n v m (swapping m.largest) {m' = m'} (rw (larger, same) refl)
            (alone-returned n v m')
      | inr rest ↦ alone_then n v m (swapping m.largest) (rw rest refl) (alone-returned n v m)
    ]

alone-swapping : (n v cur : ℕ) (m : Rtt) → (alone (suc (suc n)) v m (swapping cur)).1 ≡ returned
unfolding advance
alone-swapping n v cur m = elim (Bool-cases (ltb cur v)) [
  | inl larger ↦ elim (Bool-cases (m.largest == cur)) [
    | inl same ↦
        let m' = record m { largest = v } in
        alone_then (suc n) v m (swapping cur) {m' = m'} (rw (larger, same) refl)
          (alone-returned (suc n) v m')
    | inr other ↦
        alone_then (suc n) v m (swapping cur) (rw (larger, other) refl) (alone-current n v m)
  ]
  | inr rest ↦ alone_then (suc n) v m (swapping cur) (rw rest refl) (alone-returned (suc n) v m)
]

-- Wherever a call is, and whatever other calls have left in the atomics, five steps of its own, with
-- none of another call between them and no compare-and-exchange that fails without a reason, bring
-- it to its end.
pub alone-five : (v : ℕ) (m : Rtt) (pc : Pc) → (alone 5 v m pc).1 ≡ returned
unfolding alone advance
alone-five v m entered = alone-current 0 v (record m { latest = v; ewma = _ })
alone-five v m averaging = alone-current 1 v (record m { ewma = _ })
alone-five v m (averaged old) = alone-current 2 v (record m { ewma = _ })
alone-five v m comparing = alone-current 3 v m
alone-five v m (swapping cur) = alone-swapping 3 v cur m
alone-five v m returned = alone-returned 5 v m
