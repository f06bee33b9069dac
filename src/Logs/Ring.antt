-- ===== src/Logs/Ring.antt =====
-- What the ring of logs.rs holds.
use esp32_dap_proxy.Prelude.{
  ℕ, suc, ◌+◌, ◌-◌, ◌%◌, ◌^◌, ◌≤◌, ◌≡◌, refl, sym, ap, ◌∙◌, true, false, Option, none, some, List,
  [], ◌∷◌, ◌++◌, leb, arith, length, length-drop, length-append, drop, drop-append_le,
  drop-drop_one, append_assoc, append-nil, Bool-cases, inl, inr,
}
use esp32_dap_proxy.Logs.{LogEvent, Entry, Hub, Logs, unset, init, push, event, publish, history}

-- The last 512 elements of a list.
abbrev pub latest {ℓ} : {A : Type ℓ} → List A → List A
latest xs = drop (length xs - 512) xs

length-latest {ℓ} : {A : Type ℓ} (xs : List A) → length (latest xs) ≤ 512
length-latest xs = omega (arith, length-drop (length xs - 512) xs)

module _ {ℓ} {Time : Type ℓ} (zero_time : Time) where
  push-latest :
      (xs : List (LogEvent Time)) (x : LogEvent Time)
      → push zero_time (latest xs) x ≡ latest (xs ++ (x ∷ []))
  push-latest xs x =
      let len = length xs in
      let kept = length-drop (len - 512) xs in
      let grown = length-append xs (x ∷ []) in
      elim (Bool-cases (leb 512 len)) [
        | inl full ↦
            let whole : leb 512 (length (latest xs)) ≡ true = ground (arith, kept) in
            let over : length (xs ++ (x ∷ [])) - 512 ≡ suc (len - 512) = ground (arith, grown) in
            rw (whole, over)
              (ap (λ ys. ys ++ (x ∷ [])) (drop-drop_one (len - 512) xs)
                ∙ sym (drop-append_le (suc (len - 512)) xs (x ∷ []) (ground arith)))
        | inr room ↦
            let part : leb 512 (length (latest xs)) ≡ false = ground (arith, kept) in
            let none_over : len - 512 ≡ 0 = ground arith in
            let under : length (xs ++ (x ∷ [])) - 512 ≡ 0 = ground (arith, grown) in
            rw (part, under, none_over)
      ]

  abbrev pub publish_all : List (Entry Time) → Logs Time → Logs Time
  publish_all [] l = l
  publish_all (e ∷ es) l = publish_all es (publish zero_time e l)

  -- The events of entries that are published from a sequence number on.
  abbrev pub numbered : ℕ → List (Entry Time) → List (LogEvent Time)
  numbered k [] = []
  numbered k (e ∷ es) = event zero_time true k e ∷ numbered ((k + 1) % 2 ^ 64) es

  abbrev pub sent_to : Option (Hub Time) → List (LogEvent Time)
  sent_to none = []
  sent_to (some h) = h.sent

  abbrev pub running : List (LogEvent Time) → ℕ → Logs Time
  running xs k = record {
    hub = some (record { ring = latest xs; sent = xs });
    seq = k;
    started = true;
  }

  publish_all-unset : (es : List (Entry Time)) → publish_all es (unset zero_time) ≡ unset zero_time
  unfolding publish
  publish_all-unset [] = refl
  publish_all-unset (e ∷ es) = publish_all-unset es

  publish-running :
      (e : Entry Time) (xs : List (LogEvent Time)) (k : ℕ)
      → publish zero_time e (running xs k)
        ≡ running (xs ++ (event zero_time true k e ∷ [])) ((k + 1) % 2 ^ 64)
  unfolding publish
  publish-running e xs k = rw (push-latest xs (event zero_time true k e))

  pub publish_all-running :
      (es : List (Entry Time)) (xs : List (LogEvent Time)) (k : ℕ)
      → (k' : ℕ) × (publish_all es (running xs k) ≡ running (xs ++ numbered k es) k')
  publish_all-running [] xs k = (k, rw append-nil)
  publish_all-running (e ∷ es) xs k =
      let ev = event zero_time true k e in
      let (k', later) = publish_all-running es (xs ++ (ev ∷ [])) ((k + 1) % 2 ^ 64) in
      (
        k',
        ap (publish_all es) (publish-running e xs k)
            ∙ later
            ∙ ap (λ ys. running ys k') (append_assoc xs (ev ∷ []) (numbered ((k + 1) % 2 ^ 64) es)),
      )

  -- Entries published before `init` are lost. Of those published after it, one after the other,
  -- `history` returns the last 512 in order, under sequence numbers from 0 on and with their times,
  -- and every one of them has gone to the channel, in order.
  pub history-latest :
      (before after : List (Entry Time))
      → let l = publish_all after (init zero_time (publish_all before (unset zero_time))) in
        (history zero_time l ≡ latest (numbered 0 after))
        × (sent_to l.hub ≡ numbered 0 after)
        × (length (history zero_time l) ≤ 512)
  unfolding init history
  history-latest before after =
      let (k', e) = publish_all-running after [] 0 in
      rw (publish_all-unset before, e) (refl, refl, length-latest (numbered 0 after))
