-- ===== src/Logs/Later.antt =====
-- What a receiver of logs.rs is sent after it has subscribed.
use esp32_dap_proxy.Prelude.{
  ℕ, suc, true, ◌+◌, ◌%◌, ◌^◌, ◌≤◌, ◌-◌, ◌≡◌, refl, sym, ap, ◌∙◌, some, List, [], ◌∷◌, ◌++◌, arith,
  length, drop, drop-length,
}
use esp32_dap_proxy.Logs.{Entry, Logs, unset, init, event, history, subscribe}
use esp32_dap_proxy.Logs.Ring.{publish_all, numbered, sent_to, running, publish_all-running}

publish_all-append {ℓ} :
    {Time : Type ℓ} (zero_time : Time) (xs ys : List (Entry Time)) (l : Logs Time)
    → publish_all zero_time (xs ++ ys) l ≡ publish_all zero_time ys (publish_all zero_time xs l)
publish_all-append zero_time [] ys l = refl
publish_all-append zero_time (x ∷ xs) ys l = publish_all-append zero_time xs ys _

numbered-append {ℓ} :
    {Time : Type ℓ} (zero_time : Time) (k : ℕ) (xs ys : List (Entry Time))
    → (k' : ℕ) × (numbered zero_time k (xs ++ ys)
        ≡ numbered zero_time k xs ++ numbered zero_time k' ys)
numbered-append zero_time k [] ys = (k, refl)
numbered-append zero_time k (x ∷ xs) ys =
    let (k', e) = numbered-append zero_time ((k + 1) % 2 ^ 64) xs ys in
    (k', ap (λ zs. event zero_time true k x ∷ zs) e)

length-numbered {ℓ} :
    {Time : Type ℓ} (zero_time : Time) (k : ℕ) (xs : List (Entry Time))
    → length (numbered zero_time k xs) ≡ length xs
length-numbered zero_time k [] = refl
length-numbered zero_time k (x ∷ xs) = ap suc (length-numbered zero_time ((k + 1) % 2 ^ 64) xs)

module _ {ℓ} {Time : Type ℓ} (zero_time : Time) where
  abbrev pub started : Logs Time
  started = init zero_time (unset zero_time)

  -- All of the events, published from the start on.
  published :
      (es : List (Entry Time))
      → (k : ℕ) × (publish_all zero_time es started ≡ running zero_time (numbered zero_time 0 es) k)
  unfolding init
  published es = publish_all-running zero_time es [] 0

  -- A subscription after the start does not panic, and nothing is missed: the history as it is then,
  -- and the events that are sent from then on, make up all events published, in order and none twice,
  -- if no more than 512 were published before.
  pub subscribe-history :
      (before after : List (Entry Time))
      → length before ≤ 512
      → let l = publish_all zero_time before started in
        (k : ℕ) × (subscribe l ≡ some k)
        × (history zero_time l ++ drop k (sent_to zero_time (publish_all zero_time after l).hub)
            ≡ numbered zero_time 0 (before ++ after))
  unfolding subscribe history
  subscribe-history before after room =
      let seen = numbered zero_time 0 before in
      let (k, first) = published before in
      let (k', whole) = published (before ++ after) in
      let (j, split) = numbered-append zero_time 0 before after in
      let all = seen ++ numbered zero_time j after in
      let few : length seen - 512 ≡ 0 = omega (arith, length-numbered zero_time 0 before) in
      let later : publish_all zero_time after (publish_all zero_time before started)
          ≡ running zero_time all k' =
        sym (publish_all-append zero_time before after started)
        ∙ whole
        ∙ ap (λ xs. running zero_time xs k') split in
      (
        length seen,
        ap (λ (l : Logs Time). subscribe l) first,
        rw (later, first, few, drop-length seen (numbered zero_time j after)) (sym split),
      )
