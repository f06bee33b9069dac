-- ===== src/Link/Errors.antt =====
-- `request` of the host's link.rs when it fails.
use esp32_dap_proxy.Prelude.{
  ℕ, ◌≤◌, ◌≡◌, refl, false, Option, none, some, List, Result, ok, err, ltb, arith, length,
}
use esp32_dap_proxy.Link.{
  Net, Failure, DapLink, Done, and_then, connect, connected, ensure, ensure_with, or_disconnect,
  try_request, noted, retry, request,
}

module _ (net : Net) where
  -- After an error, no connection is held.
  abbrev pub Dropped : {A : Type 0} → Done net A → Type 0
  Dropped (ok a, l) = Unit
  Dropped (err e, l) = l.stream ≡ none

  and_then-Dropped :
      {A B : Type 0} (r : Done net A) (f : A → DapLink net → Done net B)
      → Dropped r
      → ((a : A) (l : DapLink net) → Dropped (f a l))
      → Dropped (and_then net r f)
  and_then-Dropped (ok a, l) f h k = k a l
  and_then-Dropped (err e, l) f h k = h

  connected-Dropped :
      (r : Result net.Stream Failure × net.World) (l : DapLink net)
      → l.stream ≡ none
      → Dropped (connected net r l)
  connected-Dropped (ok s, w) l h = tt
  connected-Dropped (err e, w) l h = h

  ensure_with-Dropped :
      (o : Option net.Stream) (l : DapLink net) → l.stream ≡ o → Dropped (ensure_with net o l)
  unfolding connect
  ensure_with-Dropped none l h = connected-Dropped (net.connect l.world) l h
  ensure_with-Dropped (some s) l h = tt

  or_disconnect-Dropped : (r : Done net (List ℕ)) → Dropped (or_disconnect net r)
  or_disconnect-Dropped (ok a, l) = tt
  or_disconnect-Dropped (err e, l) = refl

  try_request-Dropped : (payload : List ℕ) (l : DapLink net) → Dropped (try_request net payload l)
  unfolding try_request ensure
  try_request-Dropped payload l =
      and_then-Dropped (ensure_with net l.stream l) _ (ensure_with-Dropped l.stream l refl)
        (λ _ l₁. or_disconnect-Dropped _)

  noted-Dropped : (r : Done net (List ℕ)) → Dropped r → Dropped (noted net r)
  noted-Dropped (ok a, l) h = tt
  noted-Dropped (err e, l) h = h

  retry-Dropped : (payload : List ℕ) (r : Done net (List ℕ)) → Dropped (retry net payload r)
  unfolding connect
  retry-Dropped payload (ok a, l) = tt
  retry-Dropped payload (err e, l) =
      and_then-Dropped (connected net (net.connect l.world) _) _
        (connected-Dropped (net.connect l.world) _ refl)
        (λ _ l₂. noted-Dropped _ (try_request-Dropped payload l₂))

  -- A request whose payload fits a frame leaves no connection behind when it fails, so that the next
  -- request starts with a new one.
  pub request-Dropped :
      (payload : List ℕ) (l : DapLink net) → length payload ≤ 4096 → Dropped (request net payload l)
  unfolding request
  request-Dropped payload l h =
      let fits : ltb 4096 (length payload) ≡ false = ground arith in
      rw fits (retry-Dropped payload (try_request net payload _))
