-- ===== src/Link/Account.antt =====
-- What the counters of metrics.rs say after requests of link.rs.
use esp32_dap_proxy.Prelude.{
  ℕ, suc, ◌+◌, ◌%◌, ◌^◌, ◌≤◌, ◌<◌, ◌≡◌, refl, ◌∙◌, false, none, List, [], ◌∷◌, Result, ok, err, ltb,
  arith, length, ◌↔◌,
}
use esp32_dap_proxy.Prelude.Bytes.{All}
use esp32_dap_proxy.Link.{
  Net, LinkError, DapLink, Done, new, and_then, disconnect, connect, try_request, noted, retry,
  request,
}
use esp32_dap_proxy.Link.Count.{SameCounts, same_counts, connect-SameCounts, try_request-SameCounts}

-- The number of results that are errors.
abbrev pub failed : List (Result (List ℕ) LinkError) → ℕ
failed [] = 0
failed (ok resp ∷ rs) = failed rs
failed (err e ∷ rs) = suc (failed rs)

-- A result more.
abbrev and_result : Result (List ℕ) LinkError → ℕ → ℕ
and_result (ok resp) n = n
and_result (err e) n = suc n

and_result-failed :
    (r : Result (List ℕ) LinkError) (rs : List (Result (List ℕ) LinkError)) (n : ℕ)
    → failed rs + and_result r n ≡ failed (r ∷ rs) + n
and_result-failed (ok resp) rs n = refl
and_result-failed (err e) rs n = omega arith

abbrev pub Fits : List ℕ → Type 0
Fits payload = length payload ≤ 4096

module _ (net : Net) where
  -- One request after the other.
  abbrev pub request_many :
      List (List ℕ) → DapLink net → List (Result (List ℕ) LinkError) × DapLink net
  request_many [] l = ([], l)
  request_many (p ∷ ps) l =
      let (r, l') = request net p l in let (rs, l'') = request_many ps l' in (r ∷ rs, l'')

  -- The counts after `sent` requests of which `failures` failed.
  pub record Balanced (sent failures : ℕ) (l : DapLink net) : Type 0 where
    pub requests : l.requests ≡ sent
    pub errors_le : l.errors ≤ failures
    pub failures_le : failures ≤ l.retries
    pub retries_le : l.retries ≤ sent
    pub shown : (l.errors ≡ 0) ↔ (l.last_error ≡ none)

  abbrev BalancedAfter : ℕ → ℕ → Done net (List ℕ) → Type 0
  BalancedAfter sent failures (r, l) = Balanced sent (and_result r failures) l

  same-Balanced :
      (sent failures : ℕ) (l l' : DapLink net)
      → SameCounts net l l'
      → Balanced sent failures l
      → Balanced sent failures l'
  same-Balanced sent failures l l' s b = record {
    requests = s.requests ∙ b.requests;
    errors_le = omega (arith, s.errors, b.errors_le);
    failures_le = omega (arith, s.retries, b.failures_le);
    retries_le = omega (arith, s.retries, b.retries_le);
    shown = rw (s.errors, s.last_error) b.shown;
  }

  -- A failure more is allowed for as long as a retry is ahead of it.
  one_more :
      (sent failures : ℕ) (l : DapLink net)
      → suc failures ≤ l.retries
      → Balanced sent failures l
      → Balanced sent (suc failures) l
  one_more sent failures l h b = record {
    requests = b.requests;
    errors_le = omega (arith, b.errors_le);
    failures_le = h;
    retries_le = b.retries_le;
    shown = b.shown;
  }

  noted-BalancedAfter :
      (sent failures : ℕ) (r : Done net (List ℕ))
      → sent < 2 ^ 64
      → suc failures ≤ r.1.retries
      → Balanced sent failures r.1
      → BalancedAfter sent failures (noted net r)
  noted-BalancedAfter sent failures (ok resp, l) small h b = b
  noted-BalancedAfter sent failures (err e, l) small h b =
      let counted : (l.errors + 1) % 2 ^ 64 ≡ suc l.errors =
        omega (arith, b.errors_le, b.retries_le, h) in
      record {
        requests = b.requests;
        errors_le = omega (arith, b.errors_le, counted);
        failures_le = h;
        retries_le = b.retries_le;
        shown = ((λ z. absurd (omega (arith, counted, z))), (λ z. cc));
      }

  reconnected-BalancedAfter :
      (sent failures : ℕ) (payload : List ℕ) (r : Done net (Unit {0}))
      → sent < 2 ^ 64
      → suc failures ≤ r.1.retries
      → Balanced sent failures r.1
      → BalancedAfter sent failures
          (and_then net r (λ u l₂. noted net (try_request net payload l₂)))
  reconnected-BalancedAfter sent failures payload (err e, l) small h b =
      one_more sent failures l h b
  reconnected-BalancedAfter sent failures payload (ok u, l) small h b =
      let same = try_request-SameCounts net l payload l (same_counts net l) in
      noted-BalancedAfter sent failures (try_request net payload l) small
        (omega (arith, same.retries, h))
        (same-Balanced sent failures l (try_request net payload l).1 same b)

  retry-BalancedAfter :
      (sent failures : ℕ) (payload : List ℕ) (r : Done net (List ℕ))
      → suc sent < 2 ^ 64
      → r.1.retries ≤ sent
      → Balanced (suc sent) failures r.1
      → BalancedAfter (suc sent) failures (retry net payload r)
  retry-BalancedAfter sent failures payload (ok resp, l) small h b = b
  retry-BalancedAfter sent failures payload (err e, l) small h b =
      let counted : (l.retries + 1) % 2 ^ 64 ≡ suc l.retries = omega (arith, h) in
      let l₁ = disconnect net (record l { retries = (l.retries + 1) % 2 ^ 64 }) in
      let b₁ : Balanced (suc sent) failures l₁ = record {
        requests = b.requests;
        errors_le = b.errors_le;
        failures_le = omega (arith, b.failures_le, counted);
        retries_le = omega (arith, counted, h);
        shown = b.shown;
      } in
      let same = connect-SameCounts net l₁ l₁ (same_counts net l₁) in
      reconnected-BalancedAfter (suc sent) failures payload (connect net l₁) small
        (omega (arith, same.retries, counted, b.failures_le))
        (same-Balanced (suc sent) failures l₁ (connect net l₁).1 same b₁)

  request-BalancedAfter :
      (sent failures : ℕ) (payload : List ℕ) (l : DapLink net)
      → suc sent < 2 ^ 64
      → Fits payload
      → Balanced sent failures l
      → BalancedAfter (suc sent) failures (request net payload l)
  unfolding request
  request-BalancedAfter sent failures payload l small fits b =
      let short : ltb 4096 (length payload) ≡ false = ground arith in
      let l₁ = record l { requests = (l.requests + 1) % 2 ^ 64 } in
      let b₁ : Balanced (suc sent) failures l₁ = record {
        requests = omega (arith, b.requests);
        errors_le = b.errors_le;
        failures_le = b.failures_le;
        retries_le = omega (arith, b.retries_le);
        shown = b.shown;
      } in
      let same = try_request-SameCounts net l₁ payload l₁ (same_counts net l₁) in
      rw short (
        retry-BalancedAfter sent failures payload (try_request net payload l₁) small
          (omega (arith, same.retries, b.retries_le))
          (same-Balanced (suc sent) failures l₁ (try_request net payload l₁).1 same b₁))

  request_many-Balanced :
      (sent failures : ℕ) (ps : List (List ℕ)) (l : DapLink net)
      → sent + length ps < 2 ^ 64
      → All Fits ps
      → Balanced sent failures l
      → let (rs, l') = request_many ps l in Balanced (sent + length ps) (failed rs + failures) l'
  request_many-Balanced sent failures [] l small fits b =
      let here : sent + 0 ≡ sent = omega arith in
      let none_failed : 0 + failures ≡ failures = omega arith in rw (here, none_failed) b
  request_many-Balanced sent failures (p ∷ ps) l small fits b =
      let r = request net p l in
      let rest = request_many ps r.1 in
      let b₁ = request-BalancedAfter sent failures p l (omega arith) fits.0 b in
      let later =
        request_many-Balanced (suc sent) (and_result r.0 failures) ps r.1 (omega arith) fits.1 b₁ in
      let total : suc sent + length ps ≡ sent + suc (length ps) = omega arith in
      rw (total, and_result-failed r.0 rest.0 failures) at later

  -- After fewer than 2^64 requests on a new link, each with at most 4096 bytes, every request is
  -- counted; no more errors are counted than were returned, no fewer retries than errors were
  -- returned, and no more retries than requests; and an error is shown exactly when one is counted.
  pub requests-Balanced :
      (ps : List (List ℕ)) (w : net.World)
      → length ps < 2 ^ 64
      → All Fits ps
      → let (rs, l) = request_many ps (new net w) in
        (l.requests ≡ length ps)
        × (l.errors ≤ failed rs)
        × (failed rs ≤ l.retries)
        × (l.retries ≤ length ps)
        × ((l.errors ≡ 0) ↔ (l.last_error ≡ none))
  requests-Balanced ps w small fits =
      let start : Balanced 0 0 (new net w) = record {
        requests = refl;
        errors_le = omega arith;
        failures_le = omega arith;
        retries_le = omega arith;
        shown = ((λ e. refl), (λ e. refl));
      } in
      let b = request_many-Balanced 0 0 ps (new net w) (omega arith) fits start in
      (
        omega (arith, b.requests),
        omega (arith, b.errors_le),
        omega (arith, b.failures_le),
        omega (arith, b.retries_le),
        b.shown,
      )
