-- ===== src/Dap/Outcome.antt =====
-- What the accesses of a request come to, for any list of them: counts, sizes and statuses.
use esp32_dap_proxy.Prelude.{
  ℕ, zero, suc, ◌*◌, ◌≤◌, ◌≡◌, refl, ◌≢◌, ◌↔◌, Bool, true, false, Option, none, some, List, [], ◌∷◌,
  ok, err, arith, length, ap, sym, ◌∙◌, Bool-cases, inl, inr,
}
use esp32_dap_proxy.Transport.{Transport, wait, fault, unknown, parity, io, Outcome}
use esp32_dap_proxy.Dap.State.{Dap, st_ok, st_wait, st_proto}
use esp32_dap_proxy.Dap.Exec.{Executed, attempt, status_of, retrying, settle}
use esp32_dap_proxy.Dap.Loop.{
  Access, Performed, perform, perform_after, is_reserved, apndp_of, rnw_of, address_of,
}
use esp32_dap_proxy.Dap.Access.{Parsed, cons_access, list_access}
use esp32_dap_proxy.Dap.Transfer.{parse}

module _ (t : Transport) where
  -- A result is no error with the status OK.
  abbrev pub IsHonest : Executed t → Type 0
  IsHonest (ok v, d) = Unit
  IsHonest (err s, d) = s ≢ st_ok

  settle-IsHonest :
      (o : Outcome t.State (Option ℕ)) (d : Dap t) (next : Dap t → Executed t)
      → IsHonest (next (record d { transport = o.1 }))
      → IsHonest (settle t o d next)
  unfolding status_of
  settle-IsHonest (ok v, s) d next h = tt
  settle-IsHonest (err wait, s) d next h = h
  settle-IsHonest (err fault, s) d next h = omega arith
  settle-IsHonest (err parity, s) d next h = omega arith
  settle-IsHonest (err (unknown ack), s) d next h = omega arith
  settle-IsHonest (err io, s) d next h = omega arith

  retrying-IsHonest :
      (b : ℕ) (apndp rnw : Bool) (a : ℕ) (wdata : Option ℕ) (d : Dap t)
      → IsHonest (retrying t b apndp rnw a wdata d)
  unfolding retrying
  retrying-IsHonest zero apndp rnw a wdata d =
      settle-IsHonest (attempt t apndp rnw a wdata d.transport) d (λ d'. (err st_wait, d'))
        (omega arith)
  retrying-IsHonest (suc b) apndp rnw a wdata d =
      settle-IsHonest (attempt t apndp rnw a wdata d.transport) d _
        (retrying-IsHonest b apndp rnw a wdata _)

  -- At most all of the accesses are done, and all of them if the status is OK; no more than a word
  -- is put out for each.
  pub record Fits (count : ℕ) (r : Performed t) : Type 0 where
    pub done_le : r.done ≤ count
    pub out_le : length r.out ≤ 4 * r.done
    pub all_done : r.status ≡ st_ok → r.done ≡ count

  perform_after-Fits :
      (r : Executed t) (next : Dap t → Performed t) (n : ℕ)
      → IsHonest r
      → ((d : Dap t) → Fits n (next d))
      → Fits (suc n) (perform_after t r next)
  perform_after-Fits (ok (some v), d) next n h f =
      let g = f d in
      record {
        done_le = omega (arith, g.done_le);
        out_le = omega (arith, g.out_le);
        all_done = λ e. ap suc (g.all_done e);
      }
  perform_after-Fits (ok none, d) next n h f =
      let g = f d in
      record {
        done_le = omega (arith, g.done_le);
        out_le = omega (arith, g.out_le);
        all_done = λ e. ap suc (g.all_done e);
      }
  perform_after-Fits (err s, d) next n h f = record {
    done_le = omega arith;
    out_le = omega arith;
    all_done = λ e. absurd (h e);
  }

  pub perform-Fits :
      (xs : List Access) (status : ℕ) (d : Dap t) → Fits (length xs) (perform t xs status d)
  unfolding perform
  perform-Fits [] status d = record {
    done_le = omega arith;
    out_le = omega arith;
    all_done = λ e. refl;
  }
  perform-Fits (x ∷ xs) status d =
      perform_after-Fits _ _ (length xs) (retrying-IsHonest _ x.apndp x.rnw x.a x.wdata d)
        (perform-Fits xs status)

  -- With every access done, the status is the one given.
  perform_after-status :
      (r : Executed t) (next : Dap t → Performed t) (n status : ℕ)
      → ((d : Dap t) → (next d).done ≡ n → (next d).status ≡ status)
      → (perform_after t r next).done ≡ suc n
      → (perform_after t r next).status ≡ status
  perform_after-status (ok (some v), d) next n status f e = f d (omega arith)
  perform_after-status (ok none, d) next n status f e = f d (omega arith)
  perform_after-status (err s, d) next n status f e = absurd (omega arith)

  pub perform-status :
      (xs : List Access) (status : ℕ) (d : Dap t)
      → (perform t xs status d).done ≡ length xs
      → (perform t xs status d).status ≡ status
  unfolding perform
  perform-status [] status d e = refl
  perform-status (x ∷ xs) status d e =
      perform_after-status _ _ (length xs) status (perform-status xs status) e

-- A request lists at most as many accesses as it says, and all of them unless it is malformed.
pub record ListsAtMost (n : ℕ) (p : Parsed) : Type 0 where
  pub short : length p.0 ≤ n
  pub whole : p.1 ≡ st_ok → length p.0 ≡ n
  pub well_formed : length p.0 ≡ n → p.1 ≡ st_ok

cut-ListsAtMost : (n : ℕ) → ListsAtMost (suc n) ([], st_proto)
cut-ListsAtMost n = record {
  short = omega arith;
  whole = λ e. absurd (omega arith);
  well_formed = λ e. absurd (omega arith);
}

cons_access-ListsAtMost :
    (n : ℕ) (x : Access) (p : Parsed) → ListsAtMost n p → ListsAtMost (suc n) (cons_access x p)
cons_access-ListsAtMost n x (xs, status) h = record {
  short = omega (arith, h.short);
  whole = λ e. ap suc (h.whole e);
  well_formed = λ e. h.well_formed (omega arith);
}

pub list_access-ListsAtMost :
    (n : ℕ) (apndp rnw : Bool) (a : ℕ) (more : List ℕ → Parsed) (bs : List ℕ)
    → ((r : List ℕ) → ListsAtMost n (more r))
    → ListsAtMost (suc n) (list_access apndp rnw a more bs)
list_access-ListsAtMost n apndp true a more bs f = cons_access-ListsAtMost n _ (more bs) (f bs)
list_access-ListsAtMost n apndp false a more (b0 ∷ b1 ∷ b2 ∷ b3 ∷ bs) f =
    cons_access-ListsAtMost n _ (more bs) (f bs)
list_access-ListsAtMost n apndp false a more _ f = cut-ListsAtMost n

pub parse-ListsAtMost : (n : ℕ) (bs : List ℕ) → ListsAtMost n (parse n bs)
unfolding parse
parse-ListsAtMost zero bs = record {
  short = omega arith;
  whole = λ e. refl;
  well_formed = λ e. refl;
}
parse-ListsAtMost (suc n) [] = cut-ListsAtMost n
parse-ListsAtMost (suc n) (rb ∷ bs) = elim (Bool-cases (is_reserved rb)) [
  | inl bad ↦ rw bad (cut-ListsAtMost n)
  | inr good ↦ rw good (
      list_access-ListsAtMost n (apndp_of rb) (rnw_of rb) (address_of rb) (parse n) bs
        (parse-ListsAtMost n))
]

module _ (t : Transport) where
  -- What a response says of a request for `count` accesses.
  pub record Reports (count : ℕ) (r : Performed t) : Type 0 where
    pub done_le : r.done ≤ count
    pub out_le : length r.out ≤ 4 * r.done
    pub complete : (r.status ≡ st_ok) ↔ (r.done ≡ count)

  pub perform-Reports :
      (count : ℕ) (p : Parsed) (d : Dap t)
      → ListsAtMost count p
      → Reports count (perform t p.0 p.1 d)
  perform-Reports count p d lists =
      let f = perform-Fits t p.0 p.1 d in
      record {
        done_le = omega (arith, f.done_le, lists.short);
        out_le = f.out_le;
        complete = (
          λ e.
              let given : p.1 ≡ st_ok = sym (perform-status t p.0 p.1 d (f.all_done e)) ∙ e in
              f.all_done e ∙ lists.whole given,
          λ e.
              let all : length p.0 ≡ count = omega (arith, f.done_le, lists.short) in
              perform-status t p.0 p.1 d (e ∙ sym all) ∙ lists.well_formed all,
        );
      }
