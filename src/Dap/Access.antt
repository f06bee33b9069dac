-- ===== src/Dap/Access.antt =====
-- One round of the loops of cmd/dap.rs, from the word to write on, at a position of the request.
use esp32_dap_proxy.Prelude.{
  ℕ, min, ◌+◌, ◌<◌, ◌≡◌, refl, Bool, Option, none, true, false, some, List, [], ◌∷◌, ◌++◌, arith,
  ltb, length, drop-length, length-append, ◌>>=◌, append_assoc, ◌*◌, ◌≤◌, suc,
}
use esp32_dap_proxy.Prelude.Bytes.{u32_from_le_bytes}
use esp32_dap_proxy.Transport.{Transport}
use esp32_dap_proxy.Dap.State.{Dap, st_proto}
use esp32_dap_proxy.Dap.Exec.{Executed, exec_transfer-retrying, retrying}
use esp32_dap_proxy.Dap.Loop.{
  Access, perform, Performs, Continues, after_exec-Performs, stopped-Performs, next_round, Loop,
  stop, after_exec, access,
}

-- The accesses that a request lists, and the status to end with when they all succeed.
abbrev pub Parsed : Type 0
Parsed = List Access × ℕ

abbrev pub cons_access : Access → Parsed → Parsed
cons_access x (xs, status) = (x ∷ xs, status)

-- An access with the fields given at the front of the request's bytes, and what the rest lists: a
-- write takes a word from the request, and without one the list ends.
abbrev pub list_access : Bool → Bool → ℕ → (List ℕ → Parsed) → List ℕ → Parsed
list_access apndp true a more bs =
    cons_access (record { apndp = apndp; rnw = true; a = a; wdata = none }) (more bs)
list_access apndp false a more (b0 ∷ b1 ∷ b2 ∷ b3 ∷ bs) =
    cons_access
      (record { apndp = apndp; rnw = false; a = a; wdata = some (u32_from_le_bytes b0 b1 b2 b3) })
      (more bs)
list_access apndp false a more _ = ([], st_proto)

abbrev pub cursor : (t : Transport) → Dap t → List ℕ → ℕ → ℕ → ℕ → Loop t
cursor t d resp pos rpos done = record { dap = d; resp = resp; pos = pos; rpos = rpos; done = done }

module _ (t : Transport) (modulus : ℕ) where
  -- What is left of the request is performed from any position.
  abbrev pub GoesOn : ℕ → List ℕ → (Loop t → Option (ℕ × Loop t)) → (List ℕ → Parsed) → Type 0
  GoesOn n req again more =
      (front bs : List ℕ)
      → front ++ bs ≡ req
      → Continues t modulus n (length front) again (perform t (more bs).0 (more bs).1)

module _ (t : Transport) (modulus : ℕ) (a : ℕ) where
  -- The result of an access, with the retries that its state allows.
  abbrev pub retried : (apndp rnw : Bool) → Option ℕ → Dap t → Executed t
  retried apndp rnw wdata d = retrying t (min d.wait_retry 128) apndp rnw a wdata d

  pub access-read :
      (apndp : Bool) (req : List ℕ) (l : Loop t)
      → access t modulus apndp true a req l ≡ after_exec t modulus l (retried apndp true none l.dap)
  unfolding access
  access-read apndp req l = rw (exec_transfer-retrying t apndp true a none l.dap)

  pub access-write :
      (apndp : Bool) (front bs : List ℕ) (b0 b1 b2 b3 : ℕ) (d : Dap t) (resp : List ℕ)
      (rpos done : ℕ)
      → access t modulus apndp false a
          (front ++ (b0 ∷ b1 ∷ b2 ∷ b3 ∷ bs))
          (cursor t d resp (length front) rpos done)
        ≡ after_exec t modulus
            (cursor t d resp (length front + 4) rpos done)
            (retried apndp false (some (u32_from_le_bytes b0 b1 b2 b3)) d)
  unfolding access
  access-write apndp front bs b0 b1 b2 b3 d resp rpos done =
      let whole = front ++ (b0 ∷ b1 ∷ b2 ∷ b3 ∷ bs) in
      let enough : ltb (length whole) (length front + 4) ≡ false =
        ground (arith, length-append front (b0 ∷ b1 ∷ b2 ∷ b3 ∷ bs)) in
      let word = u32_from_le_bytes b0 b1 b2 b3 in
      rw (
        enough,
        drop-length front (b0 ∷ b1 ∷ b2 ∷ b3 ∷ bs),
        exec_transfer-retrying t apndp false a (some word) d,
      )

  pub access_short :
      (apndp : Bool) (front bs : List ℕ) (l : Loop t)
      → l.pos ≡ length front
      → length bs < 4
      → access t modulus apndp false a (front ++ bs) l ≡ some (stop st_proto l)
  unfolding access
  access_short apndp front bs l e h =
      let cut : ltb (length (front ++ bs)) (l.pos + 4) ≡ true =
        ground (arith, length-append front bs) in
      rw cut

  pub access-Performs :
      (n : ℕ) (again : Loop t → Option (ℕ × Loop t)) (more : List ℕ → Parsed) (apndp rnw : Bool)
      (front bs : List ℕ) (d : Dap t) (pre rest : List ℕ) (done : ℕ)
      → 4 * suc n ≤ length rest
      → done + suc n < modulus
      → GoesOn t modulus n (front ++ bs) again more
      → Performs t
          (access t modulus apndp rnw a
              (front ++ bs)
              (cursor t d (pre ++ rest) (length front) (length pre) done)
            >>= next_round t again)
          (perform t (list_access apndp rnw a more bs).0 (list_access apndp rnw a more bs).1 d)
          pre
          rest
          done
  unfolding perform
  access-Performs n again more apndp true front bs d pre rest done room small next =
      rw
        (access-read apndp (front ++ bs)
          (cursor t d (pre ++ rest) (length front) (length pre) done))
        (after_exec-Performs t modulus n (length front) again (perform t (more bs).0 (more bs).1) d
          pre rest done (retried apndp true none d) room small (next front bs refl))
  access-Performs n again more apndp false front (b0 ∷ b1 ∷ b2 ∷ b3 ∷ bs) d pre rest done room small
        next =
      let word = b0 ∷ b1 ∷ b2 ∷ b3 ∷ [] in
      let longer : length (front ++ word) ≡ length front + 4 = length-append front word in
      rw (access-write apndp front bs b0 b1 b2 b3 d (pre ++ rest) (length pre) done) (
        after_exec-Performs t modulus n (length front + 4) again (perform t (more bs).0 (more bs).1)
          d pre rest done (retried apndp false (some (u32_from_le_bytes b0 b1 b2 b3)) d) room small
          (rw longer at (next (front ++ word) bs (append_assoc front word bs))))
  access-Performs n again more apndp false front [] d pre rest done room small next =
      rw
        (access_short apndp front [] (cursor t d (pre ++ rest) (length front) (length pre) done)
          refl (omega arith))
        (stopped-Performs t d st_proto (length front) pre rest done)
  access-Performs n again more apndp false front (b0 ∷ []) d pre rest done room small next =
      rw
        (access_short apndp front (b0 ∷ [])
          (cursor t d (pre ++ rest) (length front) (length pre) done) refl (omega arith))
        (stopped-Performs t d st_proto (length front) pre rest done)
  access-Performs n again more apndp false front (b0 ∷ b1 ∷ []) d pre rest done room small next =
      rw
        (access_short apndp front (b0 ∷ b1 ∷ [])
          (cursor t d (pre ++ rest) (length front) (length pre) done) refl (omega arith))
        (stopped-Performs t d st_proto (length front) pre rest done)
  access-Performs n again more apndp false front (b0 ∷ b1 ∷ b2 ∷ []) d pre rest done room small
        next =
      rw
        (access_short apndp front (b0 ∷ b1 ∷ b2 ∷ [])
          (cursor t d (pre ++ rest) (length front) (length pre) done) refl (omega arith))
        (stopped-Performs t d st_proto (length front) pre rest done)
