-- ===== src/Dap/Loop.antt =====
-- What `dap_transfer` and `dap_transfer_block` of cmd/dap.rs have in common: the body of their loops
-- from the word to write on, and the loop itself. `modulus` is that of the counter `done`, a u8 in
-- the one and a u16 in the other.
use esp32_dap_proxy.Prelude.{
  ℕ, min, zero, suc, ◌+◌, ◌*◌, ◌/◌, ◌%◌, ◌^◌, ◌≤◌, ◌<◌, ◌≡◌, refl, Bool, not, Option, none, some,
  List, [], ◌∷◌, ◌++◌, ok, err, ◌>>=◌, arith, ltb, ◌==◌, if◌then◌else◌, length, drop, copy_at,
  bit_and, append_assoc, length-append, copy_at-append,
}
use native.Mathlib.Nat.{mod-eq_of_lt}
use esp32_dap_proxy.Prelude.Bytes.{u32_from_le_bytes, u32_to_le_bytes}
use esp32_dap_proxy.Transport.{Transport}
use esp32_dap_proxy.Dap.State.{Dap, st_ok, st_proto}
use esp32_dap_proxy.Dap.Exec.{Executed, exec_transfer, retrying}

-- `u32::from_le_bytes(req[pos..pos + 4].try_into().unwrap())`
abbrev pub word_in : List ℕ → Option ℕ
word_in (b0 ∷ b1 ∷ b2 ∷ b3 ∷ bs) = some (u32_from_le_bytes b0 b1 b2 b3)
word_in _ = none

abbrev pub word_at : List ℕ → ℕ → Option ℕ
word_at req pos = word_in (drop pos req)

-- The fields of a request byte.
abbrev pub apndp_of : ℕ → Bool
apndp_of rb = not (bit_and rb 0x01 == 0)

abbrev pub rnw_of : ℕ → Bool
rnw_of rb = not (bit_and rb 0x02 == 0)

abbrev pub address_of : ℕ → ℕ
address_of rb = bit_and (rb / 2 ^ 2) 0x03 * 2 ^ 2

abbrev pub is_reserved : ℕ → Bool
is_reserved rb = not (bit_and rb 0xF0 == 0)

-- One access to the target, as the specification lists it.
pub record Access : Type 0 where
  pub apndp : Bool
  pub rnw : Bool
  pub a : ℕ
  pub wdata : Option ℕ

module _ (t : Transport) where
  pub record Loop : Type 0 where
    pub dap : Dap t
    pub resp : List ℕ
    pub pos : ℕ
    pub rpos : ℕ
    pub done : ℕ

  -- A round goes on, or breaks with a status.
  pub data Step : Type 0 where
    go_on : Loop → Step
    stop : ℕ → Loop → Step

  -- The match on the result of `exec_transfer`.
  abbrev pub after_exec : ℕ → Loop → Executed t → Option Step
  after_exec modulus l (ok (some v), d) = copy_at l.rpos (u32_to_le_bytes v) l.resp >>= λ resp.
      some (
        go_on (record {
          dap = d;
          resp = resp;
          pos = l.pos;
          rpos = l.rpos + 4;
          done = (l.done + 1) % modulus;
        }))
  after_exec modulus l (ok none, d) =
      some (go_on (record l { dap = d; done = (l.done + 1) % modulus }))
  after_exec modulus l (err s, d) = some (stop s (record l { dap = d }))

  -- From `let wdata` to the end of the round.
  unfoldable pub access : ℕ → Bool → Bool → ℕ → List ℕ → Loop → Option Step
  access modulus apndp rnw a req l =
      if rnw
      then exec_transfer t apndp rnw a none l.dap >>= after_exec modulus l
      else if ltb (length req) (l.pos + 4)
      then some (stop st_proto l)
      else word_at req l.pos >>= λ v.
          exec_transfer t apndp rnw a (some v) l.dap
          >>= after_exec modulus (record l { pos = l.pos + 4 })

  -- `for _ in 0..count`, with the status after it.
  abbrev pub next_round : (Loop → Option (ℕ × Loop)) → Step → Option (ℕ × Loop)
  next_round again (go_on l) = again l
  next_round again (stop s l) = some (s, l)

  unfoldable pub rounds : (Loop → Option Step) → ℕ → Loop → Option (ℕ × Loop)
  rounds step zero l = some (st_ok, l)
  rounds step (suc n) l = step l >>= next_round (λ l'. rounds step n l')

  -- The specification: a list of accesses is performed one after the other, up to the first that
  -- fails; the words that are read are put out.
  pub record Performed : Type 0 where
    pub dap : Dap t
    pub done : ℕ
    pub status : ℕ
    pub out : List ℕ

  abbrev pub perform_after : Executed t → (Dap t → Performed) → Performed
  perform_after (ok (some v), d) rest =
      let r = rest d in record r { done = suc r.done; out = u32_to_le_bytes v ++ r.out }
  perform_after (ok none, d) rest = let r = rest d in record r { done = suc r.done }
  perform_after (err s, d) rest = record { dap = d; done = 0; status = s; out = [] }

  -- `status` is the one to end with if no access fails.
  unfoldable pub perform : List Access → ℕ → Dap t → Performed
  perform [] status d = record { dap = d; done = 0; status = status; out = [] }
  perform (x ∷ xs) status d =
      perform_after (retrying t (min d.wait_retry 128) x.apndp x.rnw x.a x.wdata d)
        (perform xs status)

  -- The response buffer with the words put out behind what stands in front of them.
  abbrev pub overlay : List ℕ → List ℕ → List ℕ → List ℕ
  overlay pre rest out = pre ++ (out ++ drop (length out) rest)

  -- A run of the loop performs accesses: it ends with their status, count and words, the words behind
  -- the first `length pre` bytes of the buffer, and all else of the buffer as it was.
  abbrev pub Performs : Option (ℕ × Loop) → Performed → List ℕ → List ℕ → ℕ → Type 0
  Performs run r pre rest done =
      (pos' : ℕ) × (run
        ≡ some (
          r.status,
          record {
            dap = r.dap;
            resp = overlay pre rest r.out;
            pos = pos';
            rpos = length pre + length r.out;
            done = done + r.done;
          },
        ))

  -- The rounds left perform `rest_of`, from every state that one round can lead to.
  abbrev pub Continues : ℕ → ℕ → ℕ → (Loop → Option (ℕ × Loop)) → (Dap t → Performed) → Type 0
  Continues modulus n pos again rest_of =
      (d : Dap t) (pre rest : List ℕ) (done : ℕ)
      → 4 * n ≤ length rest
      → done + n < modulus
      → Performs
          (again
            (record { dap = d; resp = pre ++ rest; pos = pos; rpos = length pre; done = done }))
          (rest_of d) pre rest done

  pub stopped-Performs :
      (d : Dap t) (status pos : ℕ) (pre rest : List ℕ) (done : ℕ)
      → Performs
          (some (
            status,
            record { dap = d; resp = pre ++ rest; pos = pos; rpos = length pre; done = done },
          ))
          (record { dap = d; done = 0; status = status; out = [] })
          pre
          rest
          done
  stopped-Performs d status pos pre rest done =
      let here : length pre + 0 ≡ length pre = omega arith in
      let counted : done + 0 ≡ done = omega arith in (pos, rw (here, counted))

  -- One round with its access's result at hand.
  pub after_exec-Performs :
      (modulus n pos : ℕ) (again : Loop → Option (ℕ × Loop)) (rest_of : Dap t → Performed)
      (d₀ : Dap t) (pre rest : List ℕ) (done : ℕ) (r : Executed t)
      → 4 * suc n ≤ length rest
      → done + suc n < modulus
      → Continues modulus n pos again rest_of
      → Performs
          (after_exec modulus
              (record { dap = d₀; resp = pre ++ rest; pos = pos; rpos = length pre; done = done })
              r
            >>= next_round again)
          (perform_after r rest_of)
          pre
          rest
          done
  after_exec-Performs modulus n pos again rest_of d₀ pre rest done (err s, d) room small next =
      stopped-Performs d s pos pre rest done
  after_exec-Performs modulus n pos again rest_of d₀ pre rest done (ok none, d) room small next =
      let (pos', e) = next d pre rest (done + 1) (omega arith) (omega arith) in
      let fits : (done + 1) % modulus ≡ done + 1 = mod-eq_of_lt (omega arith) in
      let counted : done + suc (rest_of d).done ≡ done + 1 + (rest_of d).done = omega arith in
      (pos', rw (fits, counted) e)
  after_exec-Performs modulus n pos again rest_of d₀ pre (x0 ∷ x1 ∷ x2 ∷ x3 ∷ rest) done
        (ok (some v), d) room small next =
      let word = u32_to_le_bytes v in
      let (pos', e) = next d (pre ++ word) rest (done + 1) (omega arith) (omega arith) in
      let fits : (done + 1) % modulus ≡ done + 1 = mod-eq_of_lt (omega arith) in
      let counted : done + suc (rest_of d).done ≡ done + 1 + (rest_of d).done = omega arith in
      let written = copy_at-append pre word (x0 ∷ x1 ∷ x2 ∷ x3 ∷ rest) {out = word ++ rest} refl in
      let longer : length (pre ++ word) ≡ length pre + 4 = length-append pre word in
      let total : length pre + suc (suc (suc (suc (length (rest_of d).out))))
          ≡ length pre + 4 + length (rest_of d).out =
        omega arith in
      (
        pos',
        rw (written, fits, counted, total)
            (rw
              (
                longer,
                append_assoc pre word rest,
                append_assoc pre word ((rest_of d).out ++ drop (length (rest_of d).out) rest),
              )
              at e),
      )
  after_exec-Performs modulus n pos again rest_of d₀ pre rest done (ok (some v), d) room small
        next =
      absurd (omega arith)
