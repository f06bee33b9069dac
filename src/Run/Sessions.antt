-- ===== src/Run/Sessions.antt =====
-- Clients that come one after the other to `run` of channel/mod.rs.
use esp32_dap_proxy.Prelude.{
  ℕ, suc, ◌+◌, ◌-◌, ◌≤◌, ◌≡◌, refl, sym, ap, ◌∙◌, Bool, true, false, List, [], ◌∷◌, ◌++◌, arith,
  length, length-append, length-replicate, replicate, append_assoc, append-nil,
}
use esp32_dap_proxy.Prelude.Bytes.{All}
use esp32_dap_proxy.Frame.{Deframer, max_rejects}
use esp32_dap_proxy.Frame.Wire.{encode, head_bytes}
use esp32_dap_proxy.Frame.Payload.{Idle}
use esp32_dap_proxy.Tcp.{ReadEvent, chunk, failed, recv_frame, written}
use esp32_dap_proxy.Tcp.Chunks.{joined, reads}
use esp32_dap_proxy.Transport.{Transport}
use esp32_dap_proxy.Dap.State.{new}
use esp32_dap_proxy.Dap.Serve.{Sending, Session, ended, serve}
use esp32_dap_proxy.Dap.Serve.Exchange.{
  Request, IsRequest, arrivals, answers, serve-answers_then, session,
}
use esp32_dap_proxy.Run.{Probe, Round, client, accepting, opened, after_serve, run}

-- A client's requests, and whether its connection fails in the end or is closed.
pub record Visit : Type 0 where
  pub requests : List Request
  pub fails : Bool

abbrev pub last_read : Bool → ReadEvent
last_read true = failed
last_read false = chunk []

abbrev pub visit_reads : Visit → List ReadEvent
visit_reads v = arrivals v.requests ++ (last_read v.fails ∷ [])

abbrev pub all_written : ℕ → Sending
all_written k = (written, written, true)

abbrev pub IsVisit : Visit → Type 0
IsVisit v = All IsRequest v.requests

pub pieces-some :
    (body : List ℕ) (pieces : List (List ℕ)) → joined pieces ≡ encode body → 1 ≤ length pieces
unfolding encode head_bytes
pieces-some body [] e =
    let n : length {A = ℕ} [] ≡ suc (suc (suc (length body))) = ap length e in absurd (omega arith)
pieces-some body (p ∷ ps) e = omega arith

length-reads : (pieces : List (List ℕ)) → length (reads pieces) ≡ length pieces
length-reads [] = refl
length-reads (p ∷ ps) = ap suc (length-reads ps)

length-arrivals : (rs : List Request) → All IsRequest rs → length rs ≤ length (arrivals rs)
length-arrivals [] h = omega arith
length-arrivals (r ∷ rs) h = omega (
  arith,
  length-append (reads r.pieces) (arrivals rs),
  length-reads r.pieces,
  pieces-some r.body r.pieces h.0.arrives,
  length-arrivals rs h.1,
)

module _ (t : Transport) where
  abbrev pub visits : List Visit → List (Round t)
  visits [] = []
  visits (v ∷ vs) = client (visit_reads v) all_written ∷ visits vs

  -- The specification: every session starts with a new state of the commands, on the transport as the
  -- one before it left it, and gets its own responses.
  unfoldable pub all_answers : List Visit → t.State → t.State × List (List ℕ)
  all_answers [] s = (s, [])
  all_answers (v ∷ vs) s =
      let a = answers t v.requests (new t s) (replicate 1024 0) in
      let (s', outs) = all_answers vs a.dap.transport in (s', a.out ∷ outs)

  serve_end :
      (fuel k : ℕ) (s : Session t) (fails : Bool)
      → serve t (suc fuel) all_written k s (last_read fails ∷ []) ≡ ended s []
  unfolding serve recv_frame
  serve_end fuel k s true = refl
  serve_end fuel k s false = refl

  serve-visit :
      (v : Visit) (s : Session t)
      → IsVisit v
      → Idle 1024 s.deframer
      → s.deframer.rejects ≤ max_rejects
      → length s.resp ≡ 1024
      → let a = answers t v.requests s.dap s.resp in
        (d' : Deframer) × (serve t (suc (length (visit_reads v))) all_written 0 s (visit_reads v)
          ≡ ended (session t a.dap d' a.resp (s.sent ++ a.out)) [])
        × Idle 1024 d'
        × (d'.rejects ≤ max_rejects)
  serve-visit v s h idle low size =
      let es = last_read v.fails ∷ [] in
      let fuel = suc (length (arrivals v.requests) - length v.requests) in
      let (d', k', e, idle', low') =
        serve-answers_then t all_written 0 (suc fuel) v.requests s es (λ i. refl) h idle low size in
      let enough : suc (length (visit_reads v)) ≡ length v.requests + suc fuel =
        omega (arith, length-append (arrivals v.requests) es, length-arrivals v.requests h) in
      let a = answers t v.requests s.dap s.resp in
      (
        d',
        rw enough (e ∙ serve_end fuel k' (session t a.dap d' a.resp (s.sent ++ a.out)) v.fails),
        idle',
        low',
      )

  abbrev pub probe : t.State → Deframer → List (List ℕ) → Probe t
  probe s d sent = record { transport = s; deframer = d; sent = sent }

  -- Clients that come one after the other, each with requests as frames in reads that keep two
  -- requests apart, and each of which then closes its connection or loses it, all get the responses
  -- to their own requests, in order. Nothing but the transport's state passes from one session to
  -- the next, and the loop then waits for another client. The deframer starts between two frames
  -- with no more than 128 rejected bytes, requests have 1 to 1024 bytes, and the sockets take what
  -- is written.
  pub run-all_answers :
      (vs : List Visit) (p : Probe t)
      → All IsVisit vs
      → Idle 1024 p.deframer
      → p.deframer.rejects ≤ max_rejects
      → let (s', outs) = all_answers vs p.transport in
        (d' : Deframer) × (run t (visits vs) p ≡ accepting (probe s' d' (p.sent ++ outs)))
        × Idle 1024 d'
  unfolding run all_answers
  run-all_answers [] p h idle low = (
    p.deframer,
    ap (λ sent. accepting (probe p.transport p.deframer sent)) (sym (append-nil p.sent)),
    idle,
  )
  run-all_answers (v ∷ vs) p h idle low =
      let a = answers t v.requests (new t p.transport) (replicate 1024 0) in
      let (d', served, idle', low') =
        serve-visit v (opened t p) h.0 idle low (length-replicate {A = ℕ} 1024 0) in
      let p' = probe a.dap.transport d' (p.sent ++ (a.out ∷ [])) in
      let (d'', e, idle'') = run-all_answers vs p' h.1 idle' low' in
      let (s', outs) = all_answers vs a.dap.transport in
      (
        d'',
        ap (λ m. after_serve t m p (λ q. run t (visits vs) q)) served
            ∙ e
            ∙ ap (λ sent. accepting (probe s' d'' sent)) (append_assoc p.sent (a.out ∷ []) outs),
        idle'',
      )
