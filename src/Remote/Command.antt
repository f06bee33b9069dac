-- ===== src/Remote/Command.antt =====
-- A command that the host's link.rs sends is handled by the probe's cmd/dap.rs.
use esp32_dap_proxy.Prelude.{
  ℕ, suc, ◌+◌, ◌%◌, ◌^◌, ◌≤◌, ◌≡◌, refl, sym, ap, ap₂, ◌∙◌, subst, true, Option, none, some, List,
  [], ◌∷◌, ◌++◌, map, Result, ok, leb, arith, length, take, drop, append-nil, length-take,
  Bool-cases, inl, inr,
}
use esp32_dap_proxy.Prelude.Bytes.{All, IsByte}
use esp32_dap_proxy.Frame.{Deframer, max_rejects}
use esp32_dap_proxy.Frame.Wire.{encode}
use esp32_dap_proxy.Frame.Payload.{Idle}
use esp32_dap_proxy.Tcp.{recv_frame}
use esp32_dap_proxy.Tcp.Chunks.{reads}
use esp32_dap_proxy.Transport.{Transport}
use esp32_dap_proxy.Dap.State.{Dap}
use esp32_dap_proxy.Dap.Simple.{Reply}
use esp32_dap_proxy.Dap.Handle.{handle}
use esp32_dap_proxy.Dap.Handle.Total.{handle-Answered}
use esp32_dap_proxy.Dap.Serve.{Session, waits, serve}
use esp32_dap_proxy.Dap.Serve.Exchange.{Request, IsRequest, answers, session, serve-answers_then}
use esp32_dap_proxy.Run.Sessions.{all_written}
use esp32_dap_proxy.Link.{DapLink, Done, LinkError, read_frame, request}
use esp32_dap_proxy.Link.Frames.{Supply, read_frame-encode}
use esp32_dap_proxy.Link.Kept.{Holds, read_frame-HoldsAfter}
use esp32_dap_proxy.Link.Exchange.{request-read_frame}
use esp32_dap_proxy.Remote.{Network, after_reads, deliver, take_sent, probe_net, IsReady}

pub record IsCommand (c : List ℕ) : Type 0 where
  pub not_empty : 1 ≤ length c
  pub fits : length c ≤ 1024
  pub bytes : All IsByte c

module _ (t : Transport) (network : Network) where
  serve_nothing : (fuel k : ℕ) (s : Session t) → serve t (suc fuel) all_written k s [] ≡ waits s
  unfolding serve recv_frame
  serve_nothing fuel k s = refl

  -- The probe takes a command in and sends its response.
  deliver-handle :
      (s : Session t) (c : List ℕ) {dap : Dap t} {resp : List ℕ} {n : ℕ}
      → IsReady t network s
      → IsCommand c
      → handle t s.dap c s.resp ≡ some (dap, resp, n)
      → (d : Deframer) × (deliver t network (encode c) s
          ≡ (ok tt, session t dap d resp (encode (take n resp))))
        × Idle 1024 d
        × (d.rejects ≤ max_rejects)
  unfolding deliver answers
  deliver-handle s c {dap} {resp} {n} h q e =
      let cuts = network.cut (encode c) in
      let r : Request = record { body = c; pieces = cuts } in
      let asked : IsRequest r = record {
        not_empty = q.not_empty;
        fits = q.fits;
        bytes = q.bytes;
        full = network.cut-full (encode c);
        arrives = network.joined-cut (encode c);
      } in
      let (d, k', ran, idle, low) =
        serve-answers_then t all_written 0 (suc (length cuts)) (r ∷ []) s [] (λ i. refl) (asked, tt)
          h.idle h.low h.size in
      let rounds : 1 + suc (length cuts) ≡ suc (suc (length cuts)) = omega arith in
      let out = encode (take n resp) in
      let sent : s.sent ++ (out ++ []) ≡ out = rw (h.read, append-nil) in
      let none_left : (reads cuts ++ []) ++ [] ≡ reads cuts =
        append-nil (reads cuts ++ []) ∙ append-nil (reads cuts) in
      (
        d,
        ap (λ m. after_reads t network m s)
            (rw (rounds, none_left, e, sent) at ran
              ∙ serve_nothing (length cuts) k' (session t dap d resp out)),
        idle,
        low,
      )

  -- Reads leave all of a session as it is but what is under way.
  abbrev Keeps : Session t → Session t → Type 0
  Keeps s s' = s' ≡ record s { sent = s'.sent }

  take_sent-Keeps :
      (s : Session t) (n : ℕ) (s' : Session t) → Keeps s s' → Keeps s (take_sent t network n s').1
  take_sent-Keeps s n s' h = elim (Bool-cases (leb n (length s'.sent))) [
    | inl enough ↦ rw enough (ap (λ (x : Session t). record x { sent = drop n s'.sent }) h)
    | inr too_few ↦ rw too_few h
  ]

  take_sent_enough :
      (n : ℕ) (s : Session t)
      → n ≤ length s.sent
      → ((take_sent t network n s).0 ≡ ok (take n s.sent))
        × ((take_sent t network n s).1.sent ≡ drop n s.sent)
  take_sent_enough n s h =
      let enough : leb n (length s.sent) ≡ true = ground arith in rw enough (refl, refl)

  abbrev supply : Supply (probe_net t network)
  supply = record { coming = λ s. s.sent; read_enough = take_sent_enough }

  abbrev KeptIn : Session t → Option (Session t) → Type 0
  KeptIn s = Holds (probe_net t network) (Keeps s) (take_sent-Keeps s)

  -- A response that is under way is read whole.
  read_frame-sent :
      (l : DapLink (probe_net t network)) (s : Session t) (p : List ℕ)
      → l.stream ≡ some s
      → s.sent ≡ encode p
      → length p ≤ 4096
      → read_frame (probe_net t network) l
        ≡ (ok p, record l { stream = some (record s { sent = [] }) })
  read_frame-sent l s p here e fits =
      let net = probe_net t network in
      let (s', r, left) =
        read_frame-encode net supply l s [] p [] here (e ∙ sym (append-nil (encode p))) tt
          (omega arith) fits in
      let kept : Keeps s s' =
        subst (λ (x : Done net (List ℕ)). KeptIn s x.1.stream) r
          (read_frame-HoldsAfter net (Keeps s) (take_sent-Keeps s) l
            (subst (KeptIn s) (sym here) refl)) in
      r
      ∙ ap (λ x. (ok p, record l { stream = some x })) (kept ∙ ap (λ b. record s { sent = b }) left)

  -- A command that is sent over the link is handled by the probe, and `request` returns the response.
  pub request-handle :
      (l : DapLink (probe_net t network)) (s : Session t) (c : List ℕ)
      → l.stream ≡ some s
      → IsReady t network s
      → IsCommand c
      → (dap : Dap t) × (resp : List ℕ) × (n : ℕ) × (s' : Session t) × (handle t s.dap c s.resp
          ≡ some (dap, resp, n))
        × (request (probe_net t network) c l ≡ (
          ok (take n resp),
          record l { stream = some s'; requests = (l.requests + 1) % 2 ^ 64 },
        ))
        × (s'.dap ≡ dap)
        × (s'.resp ≡ resp)
        × IsReady t network s'
  request-handle l s c here h q =
      let net = probe_net t network in
      let (dap, resp, n, handled, size, _, fits) =
        handle-Answered t s.dap c s.resp q.bytes h.size in
      let (d, sent, idle, low) = deliver-handle s c h q handled in
      let s₁ = session t dap d resp (encode (take n resp)) in
      let s₂ = session t dap d resp [] in
      let l₁ = record l { stream = some s₁; requests = (l.requests + 1) % 2 ^ 64 } in
      let short : length (take n resp) ≤ 4096 = omega (arith, length-take n resp) in
      (
        dap,
        resp,
        n,
        s₂,
        handled,
        request-read_frame net l s s₁ s₂ c (take n resp) here sent (omega (arith, q.fits))
            (read_frame-sent l₁ s₁ (take n resp) refl refl short),
        refl,
        refl,
        record { idle = idle; low = low; size = size; read = refl },
      )

  abbrev pub request_all :
      List (List ℕ) → DapLink (probe_net t network) → List (Result (List ℕ) LinkError)
  request_all [] l = []
  request_all (c ∷ cs) l = let (r, l') = request (probe_net t network) c l in r ∷ request_all cs l'

  -- The specification: the commands are handled one after the other.
  abbrev responses_after : Reply t → (Dap t → List ℕ → List (List ℕ)) → List (List ℕ)
  responses_after none later = []
  responses_after (some (dap, resp, n)) later = take n resp ∷ later dap resp

  abbrev pub handle_all : List (List ℕ) → Dap t → List ℕ → List (List ℕ)
  handle_all [] dap resp = []
  handle_all (c ∷ cs) dap resp = responses_after (handle t dap c resp) (handle_all cs)

  -- Over a connection to the probe, commands sent one after the other with `request` return what
  -- `handle` answers to them, called one after the other on the probe's own state: the link, the
  -- frames in both directions, the cutting of the bytes into reads and the loop of `serve` add and
  -- lose nothing. Commands have 1 to 1024 bytes, the network loses none, the session waits for a
  -- request with nothing under way, and the reads arrive within their time limits.
  pub request_all-handle_all :
      (cs : List (List ℕ)) (l : DapLink (probe_net t network)) (s : Session t)
      → l.stream ≡ some s
      → IsReady t network s
      → All IsCommand cs
      → request_all cs l ≡ map (λ r. ok r) (handle_all cs s.dap s.resp)
  request_all-handle_all [] l s here h q = refl
  request_all-handle_all (c ∷ cs) l s here h q =
      let (dap, resp, n, s', handled, got, dap_e, resp_e, ready) =
        request-handle l s c here h q.0 in
      let l' = record l { stream = some s'; requests = (l.requests + 1) % 2 ^ 64 } in
      let later : request_all cs l' ≡ map (λ r. ok r) (handle_all cs dap resp) =
        request_all-handle_all cs l' s' refl ready q.1
        ∙ ap₂ (λ d b. map (λ r. ok r) (handle_all cs d b)) dap_e resp_e in
      rw (got, handled) (ap (λ rs. ok (take n resp) ∷ rs) later)
