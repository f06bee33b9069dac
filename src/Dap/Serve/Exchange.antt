-- ===== src/Dap/Serve/Exchange.antt =====
-- A session of requests and responses through `serve` of cmd/dap.rs.
use esp32_dap_proxy.Prelude.{
  ℕ, suc, ◌+◌, ◌≤◌, ◌≡◌, refl, ap, ◌∙◌, true, none, some, List, [], ◌∷◌, ◌++◌, arith, length, take,
  take_all, append_assoc, append-nil,
}
use esp32_dap_proxy.Prelude.Bytes.{All, IsByte}
use esp32_dap_proxy.Frame.{Deframer, max_rejects}
use esp32_dap_proxy.Frame.Wire.{encode}
use esp32_dap_proxy.Frame.Payload.{Idle}
use esp32_dap_proxy.Tcp.{ReadEvent, received, waiting, recv_frame, written, send_frame}
use esp32_dap_proxy.Tcp.Chunks.{joined, reads}
use esp32_dap_proxy.Tcp.Arrival.{recv_frame-encode}
use esp32_dap_proxy.Transport.{Transport}
use esp32_dap_proxy.Dap.State.{Dap}
use esp32_dap_proxy.Dap.Simple.{Reply}
use esp32_dap_proxy.Dap.Handle.{handle}
use esp32_dap_proxy.Dap.Handle.Total.{handle-Answered}
use esp32_dap_proxy.Dap.Serve.{Sending, Session, waits, Next, after_recv, after_handle, serve}

-- A request, and the reads in which its wire form arrives.
pub record Request : Type 0 where
  pub body : List ℕ
  pub pieces : List (List ℕ)

pub record IsRequest (r : Request) : Type 0 where
  pub not_empty : 1 ≤ length r.body
  pub fits : length r.body ≤ 1024
  pub bytes : All IsByte r.body
  pub full : All (λ c. 1 ≤ length c) r.pieces
  pub arrives : joined r.pieces ≡ encode r.body

abbrev pub arrivals : List Request → List ReadEvent
arrivals [] = []
arrivals (r ∷ rs) = reads r.pieces ++ arrivals rs

module _ (t : Transport) where
  -- The specification: each request is handled in the state that the one before it left, and its
  -- response goes out in wire form.
  pub record Answers : Type 0 where
    pub dap : Dap t
    pub resp : List ℕ
    pub out : List ℕ

  abbrev pub answer_after : Reply t → Answers → (Dap t → List ℕ → Answers) → Answers
  answer_after none before rest = before
  answer_after (some (d, resp, n)) before rest =
      let later = rest d resp in record later { out = encode (take n resp) ++ later.out }

  unfoldable pub answers : List Request → Dap t → List ℕ → Answers
  answers [] d resp = record { dap = d; resp = resp; out = [] }
  answers (r ∷ rs) d resp =
      answer_after (handle t d r.body resp) (record { dap = d; resp = resp; out = [] }) (answers rs)

  abbrev pub session : Dap t → Deframer → List ℕ → List ℕ → Session t
  session dap deframer resp sent = record {
    dap = dap;
    deframer = deframer;
    resp = resp;
    sent = sent;
  }

  sent_all :
      (k : ℕ) (sending : ℕ → Sending) (s : Session t) (dap : Dap t) (resp : List ℕ) (n : ℕ)
      (es : List ReadEvent) (next : Next t)
      → sending k ≡ (written, written, true)
      → after_handle t (some (dap, resp, n)) (sending k) s es next
        ≡ next (record s { dap = dap; resp = resp; sent = s.sent ++ encode (take n resp) }) es
  unfolding send_frame encode
  sent_all k sending s dap resp n es next e = rw e

  recv_nothing : (n room : ℕ) (d : Deframer) → recv_frame n room d [] ≡ waiting d
  unfolding recv_frame
  recv_nothing n room d = refl

  -- The requests are answered, and `serve` goes on with what comes behind them.
  pub serve-answers_then :
      (sending : ℕ → Sending) (k fuel : ℕ) (rs : List Request) (s : Session t) (es : List ReadEvent)
      → ((i : ℕ) → sending i ≡ (written, written, true))
      → All IsRequest rs
      → Idle 1024 s.deframer
      → s.deframer.rejects ≤ max_rejects
      → length s.resp ≡ 1024
      → let a = answers rs s.dap s.resp in
        (d' : Deframer) × (k' : ℕ) × (serve t (length rs + fuel) sending k s (arrivals rs ++ es)
          ≡ serve t fuel sending k' (session a.dap d' a.resp (s.sent ++ a.out)) es)
        × Idle 1024 d'
        × (d'.rejects ≤ max_rejects)
  unfolding serve answers
  serve-answers_then sending k fuel [] s es ok_sends h idle low size =
      let e : 0 + fuel ≡ fuel = omega arith in (s.deframer, k, rw (e, append-nil), idle, low)
  serve-answers_then sending k fuel (r ∷ rs) s es ok_sends h idle low size =
      let q = h.0 in
      let more = arrivals rs ++ es in
      let (d', came, idle', zeroed) =
        recv_frame-encode 1024 1024 s.deframer [] r.body r.pieces more idle tt (omega arith)
          q.not_empty (omega (arith, q.fits)) (omega arith) q.full q.arrives in
      let (dap, resp, n, handled, size', _, _) =
        handle-Answered t s.dap r.body s.resp q.bytes size in
      let s' = session dap d' resp (s.sent ++ encode (take n resp)) in
      let (d'', k', e, idle'', low'') =
        serve-answers_then sending (k + 1) fuel rs s' es ok_sends h.1 idle' (omega arith) size' in
      let next : Next t = λ s' es'. serve t (length rs + fuel) sending (k + 1) s' es' in
      let s₁ = record s { deframer = d' } in
      let got = came ∙ ap (λ f. received f d' more) (take_all 1024 r.body q.fits) in
      let step =
        ap (λ m. after_recv t m (sending k) s next) got
        ∙ ap (λ m. after_handle t m (sending k) s₁ more next) handled
        ∙ sent_all k sending s₁ dap resp n more next (ok_sends k) in
      let a = answers rs dap resp in
      let joined_out = append_assoc s.sent (encode (take n resp)) a.out in
      let rounds : suc (length rs) + fuel ≡ suc (length rs + fuel) = omega arith in
      let cut = append_assoc (reads r.pieces) (arrivals rs) es in
      rw (handled, rounds, cut)
        (
          d'',
          k',
          step ∙ e ∙ ap (λ b. serve t fuel sending k' (session a.dap d'' a.resp b) es) joined_out,
          idle'',
          low'',
        )

  -- Requests of bytes, 1 to 1024 of them, that arrive as frames, each cut into reads in any way that
  -- keeps two requests out of one read, are handled in order, each in the state that the one before
  -- it left; the responses go out in wire form in that order, and `serve` then waits for more. The
  -- deframer starts between two frames with no more than 128 rejected bytes, the response buffer has
  -- 1024 bytes, and the socket takes everything that is written.
  pub serve-answers :
      (sending : ℕ → Sending) (k : ℕ) (rs : List Request) (s : Session t)
      → ((i : ℕ) → sending i ≡ (written, written, true))
      → All IsRequest rs
      → Idle 1024 s.deframer
      → s.deframer.rejects ≤ max_rejects
      → length s.resp ≡ 1024
      → let a = answers rs s.dap s.resp in
        (d' : Deframer) × (serve t (suc (length rs)) sending k s (arrivals rs)
          ≡ waits (record { dap = a.dap; deframer = d'; resp = a.resp; sent = s.sent ++ a.out }))
        × Idle 1024 d'
  unfolding serve
  serve-answers sending k rs s ok_sends h idle low size =
      let (d', k', e, idle', low') =
        serve-answers_then sending k 1 rs s [] ok_sends h idle low size in
      let a = answers rs s.dap s.resp in
      let one : length rs + 1 ≡ suc (length rs) = omega arith in
      (
        d',
        rw (one, append-nil) at e
            ∙ ap
                (λ m.
                  after_recv t m (sending k') (session a.dap d' a.resp (s.sent ++ a.out))
                    (λ s' es'. serve t 0 sending (k' + 1) s' es'))
                (recv_nothing 1024 1024 d'),
        idle',
      )
