-- ===== src/Link/Count.antt =====
-- The counters of metrics.rs that link.rs keeps.
use esp32_dap_proxy.Prelude.{
  ℕ, zero, suc, ◌≡◌, refl, Bool, true, false, Option, none, some, List, Result, ok, err, ltb, ◌==◌,
  if◌then◌else◌,
}
use esp32_dap_proxy.Frame.{frame_magic}
use esp32_dap_proxy.Frame.Wire.{encode}
use esp32_dap_proxy.Link.{
  Net, Failure, DapLink, Done, and_then, connect, connected, ensure, ensure_with, read_with,
  read_exact, write_with, write_all, byte_of, length_of, max_frame, skip, read_payload, read_frame,
  or_disconnect, try_request,
}

module _ (net : Net) where
  -- Two states of the link with the same counts and the same last error.
  pub record SameCounts (l l' : DapLink net) : Type 0 where
    pub requests : l'.requests ≡ l.requests
    pub retries : l'.retries ≡ l.retries
    pub errors : l'.errors ≡ l.errors
    pub last_error : l'.last_error ≡ l.last_error

  pub same_counts : (l : DapLink net) → SameCounts l l
  same_counts l = record { requests = refl; retries = refl; errors = refl; last_error = refl }

  module _ (k : DapLink net) where
    and_then-SameCounts :
        {A B : Type 0} (r : Done net A) (f : A → DapLink net → Done net B)
        → SameCounts k r.1
        → ((a : A) (l : DapLink net) → SameCounts k l → SameCounts k (f a l).1)
        → SameCounts k (and_then net r f).1
    and_then-SameCounts (ok a, l) f h c = c a l h
    and_then-SameCounts (err e, l) f h c = h

    if-SameCounts :
        {A : Type 0} (b : Bool) (r r' : Done net A)
        → SameCounts k r.1
        → SameCounts k r'.1
        → SameCounts k (if b then r else r').1
    if-SameCounts true r r' h c = h
    if-SameCounts false r r' h c = c

    moved :
        (l : DapLink net) (w : net.World) (s : Option net.Stream)
        → SameCounts k l
        → SameCounts k (record l { world = w; stream = s })
    moved l w s h = record {
      requests = h.requests;
      retries = h.retries;
      errors = h.errors;
      last_error = h.last_error;
    }

    connected-SameCounts :
        (r : Result net.Stream Failure × net.World) (l : DapLink net)
        → SameCounts k l
        → SameCounts k (connected net r l).1
    connected-SameCounts (ok s, w) l h = moved l w (some s) h
    connected-SameCounts (err e, w) l h = moved l w l.stream h

    pub connect-SameCounts : (l : DapLink net) → SameCounts k l → SameCounts k (connect net l).1
    unfolding connect
    connect-SameCounts l h = connected-SameCounts (net.connect l.world) l h

    ensure_with-SameCounts :
        (o : Option net.Stream) (l : DapLink net)
        → SameCounts k l
        → SameCounts k (ensure_with net o l).1
    ensure_with-SameCounts none l h = connect-SameCounts l h
    ensure_with-SameCounts (some s) l h = h

    read_with-SameCounts :
        (o : Option net.Stream) (n : ℕ) (l : DapLink net)
        → SameCounts k l
        → SameCounts k (read_with net o n l).1
    read_with-SameCounts none n l h = h
    read_with-SameCounts (some s) n l h = moved l l.world _ h

    read_exact-SameCounts :
        (n : ℕ) (l : DapLink net) → SameCounts k l → SameCounts k (read_exact net n l).1
    unfolding read_exact
    read_exact-SameCounts n l h = read_with-SameCounts l.stream n l h

    write_with-SameCounts :
        (o : Option net.Stream) (bytes : List ℕ) (l : DapLink net)
        → SameCounts k l
        → SameCounts k (write_with net o bytes l).1
    write_with-SameCounts none bytes l h = h
    write_with-SameCounts (some s) bytes l h = moved l l.world _ h

    skip-SameCounts : (n : ℕ) (l : DapLink net) → SameCounts k l → SameCounts k (skip net n l).1
    unfolding skip
    skip-SameCounts zero l h =
        and_then-SameCounts (read_exact net 1 l) _ (read_exact-SameCounts 1 l h)
          (λ byte l' h'. if-SameCounts (byte_of byte == frame_magic) _ _ h' h')
    skip-SameCounts (suc n) l h =
        and_then-SameCounts (read_exact net 1 l) _ (read_exact-SameCounts 1 l h) (λ byte l' h'.
          if-SameCounts (byte_of byte == frame_magic) _ (skip net n l') h'
            (skip-SameCounts n l' h'))

    read_frame-SameCounts : (l : DapLink net) → SameCounts k l → SameCounts k (read_frame net l).1
    unfolding read_frame read_payload
    read_frame-SameCounts l h =
        and_then-SameCounts (skip net 4096 l) _ (skip-SameCounts 4096 l h) (λ u l₁ h₁.
          and_then-SameCounts (read_exact net 2 l₁) _ (read_exact-SameCounts 2 l₁ h₁) (λ len l₂ h₂.
            if-SameCounts (ltb max_frame (length_of len)) _ (read_exact net (length_of len) l₂) h₂
              (read_exact-SameCounts (length_of len) l₂ h₂)))

    or_disconnect-SameCounts :
        (r : Done net (List ℕ)) → SameCounts k r.1 → SameCounts k (or_disconnect net r).1
    or_disconnect-SameCounts (ok a, l) h = h
    or_disconnect-SameCounts (err e, l) h = moved l l.world none h

    pub try_request-SameCounts :
        (payload : List ℕ) (l : DapLink net)
        → SameCounts k l
        → SameCounts k (try_request net payload l).1
    unfolding try_request ensure write_all
    try_request-SameCounts payload l h =
        and_then-SameCounts (ensure_with net l.stream l) _ (ensure_with-SameCounts l.stream l h)
          (λ u l₁ h₁. or_disconnect-SameCounts _ (
            and_then-SameCounts (write_with net l₁.stream (encode payload) l₁) _
              (write_with-SameCounts l₁.stream (encode payload) l₁ h₁)
              (λ u' l₂ h₂. read_frame-SameCounts l₂ h₂)))
