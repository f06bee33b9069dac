-- ===== src/Link/Kept.antt =====
-- Reading a response over link.rs does nothing to a connection but read.
use esp32_dap_proxy.Prelude.{
  ℕ, zero, suc, Bool, true, false, Option, none, some, ok, err, ◌==◌, ltb, if◌then◌else◌,
}
use esp32_dap_proxy.Frame.{frame_magic}
use esp32_dap_proxy.Link.{
  Net, DapLink, Done, and_then, read_with, read_exact, byte_of, length_of, max_frame, skip,
  read_payload, read_frame,
}

module _ (net : Net) (P : net.Stream → Type 0)
    (reads : (n : ℕ) (s : net.Stream) → P s → P (net.read_exact n s).1) where
  -- What holds of the connection, if there is one.
  abbrev pub Holds : Option net.Stream → Type 0
  Holds none = Unit
  Holds (some s) = P s

  abbrev HoldsAfter : {A : Type 0} → Done net A → Type 0
  HoldsAfter r = Holds r.1.stream

  and_then-HoldsAfter :
      {A B : Type 0} (r : Done net A) (f : A → DapLink net → Done net B)
      → HoldsAfter r
      → ((a : A) (l : DapLink net) → Holds l.stream → HoldsAfter (f a l))
      → HoldsAfter (and_then net r f)
  and_then-HoldsAfter (ok a, l) f h k = k a l h
  and_then-HoldsAfter (err e, l) f h k = h

  if-HoldsAfter :
      {A : Type 0} (b : Bool) (r r' : Done net A)
      → HoldsAfter r
      → HoldsAfter r'
      → HoldsAfter (if b then r else r')
  if-HoldsAfter true r r' h k = h
  if-HoldsAfter false r r' h k = k

  read_with-HoldsAfter :
      (o : Option net.Stream) (n : ℕ) (l : DapLink net)
      → Holds o
      → Holds l.stream
      → HoldsAfter (read_with net o n l)
  read_with-HoldsAfter none n l h k = k
  read_with-HoldsAfter (some s) n l h k = reads n s h

  read_exact-HoldsAfter :
      (n : ℕ) (l : DapLink net) → Holds l.stream → HoldsAfter (read_exact net n l)
  unfolding read_exact
  read_exact-HoldsAfter n l h = read_with-HoldsAfter l.stream n l h h

  skip-HoldsAfter : (n : ℕ) (l : DapLink net) → Holds l.stream → HoldsAfter (skip net n l)
  unfolding skip
  skip-HoldsAfter zero l h =
      and_then-HoldsAfter (read_exact net 1 l) _ (read_exact-HoldsAfter 1 l h)
        (λ byte l' h'. if-HoldsAfter (byte_of byte == frame_magic) _ _ h' h')
  skip-HoldsAfter (suc n) l h =
      and_then-HoldsAfter (read_exact net 1 l) _ (read_exact-HoldsAfter 1 l h) (λ byte l' h'.
        if-HoldsAfter (byte_of byte == frame_magic) _ (skip net n l') h' (skip-HoldsAfter n l' h'))

  pub read_frame-HoldsAfter : (l : DapLink net) → Holds l.stream → Holds (read_frame net l).1.stream
  unfolding read_frame read_payload
  read_frame-HoldsAfter l h =
      and_then-HoldsAfter (skip net 4096 l) _ (skip-HoldsAfter 4096 l h) (λ u l₁ h₁.
        and_then-HoldsAfter (read_exact net 2 l₁) _ (read_exact-HoldsAfter 2 l₁ h₁) (λ len l₂ h₂.
          if-HoldsAfter (ltb max_frame (length_of len)) _ (read_exact net (length_of len) l₂) h₂
            (read_exact-HoldsAfter (length_of len) l₂ h₂)))
