-- ===== src/Usbip/Loopback.antt =====
-- A client's connection for the runs: what it still sends, and what was written to it, as two lists.
use esp32_dap_proxy.Prelude.{
  ℕ, suc, ◌≤◌, ◌≡◌, refl, true, false, Option, none, some, List, [], ◌++◌, leb, arith,
  if◌then◌else◌, length, take, drop, take-length, drop-length, length-append, length-drop,
  Bool-cases, inl, inr,
}
use esp32_dap_proxy.Usbip.Stream.{TcpStream, Delivers, Finite, ReadFrom}

-- The client's connection: the bytes to come, and the bytes written.
abbrev pub read : ℕ → List ℕ × List ℕ → Option (List ℕ) × (List ℕ × List ℕ)
read n (incoming, sent) =
    if leb n (length incoming)
    then (some (take n incoming), (drop n incoming, sent))
    else (none, ([], sent))

abbrev pub tcp : TcpStream
tcp = record {
  State = List ℕ × List ℕ;
  read_exact = read;
  write_all = λ bytes s. (true, (s.0, s.1 ++ bytes));
  flush = λ s. (true, s);
}

pub read-append : (xs ys sent : List ℕ) → read (length xs) (xs ++ ys, sent) ≡ (some xs, (ys, sent))
read-append xs ys sent =
    let enough : leb (length xs) (length (xs ++ ys)) ≡ true = ground (arith, length-append xs ys) in
    rw (enough, take-length xs ys, drop-length xs ys)

pub read-end : (n : ℕ) (sent : List ℕ) → read (suc n) ([], sent) ≡ (none, ([], sent))
read-end n sent = let less : leb (suc n) 0 ≡ false = ground arith in rw less

abbrev pub delivers : Delivers tcp
delivers = record {
  state = λ incoming sent. (incoming, sent);
  read_exact-append = read-append;
  read_exact-end = read-end;
  write_all-state = λ bytes incoming sent. refl;
  flush-state = λ incoming sent. refl;
}

pub length-incoming :
    (n : ℕ) (s : List ℕ × List ℕ) → ReadFrom tcp (λ s'. length s'.0) n s (read n s)
length-incoming n (incoming, sent) = elim (Bool-cases (leb n (length incoming))) [
  | inl enough ↦ rw enough (ground (arith, length-drop n incoming))
  | inr less ↦ rw less tt
]

pub at_most : (n : ℕ) → n ≤ n
at_most n = omega arith

abbrev pub client : Finite tcp
client = record {
  left = λ s. length s.0;
  read_exact-ReadFrom = length-incoming;
  left-write_all = λ bytes s. at_most (length s.0);
  left-flush = λ s. at_most (length s.0);
}
