-- ===== src/Wifi/Reconnect.antt =====
-- How often the task of main.rs connects.
use esp32_dap_proxy.Prelude.{ℕ, ◌+◌, ◌*◌, ◌≡◌, refl, Bool, true, false, arith}
use esp32_dap_proxy.Wifi.{
  Phase, connecting, connected, station_disconnected, access_point, Event, joined, refused, notice,
  step, Trace, done, next,
}

abbrev pub is_connected : Phase → ℕ
is_connected connecting = 0
is_connected connected = 1

abbrev one_if : Bool → ℕ
one_if true = 1
one_if false = 0

abbrev joined_by : (p : Phase) → Event p → ℕ
joined_by connecting joined = 1
joined_by connecting refused = 0
joined_by connected (notice n) = 0

abbrev refused_by : (p : Phase) → Event p → ℕ
refused_by connecting joined = 0
refused_by connecting refused = 1
refused_by connected (notice n) = 0

abbrev lost_by : (p : Phase) → Event p → ℕ
lost_by connecting joined = 0
lost_by connecting refused = 0
lost_by connected (notice (station_disconnected is_ok)) = one_if is_ok
lost_by connected (notice (access_point is_ok)) = 0

pub record Count : Type 0 where
  pub joins : ℕ
  pub refusals : ℕ
  pub losses : ℕ
  pub slept : ℕ

unfoldable pub count : {p q : Phase} → Trace p q → Count
count done = record { joins = 0; refusals = 0; losses = 0; slept = 0 }
count (next {p} e rest) =
    let c = count rest in
    record {
      joins = joined_by p e + c.joins;
      refusals = refused_by p e + c.refusals;
      losses = lost_by p e + c.losses;
      slept = (step p e).1 + c.slept;
    }

step-balance :
    (p : Phase) (e : Event p)
    → (lost_by p e + is_connected (step p e).0 ≡ joined_by p e + is_connected p)
      × ((step p e).1 ≡ 5000 * refused_by p e)
unfolding step
step-balance connecting joined = (refl, refl)
step-balance connecting refused = (refl, refl)
step-balance connected (notice (station_disconnected true)) = (refl, refl)
step-balance connected (notice (station_disconnected false)) = (refl, refl)
step-balance connected (notice (access_point is_ok)) = (refl, refl)

-- Over any run, the losses of the connection, and one more if it is there at the end, are as many as
-- the times it was made, and one more if it was there at the start. The task has slept 5 seconds for
-- every attempt that was refused, and not at all otherwise.
count-balance :
    {p q : Phase} (t : Trace p q)
    → ((count t).losses + is_connected q ≡ (count t).joins + is_connected p)
      × ((count t).slept ≡ 5000 * (count t).refusals)
unfolding count
count-balance done = (refl, refl)
count-balance (next {p} e rest) =
    let (balance, slept) = count-balance rest in
    let (here, now) = step-balance p e in (omega arith, omega arith)
