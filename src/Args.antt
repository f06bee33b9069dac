-- ===== src/Args.antt =====
-- esp-daplink-host/src/main.rs: the command line. An argument is the list of its characters. The text
-- of the usage is an argument, and so is what is put in front of it for an unknown argument.
pub mod Laws
mod Tests
use esp32_dap_proxy.Prelude.{
  ℕ, Bool, true, false, ◌||◌, List, [], ◌∷◌, ◌++◌, Result, ok, err, if◌then◌else◌,
}
use esp32_dap_proxy.Prelude.Text.{codes, text_eq}

pub record Args : Type 0 where
  pub listen : List ℕ
  pub target : List ℕ
  pub web : List ℕ

-- The texts of the messages that `parse` returns.
pub data ArgsError : Type 0 where
  missing : (option : List ℕ) → ArgsError
  usage : ArgsError
  unknown : (arg : List ℕ) → ArgsError

abbrev pub defaults : Args
defaults = record {
  listen = codes "0.0.0.0:3240";
  target = codes "192.168.137.151:8080";
  web = codes "127.0.0.1:3241";
}

-- The arms of the match on an argument.
pub data Arm : Type 0 where
  listen_arm target_arm web_arm help_arm other_arm : Arm

unfoldable pub arm_of : List ℕ → Arm
arm_of arg =
    if text_eq arg (codes "--listen")
    then listen_arm
    else if text_eq arg (codes "--target")
    then target_arm
    else if text_eq arg (codes "--web")
    then web_arm
    else if text_eq arg (codes "-h") || text_eq arg (codes "--help")
    then help_arm
    else other_arm

-- An arm that has the value that follows, and an arm with nothing behind the argument.
abbrev pub set_value : Arm → (arg value : List ℕ) → Args → Result Args ArgsError
set_value listen_arm arg value a = ok (record a { listen = value })
set_value target_arm arg value a = ok (record a { target = value })
set_value web_arm arg value a = ok (record a { web = value })
set_value help_arm arg value a = err usage
set_value other_arm arg value a = err (unknown arg)

abbrev pub no_value : Arm → (arg : List ℕ) → ArgsError
no_value listen_arm arg = missing (codes "--listen")
no_value target_arm arg = missing (codes "--target")
no_value web_arm arg = missing (codes "--web")
no_value help_arm arg = usage
no_value other_arm arg = unknown arg

abbrev pub and_loop : Result Args ArgsError → (Args → Result Args ArgsError) → Result Args ArgsError
and_loop (ok a) next = next a
and_loop (err e) next = err e

-- The loop; `it.next()` takes the head of the list.
unfoldable pub parse_from : Args → List (List ℕ) → Result Args ArgsError
parse_from a [] = ok a
parse_from a (arg ∷ []) = err (no_value (arm_of arg) arg)
parse_from a (arg ∷ value ∷ rest) =
    and_loop (set_value (arm_of arg) arg value a) (λ a'. parse_from a' rest)

unfoldable pub parse : List (List ℕ) → Result Args ArgsError
parse args = parse_from defaults args
