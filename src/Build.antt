-- ===== src/Build.antt =====
-- esp-daplink-target/build.rs: what the build script prints, and what it does when the linker calls it
-- as its error handling script. Texts are lists of their characters; the environment, with what
-- dotenvy adds to it, is an argument.
pub mod Laws
mod Tests
use esp32_dap_proxy.Prelude.{
  ℕ, Bool, true, false, ◌&&◌, ◌||◌, Option, none, some, List, [], ◌∷◌, ◌++◌, ◌==◌, if◌then◌else◌,
}
use esp32_dap_proxy.Prelude.Text.{codes, text_eq}

pub record Env : Type 0 where
  pub ssid : Option (List ℕ)
  pub password : Option (List ℕ)
  pub args : List (List ℕ)
  pub exe : List ℕ

-- The texts that it prints on the standard error.
pub data Hint : Type 0 where
  defmt linkall scheduler embedded_test alloc : Hint

-- The script returned, it called `exit`, or an index was out of range.
pub data Outcome : Type 0 where
  finished : Outcome
  exited : (code : ℕ) → Option Hint → Outcome
  panicked : Outcome

-- The lines on the standard output, and how it ended.
abbrev pub Run : Type 0
Run = List (List ℕ) × Outcome

abbrev pub starts_with : List ℕ → List ℕ → Bool
starts_with text [] = true
starts_with [] (c ∷ cs) = false
starts_with (x ∷ xs) (c ∷ cs) = (x == c) && starts_with xs cs

-- The arm for `free`, `malloc` and the others.
abbrev pub is_alloc : List ℕ → Bool
is_alloc what =
    text_eq what (codes "free")
    || (text_eq what (codes "malloc")
        || (text_eq what (codes "calloc")
            || (text_eq what (codes "get_free_internal_heap_size")
                || (text_eq what (codes "malloc_internal")
                    || (text_eq what (codes "realloc_internal")
                        || (text_eq what (codes "calloc_internal")
                            || text_eq what (codes "free_internal")))))))

-- The match on `what`.
unfoldable pub hint_for : List ℕ → Option Hint
hint_for what =
    if starts_with what (codes "_defmt_")
    then some defmt
    else if text_eq what (codes "_stack_start")
    then some linkall
    else if starts_with what (codes "esp_rtos_")
    then some scheduler
    else if text_eq what (codes "embedded_test_linker_file_not_added_to_rustflags")
    then some embedded_test
    else if is_alloc what
    then some alloc
    else none

-- The match on `kind`.
unfoldable pub report : List ℕ → List ℕ → Outcome
report kind what =
    if text_eq kind (codes "undefined-symbol") then exited 0 (hint_for what) else exited 1 none

abbrev pub script_line : Env → List ℕ
script_line e = codes "cargo:rustc-link-arg=--error-handling-script=" ++ e.exe

-- `args[1]` and `args[2]`, of more than one argument.
unfoldable pub linker_be_nice : Env → Run
unfolding report
linker_be_nice e = elim (e.args) [
  | a ∷ kind ∷ what ∷ more ↦ ([], report kind what)
  | a ∷ kind ∷ [] ↦ ([], panicked)
  | _ ↦ (script_line e ∷ [], finished)
]

abbrev pub env_line : List ℕ → Option (List ℕ) → List (List ℕ)
env_line name none = []
env_line name (some value) = (codes "cargo:rustc-env=" ++ (name ++ (codes "=" ++ value))) ∷ []

-- What comes behind a call that may not return.
abbrev pub and_print : Run → List ℕ → Run
and_print (out, finished) line = (out ++ (line ∷ []), finished)
and_print (out, exited code hint) line = (out, exited code hint)
and_print (out, panicked) line = (out, panicked)

abbrev pub behind_lines : List (List ℕ) → Run → Run
behind_lines lines (out, how) = (lines ++ out, how)

-- The lines in front of the call of `linker_be_nice`.
abbrev pub first_lines : Env → List (List ℕ)
first_lines e =
    (codes "cargo:rerun-if-changed=.env" ∷ [])
    ++ (env_line (codes "SSID") e.ssid ++ env_line (codes "PASSWORD") e.password)

unfoldable pub build_main : Env → Run
unfolding linker_be_nice
build_main e =
    behind_lines (first_lines e)
      (and_print (linker_be_nice e) (codes "cargo:rustc-link-arg=-Tlinkall.x"))
