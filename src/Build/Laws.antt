-- ===== src/Build/Laws.antt =====
-- When build.rs builds, and when it explains an error of the linker.
use esp32_dap_proxy.Prelude.{
  ℕ, ◌≡◌, refl, ap, sym, ◌≤◌, Bool, true, false, Option, none, List, [], ◌∷◌, ◌++◌, arith, length,
  if◌then◌else◌, append_assoc,
}
use esp32_dap_proxy.Prelude.Text.{codes, text_eq}
use esp32_dap_proxy.Build.{
  Env, Run, first_lines, script_line, and_print, behind_lines, finished, exited, panicked, hint_for,
  report, build_main,
}

abbrev linkall_line : List ℕ
linkall_line = codes "cargo:rustc-link-arg=-Tlinkall.x"

abbrev env_of : Option (List ℕ) → Option (List ℕ) → List (List ℕ) → List ℕ → Env
env_of ssid password args exe = record { ssid = ssid; password = password; args = args; exe = exe }

two_last :
    (e : Env)
    → (lines : List (List ℕ)) × (◌≡◌ {A = Run}
        (first_lines e ++ (script_line e ∷ linkall_line ∷ []), finished)
        (lines ++ (linkall_line ∷ []), finished))
two_last e =
    let lines = first_lines e ++ (script_line e ∷ []) in
    (
      lines,
      ap (λ out. (out, finished))
          (sym (append_assoc (first_lines e) (script_line e ∷ []) (linkall_line ∷ []))),
    )

-- Without arguments the script returns, and the last line that it prints asks for `linkall.x`.
pub build_main_last :
    (ssid password : Option (List ℕ)) (args : List (List ℕ)) (exe : List ℕ)
    → length args ≤ 1
    → (lines : List (List ℕ)) × (build_main (env_of ssid password args exe)
        ≡ (lines ++ (linkall_line ∷ []), finished))
unfolding build_main
build_main_last ssid password [] exe h = two_last (env_of ssid password [] exe)
build_main_last ssid password (a ∷ []) exe h = two_last (env_of ssid password (a ∷ []) exe)
build_main_last ssid password (a ∷ b ∷ args) exe h = absurd (omega arith)

-- With a kind of error and a symbol behind it, the script exits: with 0 for an undefined symbol, and
-- with 1 for any other kind. With the kind alone it panics.
pub build_main-exited :
    (ssid password : Option (List ℕ)) (a kind what : List ℕ) (more : List (List ℕ)) (exe : List ℕ)
    → ((build_main (env_of ssid password (a ∷ kind ∷ what ∷ more) exe)).1 ≡ (
        if text_eq kind (codes "undefined-symbol")
        then exited 0 (hint_for what)
        else exited 1 none))
      × ((build_main (env_of ssid password (a ∷ kind ∷ []) exe)).1 ≡ panicked)
unfolding build_main report
build_main-exited ssid password a kind what more exe =
    let lines = first_lines (env_of ssid password (a ∷ kind ∷ what ∷ more) exe) in
    (exits lines (text_eq kind (codes "undefined-symbol")), refl)
  where
    exits :
        (lines : List (List ℕ)) (b : Bool)
        → let how = if b then exited 0 (hint_for what) else exited 1 none in
          (behind_lines lines (and_print ([], how) linkall_line)).1 ≡ how
    exits lines true = refl
    exits lines false = refl
