-- ===== src/Args/Tests.antt =====
-- Command lines of main.rs.
use esp32_dap_proxy.Prelude.{ℕ, ◌≡◌, ◌↔◌, List, [], ◌∷◌, ok}
use esp32_dap_proxy.Prelude.Text.{codes}
use esp32_dap_proxy.Args.{Args, defaults, parse}
use esp32_dap_proxy.Args.Laws.{Setting, words, chosen, parse_iff}

-- A value that looks like an option, and a second value for an option.
abbrev line : List (List ℕ)
line =
    codes "--web"
    ∷ codes "--help"
    ∷ codes "--target"
    ∷ codes "10.0.0.9:8080"
    ∷ codes "--web"
    ∷ codes ":80"
    ∷ []

abbrev parsed : Args
parsed = record { listen = codes "0.0.0.0:3240"; target = codes "10.0.0.9:8080"; web = codes ":80" }

parse_iff_example :
    (parse line ≡ ok parsed)
    ↔ ((ss : List Setting) × (line ≡ words ss) × (parsed ≡ chosen defaults ss))
parse_iff_example = parse_iff line parsed
