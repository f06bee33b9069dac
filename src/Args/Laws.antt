-- ===== src/Args/Laws.antt =====
-- Which command lines `parse` of main.rs accepts, and what it makes of them.
use esp32_dap_proxy.Prelude.{
  ℕ, ◌≡◌, refl, sym, ap, ap₂, subst, ◌∙◌, ◌↔◌, ◌||◌, List, [], ◌∷◌, Result, ok, err, Bool-cases,
  inl, inr,
}
use esp32_dap_proxy.Prelude.Text.{codes, text_eq, text_eq→≡}
use esp32_dap_proxy.Args.{
  Args, ArgsError, defaults, Arm, listen_arm, target_arm, web_arm, help_arm, other_arm, arm_of,
  set_value, and_loop, parse_from, parse,
}

-- An option with its value.
pub data Setting : Type 0 where
  listen target web : (value : List ℕ) → Setting

abbrev word_of : Setting → List ℕ
word_of (listen v) = codes "--listen"
word_of (target v) = codes "--target"
word_of (web v) = codes "--web"

abbrev value_of : Setting → List ℕ
value_of (listen v) = v
value_of (target v) = v
value_of (web v) = v

abbrev pub words : List Setting → List (List ℕ)
words [] = []
words (s ∷ ss) = word_of s ∷ value_of s ∷ words ss

abbrev updated : Args → Setting → Args
updated a (listen v) = record a { listen = v }
updated a (target v) = record a { target = v }
updated a (web v) = record a { web = v }

-- The last value of each option, if there is one.
abbrev last_listen : List ℕ → List Setting → List ℕ
last_listen d [] = d
last_listen d (listen v ∷ ss) = last_listen v ss
last_listen d (target v ∷ ss) = last_listen d ss
last_listen d (web v ∷ ss) = last_listen d ss

abbrev last_target : List ℕ → List Setting → List ℕ
last_target d [] = d
last_target d (listen v ∷ ss) = last_target d ss
last_target d (target v ∷ ss) = last_target v ss
last_target d (web v ∷ ss) = last_target d ss

abbrev last_web : List ℕ → List Setting → List ℕ
last_web d [] = d
last_web d (listen v ∷ ss) = last_web d ss
last_web d (target v ∷ ss) = last_web d ss
last_web d (web v ∷ ss) = last_web v ss

abbrev pub chosen : Args → List Setting → Args
chosen a ss = record {
  listen = last_listen a.listen ss;
  target = last_target a.target ss;
  web = last_web a.web ss;
}

chosen-updated :
    (a : Args) (s : Setting) (ss : List Setting) → chosen (updated a s) ss ≡ chosen a (s ∷ ss)
chosen-updated a (listen v) ss = refl
chosen-updated a (target v) ss = refl
chosen-updated a (web v) ss = refl

abbrev ArmIs : List ℕ → Arm → Type 0
ArmIs arg listen_arm = arg ≡ codes "--listen"
ArmIs arg target_arm = arg ≡ codes "--target"
ArmIs arg web_arm = arg ≡ codes "--web"
ArmIs arg help_arm = Unit
ArmIs arg other_arm = Unit

arm_of-ArmIs : (arg : List ℕ) → ArmIs arg (arm_of arg)
unfolding arm_of
arm_of-ArmIs arg = elim (Bool-cases (text_eq arg (codes "--listen"))) [
  | inl l ↦ rw l (text_eq→≡ arg (codes "--listen") l)
  | inr not_l ↦ elim (Bool-cases (text_eq arg (codes "--target"))) [
    | inl t ↦ rw (not_l, t) (text_eq→≡ arg (codes "--target") t)
    | inr not_t ↦ elim (Bool-cases (text_eq arg (codes "--web"))) [
      | inl w ↦ rw (not_l, not_t, w) (text_eq→≡ arg (codes "--web") w)
      | inr not_w ↦ elim (Bool-cases (text_eq arg (codes "-h") || text_eq arg (codes "--help"))) [
        | inl h ↦ rw (not_l, not_t, not_w, h) tt
        | inr not_h ↦ rw (not_l, not_t, not_w, not_h) tt
      ]
    ]
  ]
]

parse_from-words : (a : Args) (ss : List Setting) → parse_from a (words ss) ≡ ok (chosen a ss)
unfolding parse_from arm_of
parse_from-words a [] = refl
parse_from-words a (listen v ∷ ss) = parse_from-words (record a { listen = v }) ss
parse_from-words a (target v ∷ ss) = parse_from-words (record a { target = v }) ss
parse_from-words a (web v ∷ ss) = parse_from-words (record a { web = v }) ss

-- What an accepted command line is: options with their values.
abbrev Accepted : Args → List (List ℕ) → Result Args ArgsError → Type 0
Accepted a args (ok b) = (ss : List Setting) × (args ≡ words ss) × (b ≡ chosen a ss)
Accepted a args (err e) = Unit

Accepted-cons :
    (s : Setting) (arg : List ℕ) (rest : List (List ℕ)) (a : Args) (r : Result Args ArgsError)
    → arg ≡ word_of s
    → Accepted (updated a s) rest r
    → Accepted a (arg ∷ value_of s ∷ rest) r
Accepted-cons s arg rest a (ok b) h (ss, e, l) =
    (s ∷ ss, ap₂ (λ w ws. w ∷ value_of s ∷ ws) h e, l ∙ chosen-updated a s ss)
Accepted-cons s arg rest a (err e) h k = tt

Accepted-set_value :
    (m : Arm) (arg value : List ℕ) (rest : List (List ℕ)) (a : Args)
    → ArmIs arg m
    → ((a' : Args) → Accepted a' rest (parse_from a' rest))
    → Accepted a
        (arg ∷ value ∷ rest)
        (and_loop (set_value m arg value a) (λ a'. parse_from a' rest))
Accepted-set_value listen_arm arg value rest a h k =
    Accepted-cons (listen value) arg rest a (parse_from _ rest) h (k _)
Accepted-set_value target_arm arg value rest a h k =
    Accepted-cons (target value) arg rest a (parse_from _ rest) h (k _)
Accepted-set_value web_arm arg value rest a h k =
    Accepted-cons (web value) arg rest a (parse_from _ rest) h (k _)
Accepted-set_value help_arm arg value rest a h k = tt
Accepted-set_value other_arm arg value rest a h k = tt

parse_from-Accepted : (a : Args) (args : List (List ℕ)) → Accepted a args (parse_from a args)
unfolding parse_from
parse_from-Accepted a [] = ([], refl, refl)
parse_from-Accepted a (arg ∷ []) = tt
parse_from-Accepted a (arg ∷ value ∷ rest) =
    Accepted-set_value (arm_of arg) arg value rest a (arm_of-ArmIs arg)
      (λ a'. parse_from-Accepted a' rest)

-- A command line is accepted exactly when it is a sequence of the options `--listen`, `--target` and
-- `--web`, each with a value behind it, which may be any text; then each of the three is its last
-- value, and its default if it has none.
pub parse_iff :
    (args : List (List ℕ)) (a : Args)
    → (parse args ≡ ok a) ↔ ((ss : List Setting) × (args ≡ words ss) × (a ≡ chosen defaults ss))
unfolding parse
parse_iff args a = (
  λ e. subst (Accepted defaults args) e (parse_from-Accepted defaults args),
  λ (ss, line, e). ap (parse_from defaults) line ∙ parse_from-words defaults ss ∙ ap ok (sym e),
)
