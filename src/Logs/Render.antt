-- ===== src/Logs/Render.antt =====
-- The text of an event of logs.rs.
use esp32_dap_proxy.Prelude.{
  ℕ, ◌≡◌, refl, sym, ap, ◌∙◌, true, false, List, [], ◌∷◌, ◌++◌, if◌then◌else◌, append_assoc,
  append-nil,
}
use esp32_dap_proxy.Prelude.Text.{codes, text_eq}
use esp32_dap_proxy.Logs.{
  Field, FieldCollector, collect, push_fields, pop, pop_cons, append_extra, event_message,
}

-- The text of the last field with the name `message`.
abbrev pub message_of : List ℕ → List Field → List ℕ
message_of m [] = m
message_of m ((name, text) ∷ fs) =
    if text_eq name (codes "message") then message_of text fs else message_of m fs

-- The other fields, in order.
abbrev pub others : List Field → List Field
others [] = []
others ((name, text) ∷ fs) =
    let rest = others fs in if text_eq name (codes "message") then rest else (name, text) ∷ rest

-- Each of them behind a space.
abbrev pub pairs : List Field → List ℕ
pairs [] = []
pairs ((name, text) ∷ fs) = codes " " ++ (name ++ (codes "=" ++ text)) ++ pairs fs

pop-append : (cs : List ℕ) (c : ℕ) → pop (cs ++ (c ∷ [])) ≡ cs
pop-append [] c = refl
pop-append (d ∷ ds) c = pop_cons-append d ds
  where
    pop_cons-append : (d : ℕ) (ds : List ℕ) → pop_cons d (ds ++ (c ∷ [])) ≡ d ∷ ds
    pop_cons-append d [] = refl
    pop_cons-append d (e ∷ es) = ap (λ cs. d ∷ cs) (pop_cons-append e es)

push_fields-pairs :
    (m : List ℕ) (fs : List Field) → push_fields (m ++ codes " ") fs ≡ (m ++ pairs fs) ++ codes " "
push_fields-pairs m [] = rw append-nil
push_fields-pairs m ((name, text) ∷ fs) =
    let field = name ++ (codes "=" ++ text) in
    let next = m ++ (codes " " ++ field) in
    let pushed : (m ++ codes " ") ++ (name ++ (codes "=" ++ (text ++ codes " ")))
        ≡ next ++ codes " " =
      simp append_assoc in
    let whole : next ++ pairs fs ≡ m ++ pairs ((name, text) ∷ fs) = simp append_assoc in
    ap (λ cs. push_fields cs fs) pushed
    ∙ push_fields-pairs next fs
    ∙ ap (λ cs. cs ++ codes " ") whole

append_extra-pairs : (m : List ℕ) (fs : List Field) → append_extra m fs ≡ m ++ pairs fs
append_extra-pairs m [] = sym (append-nil m)
append_extra-pairs m (f ∷ fs) =
    ap pop (push_fields-pairs m (f ∷ fs)) ∙ pop-append (m ++ pairs (f ∷ fs)) 32

collect-others :
    (v : FieldCollector) (fs : List Field)
    → ((collect v fs).message ≡ message_of v.message fs)
      × ((collect v fs).extra ≡ v.extra ++ others fs)
collect-others v [] = (refl, sym (append-nil v.extra))
collect-others v ((name, text) ∷ fs) =
    let as_message = record v { message = text } in
    let as_extra = record v { extra = v.extra ++ ((name, text) ∷ []) } in
    let rest = others fs in
    elim (text_eq name (codes "message"))
      as (λ b.
        ((collect (if b then as_message else as_extra) fs).message
          ≡ (if b then message_of text fs else message_of v.message fs))
        × ((collect (if b then as_message else as_extra) fs).extra
            ≡ v.extra ++ (if b then rest else (name, text) ∷ rest))) [
              | true ↦ collect-others as_message fs
              | false ↦
                  let (kept, more) = collect-others as_extra fs in
                  (kept, more ∙ append_assoc v.extra ((name, text) ∷ []) rest)
            ]

-- The text of a log event is that of its last field named `message`, empty if there is none, and
-- behind it, each after one space, `name=value` for every other field in order; nothing follows the
-- last of them.
pub event_message-pairs :
    (fields : List Field) → event_message fields ≡ message_of [] fields ++ pairs (others fields)
unfolding event_message
event_message-pairs fields =
    let (message, extra) = collect-others (record { message = []; extra = [] }) fields in
    rw (message, extra) (append_extra-pairs (message_of [] fields) (others fields))
