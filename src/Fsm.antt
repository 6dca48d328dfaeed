-- ===== src/Fsm.antt =====
-- The state-machine engine that both ends of a retrieval run on, github.com/filecoin-project/
-- go-statemachine/fsm. It is no code of the repository: `Engine` is its interface, with what its
-- documentation says of an event as laws. The charts of client and provider are lists of `Rule`,
-- written with the words of the engine (`From`, `FromAny`, `To`, `ToNoChange`, `ToJustRecord`).
use go_hop_exchange.Prelude.{
  ◌≡◌, ◌≢◌, refl, sym, ap, ◌⊎◌, inl, inr, Bool, true, false, Option, none, some, List, [], ◌∷◌,
  if◌then◌else◌, Any, Bool-cases, Option-cases, eq_of_some, ◌∙◌,
}
use go_hop_exchange.Deal.Status.{Status, same_status, same_status→eq}

pub data Source : Type 0 where
  from : Status → Source
  from_any : Source

pub data Target : Type 0 where
  to : Status → Target
  no_change : Target
  just_record : Target

pub record Rule : Type 0 where
  pub source : Source
  pub target : Target

abbrev pub ◌⇒◌ : Status → Status → Rule
s ⇒ t = record { source = from s; target = to t }

infix 50 ◌⇒◌
abbrev pub any⇒ : Status → Rule
any⇒ t = record { source = from_any; target = to t }

abbrev pub stays : Status → Rule
stays s = record { source = from s; target = no_change }

abbrev pub records : Status → Rule
records s = record { source = from s; target = just_record }

-- The rule that names the status, and the rule for every status.
exact : Status → Source → Target → Option Target → Option Target
exact s (from x) t rest = if same_status x s then some t else rest
exact s from_any t rest = rest

exact_rule : Status → List Rule → Option Target
unfolding exact
exact_rule s [] = none
exact_rule s (r ∷ rs) = exact s r.source r.target (exact_rule s rs)

general : Source → Target → Option Target → Option Target
general (from _) t rest = rest
general from_any t rest = some t

any_rule : List Rule → Option Target
unfolding general
any_rule [] = none
any_rule (r ∷ rs) = general r.source r.target (any_rule rs)

-- A rule that names the status goes before `FromAny`.
unfoldable pub route : Status → List Rule → Option Target
unfolding exact_rule any_rule same_status
route s rs = elim (exact_rule s rs) [ none ↦ any_rule rs | some t ↦ some t ]

-- What becomes of an event: it is refused as an invalid transition; its action panics or does not
-- return; or the state is changed, and the flag says whether the handler of the status is run.
pub data Outcome (S : Type 0) : Type 0 where
  refused : Outcome S
  crashed : Outcome S
  fired : S → Bool → Outcome S

pub record Engine : Type 1 where
  -- `fire S rules status set_status action s`
  pub fire :
      (S : Type 0) → List Rule → (S → Status) → (Status → S → S) → (S → Option S) → S → Outcome S
  pub fire_refused :
      (S : Type 0) (rules : List Rule) (get : S → Status) (put : Status → S → S)
      (act : S → Option S) (s : S)
      → route (get s) rules ≡ none
      → fire S rules get put act s ≡ refused
  pub fire_crashed :
      (S : Type 0) (rules : List Rule) (get : S → Status) (put : Status → S → S)
      (act : S → Option S) (s : S) (t : Target)
      → route (get s) rules ≡ some t
      → act s ≡ none
      → fire S rules get put act s ≡ crashed
  pub fire_moved :
      (S : Type 0) (rules : List Rule) (get : S → Status) (put : Status → S → S)
      (act : S → Option S) (s : S) (x : Status) (s' : S)
      → route (get s) rules ≡ some (to x)
      → act s ≡ some s'
      → fire S rules get put act s ≡ fired (put x s') true
  pub fire_stayed :
      (S : Type 0) (rules : List Rule) (get : S → Status) (put : Status → S → S)
      (act : S → Option S) (s : S) (s' : S)
      → route (get s) rules ≡ some no_change
      → act s ≡ some s'
      → fire S rules get put act s ≡ fired s' true
  pub fire_recorded :
      (S : Type 0) (rules : List Rule) (get : S → Status) (put : Status → S → S)
      (act : S → Option S) (s : S) (s' : S)
      → route (get s) rules ≡ some just_record
      → act s ≡ some s'
      → fire S rules get put act s ≡ fired s' false

-- The same laws as a function of the target and of the action's result.
abbrev pub land : {S : Type 0} → (Status → S → S) → Target → S → Outcome S
land put (to x) s = fired (put x s) true
land put no_change s = fired s true
land put just_record s = fired s false

abbrev pub settle : {S : Type 0} → (Status → S → S) → Option Target → Option S → Outcome S
settle put none r = refused
settle put (some t) none = crashed
settle put (some t) (some s) = land put t s

pub fire-settle :
    (engine : Engine) (S : Type 0) (rules : List Rule) (get : S → Status) (put : Status → S → S)
    (act : S → Option S) (s : S)
    → engine.fire S rules get put act s ≡ settle put (route (get s) rules) (act s)
fire-settle engine S rules get put act s = elim (Option-cases (route (get s) rules)) [
  | inl e ↦ rw e (engine.fire_refused S rules get put act s e)
  | inr (t, e) ↦ elim (Option-cases (act s)) [
    | inl a ↦ rw (e, a) (engine.fire_crashed S rules get put act s t e a)
    | inr (s', a) ↦ rw (e, a) (landed t s' e a)
  ]
]
  where
    landed :
        (t : Target) (s' : S)
        → route (get s) rules ≡ some t
        → act s ≡ some s'
        → engine.fire S rules get put act s ≡ land put t s'
    landed (to x) s' e a = engine.fire_moved S rules get put act s x s' e a
    landed no_change s' e a = engine.fire_stayed S rules get put act s s' e a
    landed just_record s' e a = engine.fire_recorded S rules get put act s s' e a

pub eq_of_fired : {S : Type 0} {a b : S} {x y : Bool} → fired a x ≡ fired b y → a ≡ b
eq_of_fired h = cc

refused≢fired : {S : Type 0} (u : S) (handled : Bool) → refused ≢ fired u handled
refused≢fired u handled h = cc

crashed≢fired : {S : Type 0} (u : S) (handled : Bool) → crashed ≢ fired u handled
crashed≢fired u handled h = cc

-- A rule by which an event may be taken in the status `s` to the target `t`.
abbrev pub Applies : Status → Target → Rule → Type 0
Applies s t r = (r.target ≡ t) × ((r.source ≡ from s) ⊎ (r.source ≡ from_any))

exact-cases :
    (s : Status) (source : Source) (x : Target) (rest : Option Target) (t : Target)
    → exact s source x rest ≡ some t
    → ((x ≡ t) × (source ≡ from s)) ⊎ (rest ≡ some t)
unfolding exact
exact-cases s (from y) x rest t h = elim (Bool-cases (same_status y s)) [
  | inl same ↦ inl (eq_of_some (rw same at h), ap from (same_status→eq y s same))
  | inr other ↦ inr (rw other at h)
]
exact-cases s from_any x rest t h = inr h

exact_rule-Applies :
    (s : Status) (rs : List Rule) (t : Target) → exact_rule s rs ≡ some t → Any (Applies s t) rs
unfolding exact_rule
exact_rule-Applies s [] t h = cc
exact_rule-Applies s (r ∷ rs) t h = elim (exact-cases s r.source r.target (exact_rule s rs) t h) [
  | inl (same, here) ↦ inl (same, inl here)
  | inr later ↦ inr (exact_rule-Applies s rs t later)
]

general-cases :
    (source : Source) (x : Target) (rest : Option Target) (t : Target)
    → general source x rest ≡ some t
    → ((x ≡ t) × (source ≡ from_any)) ⊎ (rest ≡ some t)
unfolding general
general-cases (from _) x rest t h = inr h
general-cases from_any x rest t h = inl (eq_of_some h, refl)

any_rule-Applies :
    (s : Status) (rs : List Rule) (t : Target) → any_rule rs ≡ some t → Any (Applies s t) rs
unfolding any_rule
any_rule-Applies s [] t h = cc
any_rule-Applies s (r ∷ rs) t h = elim (general-cases r.source r.target (any_rule rs) t h) [
  | inl (same, here) ↦ inl (same, inr here)
  | inr later ↦ inr (any_rule-Applies s rs t later)
]

-- The target of an event comes from a rule for the status or from one for every status.
pub route-Applies :
    (s : Status) (rs : List Rule) (t : Target) → route s rs ≡ some t → Any (Applies s t) rs
unfolding route
route-Applies s rs t h = elim (Option-cases (exact_rule s rs)) [
  | inl e ↦ any_rule-Applies s rs t (rw (e, route) at h)
  | inr (x, e) ↦ exact_rule-Applies s rs t (e ∙ rw (e, route) at h)
]

-- An event that fires took some target, and its action gave a state.
pub fire-eq-fired :
    (engine : Engine) (S : Type 0) (rules : List Rule) (get : S → Status) (put : Status → S → S)
    (act : S → Option S) (s : S) (u : S) (handled : Bool)
    → engine.fire S rules get put act s ≡ fired u handled
    → (t : Target) × (s' : S) × (route (get s) rules ≡ some t)
      × (act s ≡ some s')
      × (land put t s' ≡ fired u handled)
fire-eq-fired engine S rules get put act s u handled h =
    let h' = sym (fire-settle engine S rules get put act s) ∙ h in
    elim (Option-cases (route (get s) rules)) [
      | inl e ↦ absurd (refused≢fired u handled (rw e at h'))
      | inr (t, e) ↦ elim (Option-cases (act s)) [
        | inl a ↦ absurd (crashed≢fired u handled (rw (e, a) at h'))
        | inr (s', a) ↦ (t, s', e, a, rw (e, a) at h')
      ]
    ]
