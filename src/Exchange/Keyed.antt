-- ===== src/Exchange/Keyed.antt =====
-- Maps with text as their keys, as exchange/tx.go and exchange/routing.go have them.
use Prim.Native.String.{String}
use package.text.Mathlib.Text.{◌==◌ as ◌=s=◌}
use package.text.Mathlib.TextEquality.{eq_iff}
use go_hop_exchange.Prelude.{
  ◌≡◌, refl, sym, ◌∙◌, true≢false, Option, none, some, List, [], ◌∷◌, if◌then◌else◌, Bool-cases,
  inl, inr,
}

-- Look-up and assignment in a map with text as its keys.
unfoldable pub at_key : {A : Type 0} → String → List (String × A) → Option A
at_key k [] = none
at_key k ((j, a) ∷ m) = if j =s= k then some a else at_key k m

unfoldable pub with_key : {A : Type 0} → String → A → List (String × A) → List (String × A)
with_key k a [] = (k, a) ∷ []
with_key k a ((j, b) ∷ m) =
    let rest = with_key k a m in if j =s= k then (k, a) ∷ m else (j, b) ∷ rest

pub at_key-with_key :
    {A : Type 0} (k j : String) (e : A) (es : List (String × A))
    → at_key k (with_key j e es) ≡ (if j =s= k then some e else at_key k es)
unfolding at_key with_key
at_key-with_key k j e [] = refl
at_key-with_key k j e ((i, x) ∷ es) = elim (Bool-cases (i =s= j)) [
  | inl same ↦ elim (Bool-cases (j =s= k)) [
    | inl here ↦ rw (same, here)
    | inr away ↦ rw (same, away, (eq_iff i j).0 same, away)
  ]
  | inr other ↦ elim (Bool-cases (i =s= k)) [
    | inr away ↦ rw (other, away) (at_key-with_key k j e es)
    | inl here ↦ elim (Bool-cases (j =s= k)) [
      | inr away ↦ rw (other, here, away)
      | inl there ↦ absurd (
          true≢false
            (sym ((eq_iff i j).1 ((eq_iff i k).0 here ∙ sym ((eq_iff j k).0 there))) ∙ other))
    ]
  ]
]
