-- ===== src/Exchange/Naming.antt =====
-- The names of the regions of exchange/regions.go.
use Prim.Native.String.{String}
use text.Mathlib.Text.{◌==◌ as ◌=s=◌}
use text.Mathlib.TextEquality.{eq_iff}
use go_hop_exchange.Prelude.{
  ◌≡◌, refl, ap, ap₂, sym, ◌∙◌, some, List, [], ◌∷◌, map, All, Bool-cases, Option-cases, eq_of_some,
  inl, inr,
}
use go_hop_exchange.Exchange.Regions.{Region, region_at, parse_region, parse_regions, regions}

-- A map whose keys are the names of its regions.
abbrev pub IsNamed : List (String × Region) → Type 0
IsNamed m = All (λ e. e.1.name ≡ e.0) m

region_at-name :
    (k : String) (m : List (String × Region)) {r : Region}
    → IsNamed m
    → region_at k m ≡ some r
    → r.name ≡ k
unfolding region_at
region_at-name k [] named h = cc
region_at-name k ((n, x) ∷ m) {r} named h = elim (Bool-cases (n =s= k)) [
  | inl same ↦ ap (λ y. y.name) (sym (eq_of_some (rw same at h))) ∙ named.0 ∙ (eq_iff n k).0 same
  | inr other ↦ region_at-name k m {r = r} named.1 (rw other at h)
]

parse_region-name :
    (m : List (String × Region)) (s : String) → IsNamed m → (parse_region m s).name ≡ s
unfolding parse_region
parse_region-name m s named = elim (Option-cases (region_at s m)) [
  | inl unknown ↦ rw (unknown, parse_region) refl
  | inr (r, known) ↦ elim (Bool-cases (r.name =s= "")) [
    | inl nameless ↦ rw (known, parse_region) (rw nameless refl)
    | inr proper ↦ rw (known, parse_region) (rw proper (region_at-name s m named known))
  ]
]

regions-IsNamed : IsNamed regions
regions-IsNamed = (refl, (refl, (refl, (refl, (refl, (refl, (refl, tt)))))))

-- `ParseRegions` gives one region for each of the names, in their order and with that name: a preset
-- one or a custom one.
parse_regions-names : (ss : List String) → map (λ r. r.name) (parse_regions regions ss) ≡ ss
unfolding parse_regions
parse_regions-names [] = refl
parse_regions-names (s ∷ ss) =
    ap₂ (λ a b. a ∷ b) (parse_region-name regions s regions-IsNamed) (parse_regions-names ss)
