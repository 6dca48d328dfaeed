-- ===== src/Exchange/Regions.antt =====
-- exchange/regions.go: the regions that are known by name, and those that a user names.
use Prim.Native.String.{String}
use text.Mathlib.Text.{◌==◌ as ◌=s=◌}
use go_hop_exchange.Prelude.{
  ℕ, ◌-◌, Option, none, some, List, [], ◌∷◌, ◌++◌, if◌then◌else◌, ℤ, pos, u64_mod,
}

-- A region's code is a number, as `RegionCode` is; `ppb` is the minimum price per byte.
pub record Region : Type 0 where
  pub name : String
  pub code : ℕ
  pub ppb : ℤ
  pub storage_miners : List String

-- The codes.
abbrev pub global_region : ℕ
global_region = 0

abbrev pub asia_region : ℕ
asia_region = 1

abbrev pub africa_region : ℕ
africa_region = 2

abbrev pub south_america_region : ℕ
south_america_region = 3

abbrev pub north_america_region : ℕ
north_america_region = 4

abbrev pub europe_region : ℕ
europe_region = 5

abbrev pub oceania_region : ℕ
oceania_region = 6

-- `math.MaxUint64`
abbrev pub custom_region : ℕ
custom_region = u64_mod - 1

abbrev priced : String → ℕ → List String → Region
priced name code miners = record { name = name; code = code; ppb = pos 1; storage_miners = miners }

abbrev pub asia : Region
asia =
    priced "Asia" asia_region
      ("f0159961" ∷ "f0242152" ∷ "f0225676" ∷ "f0165539" ∷ "f0216138" ∷ "f01272" ∷ [])

abbrev pub africa : Region
africa = priced "Africa" africa_region []

abbrev pub south_america : Region
south_america = priced "SouthAmerica" south_america_region []

abbrev pub north_america : Region
north_america = priced "NorthAmerica" north_america_region (
    "f02301" ∷ "f03223" ∷ "f019104" ∷ "f02401" ∷ "f02387" ∷ "f09848" ∷ "f08399" ∷ "f010088"
    ∷ "f064218" ∷ "f02540" ∷ "f015927" ∷ "f0135078" ∷ "f019104" ∷ "f047419" ∷ "f01278" ∷ "f010617"
    ∷ "f01247" ∷ "f022142" ∷ "f019279" ∷ [])

abbrev pub europe : Region
europe = priced "Europe" europe_region (
    "f01240" ∷ "f01234" ∷ "f022352" ∷ "f099608" ∷ "f02576" ∷ "f023467" ∷ "f03624" ∷ "f062353"
    ∷ "f081323" ∷ "f08403" ∷ "f010446" ∷ "f01277" ∷ "f022163" ∷ [])

abbrev pub oceania : Region
oceania = priced "Oceania" oceania_region ("f014365" ∷ [])

-- Global takes the miners of three of the others, and is free.
abbrev pub global : Region
global = record {
  name = "Global";
  code = global_region;
  ppb = pos 0;
  storage_miners =
      north_america.storage_miners ++ (europe.storage_miners ++ oceania.storage_miners);
}

-- `Regions`
abbrev pub regions : List (String × Region)
regions =
    ("Global", global)
    ∷ ("Asia", asia)
    ∷ ("Africa", africa)
    ∷ ("SouthAmerica", south_america)
    ∷ ("NorthAmerica", north_america)
    ∷ ("Europe", europe)
    ∷ ("Oceania", oceania)
    ∷ []

-- A look-up in a map with names as its keys.
unfoldable pub region_at : String → List (String × Region) → Option Region
region_at k [] = none
region_at k ((n, r) ∷ m) = if n =s= k then some r else region_at k m

-- A region that a user names; its price is not set.
abbrev pub custom : String → Region
custom name = record { name = name; code = custom_region; ppb = pos 0; storage_miners = [] }

-- The region of one name of `ParseRegions`: one that the map does not have has no name there.
unfoldable pub parse_region : List (String × Region) → String → Region
unfolding region_at
parse_region known s = elim (region_at s known) [
  | none ↦ custom s
  | some r ↦ if r.name =s= "" then custom s else r
]

-- `ParseRegions`, over the map.
unfoldable pub parse_regions : List (String × Region) → List String → List Region
unfolding parse_region
parse_regions known [] = []
parse_regions known (s ∷ ss) = parse_region known s ∷ parse_regions known ss

-- `RegionFromTopic`, by the name that `path.Split` takes off the topic.
unfoldable pub region_from_topic : (String → String) → List (String × Region) → String → Region
unfolding region_at
region_from_topic split known topic = elim (region_at (split topic) known) [
  | none ↦ custom (split topic)
  | some r ↦ r
]
