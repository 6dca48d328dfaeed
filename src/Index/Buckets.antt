-- ===== src/Index/Buckets.antt =====
-- exchange/index.go: the list of buckets. A bucket is an element of a `container/list`, whose
-- identity is a number, and holds a frequency and a set of refs, which are told apart by their
-- content id.
use mathlib.Core.Option
use go_hop_exchange.Prelude.{
  ℕ, ◌+◌, Bool, true, false, Option, none, some, List, [], ◌∷◌, ◌==◌, if◌then◌else◌,
}

pub record Bucket : Type 0 where
  pub place : ℕ
  pub id : ℕ
  pub entries : List ℕ

unfoldable pub contains : ℕ → List ℕ → Bool
contains k [] = false
contains k (x ∷ xs) = if x == k then true else contains k xs

-- `entries[ref] = 1`
unfoldable pub insert : ℕ → List ℕ → List ℕ
unfolding contains
insert k xs = if contains k xs then xs else k ∷ xs

-- `delete(entries, ref)`
unfoldable pub remove : ℕ → List ℕ → List ℕ
remove k [] = []
remove k (x ∷ xs) = let rest = remove k xs in if x == k then rest else x ∷ rest

abbrev pub enter : ℕ → Bucket → Bucket
enter k b = record b { entries = insert k b.entries }

-- A bucket goes from the list when its last entry does.
unfoldable pub unless_empty : Bucket → List Bucket → List Bucket
unless_empty b rest = elim b.entries [ [] ↦ rest | x ∷ xs ↦ b ∷ rest ]

-- The bucket and what follows it, without the entry.
unfoldable pub leave : ℕ → Bucket → List Bucket → List Bucket
unfolding unless_empty remove
leave k b rest = unless_empty (record b { entries = remove k b.entries }) rest

-- `remBlistEntry`; an element that is no longer in the list is left alone.
unfoldable pub rem_blist_entry : ℕ → ℕ → List Bucket → List Bucket
unfolding leave
rem_blist_entry place k [] = []
rem_blist_entry place k (b ∷ bs) =
    let rest = rem_blist_entry place k bs in if b.place == place then leave k b bs else b ∷ rest

unfoldable pub back : List Bucket → Option Bucket
back [] = none
back (b ∷ []) = some b
back (b ∷ c ∷ bs) = back (c ∷ bs)

-- Where an entry is put: the frequency of the bucket, the element, and the list.
pub record Placed : Type 0 where
  pub id : ℕ
  pub place : ℕ
  pub buckets : List Bucket

-- A new entry goes to the last bucket, or to a first bucket of its own.
unfoldable pub enter_back : ℕ → List Bucket → List Bucket
unfolding insert
enter_back k [] = []
enter_back k (b ∷ []) = enter k b ∷ []
enter_back k (b ∷ c ∷ bs) = b ∷ enter_back k (c ∷ bs)

unfoldable pub place_new : ℕ → ℕ → List Bucket → Placed
unfolding back enter_back
place_new fresh k bs = elim (back bs) [
  | none ↦ record {
    id = 1;
    place = fresh;
    buckets = record { place = fresh; id = 1; entries = k ∷ [] } ∷ bs;
  }
  | some b ↦ record { id = b.id; place = b.place; buckets = enter_back k bs }
]

-- An entry moves from its bucket to the next frequency: to the next bucket if it has that frequency,
-- and otherwise to a bucket of its own behind the current one.
unfoldable pub climb : ℕ → ℕ → Bucket → List Bucket → Placed
unfolding leave insert
climb fresh k b [] = record {
  id = b.id + 1;
  place = fresh;
  buckets = leave k b (record { place = fresh; id = b.id + 1; entries = k ∷ [] } ∷ []);
}
climb fresh k b (n ∷ bs) =
    if n.id == b.id + 1
    then record { id = b.id + 1; place = n.place; buckets = leave k b (enter k n ∷ bs) }
    else record {
      id = b.id + 1;
      place = fresh;
      buckets = leave k b (record { place = fresh; id = b.id + 1; entries = k ∷ [] } ∷ n ∷ bs);
    }

abbrev pub behind : Bucket → Placed → Placed
behind b p = record p { buckets = b ∷ p.buckets }

-- The same for the bucket that is the given element. `none` is an element that has left the list:
-- `InsertAfter` then gives nil, and the program panics.
unfoldable pub promote : ℕ → ℕ → ℕ → List Bucket → Option Placed
unfolding climb
promote fresh k place [] = none
promote fresh k place (b ∷ bs) =
    let rest = promote fresh k place bs in
    if b.place == place then some (climb fresh k b bs) else Option.map (behind b) rest
