-- ===== src/Index/Order.antt =====
-- The order of the buckets of exchange/index.go: frequencies rise, and no bucket is empty.
use go_hop_exchange.Prelude.{
  ℕ, ◌+◌, ◌<◌, ◌≤◌, ◌≡◌, refl, sym, subst, Bool, true, false, some, List, [], ◌∷◌, arith, ◌==◌,
  if◌then◌else◌, Bool-cases, All, map-eq-some, eq_of_some, none≢some, inl, inr,
}
use go_hop_exchange.Index.Buckets.{
  Bucket, Placed, contains, insert, remove, unless_empty, leave, rem_blist_entry, back, enter_back,
  place_new, climb, behind, promote,
}

abbrev pub IsFull : List ℕ → Type 0
IsFull [] = ⊥
IsFull (x ∷ xs) = Unit {0}

-- Every bucket has an entry, and every later one a higher frequency.
abbrev pub IsOrdered : List Bucket → Type 0
IsOrdered [] = Unit {0}
IsOrdered (b ∷ bs) = IsFull b.entries × All (λ c. b.id < c.id) bs × IsOrdered bs

abbrev pub Above : ℕ → List Bucket → Type 0
Above n bs = All (λ c. n < c.id) bs

pub Above-mono : (n m : ℕ) (bs : List Bucket) → n ≤ m → Above m bs → Above n bs
Above-mono n m [] h a = tt
Above-mono n m (b ∷ bs) h a = (omega (arith, a.0), Above-mono n m bs h a.1)

pub insert-IsFull : (k : ℕ) (xs : List ℕ) → IsFull (insert k xs)
unfolding insert contains
insert-IsFull k [] = tt
insert-IsFull k (x ∷ xs) = full (contains k (x ∷ xs))
  where
    full : (b : Bool) → IsFull (if b then x ∷ xs else k ∷ x ∷ xs)
    full true = tt
    full false = tt

unless_empty-Above :
    (n : ℕ) (b : Bucket) (xs : List ℕ) (rest : List Bucket)
    → n < b.id
    → Above n rest
    → Above n (unless_empty (record b { entries = xs }) rest)
unfolding unless_empty
unless_empty-Above n b [] rest h a = a
unless_empty-Above n b (x ∷ xs) rest h a = (h, a)

unless_empty-IsOrdered :
    (b : Bucket) (xs : List ℕ) (rest : List Bucket)
    → Above b.id rest
    → IsOrdered rest
    → IsOrdered (unless_empty (record b { entries = xs }) rest)
unfolding unless_empty
unless_empty-IsOrdered b [] rest a o = o
unless_empty-IsOrdered b (x ∷ xs) rest a o = (tt, a, o)

rem_blist_entry-Above :
    (n place k : ℕ) (bs : List Bucket) → Above n bs → Above n (rem_blist_entry place k bs)
unfolding rem_blist_entry leave
rem_blist_entry-Above n place k [] a = tt
rem_blist_entry-Above n place k (b ∷ bs) a = elim (Bool-cases (b.place == place)) [
  | inl here ↦ rw here (unless_empty-Above n b (remove k b.entries) bs a.0 a.1)
  | inr there ↦ rw there (a.0, rem_blist_entry-Above n place k bs a.1)
]

-- `remBlistEntry` keeps the buckets in order.
pub rem_blist_entry-IsOrdered :
    (place k : ℕ) (bs : List Bucket) → IsOrdered bs → IsOrdered (rem_blist_entry place k bs)
unfolding rem_blist_entry leave
rem_blist_entry-IsOrdered place k [] o = tt
rem_blist_entry-IsOrdered place k (b ∷ bs) (full, a, o) = elim (Bool-cases (b.place == place)) [
  | inl here ↦ rw here (unless_empty-IsOrdered b (remove k b.entries) bs a o)
  | inr there ↦
      rw there
        (full, rem_blist_entry-Above b.id place k bs a, rem_blist_entry-IsOrdered place k bs o)
]

enter_back-Above : (n k : ℕ) (bs : List Bucket) → Above n bs → Above n (enter_back k bs)
unfolding enter_back
enter_back-Above n k [] a = tt
enter_back-Above n k (b ∷ []) a = a
enter_back-Above n k (b ∷ c ∷ bs) a = (a.0, enter_back-Above n k (c ∷ bs) a.1)

enter_back-IsOrdered : (k : ℕ) (bs : List Bucket) → IsOrdered bs → IsOrdered (enter_back k bs)
unfolding enter_back
enter_back-IsOrdered k [] o = tt
enter_back-IsOrdered k (b ∷ []) o = (insert-IsFull k b.entries, tt, tt)
enter_back-IsOrdered k (b ∷ c ∷ bs) o =
    (o.0, enter_back-Above b.id k (c ∷ bs) o.1, enter_back-IsOrdered k (c ∷ bs) o.2)

back-some : (b : Bucket) (bs : List Bucket) → (c : Bucket) × (back (b ∷ bs) ≡ some c)
unfolding back
back-some b [] = (b, refl)
back-some b (c ∷ bs) = back-some c bs

place_new-back :
    (fresh k : ℕ) (b c : Bucket) (bs : List Bucket)
    → back (b ∷ bs) ≡ some c
    → (place_new fresh k (b ∷ bs)).buckets ≡ enter_back k (b ∷ bs)
unfolding place_new
place_new-back fresh k b c bs e = rw (e, place_new) refl

pub place_new-IsOrdered :
    (fresh k : ℕ) (bs : List Bucket) → IsOrdered bs → IsOrdered (place_new fresh k bs).buckets
unfolding place_new back
place_new-IsOrdered fresh k [] o = (tt, tt, tt)
place_new-IsOrdered fresh k (b ∷ bs) o =
    let (c, e) = back-some b bs in
    subst IsOrdered (sym (place_new-back fresh k b c bs e)) (enter_back-IsOrdered k (b ∷ bs) o)

climb-Above :
    (n fresh k : ℕ) (b : Bucket) (bs : List Bucket)
    → n < b.id
    → Above n bs
    → Above n (climb fresh k b bs).buckets
unfolding climb leave
climb-Above n fresh k b [] h a = unless_empty-Above n b (remove k b.entries) _ h (omega arith, tt)
climb-Above n fresh k b (c ∷ bs) h a = elim (Bool-cases (c.id == b.id + 1)) [
  | inl next ↦ rw next (unless_empty-Above n b (remove k b.entries) _ h a)
  | inr gap ↦ rw gap (unless_empty-Above n b (remove k b.entries) _ h (omega arith, a))
]

gap_above : (b c : ℕ) → b < c → (c == b + 1) ≡ false → b + 1 < c
gap_above b c h e = ground arith

climb-IsOrdered :
    (fresh k : ℕ) (b : Bucket) (bs : List Bucket)
    → IsOrdered (b ∷ bs)
    → IsOrdered (climb fresh k b bs).buckets
unfolding climb leave
climb-IsOrdered fresh k b [] o =
    unless_empty-IsOrdered b (remove k b.entries) _ (omega arith, tt) (tt, tt, tt)
climb-IsOrdered fresh k b (c ∷ bs) (full, a, (full', a', o)) =
    elim (Bool-cases (c.id == b.id + 1)) [
      | inl next ↦
          rw next
            (unless_empty-IsOrdered b (remove k b.entries) _ a (insert-IsFull k c.entries, a', o))
      | inr gap ↦
          let higher = gap_above b.id c.id a.0 gap in
          rw gap (
            unless_empty-IsOrdered b (remove k b.entries) _ (omega arith, a)
              (tt, (higher, Above-mono (b.id + 1) c.id bs (omega arith) a'), (full', a', o)))
    ]

promote-Above :
    (n fresh k place : ℕ) (bs : List Bucket) (p : Placed)
    → promote fresh k place bs ≡ some p
    → Above n bs
    → Above n p.buckets
unfolding promote
promote-Above n fresh k place [] p h a = absurd (none≢some h)
promote-Above n fresh k place (b ∷ bs) p h a = elim (Bool-cases (b.place == place)) [
  | inl here ↦
      subst (λ q. Above n q.buckets) (eq_of_some (rw here at h))
        (climb-Above n fresh k b bs a.0 a.1)
  | inr there ↦
      let (q, found, e) = map-eq-some (behind b) (promote fresh k place bs) (rw there at h) in
      subst (λ q. Above n q.buckets) e (a.0, promote-Above n fresh k place bs q found a.1)
]

pub promote-IsOrdered :
    (fresh k place : ℕ) (bs : List Bucket) (p : Placed)
    → promote fresh k place bs ≡ some p
    → IsOrdered bs
    → IsOrdered p.buckets
unfolding promote
promote-IsOrdered fresh k place [] p h o = absurd (none≢some h)
promote-IsOrdered fresh k place (b ∷ bs) p h o = elim (Bool-cases (b.place == place)) [
  | inl here ↦
      subst (λ q. IsOrdered q.buckets) (eq_of_some (rw here at h)) (climb-IsOrdered fresh k b bs o)
  | inr there ↦
      let (q, found, e) = map-eq-some (behind b) (promote fresh k place bs) (rw there at h) in
      subst (λ q. IsOrdered q.buckets) e
        (
          o.0,
          promote-Above b.id fresh k place bs q found o.1,
          promote-IsOrdered fresh k place bs q found o.2,
        )
]
