-- ===== src/Index/Keeping.antt =====
-- What the operations of exchange/index.go do to the order of the buckets, and to the size.
use go_hop_exchange.Prelude.{
  ℕ, ◌+◌, ◌≡◌, refl, ap, sym, ◌∙◌, subst, true, false, some, List, [], ◌∷◌, Bool-cases,
  Option-cases, map-eq-some, eq_of_some, inl, inr, leb, ◌⊎◌, All, ◌==◌, ==_self, u64,
}
use go_hop_exchange.Index.Buckets.{Bucket, promote, rem_blist_entry, remove, leave, unless_empty}
use go_hop_exchange.Index.Refs.{DataRef, Storage, Index, find, increment}
use go_hop_exchange.Index.Lfu.{tag_for_gc, evict_entry, evict_entries, evict_from, evict}
use go_hop_exchange.Index.Order.{
  IsOrdered, IsFull, place_new-IsOrdered, promote-IsOrdered, rem_blist_entry-IsOrdered,
}

-- A read or a write of a ref, which moves it to a higher frequency or places it in the list, keeps
-- the buckets in order: each has an entry, and every later one a higher frequency.
pub increment-IsOrdered :
    {W : Type 0} (ref : DataRef) (idx idx' : Index W)
    → increment ref idx ≡ some idx'
    → IsOrdered idx.blist
    → IsOrdered idx'.blist
unfolding increment
increment-IsOrdered ref idx idx' h o = elim (Option-cases ref.bucket_node) [
  | inl new ↦
      subst (λ i. IsOrdered i.blist) (eq_of_some (rw (new, increment) at h))
        (place_new-IsOrdered idx.fresh ref.payload_cid idx.blist o)
  | inr (place, here) ↦
      let (p, moved, e) =
        map-eq-some _ (promote idx.fresh ref.payload_cid place idx.blist)
          (rw (here, increment) at h) in
      subst (λ i. IsOrdered i.blist) e
        (promote-IsOrdered idx.fresh ref.payload_cid place idx.blist p moved o)
]

-- What is left of the buckets once refs of the first one are evicted: it is there, or it is not.
abbrev pub FirstOf : ℕ → List Bucket → List Bucket → Type 0
FirstOf place rest bs = (bs ≡ rest) ⊎ ((b : Bucket) × (b.place ≡ place) × (bs ≡ b ∷ rest))

rem_blist_entry_absent :
    (place k : ℕ) (bs : List Bucket)
    → All (λ c. (c.place == place) ≡ false) bs
    → rem_blist_entry place k bs ≡ bs
unfolding rem_blist_entry
rem_blist_entry_absent place k [] a = refl
rem_blist_entry_absent place k (b ∷ bs) a =
    rw (a.0, rem_blist_entry) (ap (λ l. b ∷ l) (rem_blist_entry_absent place k bs a.1))

leave-FirstOf :
    (place : ℕ) (b : Bucket) (xs : List ℕ) (rest : List Bucket)
    → b.place ≡ place
    → FirstOf place rest (unless_empty (record b { entries = xs }) rest)
unfolding unless_empty
leave-FirstOf place b [] rest e = inl refl
leave-FirstOf place b (x ∷ xs) rest e = inr (record b { entries = x ∷ xs }, e, refl)

rem_blist_entry_first :
    (place k : ℕ) (b : Bucket) (rest : List Bucket)
    → b.place ≡ place
    → FirstOf place rest (rem_blist_entry place k (b ∷ rest))
unfolding rem_blist_entry leave
rem_blist_entry_first place k b rest e =
    let here : (b.place == place) ≡ true = ap (λ p. p == place) e ∙ ==_self place in
    rw here (leave-FirstOf place b (remove k b.entries) rest e)

rem_blist_entry-FirstOf :
    (place k : ℕ) (rest bs : List Bucket)
    → All (λ c. (c.place == place) ≡ false) rest
    → FirstOf place rest bs
    → FirstOf place rest (rem_blist_entry place k bs)
rem_blist_entry-FirstOf place k rest bs a (inl gone) =
    inl (ap (rem_blist_entry place k) gone ∙ rem_blist_entry_absent place k rest a)
rem_blist_entry-FirstOf place k rest bs a (inr (b, e, there)) =
    subst (FirstOf place rest) (ap (rem_blist_entry place k) (sym there))
      (rem_blist_entry_first place k b rest e)

module _ {W : Type 0} (storage : Storage W) where
  evict_entry-blist :
      (place : ℕ) (ref : DataRef) (idx : Index W)
      → (evict_entry storage place ref idx).blist ≡ rem_blist_entry place ref.payload_cid idx.blist
  unfolding evict_entry tag_for_gc
  evict_entry-blist place ref idx = refl

  evict_entries-blist :
      (P : List Bucket → Type 0) (size place : ℕ)
      → ((k : ℕ) (bs : List Bucket) → P bs → P (rem_blist_entry place k bs))
      → (ks : List ℕ) (evicted : ℕ) (idx : Index W) → P idx.blist
      → P (evict_entries storage size place evicted ks idx).2.blist
  unfolding evict_entries
  evict_entries-blist P size place keep [] evicted idx p = p
  evict_entries-blist P size place keep (k ∷ ks) evicted idx p =
      elim (Option-cases (find k idx.refs)) [
        | inl lost ↦
            rw (lost, evict_entries) (evict_entries-blist P size place keep ks evicted idx p)
        | inr (ref, here) ↦
            let idx' = evict_entry storage place ref idx in
            let evicted' = u64 (evicted + ref.payload_size) in
            let p' =
              subst P (sym (evict_entry-blist place ref idx)) (keep ref.payload_cid idx.blist p) in
            elim (Bool-cases (leb size evicted')) [
              | inl enough ↦ rw (here, evict_entries) (rw enough p')
              | inr more ↦
                  rw (here, evict_entries)
                    (rw more (evict_entries-blist P size place keep ks evicted' idx' p'))
            ]
      ]

  evict_from-blist :
      (P : List Bucket → Type 0) (size : ℕ)
      → ((place k : ℕ) (bs : List Bucket) → P bs → P (rem_blist_entry place k bs))
      → (bs : List Bucket) (idx : Index W) → P idx.blist
      → P (evict_from storage size bs idx).1.blist
  unfolding evict_from
  evict_from-blist P size keep [] idx p = p
  evict_from-blist P size keep (b ∷ bs) idx p =
      by_entries b.entries refl (evict_from-blist P size keep bs idx p)
    where
      by_entries :
          (es : List ℕ)
          → b.entries ≡ es
          → P (evict_from storage size bs idx).1.blist
          → P (evict_from storage size (b ∷ bs) idx).1.blist
      by_entries [] e q = rw (e, evict_from) q
      by_entries (k ∷ ks) e q =
          rw (e, evict_from) (evict_entries-blist P size b.place (keep b.place) (k ∷ ks) 0 idx p)

  -- An eviction keeps the buckets in order.
  pub evict-IsOrdered :
      (size : ℕ) (idx : Index W) → IsOrdered idx.blist → IsOrdered (evict storage size idx).1.blist
  unfolding evict
  evict-IsOrdered size idx o =
      evict_from-blist IsOrdered size rem_blist_entry-IsOrdered idx.blist idx o

  evict_from_first :
      (size : ℕ) (idx : Index W) (b : Bucket) (rest : List Bucket)
      → FirstOf b.place rest idx.blist
      → IsFull b.entries
      → All (λ c. (c.place == b.place) ≡ false) rest
      → FirstOf b.place rest (evict_from storage size (b ∷ rest) idx).1.blist
  unfolding evict_from
  evict_from_first size idx b rest first full apart = by_entries b.entries refl full
    where
      by_entries :
          (es : List ℕ)
          → b.entries ≡ es
          → IsFull es
          → FirstOf b.place rest (evict_from storage size (b ∷ rest) idx).1.blist
      by_entries [] e f = absurd f
      by_entries (k ∷ ks) e f =
          rw (e, evict_from)
            (evict_entries-blist (FirstOf b.place rest) size b.place
              (λ k bs. rem_blist_entry-FirstOf b.place k rest bs apart) (k ∷ ks) 0 idx first)

  -- An eviction takes refs of the first bucket only, however much it is to free: the buckets behind
  -- it are left as they are, where it has an entry and the elements of the list are told apart.
  pub evict-FirstOf :
      (size : ℕ) (idx : Index W) (b : Bucket) (rest : List Bucket)
      → idx.blist ≡ b ∷ rest
      → IsFull b.entries
      → All (λ c. (c.place == b.place) ≡ false) rest
      → FirstOf b.place rest (evict storage size idx).1.blist
  unfolding evict
  evict-FirstOf size idx b rest e full apart =
      subst (λ bs. FirstOf b.place rest (evict_from storage size bs idx).1.blist) (sym e)
        (evict_from_first size idx b rest (inr (b, refl, e)) full apart)
