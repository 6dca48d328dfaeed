-- ===== src/Exchange/Selection.antt =====
-- The peers that `Peers` of exchange/peermgr.go selects.
use go_hop_exchange.Prelude.{
  ℕ, ◌+◌, ◌≤◌, ◌<◌, ◌≡◌, refl, sym, subst, ◌⊎◌, inl, inr, Bool, true, false, List, [], ◌∷◌, ◌++◌,
  ◌==◌, Bool-cases, arith, All, Any, length, length-append, ==_iff,
}
use go_hop_exchange.Exchange.Regions.{Region}
use go_hop_exchange.Exchange.Peers.{Peer, PeerMgr, in_region, pick, pick_all, peers_for}

All-append : {A : Type 0} (P : A → Type 0) (xs ys : List A) → All P xs → All P ys → All P (xs ++ ys)
All-append P [] ys a b = b
All-append P (x ∷ xs) ys a b = (a.0, All-append P xs ys a.1 b)

-- The codes hold this one.
abbrev pub Names : ℕ → List ℕ → Type 0
Names code rcs = Any (λ rc. rc ≡ code) rcs

in_region-All :
    (P : ℕ → Type 0) (p code : ℕ) (rcs : List ℕ)
    → (Names code rcs → P p)
    → All P (in_region p code rcs)
unfolding in_region
in_region-All P p code [] h = tt
in_region-All P p code (rc ∷ rcs) h = elim (Bool-cases (rc == code)) [
  | inl same ↦
      rw same (h (inl ((==_iff rc code).0 same)), in_region-All P p code rcs (λ n. h (inr n)))
  | inr other ↦ rw other (in_region-All P p code rcs (λ n. h (inr n)))
]

-- A peer that is not ignored and names the region.
abbrev pub Fitting : (ℕ → Bool) → ℕ → ℕ × Peer → Type 0
Fitting ignore code e = (ignore e.0 ≡ false) × Names code e.1.regions

pick-All :
    (P : ℕ → Type 0) (n : ℕ) (ignore : ℕ → Bool) (code : ℕ) (ps : List (ℕ × Peer)) (out : List ℕ)
    → All (λ e. Fitting ignore code e → P e.0) ps
    → All P out
    → All P (pick n ignore code ps out).1
unfolding pick
pick-All P n ignore code [] out each a = a
pick-All P n ignore code ((p, v) ∷ ps) out each a = elim (Bool-cases (ignore p)) [
  | inl ignored ↦ rw (ignored, pick) (pick-All P n ignore code ps out each.1 a)
  | inr open' ↦
      let out' = out ++ in_region p code v.regions in
      let a' : All P out' =
        All-append P out (in_region p code v.regions) a
          (in_region-All P p code v.regions (λ m. each.0 (open', m))) in
      elim (Bool-cases (length out' == n)) [
        | inl enough ↦ rw (open', pick) (rw enough a')
        | inr few ↦ rw (open', pick) (rw few (pick-All P n ignore code ps out' each.1 a'))
      ]
]

-- A peer that one of the regions fits.
abbrev pub IsChosen : List Region → (ℕ → Bool) → List (ℕ × Peer) → ℕ → Type 0
IsChosen rl ignore ps p = Any (λ r. Any (λ e. (e.0 ≡ p) × Fitting ignore r.code e) ps) rl

Fitting-All :
    (P : ℕ → Type 0) (ignore : ℕ → Bool) (code : ℕ) (ps : List (ℕ × Peer))
    → ((p : ℕ) → Any (λ e. (e.0 ≡ p) × Fitting ignore code e) ps → P p)
    → All (λ e. Fitting ignore code e → P e.0) ps
Fitting-All P ignore code [] h = tt
Fitting-All P ignore code (e ∷ ps) h =
    (λ f. h e.0 (inl (refl, f)), Fitting-All P ignore code ps (λ p a. h p (inr a)))

pub pick_all-All :
    (P : ℕ → Type 0) (n : ℕ) (ignore : ℕ → Bool) (ps : List (ℕ × Peer)) (rl : List Region)
    (out : List ℕ)
    → ((p : ℕ) → IsChosen rl ignore ps p → P p)
    → All P out
    → All P (pick_all n ignore ps rl out)
unfolding pick_all
pick_all-All P n ignore ps [] out h a = a
pick_all-All P n ignore ps (r ∷ rl) out h a =
    let a' =
      pick-All P n ignore r.code ps out (Fitting-All P ignore r.code ps (λ p f. h p (inl f))) a in
    elim (Bool-cases (pick n ignore r.code ps out).0) [
      | inl enough ↦ rw (enough, pick_all) a'
      | inr few ↦
          rw (few, pick_all)
            (pick_all-All P n ignore ps rl (pick n ignore r.code ps out).1 (λ p f. h p (inr f)) a')
    ]

-- No code twice.
abbrev pub IsDistinct : List ℕ → Type 0
IsDistinct [] = Unit {0}
IsDistinct (rc ∷ rcs) = All (λ c. (c == rc) ≡ false) rcs × IsDistinct rcs

in_region_absent :
    (p code : ℕ) (rcs : List ℕ) → All (λ c. (c == code) ≡ false) rcs → in_region p code rcs ≡ []
unfolding in_region
in_region_absent p code [] a = refl
in_region_absent p code (rc ∷ rcs) a = rw a.0 (in_region_absent p code rcs a.1)

in_region-length : (p code : ℕ) (rcs : List ℕ) → IsDistinct rcs → length (in_region p code rcs) ≤ 1
unfolding in_region
in_region-length p code [] d = omega arith
in_region-length p code (rc ∷ rcs) d = elim (Bool-cases (rc == code)) [
  | inr other ↦ rw other (in_region-length p code rcs d.1)
  | inl same ↦
      let e = (==_iff rc code).0 same in
      let none_left =
        in_region_absent p code rcs (subst (λ c. All (λ x. (x == c) ≡ false) rcs) e d.0) in
      rw same (rw none_left (omega arith))
]

-- There are enough, or fewer.
abbrev Within : ℕ → Bool × List ℕ → Type 0
Within n r = ((r.0 ≡ true) × (length r.1 ≡ n)) ⊎ ((r.0 ≡ false) × (length r.1 < n))

one_more : (n k l : ℕ) → k < n → l ≤ 1 → (k + l == n) ≡ false → k + l < n
one_more n k l a b c = ground arith

pick-Within :
    (n : ℕ) (ignore : ℕ → Bool) (code : ℕ) (ps : List (ℕ × Peer)) (out : List ℕ)
    → length out < n
    → All (λ e. IsDistinct e.1.regions) ps
    → Within n (pick n ignore code ps out)
unfolding pick
pick-Within n ignore code [] out h d = inr (refl, h)
pick-Within n ignore code ((p, v) ∷ ps) out h d = elim (Bool-cases (ignore p)) [
  | inl ignored ↦ rw (ignored, pick) (pick-Within n ignore code ps out h d.1)
  | inr open' ↦
      let new = in_region p code v.regions in
      elim (Bool-cases (length (out ++ new) == n)) [
        | inl enough ↦ rw (open', pick) (rw enough (inl (refl, (==_iff _ n).0 enough)))
        | inr few ↦
            let l = length-append out new in
            let less : length (out ++ new) < n =
              subst (λ k. k < n) (sym l)
                (one_more n (length out) (length new) h (in_region-length p code v.regions d.0)
                  (subst (λ k. (k == n) ≡ false) l few)) in
            rw (open', pick) (rw few (pick-Within n ignore code ps (out ++ new) less d.1))
      ]
]

pick_all-length :
    (n : ℕ) (ignore : ℕ → Bool) (ps : List (ℕ × Peer)) (rl : List Region) (out : List ℕ)
    → length out < n
    → All (λ e. IsDistinct e.1.regions) ps
    → length (pick_all n ignore ps rl out) ≤ n
unfolding pick_all
pick_all-length n ignore ps [] out h d = omega arith
pick_all-length n ignore ps (r ∷ rl) out h d = elim (pick-Within n ignore r.code ps out h d) [
  | inl (enough, full) ↦ rw (enough, pick_all) (omega arith)
  | inr (few, less) ↦
      rw (few, pick_all) (pick_all-length n ignore ps rl (pick n ignore r.code ps out).1 less d)
]

-- The peers that are selected are known, are not to be ignored, and name one of the regions; they are
-- at most as many as asked for where no peer names a region twice.
pub peers_for-IsChosen :
    (n : ℕ) (rl : List Region) (ignore : ℕ → Bool) (pm : PeerMgr)
    → All (λ e. IsDistinct e.1.regions) pm.peers
    → All (IsChosen rl ignore pm.peers) (peers_for n rl ignore pm)
      × (length (peers_for n rl ignore pm) ≤ n)
unfolding peers_for
peers_for-IsChosen n rl ignore pm d = elim (Bool-cases (n == 0)) [
  | inl zero ↦ rw zero (tt, omega arith)
  | inr more ↦ rw more (
    pick_all-All (IsChosen rl ignore pm.peers) n ignore pm.peers rl [] (λ p c. c) tt,
    pick_all-length n ignore pm.peers rl [] (positive n more) d,
  )
]
  where
    positive : (n : ℕ) → (n == 0) ≡ false → 0 < n
    positive n h = ground arith
