-- ===== src/Exchange/Keys.antt =====
-- The keys of a transaction of exchange/tx.go, as `Entries` reads them, and as `MapLoadableKeys` and
-- `MapMissingKeys` of internal/utils/stat.go divide them.
use Prim.Native.String.{String}
use mathlib.Core.List.{map, Perm, perm_middle}
use mathlib.Core.List.Perm
use go_hop_exchange.Prelude.{
  ℕ, ◌≡◌, refl, ap, ◌∙◌, subst, inl, inr, List, [], ◌∷◌, ◌++◌, Result, ok, err, Result-cases,
  and_then-ok, eq_of_ok, err≢ok,
}
use go_hop_exchange.Exchange.Entries.{
  Entry, Ipld, read_entry, read_entries, entries, load_value, value_link, loadable_in, missing_in,
  map_loadable_keys, map_missing_keys,
}

module _ {N S : Type 0} (d : Ipld N S) (s : S) where
  read_entry-key : (k v : N) (e : Entry) → read_entry d (k, v) ≡ ok e → d.as_string k ≡ ok e.key
  read_entry-key k v e h = elim (Result-cases (d.as_string k)) [
    | inl (f, bad) ↦ absurd (err≢ok (rw bad at h))
    | inr (key, good) ↦ elim (Result-cases (value_link d v)) [
      | inl (f, bad) ↦ absurd (err≢ok (rw bad at (rw good at h)))
      | inr (c, link) ↦ good ∙ ap (λ r. ok r.key) (eq_of_ok (rw link at (rw good at h)))
    ]
  ]

  -- What a round of the three loops adds at an entry, by whether its content is loaded.
  loaded-Perm :
      (content : Result N) (es : List Entry) (ls ls' ms ms' : List String) (e : Entry)
      → Perm (map (λ e. e.key) es) (ls ++ ms)
      → (elim content [ err _ ↦ ls | ok _ ↦ e.key ∷ ls ]) ≡ ls'
      → (elim content [ ok _ ↦ ms | err _ ↦ e.key ∷ ms ]) ≡ ms'
      → Perm (map (λ e. e.key) (e ∷ es)) (ls' ++ ms')
  loaded-Perm (ok n) es ls ls' ms ms' e rest hl hm =
      subst (λ v. Perm (map (λ e. e.key) (e ∷ es)) (v ++ ms')) hl
        (subst (λ v. Perm (map (λ e. e.key) (e ∷ es)) (e.key ∷ ls ++ v)) hm (Perm.cons e.key rest))
  loaded-Perm (err f) es ls ls' ms ms' e rest hl hm =
      subst (λ v. Perm (map (λ e. e.key) (e ∷ es)) (v ++ ms')) hl
        (subst (λ v. Perm (map (λ e. e.key) (e ∷ es)) (ls ++ v)) hm
          (Perm.trans (Perm.cons e.key rest) (Perm.symm (perm_middle ls ms))))

  loadable_in-cons :
      (k v : N) (key : String) (content : Result N) (items : List (Result (N × N)))
      (ls' : List String)
      → d.as_string k ≡ ok key
      → load_value d s v ≡ ok content
      → loadable_in d s (ok (k, v) ∷ items) ≡ ok ls'
      → (ls : List String) × (loadable_in d s items ≡ ok ls)
        × ((elim content [ err _ ↦ ls | ok _ ↦ key ∷ ls ]) ≡ ls')
  unfolding loadable_in
  loadable_in-cons k v key (err f) items ls' named c h = (ls', rw c at h, refl)
  loadable_in-cons k v key (ok n) items ls' named c h =
      let (ls, rest, e) =
        and_then-ok (loadable_in d s items) (λ keys. ok (key ∷ keys)) (rw named at (rw c at h)) in
      (ls, rest, eq_of_ok e)

  missing_in-cons :
      (k v : N) (key : String) (content : Result N) (items : List (Result (N × N)))
      (ms' : List String)
      → d.as_string k ≡ ok key
      → load_value d s v ≡ ok content
      → missing_in d s (ok (k, v) ∷ items) ≡ ok ms'
      → (ms : List String) × (missing_in d s items ≡ ok ms)
        × ((elim content [ ok _ ↦ ms | err _ ↦ key ∷ ms ]) ≡ ms')
  unfolding missing_in
  missing_in-cons k v key (ok n) items ms' named c h = (ms', rw c at h, refl)
  missing_in-cons k v key (err f) items ms' named c h =
      let (ms, rest, e) =
        and_then-ok (missing_in d s items) (λ keys. ok (key ∷ keys)) (rw named at (rw c at h)) in
      (ms, rest, eq_of_ok e)

  read_entries-Perm :
      (items : List (Result (N × N))) (es : List Entry) (ls ms : List String)
      → read_entries d items ≡ ok es
      → loadable_in d s items ≡ ok ls
      → missing_in d s items ≡ ok ms
      → Perm (map (λ e. e.key) es) (ls ++ ms)
  unfolding read_entries loadable_in missing_in
  read_entries-Perm [] es ls ms he hl hm =
      subst (λ (v : List Entry). Perm (map (λ e. e.key) v) (ls ++ ms)) (eq_of_ok he)
        (subst (λ v. Perm [] (v ++ ms)) (eq_of_ok hl) (subst (Perm []) (eq_of_ok hm) Perm.rfl))
  read_entries-Perm (err f ∷ items) es ls ms he hl hm = absurd (err≢ok he)
  read_entries-Perm (ok (k, v) ∷ items) es' ls' ms' he hl hm =
      let (e, read, he1) = and_then-ok (read_entry d (k, v)) _ he in
      let (es, rest, he2) = and_then-ok (read_entries d items) (λ es. ok (e ∷ es)) he1 in
      elim (Result-cases (load_value d s v)) [
        | inl (f, bad) ↦ absurd (err≢ok (rw bad at hl))
        | inr (content, c) ↦
            let named = read_entry-key k v e read in
            let (ls, hl1, l) = loadable_in-cons k v e.key content items ls' named c hl in
            let (ms, hm1, m) = missing_in-cons k v e.key content items ms' named c hm in
            subst (λ (x : List Entry). Perm (map (λ e. e.key) x) (ls' ++ ms')) (eq_of_ok he2)
              (loaded-Perm content es ls ls' ms ms' e
                (read_entries-Perm items es ls ms rest hl1 hm1) l m)
      ]

-- If all three succeed on the same DAG, then the keys that `MapLoadableKeys` and `MapMissingKeys` give
-- are together those of the entries that `Entries` reads, each as often.
pub entries-Perm :
    {N S : Type 0} (d : Ipld N S) (s : S) (root : ℕ) (es : List Entry) (ls ms : List String)
    → entries d s root ≡ ok es
    → map_loadable_keys d s root ≡ ok ls
    → map_missing_keys d s root ≡ ok ms
    → Perm (map (λ e. e.key) es) (ls ++ ms)
unfolding entries map_loadable_keys map_missing_keys
entries-Perm d s root es ls ms he hl hm = elim (Result-cases (d.load_map s root)) [
  | inl (f, bad) ↦ absurd (err≢ok (rw bad at he))
  | inr (n, good) ↦
      read_entries-Perm d s (d.items n) es ls ms (rw good at he) (rw good at hl) (rw good at hm)
]
