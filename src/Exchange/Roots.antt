-- ===== src/Exchange/Roots.antt =====
-- The entries of a transaction of exchange/tx.go, written as a DAG and read back.
use Prim.Native.String.{String}
use package.text.Mathlib.Text.{◌==◌ as ◌=s=◌}
use go_hop_exchange.Prelude.{
  ℕ, ◌≡◌, refl, ap, sym, ◌∙◌, subst, ◌⊎◌, inl, inr, Bool-cases, Option, none, some, List, [], ◌∷◌,
  if◌then◌else◌, ok, err, Result-cases, and_then-ok, eq_of_ok, none≢some, err≢ok, to_option,
  to_option-some,
}
use mathlib.Core.Option
use go_hop_exchange.Exchange.Entries.{
  Entry, EntryMap, Ipld, entry_node, assemble_each, assemble_entries, build_root, root_for,
  value_link,
}
use go_hop_exchange.Exchange.Keyed.{at_key, with_key, at_key-with_key}
use go_hop_exchange.Exchange.Tx.{Tx, Files, put, choose_store, tx_root_for}
use go_hop_exchange.Index.Refs.{Index, Storage}
use go_hop_exchange.Index.Lfu.{get_ref}

-- A pair of a list of pairs, by its key.
abbrev pub pair_at : {N : Type 0} → String → List (String × N) → Option N
pair_at k [] = none
pair_at k ((j, n) ∷ ns) = if j =s= k then some n else pair_at k ns

-- What is relied on: a map that was built is looked up in, and one that was stored is loaded as one
-- that reads the same.
pub record Reads {N S : Type 0} (d : Ipld N S) (Same : N → N → Type 0) : Type 0 where
  pub lookup_built :
      (kvs : List (String × N)) (n : N) (k : String)
      → d.build_map kvs ≡ ok n
      → to_option (d.lookup n k) ≡ pair_at k kvs
  pub link_built : (c : ℕ) → d.as_link (d.link_node c) ≡ ok c
  pub load_saved :
      (kvs : List (String × N)) (n : N) (s s' : S) (c : ℕ)
      → d.build_map kvs ≡ ok n
      → d.save s n ≡ (s', ok c)
      → (m : N) × (d.load_map s' c ≡ ok m) × Same n m
  pub lookup_same :
      (n m v : N) (k : String)
      → Same n m
      → d.lookup n k ≡ ok v
      → (w : N) × (d.lookup m k ≡ ok w) × Same v w
  pub missing_same :
      (n m : N) (k e : String)
      → Same n m
      → d.lookup n k ≡ err e
      → (f : String) × (d.lookup m k ≡ err f)
  pub link_same : (n m : N) → Same n m → d.as_link n ≡ d.as_link m

-- The nodes put together for some entries have at a key the node of the entry there, or nothing.
abbrev Matches : {N S : Type 0} → Ipld N S → String → EntryMap → List (String × N) → Type 0
Matches {N} d k es ns =
    ((at_key k es ≡ none) × (pair_at k ns ≡ none))
    ⊎ ((e : Entry) × (n : N) × (j : String) × (at_key k es ≡ some e)
        × (pair_at k ns ≡ some n)
        × (entry_node d j e ≡ ok n))

module _ {N S : Type 0} (d : Ipld N S) where
  Matches-cons :
      (k j : String) (e : Entry) (n : N) (es : EntryMap) (ns : List (String × N))
      → entry_node d j e ≡ ok n
      → Matches d k es ns
      → Matches d k ((j, e) ∷ es) ((j, n) ∷ ns)
  unfolding at_key
  Matches-cons k j e n es ns node rest = elim (Bool-cases (j =s= k)) [
    | inl same ↦ inr (e, n, j, rw same, rw same, node)
    | inr other ↦ elim rest [
      | inl (absent, gone) ↦ inl (rw other absent, rw other gone)
      | inr (x, v, i, there, found, built) ↦ inr (x, v, i, rw other there, rw other found, built)
    ]
  ]

  assemble_each-Matches :
      (k : String) (es : EntryMap) (ns : List (String × N))
      → assemble_each d es ≡ ok ns
      → Matches d k es ns
  unfolding assemble_each at_key
  assemble_each-Matches k [] ns h = inl (refl, ap (pair_at k) (sym (eq_of_ok h)))
  assemble_each-Matches k ((j, e) ∷ es) ns h =
      let (n, node, h1) = and_then-ok (entry_node d j e) _ h in
      let (rest, found, h2) = and_then-ok (assemble_each d es) _ h1 in
      subst (Matches d k ((j, e) ∷ es)) (eq_of_ok h2)
        (Matches-cons k j e n es rest node (assemble_each-Matches k es rest found))

module _ {N S : Type 0} (d : Ipld N S) (Same : N → N → Type 0) (reads : Reads d Same) where
  value_link-entry :
      (j : String) (e : Entry) (n m : N)
      → entry_node d j e ≡ ok n
      → Same n m
      → value_link d m ≡ ok e.value
  value_link-entry j e n m node same =
      let value = to_option-some (d.lookup n "Value") (reads.lookup_built _ n "Value" node) in
      let (w, there, alike) = reads.lookup_same n m _ "Value" same value in
      rw there (sym (reads.link_same _ w alike) ∙ reads.link_built e.value)

  root_for-Matches :
      (es : EntryMap) (ns : List (String × N)) (n m : N) (s' : S) (root : ℕ) (k : String)
      → d.build_map ns ≡ ok n
      → d.load_map s' root ≡ ok m
      → Same n m
      → Matches d k es ns
      → to_option (root_for d s' root k) ≡ Option.map (λ e. e.value) (at_key k es)
  unfolding root_for
  root_for-Matches es ns n m s' root k built loaded same at_k = elim at_k [
    | inl (absent, gone) ↦ elim (Result-cases (d.lookup n k)) [
      | inr (v, held) ↦
          absurd (none≢some (sym (reads.lookup_built ns n k built ∙ gone) ∙ ap to_option held))
      | inl (e, missing) ↦
          let (f, missed) = reads.missing_same n m k e same missing in
          rw (loaded, root_for, missed, absent)
    ]
    | inr (e, v, j, there, found, node) ↦
        let (w, held, alike) =
          reads.lookup_same n m v k same
            (to_option-some (d.lookup n k) (reads.lookup_built ns n k built ∙ found)) in
        rw (loaded, root_for, held, there) (ap to_option (value_link-entry j e v w node alike))
  ]

  build_root-root_for :
      (es : EntryMap) (s s' : S) (root size : ℕ) (k : String)
      → build_root d es s ≡ (s', ok (root, size))
      → to_option (root_for d s' root k) ≡ Option.map (λ e. e.value) (at_key k es)
  unfolding build_root assemble_entries
  build_root-root_for es s s' root size k h = elim (Result-cases (assemble_entries d es)) [
    | inl (e, bad) ↦ absurd (err≢ok (ap (λ v. v.1) (rw (bad, build_root) at h)))
    | inr (n, whole) ↦
        let (ns, each, built) = and_then-ok (assemble_each d es) d.build_map whole in
        let after = rw (whole, build_root) at h in
        let (c, saved, h2) = and_then-ok (d.save s n).1 _ (ap (λ v. v.1) after) in
        let after_store : (d.save s n).0 ≡ s' = ap (λ v. v.0) after in
        let after_root : (d.save s n).1 ≡ ok root = saved ∙ ap (λ v. ok v.0) (eq_of_ok h2) in
        let (m, loaded, same) =
          reads.load_saved ns n s s' root built (λ i. (after_store i, after_root i)) in
        root_for-Matches es ns n m s' root k built loaded same
          (assemble_each-Matches d k es ns each)
  ]

module _ {N S F W : Type 0} (fs : Files N S F) (st : Storage W) (Same : N → N → Type 0)
    (reads : Reads fs.ipld Same) where
  tx_root_for_unknown :
      (k e : String) (t : Tx S W) (idx : Index W)
      → get_ref st t.root t.index ≡ some (idx, err e)
      → Option.map (λ a. to_option a.1) (tx_root_for fs st k t)
        ≡ some (to_option (root_for fs.ipld t.store t.root k))
  unfolding tx_root_for choose_store
  tx_root_for_unknown k e t idx unknown = rw (unknown, tx_root_for)

  value-with_key :
      (k key : String) (x : Entry) (es : EntryMap)
      → Option.map (λ y. y.value) (at_key k (with_key key x es))
        ≡ (if key =s= k then some x.value else Option.map (λ y. y.value) (at_key k es))
  value-with_key k key x es = elim (Bool-cases (key =s= k)) [
    | inl here ↦ rw (at_key-with_key k key x es, here)
    | inr away ↦ rw (at_key-with_key k key x es, away)
  ]

  -- If `Put` succeeds and the index has no ref of the new root, `RootFor` answers at the key that was
  -- put with the value, at any other key of an entry with the value of that entry, and at a key
  -- without an entry with an error.
  pub put-root_for :
      (key k e : String) (value size : ℕ) (tx tx' : Tx S W) (idx : Index W)
      → put fs st key value size tx ≡ (tx', none)
      → get_ref st tx'.root tx'.index ≡ some (idx, err e)
      → Option.map (λ a. to_option a.1) (tx_root_for fs st k tx')
        ≡ some (if key =s= k then some value else Option.map (λ x. x.value) (at_key k tx.entry_map))
  unfolding put tx_root_for choose_store
  put-root_for key k e value size tx tx' idx h unknown =
      let x : Entry = record { key = key; value = value; size = size } in
      let es : EntryMap = with_key key x tx.entry_map in
      let built = build_root fs.ipld es tx.store in
      elim (Result-cases built.1) [
        | inl (f, bad) ↦ absurd (none≢some (sym (ap (λ v. v.1) (rw (bad, put) at h))))
        | inr ((root, total), good) ↦
            subst
              (λ (t : Tx S W).
                get_ref st t.root t.index ≡ some (idx, err e)
                → Option.map (λ a. to_option a.1) (tx_root_for fs st k t)
                  ≡ some (
                      if key =s= k
                      then some value
                      else Option.map (λ x. x.value) (at_key k tx.entry_map)))
              (ap (λ v. v.0) (rw (good, put) at h))
              (λ new.
                tx_root_for_unknown k e _ idx new
                ∙ ap some (
                    build_root-root_for fs.ipld Same reads es tx.store built.0 root total k
                      (λ i. (built.0, good i))
                    ∙ value-with_key k key x tx.entry_map))
              unknown
      ]
