-- ===== src/Exchange/Entries.antt =====
-- exchange/tx.go and internal/utils/stat.go: the map of the entries of a transaction as a DAG, and how
-- it is read. The nodes of IPLD and the stores of blocks are arguments.
use Prim.Native.String.{String}
use go_hop_exchange.Prelude.{
  ℕ, ◌+◌, Option, none, some, List, [], ◌∷◌, Result, ok, err, and_then, u64,
}

pub record Entry : Type 0 where
  pub key : String
  pub value : ℕ
  pub size : ℕ

-- The map of the entries, in the order in which it is iterated over.
abbrev pub EntryMap : Type 0
EntryMap = List (String × Entry)

-- Nodes of IPLD, and stores: `save` builds a link and stores the node, `load_map` and `load_any` load a
-- link with a builder of maps and with the one that `Chooser` takes for the link.
pub record Ipld (N S : Type 0) : Type 0 where
  pub build_map : List (String × N) → Result N
  pub string_node : String → N
  pub link_node : ℕ → N
  pub int_node : ℕ → N
  pub items : N → List (Result (N × N))
  pub lookup : N → String → Result N
  pub as_string : N → Result String
  pub as_link : N → Result ℕ
  pub as_int : N → Result ℕ
  pub save : S → N → S × Result ℕ
  pub load_map : S → ℕ → Result N
  pub chooser : ℕ → Option String
  pub load_any : S → ℕ → Result N

-- The sum of the sizes in `buildRoot`.
unfoldable pub total_size : EntryMap → ℕ → ℕ
total_size [] size = size
total_size ((k, e) ∷ es) size = total_size es (u64 (size + e.size))

module _ {N S : Type 0} (d : Ipld N S) where
  -- The map of an entry in `assembleEntries`.
  abbrev pub entry_node : String → Entry → Result N
  entry_node k e =
      d.build_map (
        ("Key", d.string_node k)
        ∷ ("Value", d.link_node e.value)
        ∷ ("Size", d.int_node e.size)
        ∷ [])

  -- The loop of `assembleEntries`
  unfoldable pub assemble_each : EntryMap → Result (List (String × N))
  assemble_each [] = ok []
  assemble_each ((k, e) ∷ es) =
      let rest = assemble_each es in
      and_then (entry_node k e) (λ n. and_then rest (λ ns. ok ((k, n) ∷ ns)))

  -- `assembleEntries`
  unfoldable pub assemble_entries : EntryMap → Result N
  unfolding assemble_each
  assemble_entries es = and_then (assemble_each es) d.build_map

  -- `buildRoot`: the root and the size.
  unfoldable pub build_root : EntryMap → S → S × Result (ℕ × ℕ)
  unfolding assemble_entries total_size
  build_root es s = elim (assemble_entries es) [
    | err e ↦ (s, err e)
    | ok n ↦
        let (s', saved) = d.save s n in (s', and_then saved (λ root. ok (root, total_size es 0)))
  ]

  -- The link that an entry of a loaded map holds.
  abbrev pub value_link : N → Result ℕ
  value_link n = and_then (d.lookup n "Value") d.as_link

  -- `RootFor`, with the loader that it chose.
  unfoldable pub root_for : S → ℕ → String → Result ℕ
  root_for s root key = and_then (d.load_map s root) (λ n. and_then (d.lookup n key) value_link)

  -- The size of an entry; one without is 0.
  abbrev pub size_in : N → ℕ
  size_in n = elim (and_then (d.lookup n "Size") d.as_int) [ err _ ↦ 0 | ok size ↦ size ]

  -- A round of the loop of `Entries`
  abbrev pub read_entry : N × N → Result Entry
  read_entry (k, v) =
      and_then (d.as_string k) (λ key.
        and_then (value_link v) (λ c. ok (record { key = key; value = c; size = size_in v })))

  -- The loop of `Entries`
  unfoldable pub read_entries : List (Result (N × N)) → Result (List Entry)
  read_entries [] = ok []
  read_entries (item ∷ items) =
      let rest = read_entries items in
      and_then item (λ kv. and_then (read_entry kv) (λ e. and_then rest (λ es. ok (e ∷ es))))

  -- `Entries`, with the loader that it chose.
  unfoldable pub entries : S → ℕ → Result (List Entry)
  unfolding read_entries
  entries s root = and_then (d.load_map s root) (λ n. read_entries (d.items n))

  -- The loading of the content of an entry: the error, if there is one, that ends the loop, or the
  -- content, or the error that it was not loaded with.
  abbrev pub load_value : S → N → Result (Result N)
  load_value s v =
      and_then (value_link v)
        (λ c. elim (d.chooser c) [ some e ↦ err e | none ↦ ok (d.load_any s c) ])

  -- The loop of `MapLoadableKeys`
  unfoldable pub loadable_in : S → List (Result (N × N)) → Result (List String)
  loadable_in s [] = ok []
  loadable_in s (item ∷ items) =
      let rest = loadable_in s items in
      and_then item (λ kv. and_then (load_value s kv.1) (λ content. elim content [
        | err _ ↦ rest
        | ok _ ↦ and_then (d.as_string kv.0) (λ key. and_then rest (λ keys. ok (key ∷ keys)))
      ]))

  -- The loop of `MapMissingKeys`
  unfoldable pub missing_in : S → List (Result (N × N)) → Result (List String)
  missing_in s [] = ok []
  missing_in s (item ∷ items) =
      let rest = missing_in s items in
      and_then item (λ kv. and_then (load_value s kv.1) (λ content. elim content [
        | ok _ ↦ rest
        | err _ ↦ and_then (d.as_string kv.0) (λ key. and_then rest (λ keys. ok (key ∷ keys)))
      ]))

  -- `MapLoadableKeys` and `MapMissingKeys`
  unfoldable pub map_loadable_keys : S → ℕ → Result (List String)
  unfolding loadable_in
  map_loadable_keys s root = and_then (d.load_map s root) (λ n. loadable_in s (d.items n))

  unfoldable pub map_missing_keys : S → ℕ → Result (List String)
  unfolding missing_in
  map_missing_keys s root = and_then (d.load_map s root) (λ n. missing_in s (d.items n))
