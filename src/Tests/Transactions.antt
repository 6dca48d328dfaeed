-- ===== src/Tests/Transactions.antt =====
-- exchange/tx.go on entries that are stored in a list of nodes.
use Prim.Native.String.{String}
use package.text.Mathlib.Text.{◌==◌ as ◌=s=◌}
use mathlib.Core.List.{Perm}
use go_hop_exchange.Prelude.{
  ℕ, ◌≡◌, refl, ap, subst, true, false, none, some, List, [], ◌∷◌, ◌++◌, ◌==◌, ==_self,
  if◌then◌else◌, Bool-cases, inl, inr, length, Result, ok, err, eq_of_ok, to_option,
}
use mathlib.Core.Option
use go_hop_exchange.Index.Refs.{find}
use go_hop_exchange.Index.Lfu.{get_ref}
use go_hop_exchange.Exchange.Entries.{
  Entry, Ipld, assemble_each, assemble_entries, build_root, total_size, read_entries, entries,
  loadable_in, missing_in, map_loadable_keys, map_missing_keys,
}
use go_hop_exchange.Exchange.Keyed.{at_key, with_key}
use go_hop_exchange.Exchange.Tx.{Tx, Files, put, tx_root_for}
use go_hop_exchange.Exchange.Roots.{pair_at, Reads, put-root_for}
use go_hop_exchange.Exchange.Keys.{entries-Perm}
use go_hop_exchange.Tests.Indexes.{storage, holding}

-- Nodes, with the fields of a map.
mutual
  data Node : Type 0 where
    text : String → Node
    link : ℕ → Node
    number : ℕ → Node
    table : Fields → Node

  data Fields : Type 0 where
    end : Fields
    field : String → Node → Fields → Fields

unfoldable fields : List (String × Node) → Fields
fields [] = end
fields ((k, n) ∷ kvs) = field k n (fields kvs)

unfoldable field_at : Fields → String → Result Node
field_at end k = err "not found"
field_at (field j n fs) k = if j =s= k then ok n else field_at fs k

abbrev lookup_node : Node → String → Result Node
lookup_node (table fs) k = field_at fs k
lookup_node (text _) k = err "no map"
lookup_node (link _) k = err "no map"
lookup_node (number _) k = err "no map"

unfoldable items_of : Fields → List (Result (Node × Node))
items_of end = []
items_of (field k n fs) = ok (text k, n) ∷ items_of fs

abbrev node_items : Node → List (Result (Node × Node))
node_items (table fs) = items_of fs
node_items (text _) = []
node_items (link _) = []
node_items (number _) = []

abbrev node_text : Node → Result String
node_text (text t) = ok t
node_text (link _) = err "no string"
node_text (number _) = err "no string"
node_text (table _) = err "no string"

abbrev node_link : Node → Result ℕ
node_link (link c) = ok c
node_link (text _) = err "no link"
node_link (number _) = err "no link"
node_link (table _) = err "no link"

abbrev node_number : Node → Result ℕ
node_number (number n) = ok n
node_number (text _) = err "no number"
node_number (link _) = err "no number"
node_number (table _) = err "no number"

-- A node by the number that were stored before it.
unfoldable load_node : List Node → ℕ → Result Node
load_node [] c = err "not found"
load_node (n ∷ s) c = if length s == c then ok n else load_node s c

abbrev nodes : Ipld Node (List Node)
nodes = record {
  build_map = λ kvs. ok (table (fields kvs));
  string_node = text;
  link_node = link;
  int_node = number;
  items = node_items;
  lookup = lookup_node;
  as_string = node_text;
  as_link = node_link;
  as_int = node_number;
  save = λ s n. (n ∷ s, ok (length s));
  load_map = load_node;
  chooser = λ c. none;
  load_any = λ s c. if c == 5 then ok (number 0) else err "not found";
}

field_at-fields :
    (kvs : List (String × Node)) (k : String) → to_option (field_at (fields kvs) k) ≡ pair_at k kvs
unfolding field_at fields
field_at-fields [] k = refl
field_at-fields ((j, n) ∷ kvs) k = elim (Bool-cases (j =s= k)) [
  | inl same ↦ rw same refl
  | inr other ↦ rw other (field_at-fields kvs k)
]

load_node-saved :
    (n : Node) (s s' : List Node) (c : ℕ)
    → ◌≡◌ {A = List Node × Result ℕ} (n ∷ s, ok (length s)) (s', ok c)
    → load_node s' c ≡ ok n
unfolding load_node
load_node-saved n s s' c h =
    subst (λ v. load_node v c ≡ ok n) (ap (λ p. p.0) h)
      (subst (λ x. load_node (n ∷ s) x ≡ ok n) (eq_of_ok (ap (λ p. p.1) h))
        (rw (==_self (length s)) refl))

nodes_read : Reads nodes (λ n m. n ≡ m)
nodes_read = record {
  lookup_built = λ kvs n k h.
      subst (λ x. to_option (lookup_node x k) ≡ pair_at k kvs) (eq_of_ok h) (field_at-fields kvs k);
  link_built = λ c. refl;
  load_saved = λ kvs n s s' c h saved. (n, load_node-saved n s s' c saved, refl);
  lookup_same = λ n m v k same h. (v, subst (λ x. lookup_node x k ≡ ok v) same h, refl);
  missing_same = λ n m k e same h. (e, subst (λ x. lookup_node x k ≡ err e) same h);
  link_same = λ n m same. ap node_link same;
}

abbrev files : Files Node (List Node) ℕ
files = record {
  ipld = nodes;
  unix_file = λ s c. ok c;
  key_bytes = λ k. 0;
  migrate_blocks = λ from to. (from ++ to, none);
  migrate_entries = λ from to root. (to, none);
  is_gc_blockstore = true;
  delete_store = λ id. none;
}

abbrev entry : String → ℕ → ℕ → Entry
entry k c size = record { key = k; value = c; size = size }

abbrev started : Tx (List Node) (Unit {0})
started = record {
  entry_map = ("a", entry "a" 5 100) ∷ [];
  root = 0;
  size = 100;
  store = [];
  store_id = 1;
  bs = [];
  index = holding 0;
  cache_rf = 6;
  committed = false;
  closed = false;
  error = none;
}

abbrev stored : List Node
stored =
    table (
      field "a"
        (table (field "Key" (text "a") (field "Value" (link 5) (field "Size" (number 100) end))))
        (field "b"
          (table (field "Key" (text "b") (field "Value" (link 6) (field "Size" (number 20) end))))
          end))
    ∷ []

abbrev after_put : Tx (List Node) (Unit {0})
after_put = record started {
  entry_map = ("a", entry "a" 5 100) ∷ ("b", entry "b" 6 20) ∷ [];
  store = stored;
  size = 120;
}

puts : put files storage "b" 6 20 started ≡ (after_put, none)
unfolding put with_key build_root assemble_entries assemble_each total_size fields
puts = refl

unknown : get_ref storage after_put.root after_put.index ≡ some (holding 0, err "ref not found")
unfolding get_ref find
unknown = refl

put-root_for_example :
    Option.map (λ a. to_option a.1) (tx_root_for files storage "a" after_put)
    ≡ some
        (if "b" =s= "a" then some 6 else Option.map (λ x. x.value) (at_key "a" started.entry_map))
put-root_for_example =
    put-root_for files storage (λ n m. n ≡ m) nodes_read "b" "a" "ref not found" 6 20 started
      after_put (holding 0) puts unknown

reads : entries nodes stored 0 ≡ ok (entry "a" 5 100 ∷ entry "b" 6 20 ∷ [])
unfolding entries read_entries load_node items_of field_at
reads = refl

loads : map_loadable_keys nodes stored 0 ≡ ok ("a" ∷ [])
unfolding map_loadable_keys loadable_in load_node items_of field_at
loads = refl

misses : map_missing_keys nodes stored 0 ≡ ok ("b" ∷ [])
unfolding map_missing_keys missing_in load_node items_of field_at
misses = refl

entries-Perm_example : Perm {A = String} ("a" ∷ "b" ∷ []) (("a" ∷ []) ++ "b" ∷ [])
entries-Perm_example =
    entries-Perm nodes stored 0 (entry "a" 5 100 ∷ entry "b" 6 20 ∷ []) ("a" ∷ []) ("b" ∷ []) reads
      loads misses
