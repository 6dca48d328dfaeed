-- ===== src/Tests/Cleaning.antt =====
-- exchange/index.go: the cleaning of a store with a ref whose leaf is a raw block.
use go_hop_exchange.Prelude.{◌≡◌, refl, true, none, List, [], ◌∷◌, ok}
use go_hop_exchange.Index.Cleaning.{
  Cid, has_cid, Blocks, visit_refs, clean_block_store, collect_after, delete_all, Stale, Cleaned,
  Walks, walks, walked_all, clean_block_store-unvisited,
}

abbrev root : Cid
root = record { codec = 113; hash = 1 }

abbrev leaf : Cid
leaf = record { codec = 85; hash = 2 }

-- The state is the list of the blocks that were deleted.
abbrev blocks : Blocks (List Cid)
blocks = record {
  for_each = λ b. ok root ∷ [];
  walk = λ b k. (root ∷ leaf ∷ [], none);
  all_keys = λ b. ok (root ∷ leaf ∷ []);
  delete_block = λ b k. (k ∷ b, none);
  is_gc_datastore = true;
  collect_garbage = λ b. (b, none);
}

visits : Walks blocks [] (ok root ∷ []) [] (root ∷ leaf ∷ [])
visits = walks root (root ∷ leaf ∷ []) refl walked_all

deletes_leaf : clean_block_store blocks [] ≡ (leaf ∷ [], none)
unfolding clean_block_store visit_refs has_cid collect_after
deletes_leaf = refl

clean_block_store-unvisited_example :
    (stale : List Cid) × Stale (root ∷ leaf ∷ []) (root ∷ leaf ∷ []) stale
    × Cleaned blocks (delete_all blocks stale []) (clean_block_store blocks [])
clean_block_store-unvisited_example =
    clean_block_store-unvisited blocks [] (root ∷ leaf ∷ []) (root ∷ leaf ∷ []) visits refl
