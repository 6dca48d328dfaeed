-- ===== src/Tests/Indexes.antt =====
-- exchange/index.go on small indexes, without any storage.
use go_hop_exchange.Prelude.{ℕ, ◌≡◌, refl, arith, [], ◌∷◌, Option, none, some, ok, true}
use go_hop_exchange.Index.Buckets.{
  Bucket, promote, climb, leave, unless_empty, remove, insert, contains,
}
use go_hop_exchange.Index.Refs.{DataRef, Storage, Index, increment, put}
use go_hop_exchange.Index.Lfu.{evict}
use go_hop_exchange.Index.Order.{IsOrdered}
use go_hop_exchange.Index.Keeping.{FirstOf, increment-IsOrdered, evict-IsOrdered, evict-FirstOf}

abbrev pub holding : ℕ → Index (Unit {0})
holding n = record {
  world = tt;
  ub = 100;
  lb = 60;
  gc_set = [];
  size = n;
  blist = [];
  fresh = 0;
  refs = [];
  root_cid = 0;
}

abbrev pub storage : Storage (Unit {0})
storage = record {
  set = λ w k ref. (w, none);
  delete = λ w k. (w, ok true);
  flush = λ w. (w, none);
  put_root = λ w. (w, ok 0);
  put_index = λ w cid. (w, none);
  walk = λ w k. (k ∷ [], none);
  delete_block = λ w k. (w, none);
  collect_garbage = λ w. (w, none);
  is_gc_blockstore = true;
  is_gc_datastore = true;
}

abbrev ref_of : ℕ → ℕ → Option ℕ → DataRef
ref_of k id place = record {
  payload_cid = k;
  payload_size = 10;
  keys = [];
  freq = 0;
  bucket_id = id;
  bucket_node = place;
}

abbrev first_bucket : Bucket
first_bucket = record { place = 0; id = 1; entries = 1 ∷ [] }

abbrev second_bucket : Bucket
second_bucket = record { place = 1; id = 3; entries = 2 ∷ 3 ∷ [] }

-- Three refs in two buckets.
abbrev filled : Index (Unit {0})
filled = record (holding 30) {
  blist = first_bucket ∷ second_bucket ∷ [];
  fresh = 2;
  refs = (1, ref_of 1 1 (some 0)) ∷ (2, ref_of 2 3 (some 1)) ∷ (3, ref_of 3 3 (some 1)) ∷ [];
}

filled-IsOrdered : IsOrdered filled.blist
filled-IsOrdered = (tt, (omega arith, tt), (tt, tt, tt))

-- The first ref is read: its bucket goes, and one of frequency 2 comes.
abbrev read_once : Index (Unit {0})
read_once = record filled {
  blist = record { place = 2; id = 2; entries = 1 ∷ [] } ∷ second_bucket ∷ [];
  fresh = 3;
  refs =
      (1, record (ref_of 1 2 (some 2)) { freq = 1 })
      ∷ (2, ref_of 2 3 (some 1))
      ∷ (3, ref_of 3 3 (some 1))
      ∷ [];
}

reading : increment (ref_of 1 1 (some 0)) filled ≡ some read_once
unfolding increment promote climb leave unless_empty remove insert contains put
reading = refl

increment-IsOrdered_example : IsOrdered read_once.blist
increment-IsOrdered_example =
    increment-IsOrdered (ref_of 1 1 (some 0)) filled read_once reading filled-IsOrdered

evict-IsOrdered_example : IsOrdered (evict storage 20 filled).1.blist
evict-IsOrdered_example = evict-IsOrdered storage 20 filled filled-IsOrdered

evict-FirstOf_example : FirstOf 0 (second_bucket ∷ []) (evict storage 20 filled).1.blist
evict-FirstOf_example =
    evict-FirstOf storage 20 filled first_bucket (second_bucket ∷ []) refl tt (refl, tt)
