-- ===== src/Storage/BlockStore.antt =====
-- block_storage/block_store: the cache of blocks by hash. Its mutex is left out.
pub mod Insert
use cs244b_fp.Prelude.{
  ℕ, suc, Bool, true, false, ◌||◌, Option, none, some, List, [], ◌∷◌, Result, ok, err, or_fail,
  ◌>>=◌, not_in_store,
}
use cs244b_fp.Prelude.Maps.{find, emplace}
use cs244b_fp.Config.{Hash}
use cs244b_fp.Wire.{HotstuffBlockWire}
use cs244b_fp.Block.{
  Ptr, HotstuffBlock, Heap, get_hash, get_parent_hash, get_justify_hash, set_parent, set_justify,
  modify, write_to_disk,
}
use cs244b_fp.Storage.GarbageCollector.{Collector, new_collector, invoke_gc, add_block}

pub record BlockStore : Type 0 where
  pub block_cache : List (Hash × Ptr)
  pub gc_collector : Collector

pub record MissingDependencies : Type 0 where
  pub parent_hash : Option Hash
  pub justify_hash : Option Hash

abbrev pub is_some : Option Hash → Bool
is_some none = false
is_some (some _) = true

-- `operator bool`: something is missing.
unfoldable pub is_missing : MissingDependencies → Bool
is_missing m = is_some m.parent_hash || is_some m.justify_hash

-- The hash, if the cache does not hold it.
abbrev pub absent : Hash → List (Hash × Ptr) → Option Hash
absent k cache = elim (find k cache) [ none ↦ some k | some _ ↦ none ]

-- The constructor, with the pointer of the genesis block; the block folder is made elsewhere.
unfoldable pub new_store : Ptr → Heap → BlockStore
new_store genesis h = record {
  block_cache = emplace (get_hash (h.cell genesis)) genesis [];
  gc_collector = new_collector;
}

-- The end of `insert_block`, where both dependencies are in the cache.
unfoldable pub link_block : Ptr → Ptr → Ptr → BlockStore → Heap → BlockStore × Heap
link_block parent justify blk s h =
    let h' = modify (λ b. set_justify justify (set_parent parent (h.cell parent) b)) blk h in
    (
      record {
        block_cache = emplace (get_hash (h.cell blk)) blk s.block_cache;
        gc_collector = add_block blk s.gc_collector;
      },
      h',
    )

unfoldable pub dependencies : Hash → Hash → List (Hash × Ptr) → MissingDependencies
dependencies parent justify cache = record {
  parent_hash = absent parent cache;
  justify_hash = absent justify cache;
}

unfoldable pub insert_block :
    Ptr → BlockStore → Heap → Result (MissingDependencies × BlockStore × Heap)
unfolding link_block dependencies
insert_block blk s h = do
  let parent = get_parent_hash (h.cell blk)
  justify ← get_justify_hash (h.cell blk)
  let missing = dependencies parent justify s.block_cache
  ok (elim (find parent s.block_cache) [
    | none ↦ (missing, s, h)
    | some p ↦ elim (find justify s.block_cache) [
      | none ↦ (missing, s, h)
      | some j ↦ (let (s', h') = link_block p j blk s h in (missing, s', h'))
    ]
  ])

unfoldable pub get_block : Hash → BlockStore → Option Ptr
get_block k s = find k s.block_cache

unfoldable pub prune_below_height : ℕ → BlockStore → BlockStore
prune_below_height low s = record s { gc_collector = invoke_gc low s.gc_collector }

-- `BlockStore::write_to_disk`.
unfoldable pub write_block :
    {S : Type 0}
    → (HotstuffBlockWire → S → Result S)
    → Hash
    → BlockStore
    → Heap
    → S
    → Result (S × Heap)
write_block save k store h s = do
  p ← or_fail (find k store.block_cache) not_in_store
  write_to_disk save (suc (h.cell p).block_height) p h s
