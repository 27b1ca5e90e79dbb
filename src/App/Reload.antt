-- ===== src/App/Reload.antt =====
-- `reload_decided_blocks` of hotstuff.cc: the blocks that the index lists are read from disk and put
-- into the store, in the order of the index. `load_block` is the parameter `load`.
pub mod Fresh
pub mod Loaded
pub mod Chain
use cs244b_fp.Prelude.{
  ℕ, Option, List, [], ◌∷◌, if◌then◌else◌, Result, ok, err, or_fail, ◌>>=◌, insert_failed,
  block_load_failed,
}
use cs244b_fp.Config.{Hash}
use cs244b_fp.Wire.{HotstuffBlockWire, Sodium}
use cs244b_fp.Block.{Ptr, Heap, loaded_block, alloc}
use cs244b_fp.Storage.BlockStore.{BlockStore, is_missing, insert_block}
use cs244b_fp.Storage.Index.Layouts.{Lmdb, Layout}
use cs244b_fp.Storage.Index.{Index, create_db, open_db, forward_cursor, get_highest_qc}
use cs244b_fp.Consensus.{Core, reload_state_from_index}
use cs244b_fp.App.{HotstuffApp, find_block_by_hash}

module _ (sodium : Sodium) (load : Hash → Option HotstuffBlockWire) where
  -- The body of the loop, with `HotstuffBlock::load_decided_block`.
  unfoldable pub load_one : Hash → BlockStore → Heap → Result (Ptr × BlockStore × Heap)
  load_one hash s h = do
    wire ← or_fail (load hash) block_load_failed
    let (blk, h') = alloc (loaded_block sodium wire) h
    (missing, s', h'') ← insert_block blk s h'
    if is_missing missing then err insert_failed else ok (blk, s', h'')

  -- With the height of the last block.
  unfoldable pub load_all : List (ℕ × Hash) → ℕ → BlockStore → Heap → Result (ℕ × BlockStore × Heap)
  load_all [] highest_decision s h = ok (highest_decision, s, h)
  load_all ((_, hash) ∷ entries) highest_decision s h = do
    (blk, s', h') ← load_one hash s h
    load_all entries (h'.cell blk).block_height s' h'

  unfoldable pub reload_decided_blocks :
      {V : Type 0} (lmdb : Lmdb) (layout : Layout)
      → Index lmdb layout
      → HotstuffApp V
      → Result (ℕ × HotstuffApp V)
  reload_decided_blocks lmdb layout index app = do
    entries ← forward_cursor lmdb layout index
    (highest_decision, s, h) ← load_all entries 0 app.network.block_store app.core.heap
    let app' = record app {
      core = record app.core { heap = h };
      network = record app.network { block_store = s; heap = h };
    }
    core ←
        reload_state_from_index (get_highest_qc lmdb layout index)
          (λ hash. find_block_by_hash hash app') app'.core
    ok (highest_decision, record app' { core = core })

  -- `HotstuffApp::init_from_disk`, with that of the bridge.
  unfoldable pub start_from_disk :
      {V : Type 0} (init_from_disk : ℕ → V → V) (lmdb : Lmdb) (layout : Layout)
      → Index lmdb layout
      → HotstuffApp V
      → Result (Index lmdb layout × HotstuffApp V)
  start_from_disk init_from_disk lmdb layout index app = do
    index' ← open_db lmdb layout index
    (highest_decision_height, app') ← reload_decided_blocks lmdb layout index' app
    ok (index', record app' { vm = init_from_disk highest_decision_height app'.vm })

-- `HotstuffApp::init_clean`, with that of the bridge.
unfoldable pub start_clean :
    {V : Type 0} (init_clean : V → V) (lmdb : Lmdb) (layout : Layout)
    → Index lmdb layout
    → HotstuffApp V
    → Result (Index lmdb layout × HotstuffApp V)
start_clean init_clean lmdb layout index app = do
  index' ← create_db lmdb layout index
  ok (index', record app { vm = init_clean app.vm })
