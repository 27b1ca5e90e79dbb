-- ===== src/Examples/Storage.antt =====
-- A store that holds the genesis block, and a block received after it.
use cs244b_fp.Prelude.{◌≡◌, refl, none, some, false, [], ◌∷◌, arith, ok, ◌==◌, if◌then◌else◌}
use cs244b_fp.Prelude.Maps.{emplace}
use cs244b_fp.Crypto.Certs.{empty_qc}
use cs244b_fp.Block.{HotstuffBlock, Heap, genesis_block}
use cs244b_fp.Storage.GarbageCollector.{Collector, do_gc}
use cs244b_fp.Storage.GarbageCollector.Collected.{Collected, do_gc-Collected}
use cs244b_fp.Storage.BlockStore.{BlockStore, MissingDependencies, new_store, insert_block}
use cs244b_fp.Storage.BlockStore.Insert.{IsStore, IsNew, HasRoom, Inserted, insert_block-Inserted}
use cs244b_fp.Examples.Chain.{chain}

abbrev received : HotstuffBlock
unfolding genesis_block
received = record genesis_block {
  parsed_qc = some (empty_qc 0);
  self_qc = empty_qc 9;
  decided = false;
  written_to_disk = false;
  flushed_from_memory = false;
}

abbrev two_blocks : Heap
unfolding genesis_block
two_blocks = record { next = 2; cell = λ p. if p == 1 then received else genesis_block }

abbrev store : BlockStore
store = new_store 0 two_blocks

store-IsStore : IsStore store two_blocks
unfolding new_store emplace genesis_block received two_blocks
store-IsStore = record {
  tree = record { step = λ p q e. ground arith; root = λ p e. ground arith };
  with_qc = λ p j e. ground arith;
  sorted = (tt, tt);
  own_hash = λ k p e. ground arith;
  parents = λ p q e. ground arith;
}

received-IsNew : IsNew store two_blocks 1
unfolding new_store emplace genesis_block received two_blocks
received-IsNew = record {
  unlinked = refl;
  qc = empty_qc 0;
  parsed = refl;
  uncached = λ k e. ground arith;
}

two_blocks-HasRoom : HasRoom two_blocks
unfolding genesis_block received two_blocks
two_blocks-HasRoom = λ p. ground arith

insert_block-Inserted_example :
    (r : MissingDependencies × BlockStore × Heap) × (insert_block 1 store two_blocks ≡ ok r)
    × Inserted store two_blocks 1 received-IsNew.qc.obj_hash r
insert_block-Inserted_example =
    insert_block-Inserted store two_blocks 1 store-IsStore received-IsNew two_blocks-HasRoom

abbrev collector : Collector
collector = record {
  hotstuff_height_to_gc = none;
  gc_list = 3 ∷ 1 ∷ 4 ∷ 2 ∷ [];
  gc_list_buffer = [];
}

do_gc-Collected_example :
    (t : Collector) × (g : Heap) × (do_gc 3 collector chain ≡ ok (t, g))
    × Collected 3 collector.gc_list chain t.gc_list g
    × (t.gc_list_buffer ≡ [])
    × (t.hotstuff_height_to_gc ≡ none)
do_gc-Collected_example = do_gc-Collected 3 collector chain
