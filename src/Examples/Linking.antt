-- ===== src/Examples/Linking.antt =====
-- A replica with the genesis block that inserts the first block after it.
use cs244b_fp.Prelude.{some, false, ◌==◌, if◌then◌else◌}
use cs244b_fp.Crypto.Certs.{empty_qc}
use cs244b_fp.Block.{HotstuffBlock, Heap, genesis_block, genesis_heap}
use cs244b_fp.Consensus.{Core, init_core}
use cs244b_fp.Storage.BlockStore.{BlockStore, new_store}
use cs244b_fp.Examples.Config.{four}

-- Its hash is 1, its parent and the block that it certifies are genesis.
abbrev first_block : HotstuffBlock
unfolding genesis_block
first_block = record genesis_block {
  parsed_qc = some (empty_qc 0);
  self_qc = empty_qc 1;
  decided = false;
  written_to_disk = false;
  flushed_from_memory = false;
}

abbrev heap : Heap
unfolding first_block
heap = record { next = 2; cell = λ p. if p == 1 then first_block else genesis_heap.cell p }

abbrev core : Core
core = record (init_core four 0) { heap = heap }

abbrev store : BlockStore
store = new_store 0 heap
