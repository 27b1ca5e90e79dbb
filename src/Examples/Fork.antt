-- ===== src/Examples/Fork.antt =====
-- A proposal off the chain that it certifies.
use cs244b_fp.Prelude.{ℕ, ◌+◌, ◌≡◌, refl, true, some, [], ◌∷◌, ok, ltb, ◌-◌, if◌then◌else◌}
use cs244b_fp.Crypto.Certs.{empty_qc}
use cs244b_fp.Block.{HotstuffBlock, genesis_block, write_to_disk, modify, decide, get_justify_qc}
use cs244b_fp.Consensus.{
  Core, opinion, walk_down, on_receive_proposal, cast_vote, update, update_hqc, update_lock,
  lock_and_write, update_commit, commit_chain, decide_queue, finish_commit, init_core,
}
use cs244b_fp.Examples.Chain.{after, chain_block}

-- At address `10 + n` is the block of height `n` of a second chain on genesis. All its blocks certify
-- genesis, but for the last, which certifies block 3 of the first chain.
abbrev fork_block : ℕ → HotstuffBlock
unfolding chain_block
fork_block n = record (chain_block n) {
  parent_block_ptr = some (if ltb n 2 then 0 else 9 + n);
  justify_block_ptr = some (if ltb n 5 then 0 else 3);
  self_qc = empty_qc (10 + n);
}

abbrev forked : Core
forked = record (after 4) {
  heap = record {
    next = 16;
    cell = λ p. if ltb p 11 then (after 4).heap.cell p else fork_block (p - 10);
  };
}

-- The replica is locked on block 2, and votes for the last block of the second chain: it certifies a
-- higher block than the locked one, but extends neither.
votes_off_chain :
    (opinion 15 forked ≡ ok true)
    × (forked.b_lock ≡ 2)
    × (walk_down 6 forked.heap 2 15 ≡ ok (15 ∷ 14 ∷ 13 ∷ [], 12))
unfolding on_receive_proposal opinion cast_vote update update_hqc update_lock lock_and_write
    update_commit commit_chain walk_down decide_queue finish_commit write_to_disk init_core
    genesis_block modify decide get_justify_qc chain_block
votes_off_chain = (refl, refl, refl)
