-- ===== src/Examples/Chain.antt =====
-- A chain of blocks, each of which certifies its parent, and a replica that receives it.
use cs244b_fp.Prelude.{
  ltb, save_failed, ℕ, zero, suc, ◌≡◌, ◌↔◌, refl, Bool, true, false, none, some, List, [], ◌∷◌,
  arith, ok, Result, err, All, if◌then◌else◌,
}
use cs244b_fp.Wire.{HotstuffBlockWire}
use cs244b_fp.Crypto.Certs.{QuorumCertificate, empty_qc}
use cs244b_fp.Block.{
  Ptr, HotstuffBlock, Heap, genesis_block, genesis_heap, modify, decide, get_justify_qc,
  write_to_disk,
}
use cs244b_fp.Block.Shape.{IsLinked, Line}
use cs244b_fp.Consensus.{
  Core, init_core, walk_down, opinion, cast_vote, update, update_hqc, update_lock, lock_and_write,
  update_commit, commit_chain, decide_queue, finish_commit, on_receive_proposal,
}
use cs244b_fp.Consensus.Advance.{applied, votes}
use cs244b_fp.Consensus.ThreeChain.{HasQc, Reacts}
use cs244b_fp.Consensus.Invariant.{Grows, Descends}
use cs244b_fp.Consensus.Safety.{applied-Line, votes-Descends}
use cs244b_fp.Consensus.Run.{init_core-Inv, Reach-Inv, proposed, stored, Reach, here, next}
use cs244b_fp.Consensus.Voting.{IsSafeToVote, on_receive_proposal-Reacts, opinion-cast_vote_wraps}
use cs244b_fp.Network.Events.{Event, proposal_event, run_events}
use cs244b_fp.Network.Events.Passes.{Ends, proposal_ready, run_events-Ends}
use cs244b_fp.Examples.Config.{four}

-- At address `n` is the block of height `n`, whose hash is `n` as well.
unfoldable pub chain_block : ℕ → HotstuffBlock
unfolding genesis_block
chain_block zero = genesis_block
chain_block (suc n) = record genesis_block {
  parsed_qc = some (empty_qc n);
  proposer = 1;
  block_height = suc n;
  parent_block_ptr = some n;
  justify_block_ptr = some n;
  self_qc = empty_qc (suc n);
  decided = false;
  written_to_disk = false;
  flushed_from_memory = false;
}

abbrev pub chain : Heap
chain = record { next = 5; cell = chain_block }

chain-IsLinked : IsLinked chain
unfolding genesis_block chain_block
chain-IsLinked = record { step = up; root = top }
  where
    up :
        (p q : Ptr)
        → (chain_block p).parent_block_ptr ≡ some q
        → (chain_block p).block_height ≡ suc (chain_block q).block_height
    up zero q e = cc
    up (suc n) zero e = ground (arith, e)
    up (suc n) (suc m) e = ground (arith, e)

    top : (p : Ptr) → (chain_block p).parent_block_ptr ≡ none → (chain_block p).block_height ≡ 0
    top zero e = refl
    top (suc n) e = cc

chain-HasQc : HasQc chain
unfolding genesis_block chain_block
chain-HasQc = certificate
  where
    certificate :
        (p j : Ptr)
        → (chain_block p).justify_block_ptr ≡ some j
        → (qc : QuorumCertificate) × ((chain_block p).parsed_qc ≡ some qc)
    certificate zero j e = cc
    certificate (suc n) j e = (empty_qc n, refl)

chain-Grows : Grows genesis_heap chain
unfolding genesis_heap genesis_block chain_block
chain-Grows = record {
  grown_linked = chain-IsLinked;
  grown_qc = chain-HasQc;
  stays = λ p q e. ground arith;
  stays_decided = decided_too;
}
  where
    decided_too : (p : Ptr) → (genesis_heap.cell p).decided ≡ true → (chain_block p).decided ≡ true
    decided_too zero e = refl
    decided_too (suc n) e = ground arith

-- The replica after it has heard of the chain, and after the proposals 1 to 4.
abbrev informed : Core
informed = record (init_core four 2) { heap = chain }

abbrev pub expect : Core → Result Core → Core
expect c (ok d) = d
expect c (err e) = c

abbrev pub after : ℕ → Core
after zero = informed
after (suc n) = expect informed (on_receive_proposal (suc n) 1 (after n))

after_four :
    ((after 4).b_exec ≡ 1)
    × ((after 4).b_lock ≡ 2)
    × ((after 4).hqc_block ≡ 3)
    × (applied (after 4).trace ≡ 1 ∷ [])
    × (votes (after 4).trace ≡ 4 ∷ 3 ∷ 2 ∷ 1 ∷ [])
unfolding on_receive_proposal opinion cast_vote update update_hqc update_lock lock_and_write
    update_commit commit_chain walk_down decide_queue finish_commit write_to_disk init_core
    genesis_block modify decide get_justify_qc chain_block
after_four = (refl, refl, refl, refl, refl)

after-four-Reach : Reach (init_core four 2) (after 4)
unfolding on_receive_proposal opinion cast_vote update update_hqc update_lock lock_and_write
    update_commit commit_chain walk_down decide_queue finish_commit write_to_disk init_core
    genesis_block modify decide get_justify_qc chain_block
after-four-Reach =
    next
      (next
        (next
          (next (next here (stored chain chain-Grows))
            (proposed {c = after 0} {d = after 1} 1 0 1 refl (omega arith) refl))
          (proposed {c = after 1} {d = after 2} 2 1 1 refl (omega arith) refl))
        (proposed {c = after 2} {d = after 3} 3 2 1 refl (omega arith) refl))
      (proposed {c = after 3} {d = after 4} 4 3 1 refl (omega arith) refl)

applied-Line_example :
    Line (after 4).heap (after 4).genesis (applied (after 4).trace) (after 4).b_exec
    × All (λ b. ((after 4).heap.cell b).decided ≡ true) (applied (after 4).trace)
applied-Line_example = applied-Line four 2 after-four-Reach

votes-Descends_example : Descends (after 4).heap (suc (after 4).vheight) (votes (after 4).trace)
votes-Descends_example = votes-Descends four 2 after-four-Reach

-- A `save_block` that fails for the third block, and counts the others.
abbrev save_two : HotstuffBlockWire → ℕ → Result ℕ
save_two block n = if ltb n 2 then ok (suc n) else err save_failed

on_receive_proposal-Reacts_example :
    (vote : Bool) × ((vote ≡ true) ↔ IsSafeToVote informed 4 3)
    × Reacts
        (if vote then cast_vote 4 1 informed else informed)
        4
        (on_receive_proposal 4 1 informed)
unfolding chain_block
on_receive_proposal-Reacts_example =
    on_receive_proposal-Reacts informed 4 3 1 chain-IsLinked chain-HasQc refl

opinion-cast_vote_wraps_example : opinion 4294967296 (cast_vote 4294967296 1 informed) ≡ ok true
unfolding opinion init_core genesis_block chain_block
opinion-cast_vote_wraps_example = opinion-cast_vote_wraps informed 4294967296 1 (omega arith) refl

abbrev two_proposals : List Event
two_proposals = proposal_event 1 1 ∷ proposal_event 2 1 ∷ []

run_events-Ends_example : Ends two_proposals informed (run_events two_proposals informed)
unfolding chain_block genesis_block init_core
run_events-Ends_example =
    run_events-Ends two_proposals informed
      (Reach-Inv (init_core-Inv four 2) (next here (stored chain chain-Grows)))
      (proposal_ready 0 refl (omega arith), (proposal_ready 1 refl (omega arith), tt))
