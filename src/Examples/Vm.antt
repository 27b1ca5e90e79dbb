-- ===== src/Examples/Vm.antt =====
-- The counting machine behind the bridge.
use cs244b_fp.Prelude.{ℕ, ◌≡◌, refl, false, Option, some, List, [], ◌∷◌, arith, ok}
use cs244b_fp.Block.{HotstuffBlock, Heap, genesis_block}
use cs244b_fp.Vm.Gadget.{Gadget, new_gadget, add_height_pair, on_commit_hotstuff}
use cs244b_fp.Vm.Gadget.Fifo.{
  Queue, Represents, Commits, enter, leave, add_height_pair-enter, on_commit_hotstuff-leave,
  new_gadget-Represents,
}
use cs244b_fp.Vm.Control.{
  VmType, Control, new_control, set_proposer, submit_block_for_exec, run_once, get_proposal,
}
use cs244b_fp.Vm.Control.Worker.{Round, start, later, sets, submits, run_once-never_early}
use cs244b_fp.Vm.Control.Serving.{get_proposal-serves}
use cs244b_fp.Vm.Bridge.{Bridge, new_bridge, init_clean, try_vm_parse}
use cs244b_fp.Vm.Bridge.Steps.{commit_block}
use cs244b_fp.Vm.Bridge.Commitment.{Outcome, commit_block-Outcome}
use cs244b_fp.Vm.Counting.{clean_vm, counting_vm}

abbrev counting : VmType
counting = counting_vm (λ bytes. some bytes) (λ block. block)

abbrev none_ahead : Queue ℕ
none_ahead = record { committed = 0; pending = [] }

abbrev one_ahead : Queue ℕ
one_ahead = record { committed = 0; pending = 7 ∷ [] }

abbrev speculated_one : Gadget ℕ
speculated_one = add_height_pair 1 7 new_gadget

add_height_pair-enter_example : Represents speculated_one (enter 1 7 none_ahead)
add_height_pair-enter_example =
    add_height_pair-enter 1 7 new_gadget none_ahead new_gadget-Represents (omega arith)

on_commit_hotstuff-leave_example : Commits (on_commit_hotstuff 1 speculated_one) (leave 1 one_ahead)
on_commit_hotstuff-leave_example =
    on_commit_hotstuff-leave 1 speculated_one one_ahead add_height_pair-enter_example

abbrev proposer_mode : Control counting
proposer_mode = set_proposer (new_control clean_vm)

run_once-never_early_example :
    (d : Control counting) × (run_once (submit_block_for_exec (some (1 ∷ [])) proposer_mode) ≡ ok d)
    × Round (submit_block_for_exec (some (1 ∷ [])) proposer_mode) d
run_once-never_early_example =
    run_once-never_early clean_vm (later (later start sets) (submits (some (1 ∷ []))))

abbrev busy : Control counting
busy = record proposer_mode { additional_proposal_requests = 2 }

get_proposal-serves_example :
    (b : List ℕ) × (d : Control counting) × (get_proposal 1 proposer_mode ≡ ok (some b, d))
unfolding new_control set_proposer
get_proposal-serves_example = get_proposal-serves 0 proposer_mode refl refl (omega arith)

-- At address 1 a block of height 1 with the body 5.
abbrev decided_block : HotstuffBlock
unfolding genesis_block
decided_block = record genesis_block {
  wire_block = record { header = genesis_block.wire_block.header; body = 5 ∷ [] };
  block_height = 1;
  flushed_from_memory = false;
}

abbrev blocks : Heap
blocks = record { next = 2; cell = λ p. decided_block }

abbrev ready : Bridge counting
ready = init_clean clean_vm (new_bridge clean_vm)

commit_block-Outcome_example :
    (value : Option (List ℕ)) × (try_vm_parse counting decided_block ≡ ok value)
    × Outcome 1 ready (record { committed = 0; pending = [] }) value (commit_block 1 blocks 1 ready)
unfolding new_bridge init_clean new_control decided_block
commit_block-Outcome_example =
    commit_block-Outcome blocks 1 1 ready (record { committed = 0; pending = [] }) refl refl
      new_gadget-Represents refl (omega arith)
