-- ===== src/Vm/Bridge.antt =====
-- vm/hotstuff_vm_bridge.h: the speculation gadget and the control interface together. The decided
-- blocks that `apply_block` adds to the open transaction are `added`, in order. `rounds` bounds the
-- rounds of the thread during each wait.
pub mod Steps
pub mod Commitment
use cs244b_fp.Prelude.{
  ℕ, suc, ◌+◌, Bool, true, false, not, Option, none, some, List, [], ◌∷◌, ◌++◌, if◌then◌else◌,
  Result, ok, err, or_fail, ◌>>=◌, uninitialized_vm, never_returns,
}
use cs244b_fp.Block.{Ptr, HotstuffBlock, Heap, has_body}
use cs244b_fp.Vm.Gadget.{Gadget, new_gadget, add_height_pair, on_commit_hotstuff}
use cs244b_fp.Vm.Gadget
use cs244b_fp.Vm.Control.{
  VmType, Control, new_control, set_proposer, get_proposal, submit_block_for_exec, log_commitment,
  finish_work_and_force_rewind,
}

pub record Bridge (vm : VmType) : Type 0 where
  pub speculation_map : Gadget vm.BlockId
  pub vm_interface : Control vm
  pub initialized : Bool
  pub added : List (Ptr × vm.BlockId)

-- `try_vm_parse`: no block without a body, or where parsing throws.
unfoldable pub try_vm_parse : (vm : VmType) → HotstuffBlock → Result (Option vm.Block)
try_vm_parse vm b = do
  body ← has_body b
  ok (if body then vm.xdr_from_opaque b.wire_block.body else none)

unfoldable pub get_block_id : (vm : VmType) → Option vm.Block → vm.BlockId
get_block_id vm none = vm.empty_block_id
get_block_id vm (some b) = vm.nonempty_block_id b

module _ {vm : VmType} where
  unfoldable pub new_bridge : vm.State → Bridge vm
  new_bridge s = record {
    speculation_map = new_gadget;
    vm_interface = new_control s;
    initialized = false;
    added = [];
  }

  -- `init_clean`, with the state of the clean machine.
  unfoldable pub init_clean : vm.State → Bridge vm → Bridge vm
  init_clean s b = record b {
    initialized = true;
    vm_interface = record b.vm_interface { vm_instance = s };
  }

  -- With the state that the machine loads, and the height that is decided on disk.
  unfoldable pub init_from_disk : vm.State → ℕ → Bridge vm → Bridge vm
  init_from_disk s decided b = record b {
    vm_interface = record b.vm_interface { vm_instance = s };
    speculation_map = Gadget.init_from_disk decided b.speculation_map;
    initialized = true;
  }

  unfoldable pub make_empty_proposal : ℕ → Bridge vm → Result (List ℕ × Bridge vm)
  make_empty_proposal height b =
      if not b.initialized
      then err uninitialized_vm
      else ok (
        [],
        record b { speculation_map = add_height_pair height vm.empty_block_id b.speculation_map },
      )

  unfoldable pub get_and_apply_next_proposal : ℕ → ℕ → Bridge vm → Result (List ℕ × Bridge vm)
  get_and_apply_next_proposal rounds height b =
      if not b.initialized then err uninitialized_vm else (do
        (proposal, c) ← get_proposal rounds b.vm_interface
        ok (
          elim proposal [ none ↦ [] | some p ↦ vm.xdr_to_opaque p ],
          record b {
            vm_interface = c;
            speculation_map = add_height_pair height (get_block_id vm proposal) b.speculation_map;
          },
        ))

  -- The end of `apply_block`, where the machine has not speculated on the block.
  unfoldable pub submit : ℕ → Option vm.Block → vm.BlockId → Bridge vm → Bridge vm
  submit height value id b = record b {
    speculation_map = add_height_pair height id b.speculation_map;
    vm_interface = submit_block_for_exec value b.vm_interface;
  }

  -- Clearing the gadget locks its mutex, which is not recursive: `locked` says whether the calling
  -- thread has it already.
  unfoldable pub revert_to_last_commitment : Bool → Bridge vm → Result (Bridge vm)
  revert_to_last_commitment locked b =
      if locked
      then err never_returns
      else ok (record b { speculation_map = Gadget.clear b.speculation_map })

  -- The lowest entry differs, with the mutex of the gadget locked.
  unfoldable pub rewind : ℕ → Bridge vm → Result (Bridge vm)
  rewind rounds b = do
    b' ← revert_to_last_commitment true b
    c ← finish_work_and_force_rewind rounds b'.vm_interface
    ok (record b' { vm_interface = c })

  -- `apply_block` once the block is parsed.
  unfoldable pub apply_value :
      ℕ → Ptr → ℕ → Option vm.Block → vm.BlockId → Bridge vm → Result (Bridge vm)
  apply_value rounds blk height value id b =
      let b' = record b { added = b.added ++ (blk, id) ∷ [] } in
      if Gadget.empty b.speculation_map then ok (submit height value id b') else (do
        (_, speculative) ← Gadget.get_lowest_speculative_hotstuff_height b.speculation_map
        if vm.same_id id speculative
            then ok b'
            else (do c ← rewind rounds b'; ok (submit height value id c)))

  unfoldable pub apply_block : ℕ → Heap → Ptr → Bridge vm → Result (Bridge vm)
  apply_block rounds h blk b = if not b.initialized then err uninitialized_vm else (do
    value ← try_vm_parse vm (h.cell blk)
    apply_value rounds blk (h.cell blk).block_height value (get_block_id vm value) b)

  unfoldable pub notify_vm_of_commitment : Heap → Ptr → Bridge vm → Result (Bridge vm)
  notify_vm_of_commitment h blk b = if not b.initialized then err uninitialized_vm else (do
    (committed, g) ← on_commit_hotstuff (h.cell blk).block_height b.speculation_map
    ok (record b { speculation_map = g; vm_interface = log_commitment committed b.vm_interface }))

  unfoldable pub put_vm_in_proposer_mode : Bridge vm → Result (Bridge vm)
  put_vm_in_proposer_mode b =
      if not b.initialized
      then err uninitialized_vm
      else ok (record b { vm_interface = set_proposer b.vm_interface })
