-- ===== src/Vm/Nonspeculative.antt =====
-- vm/nonspeculative_vm_bridge.h: the bridge to a state machine that is handed proposals as bytes and
-- executes decided blocks only. `vm_instance` is what `vm` points to; the decided blocks that
-- `apply_block` adds to the open transaction are `added`, in order.
pub mod Proposals
use cs244b_fp.Prelude.{
  ℕ, Bool, true, false, not, Option, none, some, List, [], ◌∷◌, ◌++◌, if◌then◌else◌, Result, ok,
  err, or_fail, ◌>>=◌, uninitialized_vm, null_deref,
}
use cs244b_fp.Block.{Ptr, HotstuffBlock}
use cs244b_fp.Vm.Control.{VmType}
use cs244b_fp.Vm.Bridge.{try_vm_parse}

pub record Bridge (vm : VmType) : Type 0 where
  pub vm_instance : vm.State
  pub initialized : Bool
  pub proposal_buffer : List (List ℕ)
  pub added : List (Ptr × vm.BlockId)

-- `back` and `pop_back` of a vector that starts with `x`.
unfoldable pub back : List ℕ → List (List ℕ) → List ℕ
back x [] = x
back x (y ∷ ys) = back y ys

unfoldable pub pop_back : List ℕ → List (List ℕ) → List (List ℕ)
pop_back x [] = []
pop_back x (y ∷ ys) = x ∷ pop_back y ys

unfoldable pub get_block_id : (vm : VmType) → Option vm.Block → vm.BlockId
get_block_id vm none = vm.empty_block_id
get_block_id vm (some b) = vm.nonempty_block_id b

module _ {vm : VmType} where
  unfoldable pub new_bridge : vm.State → Bridge vm
  new_bridge s = record { vm_instance = s; initialized = false; proposal_buffer = []; added = [] }

  unfoldable pub init_clean : Bridge vm → Bridge vm
  init_clean b = record b { initialized = true }

  unfoldable pub init_from_disk : ℕ → Bridge vm → Bridge vm
  init_from_disk decided_hotstuff_height b = record b { initialized = true }

  unfoldable pub make_empty_proposal : ℕ → Bridge vm → Result (List ℕ)
  make_empty_proposal proposal_height b = if not b.initialized then err uninitialized_vm else ok []

  unfoldable pub get_next_proposal : ℕ → Bridge vm → Result (List ℕ × Bridge vm)
  get_next_proposal proposal_height b =
      if not b.initialized then err uninitialized_vm else elim b.proposal_buffer [
        | [] ↦ ok ([], b)
        | x ∷ xs ↦ ok (back x xs, record b { proposal_buffer = pop_back x xs })
      ]

  -- The block's value is executed through its pointer, which is null if there is none.
  unfoldable pub apply_block : Ptr → HotstuffBlock → Bridge vm → Result (Bridge vm)
  apply_block p blk b = if not b.initialized then err uninitialized_vm else do
    value ← try_vm_parse vm blk
    let added = b.added ++ (p, get_block_id vm value) ∷ []
    block ← or_fail value null_deref
    ok (record b { vm_instance = vm.exec_block block b.vm_instance; added = added })

  unfoldable pub notify_vm_of_commitment : Ptr → Bridge vm → Bridge vm
  notify_vm_of_commitment p b = b

  unfoldable pub proposal_buffer_is_empty : Bridge vm → Bool
  proposal_buffer_is_empty b = elim b.proposal_buffer [ [] ↦ true | _ ∷ _ ↦ false ]

  unfoldable pub add_proposal : List ℕ → Bridge vm → Bridge vm
  add_proposal proposal b = record b { proposal_buffer = proposal ∷ b.proposal_buffer }
