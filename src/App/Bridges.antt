-- ===== src/App/Bridges.antt =====
-- `get_next_vm_block` of the two applications in hotstuff.h: which proposal a bridge is asked for.
-- `rounds` bounds the rounds of the thread of the state machine while it is waited for.
use cs244b_fp.Prelude.{ℕ, Bool, not, List, if◌then◌else◌, Result, ok, ◌>>=◌}
use cs244b_fp.Vm.Control.{VmType}
use cs244b_fp.Vm.Bridge
use cs244b_fp.Vm.Nonspeculative

module _ {vm : VmType} where
  unfoldable pub next_vm_block :
      ℕ → Bool → ℕ → Bridge.Bridge vm → Result (List ℕ × Bridge.Bridge vm)
  next_vm_block rounds nonempty_proposal hotstuff_height b =
      if not nonempty_proposal
      then Bridge.make_empty_proposal hotstuff_height b
      else Bridge.get_and_apply_next_proposal rounds hotstuff_height b

  unfoldable pub next_nonspeculative_block :
      Bool → ℕ → Nonspeculative.Bridge vm → Result (List ℕ × Nonspeculative.Bridge vm)
  next_nonspeculative_block nonempty_proposal hotstuff_height b =
      if not nonempty_proposal
      then (do body ← Nonspeculative.make_empty_proposal hotstuff_height b; ok (body, b))
      else Nonspeculative.get_next_proposal hotstuff_height b
