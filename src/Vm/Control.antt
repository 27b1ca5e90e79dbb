-- ===== src/Vm/Control.antt =====
-- vm/vm_control_interface.h: the buffers between the replica and the thread that runs the state
-- machine. A round of that thread, under the mutex, is `run_once`; where the source waits on the
-- condition variable, the rounds that the thread runs meanwhile are counted by an argument.
pub mod Worker
pub mod Serving
use cs244b_fp.Prelude.{
  ℕ, zero, suc, ◌+◌, ◌-◌, Bool, true, false, not, ◌&&◌, ◌||◌, Option, none, some, List, [], ◌∷◌,
  ◌++◌, ltb, length, ◌==◌, if◌then◌else◌, Result, ok, err, ◌>>=◌, woke_up_early, out_of_fuel,
  never_returns,
}

-- The state machine is a type parameter of the source. `has_value` is the id's `operator bool`.
pub record VmType : Type 1 where
  pub Block : Type 0
  pub BlockId : Type 0
  pub State : Type 0
  pub nonempty_block_id : Block → BlockId
  pub empty_block_id : BlockId
  pub has_value : BlockId → Bool
  pub same_id : BlockId → BlockId → Bool
  pub xdr_from_opaque : List ℕ → Option Block
  pub xdr_to_opaque : Block → List ℕ
  pub exec_block : Block → State → State
  pub propose : State → Block × State
  pub log_block : BlockId → State → State
  pub rewind_to_last_commit : State → State

-- A null pointer in `blocks_to_validate` is a block that did not parse.
pub record Control (vm : VmType) : Type 0 where
  pub vm_instance : vm.State
  pub proposal_buffer_target : ℕ
  pub blocks_to_validate : List (Option vm.Block)
  pub proposal_buffer : List vm.Block
  pub additional_proposal_requests : ℕ
  pub is_proposer : Bool
  pub highest_committed_id : Option vm.BlockId
  pub done_flag : Bool

unfoldable pub exec_all : (vm : VmType) → List (Option vm.Block) → vm.State → vm.State
exec_all vm [] s = s
exec_all vm (none ∷ rest) s = exec_all vm rest s
exec_all vm (some b ∷ rest) s = exec_all vm rest (vm.exec_block b s)

abbrev pub logged : (vm : VmType) → Option vm.BlockId → vm.State → vm.State
logged vm none s = s
logged vm (some i) s = vm.log_block i s

abbrev pub is_empty : {A : Type 0} → List A → Bool
is_empty [] = true
is_empty (_ ∷ _) = false

module _ {vm : VmType} where
  unfoldable pub new_control : vm.State → Control vm
  new_control s = record {
    vm_instance = s;
    proposal_buffer_target = 3;
    blocks_to_validate = [];
    proposal_buffer = [];
    additional_proposal_requests = 0;
    is_proposer = false;
    highest_committed_id = none;
    done_flag = false;
  }

  unfoldable pub exists_work_to_do : Control vm → Bool
  exists_work_to_do c =
      ltb 0 (length c.blocks_to_validate)
      || (ltb 0 c.additional_proposal_requests && c.is_proposer)
      || elim c.highest_committed_id [ none ↦ false | some _ ↦ true ]

  unfoldable pub set_proposer : Control vm → Control vm
  set_proposer c = record c { is_proposer = true }

  unfoldable pub clear_proposal_settings : Control vm → Control vm
  clear_proposal_settings c = record c {
    is_proposer = false;
    proposal_buffer = [];
    additional_proposal_requests = 0;
  }

  unfoldable pub submit_block_for_exec : Option vm.Block → Control vm → Control vm
  unfolding clear_proposal_settings
  submit_block_for_exec submission c =
      let c' = clear_proposal_settings c in
      record c' { blocks_to_validate = c'.blocks_to_validate ++ submission ∷ [] }

  unfoldable pub log_commitment : vm.BlockId → Control vm → Control vm
  log_commitment block_id c =
      if vm.has_value block_id then record c { highest_committed_id = some block_id } else c

  -- The round once the thread has work: blocks, the commitment, one proposal.
  unfoldable pub run_once : Control vm → Result (Control vm)
  unfolding exec_all
  run_once c =
      let s = logged vm c.highest_committed_id (exec_all vm c.blocks_to_validate c.vm_instance) in
      let c' = record c { vm_instance = s; blocks_to_validate = []; highest_committed_id = none } in
      if ltb 0 c.additional_proposal_requests
      then (if not c.is_proposer
          then err woke_up_early
          else (let (proposal, s') = vm.propose s in
              ok (record c' {
                vm_instance = s';
                proposal_buffer = c.proposal_buffer ++ proposal ∷ [];
                additional_proposal_requests = c.additional_proposal_requests - 1;
              })))
      else ok c'

  -- The thread, for at most as many rounds; without work it waits.
  unfoldable pub run : ℕ → Control vm → Result (Control vm)
  run zero c = ok c
  run (suc rounds) c =
      if c.done_flag || not (exists_work_to_do c) then ok c else (do c' ← run_once c; run rounds c')

  -- After the wait of `get_proposal`.
  unfoldable pub take_proposal : Control vm → Result (Option vm.Block × Control vm)
  take_proposal c = if c.done_flag then ok (none, c) else elim c.proposal_buffer [
    | [] ↦ err out_of_fuel
    | out ∷ rest ↦ ok (
      some out,
      record c {
        proposal_buffer = rest;
        additional_proposal_requests =
            if ltb c.proposal_buffer_target (length rest)
            then 0
            else c.proposal_buffer_target - length rest;
      },
    )
  ]

  -- Before the wait of `get_proposal`.
  unfoldable pub request_more : Control vm → Control vm
  request_more c = record c {
    additional_proposal_requests =
        if ltb c.additional_proposal_requests c.proposal_buffer_target
        then c.proposal_buffer_target
        else c.additional_proposal_requests;
  }

  unfoldable pub get_proposal : ℕ → Control vm → Result (Option vm.Block × Control vm)
  get_proposal rounds c =
      if not c.is_proposer || c.done_flag
      then ok (none, c)
      else if not (is_empty c.proposal_buffer)
      then take_proposal c
      else if c.proposal_buffer_target == 0
      then ok (none, request_more c)
      else (do c' ← run rounds (request_more c); take_proposal c')

  -- `wait_for_async_task`, where the thread runs until it has no work. Once `done_flag` is set the
  -- thread returns before its next round, and a wait with work left is never woken.
  unfoldable pub wait_for_async_task : ℕ → Control vm → Result (Control vm)
  unfolding run_once exists_work_to_do
  wait_for_async_task zero c =
      if not (exists_work_to_do c)
      then ok c
      else if c.done_flag
      then err never_returns
      else err out_of_fuel
  wait_for_async_task (suc rounds) c =
      if not (exists_work_to_do c)
      then ok c
      else if c.done_flag
      then err never_returns
      else (do c' ← run_once c; wait_for_async_task rounds c')

  unfoldable pub finish_work_and_force_rewind : ℕ → Control vm → Result (Control vm)
  unfolding wait_for_async_task
  finish_work_and_force_rewind rounds c = do
    c' ← wait_for_async_task rounds c
    ok (record c' { vm_instance = vm.rewind_to_last_commit c'.vm_instance })

  unfoldable pub stop_proposals : Control vm → Control vm
  stop_proposals c = record c { proposal_buffer_target = 0 }

  unfoldable pub proposal_buffer_is_empty : Control vm → Bool
  proposal_buffer_is_empty c =
      is_empty c.proposal_buffer
      && (c.proposal_buffer_target == 0)
      && (c.additional_proposal_requests == 0)
