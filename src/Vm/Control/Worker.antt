-- ===== src/Vm/Control/Worker.antt =====
-- The thread of the state machine: it never throws, and it ends its work.
use mathlib.Core.Path.{subst}
use cs244b_fp.Prelude.{
  ℕ, zero, suc, ◌+◌, ◌-◌, ◌≤◌, ◌≡◌, refl, sym, ◌∙◌, inl, inr, ◌⊎◌, true, false, not, ◌||◌, Option,
  none, [], ◌∷◌, ◌++◌, arith, ltb, length, length-append, Result, ok, Bool-cases, ok_injective,
}
use cs244b_fp.Vm.Control.{
  VmType, Control, new_control, exists_work_to_do, set_proposer, submit_block_for_exec,
  log_commitment, clear_proposal_settings, run_once, run, exec_all, logged, request_more,
  take_proposal, stop_proposals,
}

module _ {vm : VmType} where
  -- Proposals are asked for only in proposer mode.
  abbrev pub IsArmed : Control vm → Type 0
  IsArmed c = (c.additional_proposal_requests ≡ 0) ⊎ (c.is_proposer ≡ true)

  -- What a round leaves.
  pub record Round (c d : Control vm) : Type 0 where
    pub armed : IsArmed d
    pub no_blocks : d.blocks_to_validate ≡ []
    pub no_commitment : d.highest_committed_id ≡ none
    pub one_less : d.additional_proposal_requests ≡ c.additional_proposal_requests - 1
    pub same_mode : d.is_proposer ≡ c.is_proposer
    pub same_done : d.done_flag ≡ c.done_flag
    pub same_target : d.proposal_buffer_target ≡ c.proposal_buffer_target
    pub filled :
        length c.proposal_buffer + (c.additional_proposal_requests - d.additional_proposal_requests)
        ≤ length d.proposal_buffer

  -- The state machine after the blocks and the commitment of a round.
  abbrev worked : Control vm → vm.State
  worked c = logged vm c.highest_committed_id (exec_all vm c.blocks_to_validate c.vm_instance)

  pub run_once-Round :
      (c : Control vm) → IsArmed c → (d : Control vm) × (run_once c ≡ ok d) × Round c d
  unfolding run_once
  run_once-Round c armed = elim (Bool-cases (ltb 0 c.additional_proposal_requests)) [
    | inl asked ↦
        let proposer : c.is_proposer ≡ true = ground (arith, asked, armed) in
        let proposal = vm.propose (worked c) in
        (
          record c {
            vm_instance = proposal.1;
            blocks_to_validate = [];
            highest_committed_id = none;
            proposal_buffer = c.proposal_buffer ++ proposal.0 ∷ [];
            additional_proposal_requests = c.additional_proposal_requests - 1;
          },
          rw (asked, proposer, run_once),
          record {
            armed = inr proposer;
            no_blocks = refl;
            no_commitment = refl;
            one_less = refl;
            same_mode = refl;
            same_done = refl;
            same_target = refl;
            filled = omega (arith, length-append c.proposal_buffer (proposal.0 ∷ []));
          },
        )
    | inr idle ↦
        let none_asked : c.additional_proposal_requests ≡ 0 = ground (arith, idle) in
        (
          record c { vm_instance = worked c; blocks_to_validate = []; highest_committed_id = none },
          rw (idle, run_once),
          record {
            armed = armed;
            no_blocks = refl;
            no_commitment = refl;
            one_less = omega (arith, none_asked);
            same_mode = refl;
            same_done = refl;
            same_target = refl;
            filled = omega arith;
          },
        )
  ]

  -- What a run of rounds leaves.
  pub record Rounds (c d : Control vm) : Type 0 where
    pub still_armed : IsArmed d
    pub mode : d.is_proposer ≡ c.is_proposer
    pub done : d.done_flag ≡ c.done_flag
    pub target : d.proposal_buffer_target ≡ c.proposal_buffer_target
    pub no_fewer : length c.proposal_buffer ≤ length d.proposal_buffer

  pub run-Rounds :
      (rounds : ℕ) (c : Control vm)
      → IsArmed c
      → (d : Control vm) × (run rounds c ≡ ok d) × Rounds c d
  unfolding run
  run-Rounds zero c armed = (
    c,
    refl,
    record { still_armed = armed; mode = refl; done = refl; target = refl; no_fewer = omega arith },
  )
  run-Rounds (suc rounds) c armed = elim (Bool-cases (c.done_flag || not (exists_work_to_do c))) [
    | inl stop ↦ (
      c,
      rw (stop, run),
      record {
        still_armed = armed;
        mode = refl;
        done = refl;
        target = refl;
        no_fewer = omega arith;
      },
    )
    | inr go ↦
        let (d, e, r) = run_once-Round c armed in
        let (f, e', rs) = run-Rounds rounds d r.armed in
        (
          f,
          rw (go, e, run) e',
          record {
            still_armed = rs.still_armed;
            mode = rs.mode ∙ r.same_mode;
            done = rs.done ∙ r.same_done;
            target = rs.target ∙ r.same_target;
            no_fewer = omega (arith, r.filled, rs.no_fewer);
          },
        )
  ]

  abbrev Idles : Control vm → Result (Control vm) → Type 0
  Idles c r =
      (d : Control vm) × (r ≡ ok d) × (exists_work_to_do d ≡ false) × (d.done_flag ≡ c.done_flag)

  -- The calls from the replica and the rounds of the thread, each under the mutex.
  pub data Turn : Control vm → Control vm → Type 0 where
    sets : {c : Control vm} → Turn c (set_proposer c)
    submits : {c : Control vm} (b : Option vm.Block) → Turn c (submit_block_for_exec b c)
    logs : {c : Control vm} (i : vm.BlockId) → Turn c (log_commitment i c)
    stops : {c : Control vm} → Turn c (stop_proposals c)
    requests : {c : Control vm} → c.is_proposer ≡ true → Turn c (request_more c)
    takes :
        {c d : Control vm} (b : Option vm.Block)
        → c.is_proposer ≡ true
        → take_proposal c ≡ ok (b, d)
        → Turn c d
    rounds : {c d : Control vm} → run_once c ≡ ok d → Turn c d

  pub data Turns (c : Control vm) : Control vm → Type 0 where
    start : Turns c c
    later : {d e : Control vm} → Turns c d → Turn d e → Turns c e

  take_proposal-IsArmed :
      (c : Control vm) (b : Option vm.Block) (d : Control vm)
      → c.is_proposer ≡ true
      → take_proposal c ≡ ok (b, d)
      → IsArmed d
  unfolding take_proposal
  take_proposal-IsArmed c b d p e = inr (ground (arith, p, e))

  Turn-IsArmed : {c d : Control vm} → Turn c d → IsArmed c → IsArmed d
  unfolding set_proposer submit_block_for_exec clear_proposal_settings log_commitment stop_proposals
      request_more
  Turn-IsArmed (sets {c}) a = inr refl
  Turn-IsArmed (submits {c} b) a = inl refl
  Turn-IsArmed (logs {c} i) a = ground (arith, a)
  Turn-IsArmed (stops {c}) a = a
  Turn-IsArmed (requests {c} p) a = inr p
  Turn-IsArmed (takes {c} {d} b p e) a = take_proposal-IsArmed c b d p e
  Turn-IsArmed (rounds {c} {d} e) a =
      let (f, e', r) = run_once-Round c a in subst IsArmed (ok_injective (sym e' ∙ e)) r.armed

  Turns-IsArmed : {c d : Control vm} → Turns c d → IsArmed c → IsArmed d
  Turns-IsArmed start a = a
  Turns-IsArmed (later ts t) a = Turn-IsArmed t (Turns-IsArmed ts a)

  -- In every order of the calls and the rounds, the next round of the thread does its work and does
  -- not throw: it is never asked for a proposal outside proposer mode.
  pub run_once-never_early :
      (s : vm.State) {c : Control vm}
      → Turns (new_control s) c
      → (d : Control vm) × (run_once c ≡ ok d) × Round c d
  unfolding new_control
  run_once-never_early s {c} ts = run_once-Round c (Turns-IsArmed ts (inl refl))
