-- ===== src/Vm/Control/Serving.antt =====
-- The thread of the state machine serves proposals.
use cs244b_fp.Prelude.{
  ℕ, suc, ◌-◌, ◌<◌, ◌≡◌, refl, ap, ◌∙◌, inl, inr, true, false, some, List, [], ◌∷◌, arith, ltb,
  length, ◌==◌, if◌then◌else◌, ok, Bool-cases,
}
use cs244b_fp.Vm.Control.{
  VmType, Control, exists_work_to_do, run_once, run, request_more, take_proposal, get_proposal,
  is_empty,
}
use cs244b_fp.Vm.Control.Worker.{run_once-Round, run-Rounds}

is_empty_lem : {A : Type 0} (xs : List A) → is_empty xs ≡ false → 0 < length xs
is_empty_lem [] e = cc
is_empty_lem (x ∷ xs) e = omega arith

module _ {vm : VmType} where
  taken :
      (d : Control vm)
      → d.done_flag ≡ false
      → 0 < length d.proposal_buffer
      → (b : vm.Block) × (f : Control vm) × (take_proposal d ≡ ok (some b, f))
  unfolding take_proposal
  taken d going some_left = at d.proposal_buffer refl
    where
      at :
          (buffer : List vm.Block)
          → d.proposal_buffer ≡ buffer
          → (b : vm.Block) × (f : Control vm) × (take_proposal d ≡ ok (some b, f))
      at [] e = absurd (omega (arith, ap length e))
      at (b ∷ rest) e = (
        b,
        record d {
          proposal_buffer = rest;
          additional_proposal_requests =
              if ltb d.proposal_buffer_target (length rest)
              then 0
              else d.proposal_buffer_target - length rest;
        },
        simp (going, e, take_proposal),
      )

  busy_with :
      (a : Control vm)
      → 0 < a.additional_proposal_requests
      → a.is_proposer ≡ true
      → exists_work_to_do a ≡ true
  unfolding exists_work_to_do
  busy_with a some_asked p = ground arith

  run-step :
      (n : ℕ) (c d : Control vm)
      → c.done_flag ≡ false
      → exists_work_to_do c ≡ true
      → run_once c ≡ ok d
      → run (suc n) c ≡ run n d
  unfolding run
  run-step n c d going busy e = simp (going, busy, e, run)

  run_requested :
      (rounds : ℕ) (c : Control vm)
      → c.is_proposer ≡ true
      → c.done_flag ≡ false
      → 0 < c.proposal_buffer_target
      → (d : Control vm) × (run (suc rounds) (request_more c) ≡ ok d)
        × (d.done_flag ≡ false)
        × (0 < length d.proposal_buffer)
  unfolding request_more
  run_requested rounds c proposer going wanted =
      let asked = request_more c in
      let some_asked : 0 < asked.additional_proposal_requests = ground (arith, wanted) in
      let busy : exists_work_to_do asked ≡ true = busy_with asked some_asked proposer in
      let (d, e, r) = run_once-Round asked (inr proposer) in
      let (f, e', rs) = run-Rounds rounds d r.armed in
      (
        f,
        run-step rounds asked d going busy e ∙ e',
        rs.done ∙ r.same_done ∙ going,
        omega (arith, r.filled, r.one_less, rs.no_fewer, some_asked),
      )

  get_proposal-waits :
      (n : ℕ) (c d : Control vm)
      → c.is_proposer ≡ true
      → c.done_flag ≡ false
      → is_empty c.proposal_buffer ≡ true
      → (c.proposal_buffer_target == 0) ≡ false
      → run n (request_more c) ≡ ok d
      → get_proposal n c ≡ take_proposal d
  unfolding get_proposal
  get_proposal-waits n c d proposer going none_left target e =
      simp (proposer, going, none_left, target, e, get_proposal)

  get_proposal-ready :
      (n : ℕ) (c : Control vm)
      → c.is_proposer ≡ true
      → c.done_flag ≡ false
      → is_empty c.proposal_buffer ≡ false
      → get_proposal n c ≡ take_proposal c
  unfolding get_proposal
  get_proposal-ready n c proposer going full = simp (proposer, going, full, get_proposal)

  -- In proposer mode, and unless proposals were stopped, `get_proposal` gets a proposal: it waits for
  -- one round of the thread at most.
  pub get_proposal-serves :
      (rounds : ℕ) (c : Control vm)
      → c.is_proposer ≡ true
      → c.done_flag ≡ false
      → 0 < c.proposal_buffer_target
      → (b : vm.Block) × (d : Control vm) × (get_proposal (suc rounds) c ≡ ok (some b, d))
  get_proposal-serves rounds c proposer going wanted =
      elim (Bool-cases (is_empty c.proposal_buffer)) [
        | inr full ↦
            let (b, d, e) = taken c going (is_empty_lem c.proposal_buffer full) in
            (b, d, get_proposal-ready (suc rounds) c proposer going full ∙ e)
        | inl empty ↦
            let (d, e, still, filled) = run_requested rounds c proposer going wanted in
            let (b, f, e') = taken d still filled in
            let target : (c.proposal_buffer_target == 0) ≡ false = ground (arith, wanted) in
            (b, f, get_proposal-waits (suc rounds) c d proposer going empty target e ∙ e')
      ]
