-- ===== src/Vm/Bridge/Commitment.antt =====
-- What a commitment does to the gadget and to the state machine.
use mathlib.Core.Path.{subst}
use cs244b_fp.Prelude.{
  ℕ, suc, ◌^◌, ◌<◌, ◌≡◌, refl, sym, ◌∙◌, inl, inr, true, false, Result, err, never_returns, Option,
  List, [], ◌∷◌, ◌++◌, ok, Bool-cases,
}
use cs244b_fp.Block.{Ptr, Heap}
use cs244b_fp.Vm.Gadget.Fifo.{Queue, Represents, lowest_pending, none_pending}
use cs244b_fp.Vm.Control.{VmType, log_commitment, submit_block_for_exec}
use cs244b_fp.Vm.Bridge.{Bridge, try_vm_parse, get_block_id}
use cs244b_fp.Vm.Bridge.Steps.{
  commit_block, try_vm_parse_lem, with_added, notify_submitted, notify_speculated, apply_fresh,
  apply_hit, apply_miss, then_notify,
}

-- The next height is committed, and `rest` is still speculated.
abbrev pub committed_to : {V : Type 0} → Queue V → List V → Queue V
committed_to q rest = record { committed = suc q.committed; pending = rest }

-- The block, parsed as `value`, was what the machine had executed; or nothing was speculated, and it
-- is submitted; or the machine had executed something else.
pub data Outcome {vm : VmType} (blk : Ptr) (b : Bridge vm) (q : Queue vm.BlockId)
    (value : Option vm.Block) : Result (Bridge vm) → Type 0 where
  speculated :
      {d : Bridge vm} (v : vm.BlockId) (rest : List vm.BlockId)
      → q.pending ≡ v ∷ rest
      → vm.same_id (get_block_id vm value) v ≡ true
      → Represents d.speculation_map (committed_to q rest)
      → d.vm_interface ≡ log_commitment v b.vm_interface
      → d.added ≡ b.added ++ (blk, get_block_id vm value) ∷ []
      → Outcome blk b q value (ok d)
  fresh :
      {d : Bridge vm}
      → q.pending ≡ []
      → Represents d.speculation_map (committed_to q [])
      → d.vm_interface
        ≡ log_commitment (get_block_id vm value) (submit_block_for_exec value b.vm_interface)
      → d.added ≡ b.added ++ (blk, get_block_id vm value) ∷ []
      → Outcome blk b q value (ok d)
  deadlock :
      (v : vm.BlockId) (rest : List vm.BlockId)
      → q.pending ≡ v ∷ rest
      → vm.same_id (get_block_id vm value) v ≡ false
      → Outcome blk b q value (err never_returns)

module _ {vm : VmType} (h : Heap) (blk : Ptr) where
  -- A decided block at the next height is applied and committed, provided the bridge is initialized,
  -- the block still has its body, the gadget is in order, and the height is not among the last of 64
  -- bits. Where nothing was speculated the block is submitted to the machine, and its id committed;
  -- where the lowest speculated id is that of the block, that id is committed, and what was speculated
  -- above it stays. Both times the block is added to the transaction under its id. Where the lowest
  -- speculated id is another, the call never returns: it locks the mutex of the gadget twice.
  pub commit_block-Outcome :
      (rounds : ℕ) (b : Bridge vm) (q : Queue vm.BlockId)
      → b.initialized ≡ true
      → (h.cell blk).flushed_from_memory ≡ false
      → Represents b.speculation_map q
      → (h.cell blk).block_height ≡ suc q.committed
      → suc (suc q.committed) < 2 ^ 64
      → (value : Option vm.Block) × (try_vm_parse vm (h.cell blk) ≡ ok value)
        × Outcome blk b q value (commit_block rounds h blk b)
  commit_block-Outcome rounds b q ready kept r height room =
      let (value, parsed) = try_vm_parse_lem vm (h.cell blk) kept in
      (value, parsed, at value parsed q.committed q.pending r height room)
    where
      at :
          (value : Option vm.Block)
          → try_vm_parse vm (h.cell blk) ≡ ok value
          → (n : ℕ) (vs : List vm.BlockId)
          → let q : Queue vm.BlockId = record { committed = n; pending = vs } in
            Represents b.speculation_map q
            → (h.cell blk).block_height ≡ suc n
            → suc (suc n) < 2 ^ 64
            → Outcome blk b q value (commit_block rounds h blk b)
      at value parsed n [] r height room =
          let id = get_block_id vm value in
          let q : Queue vm.BlockId = record { committed = n; pending = [] } in
          let (d, e, c, r', a) =
            notify_submitted h blk n value id (with_added h blk id b) ready height room r in
          subst (Outcome blk b q value)
            (sym (
              then_notify h blk _ value b _ ready parsed
                (apply_fresh h blk _ _ value id b (none_pending n b.speculation_map r))
              ∙ e))
            (fresh refl r' c a)
      at value parsed n (v ∷ rest) r height room =
          let id = get_block_id vm value in
          let q : Queue vm.BlockId = record { committed = n; pending = v ∷ rest } in
          let (some_left, lowest) = lowest_pending n v rest b.speculation_map r in
          elim (Bool-cases (vm.same_id (get_block_id vm value) v)) [
            | inl hit ↦
                let (d, e, c, r', a) =
                  notify_speculated h blk n v rest (with_added h blk id b) ready height r in
                subst (Outcome blk b q value)
                  (sym (
                    then_notify h blk _ value b _ ready parsed
                      (apply_hit h blk _ _ (suc n) value id v b some_left lowest hit)
                    ∙ e))
                  (speculated v rest refl hit r' c a)
            | inr miss ↦
                subst (Outcome blk b q value)
                  (sym (
                    then_notify h blk _ value b _ ready parsed
                      (apply_miss h blk _ _ (suc n) value id v b some_left lowest miss)))
                  (deadlock v rest refl miss)
          ]
