-- ===== src/Vm/Bridge/Steps.antt =====
-- The calls of the bridge for a decided block, on each branch.
use mathlib.Core.Path.{subst}
use cs244b_fp.Prelude.{
  ℕ, suc, ◌+◌, ◌^◌, ◌<◌, ◌≡◌, refl, ap, ◌∙◌, true, false, Option, none, List, [], ◌∷◌, ◌++◌, arith,
  length, Result, ok, err, never_returns, ◌>>=◌, if◌then◌else◌, ltb,
}
use cs244b_fp.Block.{Ptr, HotstuffBlock, Heap, has_body}
use cs244b_fp.Vm.Gadget.{Gadget, add_height_pair, on_commit_hotstuff}
use cs244b_fp.Vm.Gadget
use cs244b_fp.Vm.Gadget.Fifo.{Represents, add_at_head, commit_pending}
use cs244b_fp.Vm.Control.{VmType, log_commitment, submit_block_for_exec}
use cs244b_fp.Vm.Bridge.{
  Bridge, try_vm_parse, get_block_id, submit, rewind, revert_to_last_commitment, apply_value,
  apply_block, notify_vm_of_commitment,
}

-- The calls of the core for one decided block.
abbrev pub commit_block : {vm : VmType} → ℕ → Heap → Ptr → Bridge vm → Result (Bridge vm)
commit_block rounds h blk b = apply_block rounds h blk b >>= notify_vm_of_commitment h blk

pub try_vm_parse_lem :
    (vm : VmType) (b : HotstuffBlock)
    → b.flushed_from_memory ≡ false
    → (value : Option vm.Block) × (try_vm_parse vm b ≡ ok value)
unfolding try_vm_parse has_body
try_vm_parse_lem vm b kept = (
  if ltb 0 (length b.wire_block.body) then vm.xdr_from_opaque b.wire_block.body else none,
  rw (kept, try_vm_parse, has_body),
)

module _ {vm : VmType} (h : Heap) (blk : Ptr) where
  -- The next block, submitted on an empty queue, commits at once.
  pub notify_submitted :
      (n : ℕ) (value : Option vm.Block) (id : vm.BlockId) (b : Bridge vm)
      → b.initialized ≡ true
      → (h.cell blk).block_height ≡ suc n
      → suc (suc n) < 2 ^ 64
      → Represents b.speculation_map (record { committed = n; pending = [] })
      → (d : Bridge vm) × (notify_vm_of_commitment h blk
            (submit (h.cell blk).block_height value id b)
          ≡ ok d)
        × (d.vm_interface ≡ log_commitment id (submit_block_for_exec value b.vm_interface))
        × Represents d.speculation_map (record { committed = suc n; pending = [] })
        × (d.added ≡ b.added)
  unfolding notify_vm_of_commitment submit
  notify_submitted n value id b ready height room r =
      let one : Represents (add_height_pair (suc n) id b.speculation_map)
          (record { committed = n; pending = id ∷ [] }) =
        let same : n + 0 ≡ n = omega arith in
        subst
          (λ k.
            Represents (add_height_pair (suc k) id b.speculation_map)
              (record { committed = n; pending = id ∷ [] }))
          same (add_at_head n [] id b.speculation_map r (omega arith)) in
      let (g, e, r') = commit_pending n id [] _ one in
      (
        record b {
          speculation_map = g;
          vm_interface = log_commitment id (submit_block_for_exec value b.vm_interface);
        },
        simp (height, ready, e, notify_vm_of_commitment, submit),
        refl,
        r',
        refl,
      )

  pub notify_speculated :
      (n : ℕ) (v : vm.BlockId) (rest : List vm.BlockId) (b : Bridge vm)
      → b.initialized ≡ true
      → (h.cell blk).block_height ≡ suc n
      → Represents b.speculation_map (record { committed = n; pending = v ∷ rest })
      → (d : Bridge vm) × (notify_vm_of_commitment h blk b ≡ ok d)
        × (d.vm_interface ≡ log_commitment v b.vm_interface)
        × Represents d.speculation_map (record { committed = suc n; pending = rest })
        × (d.added ≡ b.added)
  unfolding notify_vm_of_commitment
  notify_speculated n v rest b ready height r =
      let (g, e, r') = commit_pending n v rest b.speculation_map r in
      (
        record b { speculation_map = g; vm_interface = log_commitment v b.vm_interface },
        simp (height, ready, e, notify_vm_of_commitment),
        refl,
        r',
        refl,
      )

  rewind_lem : (rounds : ℕ) (b : Bridge vm) → rewind rounds b ≡ err never_returns
  unfolding rewind revert_to_last_commitment
  rewind_lem rounds b = refl

  abbrev pub with_added : vm.BlockId → Bridge vm → Bridge vm
  with_added id b = record b { added = b.added ++ (blk, id) ∷ [] }

  apply_parsed :
      (rounds : ℕ) (value : Option vm.Block) (b : Bridge vm)
      → b.initialized ≡ true
      → try_vm_parse vm (h.cell blk) ≡ ok value
      → apply_block rounds h blk b
        ≡ apply_value rounds blk (h.cell blk).block_height value (get_block_id vm value) b
  unfolding apply_block
  apply_parsed rounds value b ready parsed = simp (ready, parsed, apply_block)

  pub apply_fresh :
      (rounds height : ℕ) (value : Option vm.Block) (id : vm.BlockId) (b : Bridge vm)
      → Gadget.empty b.speculation_map ≡ true
      → apply_value rounds blk height value id b ≡ ok (submit height value id (with_added id b))
  unfolding apply_value
  apply_fresh rounds height value id b none_left = simp (none_left, apply_value)

  pub apply_hit :
      (rounds height k : ℕ) (value : Option vm.Block) (id v : vm.BlockId) (b : Bridge vm)
      → Gadget.empty b.speculation_map ≡ false
      → Gadget.get_lowest_speculative_hotstuff_height b.speculation_map ≡ ok (k, v)
      → vm.same_id id v ≡ true
      → apply_value rounds blk height value id b ≡ ok (with_added id b)
  unfolding apply_value
  apply_hit rounds height k value id v b some_left lowest hit =
      simp (some_left, lowest, hit, apply_value)

  pub apply_miss :
      (rounds height k : ℕ) (value : Option vm.Block) (id v : vm.BlockId) (b : Bridge vm)
      → Gadget.empty b.speculation_map ≡ false
      → Gadget.get_lowest_speculative_hotstuff_height b.speculation_map ≡ ok (k, v)
      → vm.same_id id v ≡ false
      → apply_value rounds blk height value id b ≡ err never_returns
  unfolding apply_value
  apply_miss rounds height k value id v b some_left lowest miss =
      rw (some_left, lowest, miss, rewind_lem rounds (with_added id b), apply_value)

  pub then_notify :
      (rounds : ℕ) (value : Option vm.Block) (b : Bridge vm) (r : Result (Bridge vm))
      → b.initialized ≡ true
      → try_vm_parse vm (h.cell blk) ≡ ok value
      → apply_value rounds blk (h.cell blk).block_height value (get_block_id vm value) b ≡ r
      → commit_block rounds h blk b ≡ (r >>= notify_vm_of_commitment h blk)
  then_notify rounds value b r ready parsed e =
      ap (λ r. r >>= notify_vm_of_commitment h blk) (apply_parsed rounds value b ready parsed ∙ e)
