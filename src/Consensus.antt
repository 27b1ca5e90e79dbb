-- ===== src/Consensus.antt =====
-- consensus.h and consensus.cc: the state of a replica and its reactions to votes and proposals.
-- What the methods hand to the rest of the program (virtual functions, the decision index, files) is
-- recorded in `trace`, newest first; locks are left out, each method runs alone.
pub mod Walk
pub mod Advance
pub mod ThreeChain
pub mod Commit
pub mod Voting
pub mod Invariant
pub mod Counting
pub mod Locks
pub mod Leaf
pub mod Run
pub mod Safety
use cs244b_fp.Prelude.{
  ℕ, zero, suc, ◌+◌, ◌%◌, ◌^◌, ◌≡◌, Bool, true, false, not, ◌&&◌, ◌||◌, Option, none, some, List,
  [], ◌∷◌, ◌++◌, ltb, length, ◌==◌, if◌then◌else◌, Result, ok, err, or_fail, ◌>>=◌, null_deref,
  out_of_fuel, safety_breached,
}
use cs244b_fp.Config.{Hash, ReplicaId, ReplicaConfig}
use cs244b_fp.Wire.{PartialCertificate, QuorumCertificateWire, HotstuffBlockWire}
use cs244b_fp.Crypto.Certs.{
  QuorumCertificate, empty_qc, parse_qc, serialize, add_partial_certificate, has_quorum,
}
use cs244b_fp.Block.{
  Ptr, HotstuffBlock, Heap, genesis_heap, get_hash, get_justify_qc, decide, modify, write_to_disk,
  record_saved,
}

-- The calls out of the core, with the blocks they are about.
pub data Effect : Type 0 where
  do_vote : Ptr → ReplicaId → Effect
  on_new_qc : Hash → Effect
  apply_block notify_vm_of_commitment notify_vm_of_qc_on_nonself_block : Ptr → Effect
  notify_ok_to_prune_blocks : ℕ → Effect
  save_blocks : List HotstuffBlockWire → Effect
  open_txn commit_txn : Effect
  set_qc_on_top_block : QuorumCertificate → Effect

pub record Core : Type 0 where
  pub heap : Heap
  pub genesis : Ptr
  pub hqc_block : Ptr
  pub hqc_wire : QuorumCertificateWire
  pub b_lock : Ptr
  pub b_exec : Ptr
  pub vheight : ℕ
  pub self_id : ReplicaId
  pub config : ReplicaConfig
  pub b_leaf : Ptr
  pub trace : List Effect

abbrev pub height : Core → Ptr → ℕ
height c p = (c.heap.cell p).block_height

-- The constructor of `HotstuffCore`.
unfoldable pub init_core : ReplicaConfig → ReplicaId → Core
init_core config self_id = record {
  heap = genesis_heap;
  genesis = 0;
  hqc_block = 0;
  hqc_wire = serialize (empty_qc 0);
  b_lock = 0;
  b_exec = 0;
  vheight = 0;
  self_id = self_id;
  config = config;
  b_leaf = 0;
  trace = [];
}

abbrev points_to : Option Ptr → Ptr → Bool
points_to none q = false
points_to (some p) q = p == q

unfoldable pub update_hqc : Ptr → QuorumCertificate → Core → Core
update_hqc qc_block qc c =
    if ltb (height c c.hqc_block) (height c qc_block)
    then record c {
      hqc_block = qc_block;
      hqc_wire = serialize qc;
      b_leaf = qc_block;
      trace =
          if (c.heap.cell qc_block).proposer == c.self_id
          then c.trace
          else notify_vm_of_qc_on_nonself_block qc_block ∷ c.trace;
    }
    else c

-- `for (b = blk; b->get_height() > low; b = b->get_parent())`, with the blocks that it passes,
-- in order, and the block at which it stops.
unfoldable pub walk_down : ℕ → Heap → ℕ → Ptr → Result (List Ptr × Ptr)
walk_down zero h low b = err out_of_fuel
walk_down (suc fuel) h low b = elim (ltb low (h.cell b).block_height) [
  | false ↦ ok ([], b)
  | true ↦ elim (h.cell b).parent_block_ptr [
    | none ↦ err null_deref
    | some q ↦ (do (passed, end) ← walk_down fuel h low q; ok (b ∷ passed, end))
  ]
]

-- A walk from `b` passes no more blocks than the height of `b`.
abbrev pub walk : Core → ℕ → Ptr → Result (List Ptr × Ptr)
walk c low b = walk_down (suc (height c b)) c.heap low b

unfoldable pub decide_one : Ptr → Core → Core
decide_one b c = record c {
  heap = modify decide b c.heap;
  trace = notify_vm_of_commitment b ∷ apply_block b ∷ c.trace;
}

-- The loop over the commit queue, from its back: the queue holds the highest block first.
unfoldable pub decide_queue : List Ptr → Core → Core
unfolding decide_one
decide_queue [] c = c
decide_queue (b ∷ queue) c = decide_one b (decide_queue queue c)

unfoldable pub finish_commit : Ptr → QuorumCertificate → Core → Core
finish_commit blk qc c = record c {
  b_exec = blk;
  trace = notify_ok_to_prune_blocks (height c blk) ∷ commit_txn ∷ set_qc_on_top_block qc ∷ c.trace;
}

-- From "otherwise commit" on.
unfoldable pub commit_chain : Ptr → Ptr → Core → Result Core
unfolding walk_down decide_queue finish_commit
commit_chain blk1 blk c = do
  (queue, b) ← walk c (height c c.b_exec) blk
  if not (b == c.b_exec) then err safety_breached else do
    let done = decide_queue queue (record c { trace = open_txn ∷ c.trace })
    qc ← get_justify_qc (done.heap.cell blk1)
    ok (finish_commit blk qc done)

unfoldable pub update_commit : Ptr → Ptr → Core → Result Core
unfolding commit_chain
update_commit blk2 blk1 c = elim (c.heap.cell blk1).justify_block_ptr [
  | none ↦ ok c
  | some blk ↦
      if (c.heap.cell blk).decided
      then ok c
      else if not (points_to (c.heap.cell blk2).parent_block_ptr blk1)
          || not (points_to (c.heap.cell blk1).parent_block_ptr blk)
      then ok c
      else commit_chain blk1 blk c
]

-- `b_lock` moves up, and is written to disk.
unfoldable pub lock_and_write : Ptr → Core → Result Core
lock_and_write blk1 c = do
  let locked = record c {
    b_lock = if ltb (height c c.b_lock) (height c blk1) then blk1 else c.b_lock;
  }
  (saved, h) ← write_to_disk record_saved (suc (height c locked.b_lock)) locked.b_lock c.heap []
  ok (record locked { heap = h; trace = save_blocks saved ∷ c.trace })

unfoldable pub update_lock : Ptr → Core → Result Core
unfolding lock_and_write update_commit
update_lock blk2 c = elim (c.heap.cell blk2).justify_block_ptr [
  | none ↦ ok c
  | some blk1 ↦
      if (c.heap.cell blk1).decided
      then ok c
      else (do c' ← lock_and_write blk1 c; update_commit blk2 blk1 c')
]

unfoldable pub update : Ptr → Core → Result Core
unfolding update_hqc update_lock
update nblk c = elim (c.heap.cell nblk).justify_block_ptr [
  | none ↦ ok c
  | some blk2 ↦
      if (c.heap.cell blk2).decided
      then ok c
      else (do qc ← get_justify_qc (c.heap.cell nblk); update_lock blk2 (update_hqc blk2 qc c))
]

unfoldable pub on_receive_vote : PartialCertificate → Ptr → ReplicaId → Core → Result Core
unfolding update_hqc
on_receive_vote cert certified voter c = do
  let self_qc = (c.heap.cell certified).self_qc
  let had_quorum_before = has_quorum c.config self_qc
  self_qc' ← add_partial_certificate voter cert self_qc
  let c' = record c { heap = modify (λ b. record b { self_qc = self_qc' }) certified c.heap }
  if has_quorum c.config self_qc' && not had_quorum_before
      then (let c'' = update_hqc certified self_qc' c' in
          ok (record c'' { trace = on_new_qc self_qc'.obj_hash ∷ c''.trace }))
      else ok c'

-- The vote that `on_receive_proposal` decides on.
unfoldable pub opinion : Ptr → Core → Result Bool
unfolding walk_down
opinion bnew c =
    if ltb c.vheight (height c bnew)
    then (do
      justify ← or_fail (c.heap.cell bnew).justify_block_ptr null_deref
      if ltb (height c c.b_lock) (height c justify)
          then ok true
          else (do (_, b) ← walk c (height c c.b_lock) bnew; ok (b == c.b_lock)))
    else ok false

-- `vheight` is a `uint32_t`.
unfoldable pub cast_vote : Ptr → ReplicaId → Core → Core
cast_vote bnew proposer c = record c {
  vheight = height c bnew % 2 ^ 32;
  trace = do_vote bnew proposer ∷ c.trace;
}

unfoldable pub on_receive_proposal : Ptr → ReplicaId → Core → Result Core
unfolding opinion cast_vote update
on_receive_proposal bnew proposer c = do
  vote ← opinion bnew c
  update bnew (if vote then cast_vote bnew proposer c else c)

-- The arguments are the certificate in the decision index and `find_block_by_hash`.
unfoldable pub reload_state_from_index :
    Result QuorumCertificateWire → (Hash → Result Ptr) → Core → Result Core
unfolding update_hqc
reload_state_from_index highest_qc find_block_by_hash c = do
  wire ← highest_qc
  highest ← find_block_by_hash wire.justify
  let c' = update_hqc highest (parse_qc wire) c
  ok (record c' { vheight = height c highest % 2 ^ 32; b_exec = highest; b_lock = highest })

unfoldable pub get_last_proposer : Core → ReplicaId
get_last_proposer c = (c.heap.cell c.hqc_block).proposer
