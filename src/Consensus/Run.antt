-- ===== src/Consensus/Run.antt =====
-- Histories of a replica: proposals, votes, and blocks that the store adds to the tree.
use cs244b_fp.Prelude.{suc, ◌^◌, ◌<◌, ◌≡◌, refl, some, ok, arith, if◌then◌else◌}
use cs244b_fp.Config.{ReplicaId, ReplicaConfig}
use cs244b_fp.Wire.{PartialCertificate}
use cs244b_fp.Block.{Ptr, Heap, genesis_heap, genesis_block}
use cs244b_fp.Consensus.{Core, height, init_core, cast_vote, on_receive_proposal, on_receive_vote}
use cs244b_fp.Consensus.Advance.{applied, votes, Advances, All-keeps}
use cs244b_fp.Consensus.Voting.{on_receive_proposal-Reacts}
use cs244b_fp.Consensus.Invariant.{
  Grows, Descends-same, Inv, Advances-Inv, ballot-Inv, Grows-height, Line-grows,
}
use cs244b_fp.Consensus.Counting.{Reacts-Advances, after_ok, on_receive_vote-Advances}

pub data Step : Core → Core → Type 0 where
  proposed :
      {c d : Core} (bnew j : Ptr) (proposer : ReplicaId)
      → (c.heap.cell bnew).justify_block_ptr ≡ some j
      → height c bnew < 2 ^ 32
      → on_receive_proposal bnew proposer c ≡ ok d
      → Step c d
  voted :
      {c d : Core} (cert : PartialCertificate) (certified : Ptr) (voter : ReplicaId)
      → on_receive_vote cert certified voter c ≡ ok d
      → Step c d
  stored : {c : Core} (g : Heap) → Grows c.heap g → Step c (record c { heap = g })

pub data Reach (c : Core) : Core → Type 0 where
  here : Reach c c
  next : {d e : Core} → Reach c d → Step d e → Reach c e

-- One step: what is applied is added to what was, on the line from the block executed before.
pub Step-Inv : {c d : Core} → Step c d → Inv c → Inv d
Step-Inv (proposed {c} {d} bnew j proposer e small r) i =
    let (vote, iff, reacts) = on_receive_proposal-Reacts c bnew j proposer i.linked i.with_qc e in
    let before : Inv (if vote then cast_vote bnew proposer c else c) =
      ballot-Inv c bnew j proposer vote small iff i in
    Advances-Inv (after_ok (Advances _) (Reacts-Advances reacts) r) before
Step-Inv (voted {c} {d} cert certified voter r) i =
    Advances-Inv (after_ok (Advances _) (on_receive_vote-Advances cert certified voter c) r) i
Step-Inv (stored {c} g grows) i = record {
  linked = grows.grown_linked;
  with_qc = grows.grown_qc;
  committed = Line-grows grows c.genesis _ c.b_exec i.committed;
  all_decided = All-keeps c.heap g (applied c.trace) grows.stays_decided i.all_decided;
  ballots =
      Descends-same c.heap g (suc c.vheight) (votes c.trace) (Grows-height i.linked grows)
        i.ballots;
}

pub init_core-Inv : (config : ReplicaConfig) (self_id : ReplicaId) → Inv (init_core config self_id)
unfolding init_core genesis_heap genesis_block
init_core-Inv config self_id = record {
  linked = record { step = λ p q e. ground arith; root = λ p e. ground arith };
  with_qc = λ p j e. ground arith;
  committed = refl;
  all_decided = tt;
  ballots = tt;
}

pub Reach-Inv : {c d : Core} → Inv c → Reach c d → Inv d
Reach-Inv i here = i
Reach-Inv i (next r s) = Step-Inv s (Reach-Inv i r)
