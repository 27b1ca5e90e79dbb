-- ===== src/Consensus/Safety.antt =====
-- What holds of a replica in every history that starts at genesis.
use cs244b_fp.Prelude.{suc, ◌≡◌, true, All}
use cs244b_fp.Config.{ReplicaId, ReplicaConfig}
use cs244b_fp.Block.Shape.{Line}
use cs244b_fp.Block.Disk.{is_decided}
use cs244b_fp.Consensus.{Core, init_core}
use cs244b_fp.Consensus.Advance.{applied, votes}
use cs244b_fp.Consensus.Invariant.{Descends}
use cs244b_fp.Consensus.Run.{Reach, Reach-Inv, init_core-Inv}

-- In every history of a replica from its start, with proposals that are linked to the block they
-- certify and have heights below 2 ^ 32, with votes, and with blocks that are added to the tree, the
-- blocks that the replica has applied to the state machine are a line of parents from the genesis
-- block to the block executed last, and all of them are marked decided.
pub applied-Line :
    {c : Core} (config : ReplicaConfig) (self_id : ReplicaId)
    → Reach (init_core config self_id) c
    → Line c.heap c.genesis (applied c.trace) c.b_exec
      × All (λ b. is_decided c.heap b ≡ true) (applied c.trace)
applied-Line config self_id r =
    let i = Reach-Inv (init_core-Inv config self_id) r in (i.committed, i.all_decided)

-- In every such history, of proposals linked to the block they certify at heights below 2 ^ 32, of
-- votes, and of blocks added to the tree, the blocks that the replica votes for have ascending
-- heights: it never votes twice at one height, and never below an earlier vote.
pub votes-Descends :
    {c : Core} (config : ReplicaConfig) (self_id : ReplicaId)
    → Reach (init_core config self_id) c
    → Descends c.heap (suc c.vheight) (votes c.trace)
votes-Descends config self_id r = (Reach-Inv (init_core-Inv config self_id) r).ballots
