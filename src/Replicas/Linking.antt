-- ===== src/Replicas/Linking.antt =====
-- A block that the store inserts is a step of the system: the tree of the replica grows as the others
-- may rely on.
use cs244b_fp.Prelude.{◌<◌, ◌≡◌, false, some}
use cs244b_fp.Prelude.Maps.{find}
use cs244b_fp.Config.{Hash}
use cs244b_fp.Block.{Ptr, Heap, get_parent_hash}
use cs244b_fp.Block.Disk.{is_decided}
use cs244b_fp.Consensus.{Core}
use cs244b_fp.Storage.BlockStore.{BlockStore, link_block}
use cs244b_fp.Storage.BlockStore.Insert.{IsStore, IsNew, HasRoom}
use cs244b_fp.Replicas.Naming.{World, IsWorld}
use cs244b_fp.Replicas.Votes.{Quorums, Log, Certified}
use cs244b_fp.Replicas.{hash_at, IsSettled, IsParent, InWorld, IsCertified}

-- The cache of a replica has genesis and every block that is a parent, and of the others only blocks
-- that are linked.
pub record IsShared (w : World) (u : Quorums) (log : Log) (c : Core) (s : BlockStore) : Type 0 where
  pub store : IsStore s c.heap
  pub in_world : InWorld w c.genesis c.heap
  pub certified : IsCertified u log c.heap
  pub cached :
      (p : Ptr) → IsParent c.genesis c.heap p → find (hash_at c.heap p) s.block_cache ≡ some p
  pub settled : (k : Hash) (p : Ptr) → find k s.block_cache ≡ some p → IsSettled c.genesis c.heap p

-- A block that was received, is what its hash stands for, and has a certificate.
pub record IsReceived (w : World) (u : Quorums) (log : Log) (c : Core) (s : BlockStore) (blk : Ptr)
    : Type 0 where
  pub new : IsNew s c.heap blk
  pub undecided : is_decided c.heap blk ≡ false
  pub above : 0 < w.height_of (hash_at c.heap blk)
  pub parent_named : w.parent_of (hash_at c.heap blk) ≡ get_parent_hash (c.heap.cell blk)
  pub justify_named : w.justify_of (hash_at c.heap blk) ≡ new.qc.obj_hash
  pub justified : Certified u log new.qc.obj_hash

module _ (w : World) (is : IsWorld w) (u : Quorums) (log : Log) (c : Core) (s : BlockStore)
    (sh : IsShared w u log c s) (blk p q : Ptr) (new : IsReceived w u log c s blk)
    (room : HasRoom c.heap)
    (parent : find (get_parent_hash (c.heap.cell blk)) s.block_cache ≡ some p)
    (justify : find new.new.qc.obj_hash s.block_cache ≡ some q) where
  abbrev g : Heap
  g = (link_block p q blk s c.heap).1
