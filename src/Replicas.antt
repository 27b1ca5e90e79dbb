-- ===== src/Replicas.antt =====
-- Replicas that run consensus.h together. A system has the core of every replica and the votes that
-- honest replicas have sent; what the others send is not restricted.
pub mod Naming
pub mod Votes
pub mod Ballots
pub mod Local
pub mod Moves
pub mod Casting
pub mod Invariant
pub mod Agreement
pub mod Returns
pub mod Signers
pub mod Linking
use cs244b_fp.Prelude.{
  ℕ, ◌^◌, ◌<◌, ◌≡◌, ◌⊎◌, Bool, true, false, some, List, [], ◌∷◌, ◌==◌, if◌then◌else◌, Result, ok,
  err,
}
use cs244b_fp.Config.{Hash, ReplicaId, ReplicaConfig}
use cs244b_fp.Wire.{PartialCertificate}
use cs244b_fp.Block.{Ptr, Heap}
use cs244b_fp.Block.Disk.{is_decided}
use cs244b_fp.Consensus.{Core, height, init_core, opinion, on_receive_proposal, on_receive_vote}
use cs244b_fp.Consensus.Invariant.{Grows}
use cs244b_fp.Replicas.Naming.{World}
use cs244b_fp.Replicas.Votes.{Quorums, Log, Certified}

-- `get_hash` of the block at an address.
abbrev pub hash_at : Heap → Ptr → Hash
hash_at h p = (h.cell p).self_qc.obj_hash

-- Genesis, or a block that has been linked.
abbrev pub IsSettled : Ptr → Heap → Ptr → Type 0
IsSettled genesis h p = (p ≡ genesis) ⊎ ((q : Ptr) × ((h.cell p).parent_block_ptr ≡ some q))

-- Genesis, or a block that another is linked to as its parent. A block that is received twice is linked
-- twice, and only one of the two is such a parent.
abbrev pub IsParent : Ptr → Heap → Ptr → Type 0
IsParent genesis h p = (p ≡ genesis) ⊎ ((x : Ptr) × ((h.cell x).parent_block_ptr ≡ some p))

-- The linked blocks of a replica are those that their hashes stand for, and no two parents have the
-- same hash.
pub record InWorld (w : World) (genesis : Ptr) (h : Heap) : Type 0 where
  pub root : hash_at h genesis ≡ 0
  pub heights :
      (p : Ptr) → IsSettled genesis h p → w.height_of (hash_at h p) ≡ (h.cell p).block_height
  pub parents :
      (p q : Ptr)
      → (h.cell p).parent_block_ptr ≡ some q
      → IsSettled genesis h q × (w.parent_of (hash_at h p) ≡ hash_at h q)
  pub justifies :
      (p j : Ptr)
      → (h.cell p).justify_block_ptr ≡ some j
      → IsSettled genesis h p × IsSettled genesis h j × (w.justify_of (hash_at h p) ≡ hash_at h j)
  pub both_linked :
      (p q : Ptr)
      → (h.cell p).parent_block_ptr ≡ some q
      → (j : Ptr) × ((h.cell p).justify_block_ptr ≡ some j)
  pub one_address :
      (p q : Ptr) → IsParent genesis h p → IsParent genesis h q → hash_at h p ≡ hash_at h q → p ≡ q

-- Every certificate in the tree is one that an honest replica accepts: by the votes so far.
abbrev pub IsCertified : Quorums → Log → Heap → Type 0
IsCertified u log h =
    (p j : Ptr) → (h.cell p).justify_block_ptr ≡ some j → Certified u log (hash_at h j)

-- The tree of a replica grows by blocks with certificates, none of which is decided.
pub record Stores (w : World) (u : Quorums) (log : Log) (c : Core) (g : Heap) : Type 0 where
  pub grows : Grows c.heap g
  pub in_world : InWorld w c.genesis g
  pub certified : IsCertified u log g
  pub hashes_stay : (p : Ptr) → IsSettled c.genesis c.heap p → hash_at g p ≡ hash_at c.heap p
  pub genesis_stays : (g.cell c.genesis).block_height ≡ height c c.genesis
  pub decided_stay :
      (p : Ptr)
      → is_decided g p ≡ true
      → (is_decided c.heap p ≡ true) × ((g.cell p).block_height ≡ height c p)

pub record System : Type 0 where
  pub core : ReplicaId → Core
  pub log : Log

abbrev pub set_core : ReplicaId → Core → (ReplicaId → Core) → ReplicaId → Core
set_core r d core q = if q == r then d else core q

-- The vote that a proposal gets is sent.
abbrev pub with_vote : Result Bool → ReplicaId → Hash → Log → Log
with_vote (ok true) r k log = (r, k) ∷ log
with_vote (ok false) r k log = log
with_vote (err e) r k log = log

-- Each honest replica reacts to proposals and votes in any order, and links blocks at any time.
pub data Step (w : World) (u : Quorums) (s : System) : System → Type 0 where
  proposed :
      {d : Core} (r : ReplicaId) (bnew j : Ptr) (proposer : ReplicaId)
      → u.honest r
      → ((s.core r).heap.cell bnew).justify_block_ptr ≡ some j
      → height (s.core r) bnew < 2 ^ 32
      → on_receive_proposal bnew proposer (s.core r) ≡ ok d
      → Step w u s (record {
        core = set_core r d s.core;
        log = with_vote (opinion bnew (s.core r)) r (hash_at (s.core r).heap bnew) s.log;
      })
  voted :
      {d : Core} (r : ReplicaId) (cert : PartialCertificate) (certified : Ptr) (voter : ReplicaId)
      → u.honest r
      → on_receive_vote cert certified voter (s.core r) ≡ ok d
      → Step w u s (record s { core = set_core r d s.core })
  stored :
      (r : ReplicaId) (g : Heap)
      → u.honest r
      → Stores w u s.log (s.core r) g
      → Step w u s (record s { core = set_core r (record (s.core r) { heap = g }) s.core })

pub data Reach (w : World) (u : Quorums) (s : System) : System → Type 0 where
  here : Reach w u s s
  next : {t v : System} → Reach w u s t → Step w u t v → Reach w u s v

unfoldable pub start : ReplicaConfig → System
start config = record { core = λ r. init_core config r; log = [] }
