-- ===== src/Consensus/Leaf.antt =====
-- The leaf, on which a replica proposes, extends the block with its highest certificate.
use mathlib.Core.Path.{subst}
use cs244b_fp.Prelude.{
  ◌≤◌, arith, suc, ◌≡◌, refl, sym, ap, ◌∙◌, inl, inr, ◌⊎◌, true, List, [], ◌∷◌, ◌==◌, ltb, ◌&&◌,
  not, ◌||◌, Bool-cases, Option-cases, ok, Result-cases, first-ok, ok_injective, Bool, false,
  if◌then◌else◌,
}
use cs244b_fp.Config.{ReplicaId, ReplicaConfig}
use cs244b_fp.Wire.{PartialCertificate}
use cs244b_fp.Crypto.Certs.{QuorumCertificate, has_quorum, add_partial_certificate}
use cs244b_fp.Block.{Ptr, Heap, modify, get_justify_qc, write_to_disk, record_saved}
use cs244b_fp.Block.Shape.{Line, IsLinked, Extends, Line-same, SameShape}
use cs244b_fp.Consensus.{
  Core, init_core, height, points_to, update_hqc, walk_down, decide_queue, finish_commit,
  commit_chain, open_txn, update_commit, lock_and_write, save_blocks, update_lock, update,
  on_receive_vote, cast_vote, opinion, on_receive_proposal,
}
use cs244b_fp.Consensus.Advance.{Advances}
use cs244b_fp.Consensus.Counting.{AfterOk, after_ok, Reacts-Advances, on_receive_vote-Advances}
use cs244b_fp.Consensus.Invariant.{Grows, Grows-height, Inv, Line-grows}
use cs244b_fp.Consensus.Run.{Step, proposed, voted, stored, Reach, here, next, Reach-Inv}
use cs244b_fp.Consensus.Voting.{on_receive_proposal-Reacts}
use cs244b_fp.Consensus.Locks.{AfterOk-map}

-- The leaf is on the block with the highest certificate, or is this block.
abbrev pub LeafExtends : Core → Type 0
LeafExtends c = Extends c.heap c.b_leaf c.hqc_block

-- Leaf and highest certified block stay, or become one.
abbrev pub KeepsLeaf : Core → Core → Type 0
KeepsLeaf c d = (d.b_leaf ≡ c.b_leaf) × (d.hqc_block ≡ c.hqc_block)

abbrev pub MovesLeaf : Core → Core → Type 0
MovesLeaf c d = KeepsLeaf c d ⊎ (d.b_leaf ≡ d.hqc_block)

decide_queue-KeepsLeaf : (queue : List Ptr) (c : Core) → KeepsLeaf c (decide_queue queue c)
unfolding decide_queue
decide_queue-KeepsLeaf [] c = (refl, refl)
decide_queue-KeepsLeaf (b ∷ queue) c = decide_queue-KeepsLeaf queue c

commit_chain-KeepsLeaf :
    (blk1 blk : Ptr) (c : Core) → AfterOk (KeepsLeaf c) (commit_chain blk1 blk c)
unfolding commit_chain finish_commit
commit_chain-KeepsLeaf blk1 blk c =
    elim (Result-cases (walk_down (suc (height c blk)) c.heap (height c c.b_exec) blk)) [
      | inr (x, e) ↦ rw (e, commit_chain) tt
      | inl ((queue, end), e) ↦ elim (Bool-cases (end == c.b_exec)) [
        | inr other ↦ rw (e, other, commit_chain) tt
        | inl met ↦
            let opened = record c { trace = open_txn ∷ c.trace } in
            elim (Result-cases (get_justify_qc ((decide_queue queue opened).heap.cell blk1))) [
              | inr (x, f) ↦ rw (e, met, f, commit_chain) tt
              | inl (qc, f) ↦ rw (e, met, f, commit_chain) (decide_queue-KeepsLeaf queue opened)
            ]
      ]
    ]

update_commit-KeepsLeaf :
    (blk2 blk1 : Ptr) (c : Core) → AfterOk (KeepsLeaf c) (update_commit blk2 blk1 c)
unfolding update_commit
update_commit-KeepsLeaf blk2 blk1 c = elim (Option-cases (c.heap.cell blk1).justify_block_ptr) [
  | inl last ↦ rw (last, update_commit) (refl, refl)
  | inr (blk, j) ↦ elim (Bool-cases (c.heap.cell blk).decided) [
    | inl old ↦ rw (j, old, update_commit) (refl, refl)
    | inr new ↦
        elim (Bool-cases (
          not (points_to (c.heap.cell blk2).parent_block_ptr blk1)
          || not (points_to (c.heap.cell blk1).parent_block_ptr blk))) [
            | inl apart ↦ rw (j, new, apart, update_commit) (refl, refl)
            | inr direct ↦ rw (j, new, direct, update_commit) (commit_chain-KeepsLeaf blk1 blk c)
          ]
  ]
]

KeepsLeaf-trans : (c d e : Core) → KeepsLeaf c d → KeepsLeaf d e → KeepsLeaf c e
KeepsLeaf-trans c d e k m = (m.0 ∙ k.0, m.1 ∙ k.1)

lock_and_write-KeepsLeaf : (blk1 : Ptr) (c d : Core) → lock_and_write blk1 c ≡ ok d → KeepsLeaf c d
unfolding lock_and_write
lock_and_write-KeepsLeaf blk1 c d e =
    let lock = if ltb (height c c.b_lock) (height c blk1) then blk1 else c.b_lock in
    let (saved, _, e') =
      first-ok (write_to_disk record_saved (suc (height c lock)) lock c.heap [])
        (λ (saved, h).
          ok (record c { b_lock = lock; heap = h; trace = save_blocks saved ∷ c.trace }))
        e in
    let same = ok_injective e' in (ap (λ x. x.b_leaf) (sym same), ap (λ x. x.hqc_block) (sym same))

update_lock-KeepsLeaf : (blk2 : Ptr) (c : Core) → AfterOk (KeepsLeaf c) (update_lock blk2 c)
unfolding update_lock
update_lock-KeepsLeaf blk2 c = elim (Option-cases (c.heap.cell blk2).justify_block_ptr) [
  | inl last ↦ rw (last, update_lock) (refl, refl)
  | inr (blk1, j) ↦ elim (Bool-cases (c.heap.cell blk1).decided) [
    | inl old ↦ rw (j, old, update_lock) (refl, refl)
    | inr new ↦
        rw (j, new, update_lock)
          (elim (Result-cases (lock_and_write blk1 c)) [
            | inr (x, e) ↦ rw e tt
            | inl (c', e) ↦ rw e (
                AfterOk-map (KeepsLeaf c') (KeepsLeaf c) (update_commit blk2 blk1 c')
                  (λ d k. KeepsLeaf-trans c c' d (lock_and_write-KeepsLeaf blk1 c c' e) k)
                  (update_commit-KeepsLeaf blk2 blk1 c'))
          ])
  ]
]

update_hqc-MovesLeaf :
    (p : Ptr) (qc : QuorumCertificate) (c : Core) → MovesLeaf c (update_hqc p qc c)
unfolding update_hqc
update_hqc-MovesLeaf p qc c = elim (Bool-cases (ltb (height c c.hqc_block) (height c p))) [
  | inr same ↦ rw (same, update_hqc) (inl (refl, refl))
  | inl higher ↦ rw (higher, update_hqc) (inr refl)
]

MovesLeaf-keeps : (c d e : Core) → MovesLeaf c d → KeepsLeaf d e → MovesLeaf c e
MovesLeaf-keeps c d e (inl k) m = inl (KeepsLeaf-trans c d e k m)
MovesLeaf-keeps c d e (inr one) m = inr (m.0 ∙ one ∙ sym m.1)

update-MovesLeaf : (nblk : Ptr) (c : Core) → AfterOk (MovesLeaf c) (update nblk c)
unfolding update
update-MovesLeaf nblk c = elim (Option-cases (c.heap.cell nblk).justify_block_ptr) [
  | inl last ↦ rw (last, update) (inl (refl, refl))
  | inr (blk2, j) ↦ elim (Bool-cases (c.heap.cell blk2).decided) [
    | inl old ↦ rw (j, old, update) (inl (refl, refl))
    | inr new ↦ elim (Result-cases (get_justify_qc (c.heap.cell nblk))) [
      | inr (x, e) ↦ rw (j, new, e, update) tt
      | inl (qc, e) ↦
          let c' = update_hqc blk2 qc c in
          rw (j, new, e, update)
            (AfterOk-map (KeepsLeaf c') (MovesLeaf c) (update_lock blk2 c')
              (λ d k. MovesLeaf-keeps c c' d (update_hqc-MovesLeaf blk2 qc c) k)
              (update_lock-KeepsLeaf blk2 c'))
    ]
  ]
]

-- On a proposal.
pub on_receive_proposal-MovesLeaf :
    (bnew : Ptr) (proposer : ReplicaId) (c d : Core)
    → on_receive_proposal bnew proposer c ≡ ok d
    → MovesLeaf c d
unfolding on_receive_proposal cast_vote
on_receive_proposal-MovesLeaf bnew proposer c d e =
    let (vote, _, e') = first-ok (opinion bnew c) _ e in at vote e'
  where
    at :
        (vote : Bool)
        → update bnew (if vote then cast_vote bnew proposer c else c) ≡ ok d
        → MovesLeaf c d
    at false e' = after_ok (MovesLeaf c) (update-MovesLeaf bnew c) e'
    at true e' = after_ok (MovesLeaf c) (update-MovesLeaf bnew (cast_vote bnew proposer c)) e'

-- On a vote.
pub on_receive_vote-MovesLeaf :
    (cert : PartialCertificate) (certified : Ptr) (voter : ReplicaId) (c d : Core)
    → on_receive_vote cert certified voter c ≡ ok d
    → MovesLeaf c d
unfolding on_receive_vote update_hqc modify
on_receive_vote-MovesLeaf cert certified voter c d e =
    let self_qc = (c.heap.cell certified).self_qc in
    let (qc, f, e') = first-ok (add_partial_certificate voter cert self_qc) _ e in
    elim (Bool-cases (has_quorum c.config qc && not (has_quorum c.config self_qc))) [
      | inr below ↦
          (let same = ok_injective (rw below at e') in
            inl (ap (λ x. x.b_leaf) (sym same), ap (λ x. x.hqc_block) (sym same)))
      | inl reached ↦
          (let same = ok_injective (rw reached at e') in
            let c' : Core = record c {
              heap = modify (λ b. record b { self_qc = qc }) certified c.heap;
            } in
            MovesLeaf-keeps c (update_hqc certified qc c') d (update_hqc-MovesLeaf certified qc c')
              (ap (λ x. x.b_leaf) (sym same), ap (λ x. x.hqc_block) (sym same)))
    ]

Moves-LeafExtends :
    (c d : Core) → SameShape c.heap d.heap → MovesLeaf c d → LeafExtends c → LeafExtends d
Moves-LeafExtends c d s (inr one) l = ([], one)
Moves-LeafExtends c d s (inl k) (xs, l) = (
  xs,
  subst (λ x. Line d.heap x xs d.b_leaf) (sym k.1)
      (subst (λ x. Line d.heap c.hqc_block xs x) (sym k.0) (Line-same s c.hqc_block xs c.b_leaf l)),
)

Step-LeafExtends : {c d : Core} → Step c d → Inv c → LeafExtends c → LeafExtends d
unfolding cast_vote
Step-LeafExtends (proposed {c} {d} bnew j proposer e small r) i l =
    let (vote, iff, reacts) = on_receive_proposal-Reacts c bnew j proposer i.linked i.with_qc e in
    let moved = after_ok (Advances _) (Reacts-Advances reacts) r in
    Moves-LeafExtends c d (same_heap vote moved.shape)
      (on_receive_proposal-MovesLeaf bnew proposer c d r) l
  where
    same_heap :
        (vote : Bool)
        → SameShape (if vote then cast_vote bnew proposer c else c).heap d.heap
        → SameShape c.heap d.heap
    same_heap true s = s
    same_heap false s = s
Step-LeafExtends (voted {c} {d} cert certified voter r) i l =
    Moves-LeafExtends c d
      (after_ok (Advances c) (on_receive_vote-Advances cert certified voter c) r).shape
      (on_receive_vote-MovesLeaf cert certified voter c d r) l
Step-LeafExtends (stored {c} g grows) i (xs, l) = (xs, Line-grows grows c.hqc_block xs c.b_leaf l)

-- In every history of a core its leaf extends the block with its highest certificate.
pub Reach-LeafExtends : {c d : Core} → Reach c d → Inv c → LeafExtends c → LeafExtends d
Reach-LeafExtends here i l = l
Reach-LeafExtends (next r s) i l = Step-LeafExtends s (Reach-Inv i r) (Reach-LeafExtends r i l)

pub init_core-LeafExtends :
    (config : ReplicaConfig) (self_id : ReplicaId) → LeafExtends (init_core config self_id)
unfolding init_core
init_core-LeafExtends config self_id = ([], refl)

pub Grows-height_up :
    (c : Core) (g : Heap)
    → IsLinked c.heap
    → Grows c.heap g
    → (p : Ptr) → height c p ≤ (g.cell p).block_height
Grows-height_up c g l grows p = elim (Bool-cases (ltb 0 (height c p))) [
  | inl above ↦ omega (arith, Grows-height l grows p (ground (arith, above)))
  | inr low ↦ ground (arith, low)
]

Step-hqc_up : {c d : Core} → Step c d → Inv c → height c c.hqc_block ≤ height d d.hqc_block
unfolding cast_vote
Step-hqc_up (proposed {c} {d} bnew j proposer e small r) i =
    let (vote, iff, reacts) = on_receive_proposal-Reacts c bnew j proposer i.linked i.with_qc e in
    same vote (after_ok (Advances _) (Reacts-Advances reacts) r).hqc_up
  where
    same :
        (vote : Bool)
        → (let b = if vote then cast_vote bnew proposer c else c in
            height b b.hqc_block ≤ height d d.hqc_block)
        → height c c.hqc_block ≤ height d d.hqc_block
    same true h = h
    same false h = h
Step-hqc_up (voted {c} {d} cert certified voter r) i =
    (after_ok (Advances c) (on_receive_vote-Advances cert certified voter c) r).hqc_up
Step-hqc_up (stored {c} g grows) i = Grows-height_up c g i.linked grows c.hqc_block

-- In every history of a core the block with the highest certificate gets no lower.
pub Reach-hqc_up : {c d : Core} → Reach c d → Inv c → height c c.hqc_block ≤ height d d.hqc_block
Reach-hqc_up here i = omega arith
Reach-hqc_up (next r s) i = omega (arith, Reach-hqc_up r i, Step-hqc_up s (Reach-Inv i r))
