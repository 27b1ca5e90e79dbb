-- ===== src/Consensus/Commit.antt =====
-- Committing: what `update` does as a whole.
use cs244b_fp.Prelude.{
  false, suc, ◌≡◌, ap, ◌∙◌, inl, inr, true, Option, none, some, ◌∷◌, arith, Bool-cases,
  Option-cases, ◌==◌, ==_iff,
}
use cs244b_fp.Block.{Ptr, get_justify_qc}
use cs244b_fp.Block.Shape.{IsLinked, IsLinked-same}
use cs244b_fp.Consensus.{
  Core, height, points_to, update_hqc, decide_queue, commit_chain, open_txn, update_commit,
  update_lock, update,
}
use cs244b_fp.Block.Disk.{is_decided}
use cs244b_fp.Consensus.Walk.{walk_down_total}
use cs244b_fp.Consensus.Advance.{Quiet-refl, update_hqc-Quiet, lock_and_write-Quiet}
use cs244b_fp.Consensus.ThreeChain.{
  decide_queue-Decided, HasQc, HasQc-same, ThreeChain, Reacts, quiet, commits, breach, Reacts-after,
  walk_meets, finish_commit-Advances,
}

commit_chain-Reacts :
    (nblk blk1 blk : Ptr) (c : Core)
    → IsLinked c.heap
    → HasQc c.heap
    → (c.heap.cell blk1).justify_block_ptr ≡ some blk
    → ThreeChain c.heap nblk blk
    → is_decided c.heap blk ≡ false
    → Reacts c nblk (commit_chain blk1 blk c)
unfolding commit_chain get_justify_qc
commit_chain-Reacts nblk blk1 blk c l q j t new =
    let (queue, end, e, s) =
      walk_down_total (suc (height c blk)) c.heap (height c c.b_exec) blk l (omega arith) in
    elim (Bool-cases (end == c.b_exec)) [
      | inr other ↦
          rw (e, other, commit_chain)
            (breach t new
              λ x. absurd (ground (arith, other, walk_meets c.heap blk c.b_exec end queue l s x)))
      | inl met ↦
          let opened = record c { trace = open_txn ∷ c.trace } in
          let done = decide_queue queue opened in
          let did = decide_queue-Decided queue opened in
          let (qc, f) = HasQc-same did.tree q blk1 blk (did.tree.same_justify blk1 ∙ j) in
          rw (e, met, f, commit_chain, get_justify_qc)
            (commits
              (finish_commit-Advances queue blk qc c end s.line ((==_iff end c.b_exec).0 met)) t)
    ]

pub points_to-some : (o : Option Ptr) (p : Ptr) → points_to o p ≡ true → o ≡ some p
points_to-some none p e = cc
points_to-some (some q) p e = ap some ((==_iff q p).0 e)

update_commit-Reacts :
    (nblk blk2 blk1 : Ptr) (c : Core)
    → IsLinked c.heap
    → HasQc c.heap
    → (c.heap.cell nblk).justify_block_ptr ≡ some blk2
    → (c.heap.cell blk2).justify_block_ptr ≡ some blk1
    → Reacts c nblk (update_commit blk2 blk1 c)
unfolding update_commit
update_commit-Reacts nblk blk2 blk1 c l q j2 j1 =
    elim (Option-cases (c.heap.cell blk1).justify_block_ptr) [
      | inl last ↦ rw (last, update_commit) (quiet (Quiet-refl c))
      | inr (blk, j) ↦ elim (Bool-cases (c.heap.cell blk).decided) [
        | inl old ↦ rw (j, old, update_commit) (quiet (Quiet-refl c))
        | inr new ↦ elim (Bool-cases (points_to (c.heap.cell blk2).parent_block_ptr blk1)) [
          | inr apart ↦ rw (j, new, apart, update_commit) (quiet (Quiet-refl c))
          | inl p2 ↦ elim (Bool-cases (points_to (c.heap.cell blk1).parent_block_ptr blk)) [
            | inr apart ↦ rw (j, new, p2, apart, update_commit) (quiet (Quiet-refl c))
            | inl p1 ↦
                rw (j, new, p2, p1, update_commit)
                  (commit_chain-Reacts nblk blk1 blk c l q j
                    (record {
                      blk2 = blk2;
                      blk1 = blk1;
                      certifies2 = j2;
                      certifies1 = j1;
                      certifies = j;
                      parent2 = points_to-some _ blk1 p2;
                      parent1 = points_to-some _ blk p1;
                    })
                    new)
          ]
        ]
      ]
    ]

update_lock-Reacts :
    (nblk blk2 : Ptr) (c : Core)
    → IsLinked c.heap
    → HasQc c.heap
    → (c.heap.cell nblk).justify_block_ptr ≡ some blk2
    → Reacts c nblk (update_lock blk2 c)
unfolding update_lock
update_lock-Reacts nblk blk2 c l q j2 = elim (Option-cases (c.heap.cell blk2).justify_block_ptr) [
  | inl last ↦ rw (last, update_lock) (quiet (Quiet-refl c))
  | inr (blk1, j1) ↦ elim (Bool-cases (c.heap.cell blk1).decided) [
    | inl old ↦ rw (j1, old, update_lock) (quiet (Quiet-refl c))
    | inr new ↦
        let (d, e, m) = lock_and_write-Quiet blk1 c l in
        let s = m.move.shape in
        rw (j1, new, e, update_lock)
          (Reacts-after m (
            update_commit-Reacts nblk blk2 blk1 d (IsLinked-same s l) (HasQc-same s q)
              (s.same_justify nblk ∙ j2) (s.same_justify blk2 ∙ j1)))
  ]
]

-- `update` returns on every tree of blocks with certificates, unless the head of a three-chain does
-- not extend the block executed last; and it commits only the head of a three-chain, after all the
-- blocks between that and the block executed before.
pub update-Reacts :
    (nblk : Ptr) (c : Core) → IsLinked c.heap → HasQc c.heap → Reacts c nblk (update nblk c)
unfolding update get_justify_qc
update-Reacts nblk c l q = elim (Option-cases (c.heap.cell nblk).justify_block_ptr) [
  | inl last ↦ rw (last, update) (quiet (Quiet-refl c))
  | inr (blk2, j2) ↦ elim (Bool-cases (c.heap.cell blk2).decided) [
    | inl old ↦ rw (j2, old, update) (quiet (Quiet-refl c))
    | inr new ↦
        let (qc, f) = q nblk blk2 j2 in
        let m = update_hqc-Quiet blk2 qc c in
        let s = m.move.shape in
        rw (j2, new, f, update)
          (Reacts-after m (
            update_lock-Reacts nblk blk2 (update_hqc blk2 qc c) (IsLinked-same s l) (HasQc-same s q)
              (s.same_justify nblk ∙ j2)))
  ]
]
