-- ===== src/Consensus/ThreeChain.antt =====
-- The head of a three-chain, the queue of blocks that it commits, and what a method may do with them.
use mathlib.Core.Path.{subst}
use cs244b_fp.Prelude.{
  ◌≡◌, refl, sym, ap, ◌∙◌, inl, inr, Bool-cases, true, false, some, List, [], ◌∷◌, ◌++◌, arith, All,
  Result, ok, err, safety_breached,
}
use cs244b_fp.Crypto.Certs.{QuorumCertificate}
use cs244b_fp.Block.{Ptr, Heap, modify, decide}
use cs244b_fp.Block.Shape.{
  IsLinked, Line, Extends, Line-same, Line-height, Line-unique, SameShape, SameShape-refl,
  SameShape-trans, KeepsShape, modify-SameShape,
}
use cs244b_fp.Block.Disk.{is_decided}
use cs244b_fp.Consensus.{Core, height, decide_queue, finish_commit, open_txn}
use cs244b_fp.Consensus.Walk.{Stop}
use cs244b_fp.Consensus.Advance.{
  applied, votes, Advances, Advances-trans, decided_kept, All-keeps, Quiet, Quiet-trans,
}

decide-KeepsShape : KeepsShape decide
unfolding decide
decide-KeepsShape = record {
  keeps_parent = λ b. refl;
  keeps_justify = λ b. refl;
  keeps_height = λ b. refl;
  keeps_qc = λ b. refl;
  keeps_hash = λ b. refl;
}

-- What the loop over the commit queue does.
pub record Decided (queue : List Ptr) (c d : Core) : Type 0 where
  pub tree : SameShape c.heap d.heap
  pub votes_left : votes d.trace ≡ votes c.trace
  pub added : applied d.trace ≡ queue ++ applied c.trace
  pub marked : All (λ b. is_decided d.heap b ≡ true) queue
  pub kept : (x : Ptr) → is_decided c.heap x ≡ true → is_decided d.heap x ≡ true

pub decide_queue-Decided : (queue : List Ptr) (c : Core) → Decided queue c (decide_queue queue c)
unfolding decide_queue decide modify
decide_queue-Decided [] c = record {
  tree = SameShape-refl c.heap;
  votes_left = refl;
  added = refl;
  marked = tt;
  kept = λ x i. i;
}
decide_queue-Decided (b ∷ queue) c =
    let before = decide_queue-Decided queue c in
    let d = decide_queue queue c in
    let keep = decided_kept b d.heap in
    record {
      tree = SameShape-trans before.tree (modify-SameShape decide b d.heap decide-KeepsShape);
      votes_left = before.votes_left;
      added = ap (λ t. b ∷ t) before.added;
      marked = (ground arith, All-keeps d.heap (modify decide b d.heap) queue keep before.marked);
      kept = λ x i. keep x (before.kept x i);
    }

-- The rest of the state is left alone.
decide_queue-frame :
    (queue : List Ptr) (c : Core)
    → let d = decide_queue queue c in
      (d.b_lock ≡ c.b_lock)
      × (d.hqc_block ≡ c.hqc_block)
      × (d.genesis ≡ c.genesis)
      × (d.vheight ≡ c.vheight)
unfolding decide_queue
decide_queue-frame [] c = (refl, refl, refl, refl)
decide_queue-frame (b ∷ queue) c = decide_queue-frame queue c

-- Every block with a certified block has its parsed certificate.
abbrev pub HasQc : Heap → Type 0
HasQc h =
    (p j : Ptr)
    → (h.cell p).justify_block_ptr ≡ some j
    → (qc : QuorumCertificate) × ((h.cell p).parsed_qc ≡ some qc)

pub HasQc-same : {h g : Heap} → SameShape h g → HasQc h → HasQc g
HasQc-same s q p j e = let (qc, f) = q p j (sym (s.same_justify p) ∙ e) in (qc, s.same_qc p ∙ f)

-- `blk` heads a chain of three blocks with certificates, each the parent of the next, and `nblk`
-- carries the certificate of the last.
pub record ThreeChain (h : Heap) (nblk blk : Ptr) : Type 0 where
  pub blk2 : Ptr
  pub blk1 : Ptr
  pub certifies2 : (h.cell nblk).justify_block_ptr ≡ some blk2
  pub certifies1 : (h.cell blk2).justify_block_ptr ≡ some blk1
  pub certifies : (h.cell blk1).justify_block_ptr ≡ some blk
  pub parent2 : (h.cell blk2).parent_block_ptr ≡ some blk1
  pub parent1 : (h.cell blk1).parent_block_ptr ≡ some blk

pub ThreeChain-same :
    {h g : Heap} {nblk blk : Ptr} → SameShape h g → ThreeChain g nblk blk → ThreeChain h nblk blk
ThreeChain-same {nblk} s t = record {
  blk2 = t.blk2;
  blk1 = t.blk1;
  certifies2 = sym (s.same_justify nblk) ∙ t.certifies2;
  certifies1 = sym (s.same_justify t.blk2) ∙ t.certifies1;
  certifies = sym (s.same_justify t.blk1) ∙ t.certifies;
  parent2 = sym (s.same_parent t.blk2) ∙ t.parent2;
  parent1 = sym (s.same_parent t.blk1) ∙ t.parent1;
}

-- What `update` may do: apply nothing; commit the head of a three-chain; or throw, since the head
-- of a three-chain, which is not decided, does not extend the block executed last.
pub data Reacts (c : Core) (nblk : Ptr) : Result Core → Type 0 where
  quiet : {d : Core} → Quiet c d → Reacts c nblk (ok d)
  commits : {d : Core} → Advances c d → ThreeChain c.heap nblk d.b_exec → Reacts c nblk (ok d)
  breach :
      {blk : Ptr}
      → ThreeChain c.heap nblk blk
      → is_decided c.heap blk ≡ false
      → ¬ Extends c.heap blk c.b_exec
      → Reacts c nblk (err safety_breached)

pub Reacts-after :
    {c d : Core} {nblk : Ptr} {r : Result Core} → Quiet c d → Reacts d nblk r → Reacts c nblk r
Reacts-after q (quiet m) = quiet (Quiet-trans q m)
Reacts-after q (commits m t) = commits (Advances-trans q.move m) (ThreeChain-same q.move.shape t)
Reacts-after {c} {d} q (breach {blk} t new far) =
    breach (ThreeChain-same q.move.shape t) was_new λ (xs, l). far (
      xs,
      subst (λ x. Line d.heap x xs blk) (sym q.same_exec)
          (Line-same q.move.shape c.b_exec xs blk l),
    )
  where
    was_new : is_decided c.heap blk ≡ false
    was_new = elim (Bool-cases (is_decided c.heap blk)) [
      | inl old ↦ absurd (cc (q.move.keeps blk old))
      | inr undecided ↦ undecided
    ]

-- The executed block is an ancestor only if the walk down to its height meets it.
pub walk_meets :
    (h : Heap) (b a end : Ptr) (passed : List Ptr)
    → IsLinked h
    → Stop h (h.cell a).block_height b end passed
    → Extends h b a
    → end ≡ a
walk_meets h b a end passed l s (xs, line) =
    let hb = Line-height h a xs b l line in
    let he = Line-height h end passed b l s.line in
    Line-unique h end a passed xs b s.line line (omega (arith, s.at_low (omega arith)))

-- The queue decided, its head becomes the executed block.
pub finish_commit-Advances :
    (queue : List Ptr) (blk : Ptr) (qc : QuorumCertificate) (c : Core) (end : Ptr)
    → Line c.heap end queue blk
    → end ≡ c.b_exec
    → Advances c
        (finish_commit blk qc (decide_queue queue (record c { trace = open_txn ∷ c.trace })))
unfolding finish_commit
finish_commit-Advances queue blk qc c end line met =
    let opened = record c { trace = open_txn ∷ c.trace } in
    let did = decide_queue-Decided queue opened in
    let frame = decide_queue-frame queue opened in
    record {
      shape = did.tree;
      same_votes = did.votes_left;
      same_vheight = frame.3;
      same_genesis = frame.2;
      hqc_up = omega (
        arith,
        did.tree.same_height c.hqc_block,
        ap (height (decide_queue queue opened)) frame.1,
      );
      lock_up =
          omega
            (arith, did.tree.same_height c.b_lock, ap (height (decide_queue queue opened)) frame.0);
      fresh = queue;
      applies = did.added;
      chain = subst (λ x. Line c.heap x queue blk) met line;
      decides = did.marked;
      keeps = did.kept;
    }
