-- ===== src/Consensus/Advance.antt =====
-- How `update` moves a replica on: each of its stages, and all of them.
use mathlib.Core.List.{append_assoc}
use cs244b_fp.Prelude.{
  ◌≤◌, ◌≡◌, refl, sym, ap, ◌∙◌, inl, inr, true, List, [], ◌∷◌, ◌++◌, arith, ltb, Bool-cases, All,
  All-append, ok, if◌then◌else◌,
}
use cs244b_fp.Wire.{QuorumCertificateWire}
use cs244b_fp.Crypto.Certs.{QuorumCertificate, serialize}
use cs244b_fp.Block.{Ptr, Heap, modify, decide}
use cs244b_fp.Block.Shape.{
  IsLinked, Line, Line-same, Line-append, SameShape, SameShape-refl, SameShape-trans,
}
use cs244b_fp.Block.Disk.{is_decided, write_to_disk-Written}
use cs244b_fp.Consensus.{
  Effect, save_blocks, do_vote, apply_block, Core, height, update_hqc, lock_and_write,
}

-- The blocks that were applied, and those that were voted for, newest first.
abbrev pub applied : List Effect → List Ptr
applied [] = []
applied (apply_block b ∷ t) = b ∷ applied t
applied (e ∷ t) = applied t

abbrev pub votes : List Effect → List Ptr
votes [] = []
votes (do_vote b r ∷ t) = b ∷ votes t
votes (e ∷ t) = votes t

-- The second state follows the first: the tree and the votes are the same, the high certificate and
-- the lock are no lower, and the blocks applied since lead from the old executed block to the new.
pub record Advances (c d : Core) : Type 0 where
  pub shape : SameShape c.heap d.heap
  pub same_votes : votes d.trace ≡ votes c.trace
  pub same_vheight : d.vheight ≡ c.vheight
  pub same_genesis : d.genesis ≡ c.genesis
  pub hqc_up : height c c.hqc_block ≤ height d d.hqc_block
  pub lock_up : height c c.b_lock ≤ height d d.b_lock
  pub fresh : List Ptr
  pub applies : applied d.trace ≡ fresh ++ applied c.trace
  pub chain : Line c.heap c.b_exec fresh d.b_exec
  pub decides : All (λ b. is_decided d.heap b ≡ true) fresh
  pub keeps : (x : Ptr) → is_decided c.heap x ≡ true → is_decided d.heap x ≡ true

pub All-keeps :
    (h g : Heap) (xs : List Ptr)
    → ((x : Ptr) → is_decided h x ≡ true → is_decided g x ≡ true)
    → All (λ b. is_decided h b ≡ true) xs
    → All (λ b. is_decided g b ≡ true) xs
All-keeps h g [] k a = tt
All-keeps h g (x ∷ xs) k a = (k x a.0, All-keeps h g xs k a.1)

pub Advances-refl : (c : Core) → Advances c c
Advances-refl c = record {
  shape = SameShape-refl c.heap;
  same_votes = refl;
  same_vheight = refl;
  same_genesis = refl;
  hqc_up = omega arith;
  lock_up = omega arith;
  fresh = [];
  applies = refl;
  chain = refl;
  decides = tt;
  keeps = λ x e. e;
}

pub SameShape-sym : {h g : Heap} → SameShape h g → SameShape g h
SameShape-sym s = record {
  same_parent = λ p. sym (s.same_parent p);
  same_justify = λ p. sym (s.same_justify p);
  same_height = λ p. sym (s.same_height p);
  same_qc = λ p. sym (s.same_qc p);
  same_hash = λ p. sym (s.same_hash p);
}

pub Advances-trans : {c d e : Core} → Advances c d → Advances d e → Advances c e
Advances-trans {c} {d} {e} a b = record {
  shape = SameShape-trans a.shape b.shape;
  same_votes = b.same_votes ∙ a.same_votes;
  same_vheight = b.same_vheight ∙ a.same_vheight;
  same_genesis = b.same_genesis ∙ a.same_genesis;
  hqc_up = omega (arith, a.hqc_up, b.hqc_up);
  lock_up = omega (arith, a.lock_up, b.lock_up);
  fresh = b.fresh ++ a.fresh;
  applies =
      b.applies
      ∙ ap (λ t. b.fresh ++ t) a.applies
      ∙ sym (append_assoc b.fresh a.fresh (applied c.trace));
  chain =
      Line-append c.heap c.b_exec b.fresh a.fresh d.b_exec e.b_exec
        (Line-same (SameShape-sym a.shape) d.b_exec b.fresh e.b_exec b.chain) a.chain;
  decides =
      All-append (λ x. is_decided e.heap x ≡ true) b.fresh a.fresh b.decides
        (All-keeps d.heap e.heap a.fresh b.keeps a.decides);
  keeps = λ x i. b.keeps x (a.keeps x i);
}

raise_hqc :
    (c : Core) (p : Ptr) (w : QuorumCertificateWire) (t : List Effect)
    → height c c.hqc_block ≤ height c p
    → votes t ≡ votes c.trace
    → applied t ≡ applied c.trace
    → Advances c (record c { hqc_block = p; hqc_wire = w; b_leaf = p; trace = t })
raise_hqc c p w t up v a = record {
  shape = SameShape-refl c.heap;
  same_votes = v;
  same_vheight = refl;
  same_genesis = refl;
  hqc_up = up;
  lock_up = omega arith;
  fresh = [];
  applies = a;
  chain = refl;
  decides = tt;
  keeps = λ x e. e;
}

pub decided_kept :
    (b : Ptr) (h : Heap) (x : Ptr) → is_decided h x ≡ true → is_decided (modify decide b h) x ≡ true
unfolding modify decide
decided_kept b h x i = ground arith

pub update_hqc-Advances :
    (p : Ptr) (qc : QuorumCertificate) (c : Core) → Advances c (update_hqc p qc c)
unfolding update_hqc
update_hqc-Advances p qc c = elim (Bool-cases (ltb (height c c.hqc_block) (height c p))) [
  | inr same ↦ rw (same, update_hqc) (Advances-refl c)
  | inl higher ↦
      let up : height c c.hqc_block ≤ height c p = ground arith in
      rw (higher, update_hqc) (raise_hqc c p (serialize qc) _ up (ground arith) (ground arith))
]

-- A move that applies no block.
pub record Quiet (c d : Core) : Type 0 where
  pub move : Advances c d
  pub same_exec : d.b_exec ≡ c.b_exec
  pub none_applied : applied d.trace ≡ applied c.trace

pub Quiet-refl : (c : Core) → Quiet c c
Quiet-refl c = record { move = Advances-refl c; same_exec = refl; none_applied = refl }

pub Quiet-trans : {c d e : Core} → Quiet c d → Quiet d e → Quiet c e
Quiet-trans a b = record {
  move = Advances-trans a.move b.move;
  same_exec = b.same_exec ∙ a.same_exec;
  none_applied = b.none_applied ∙ a.none_applied;
}

pub update_hqc-Quiet : (p : Ptr) (qc : QuorumCertificate) (c : Core) → Quiet c (update_hqc p qc c)
unfolding update_hqc
update_hqc-Quiet p qc c = record {
  move = update_hqc-Advances p qc c;
  same_exec = ground arith;
  none_applied = ground arith;
}

pub lock_and_write-Quiet :
    (blk1 : Ptr) (c : Core)
    → IsLinked c.heap
    → (d : Core) × (lock_and_write blk1 c ≡ ok d) × Quiet c d
unfolding lock_and_write
lock_and_write-Quiet blk1 c l =
    let lock = if ltb (height c c.b_lock) (height c blk1) then blk1 else c.b_lock in
    let (saved, g, e, w) = write_to_disk-Written lock c.heap l in
    (
      record c { b_lock = lock; heap = g; trace = save_blocks saved ∷ c.trace },
      rw (e, lock_and_write),
      record {
        move = record {
          shape = w.shape;
          same_votes = refl;
          same_vheight = refl;
          same_genesis = refl;
          hqc_up = omega (arith, w.shape.same_height c.hqc_block);
          lock_up = ground (arith, w.shape.same_height lock);
          fresh = [];
          applies = refl;
          chain = refl;
          decides = tt;
          keeps = λ x i. w.decisions x ∙ i;
        };
        same_exec = refl;
        none_applied = refl;
      },
    )
