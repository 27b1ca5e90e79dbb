-- ===== src/Replicas/Local.antt =====
-- What holds of one honest replica among the others.
use mathlib.Core.Path.{subst}
use cs244b_fp.Prelude.{
  suc, ◌≤◌, ◌≡◌, sym, ap, ◌∙◌, inl, inr, ◌⊎◌, List, [], ◌∷◌, arith, Bool-cases, ltb, ltb→lt, true,
}
use cs244b_fp.Config.{Hash, ReplicaId}
use cs244b_fp.Block.{Ptr, Heap}
use cs244b_fp.Block.Disk.{is_decided}
use cs244b_fp.Block.Shape.{SameShape, Line, IsLinked}
use cs244b_fp.Consensus.{Core, height}
use cs244b_fp.Consensus.Invariant.{Inv}
use cs244b_fp.Consensus.Locks.{DecidedBelowLock, JustifyBelow}
use cs244b_fp.Replicas.Naming.{World, IsWorld, Follows, Follows-refl, Follows-parent}
use cs244b_fp.Replicas.Votes.{Quorums, Log, Voted, Certified}
use cs244b_fp.Replicas.Ballots.{Chain}
use cs244b_fp.Replicas.{hash_at, IsSettled, IsParent, InWorld, IsCertified}

pub IsSettled-same :
    {h g : Heap} {genesis p : Ptr} → SameShape h g → IsSettled genesis h p → IsSettled genesis g p
IsSettled-same s (inl e) = inl e
IsSettled-same {p = p} s (inr (q, e)) = inr (q, s.same_parent p ∙ e)

IsSettled-back :
    {h g : Heap} {genesis p : Ptr} → SameShape h g → IsSettled genesis g p → IsSettled genesis h p
IsSettled-back s (inl e) = inl e
IsSettled-back {p = p} s (inr (q, e)) = inr (q, sym (s.same_parent p) ∙ e)

pub IsParent-same :
    {h g : Heap} {genesis p : Ptr} → SameShape h g → IsParent genesis h p → IsParent genesis g p
IsParent-same s (inl e) = inl e
IsParent-same s (inr (x, e)) = inr (x, s.same_parent x ∙ e)

IsParent-back :
    {h g : Heap} {genesis p : Ptr} → SameShape h g → IsParent genesis g p → IsParent genesis h p
IsParent-back s (inl e) = inl e
IsParent-back s (inr (x, e)) = inr (x, sym (s.same_parent x) ∙ e)

pub InWorld-same :
    {w : World} {genesis : Ptr} {h g : Heap}
    → SameShape h g
    → InWorld w genesis h
    → InWorld w genesis g
InWorld-same {w} {genesis} {h} {g} s i = record {
  root = s.same_hash genesis ∙ i.root;
  heights = λ p e.
      ap w.height_of (s.same_hash p) ∙ i.heights p (IsSettled-back s e) ∙ sym (s.same_height p);
  parents = λ p q e.
      let (settled, up) = i.parents p q (sym (s.same_parent p) ∙ e) in
      (IsSettled-same s settled, ap w.parent_of (s.same_hash p) ∙ up ∙ sym (s.same_hash q));
  justifies = λ p j e.
      let (below, settled, same) = i.justifies p j (sym (s.same_justify p) ∙ e) in
      (
        IsSettled-same s below,
        IsSettled-same s settled,
        ap w.justify_of (s.same_hash p) ∙ same ∙ sym (s.same_hash j),
      );
  both_linked = λ p q e.
      let (j, f) = i.both_linked p q (sym (s.same_parent p) ∙ e) in (j, s.same_justify p ∙ f);
  one_address = λ p q e f same.
      i.one_address p q (IsParent-back s e) (IsParent-back s f)
        (sym (s.same_hash p) ∙ same ∙ s.same_hash q);
}

pub IsCertified-same :
    (u : Quorums) (log : Log) {h g : Heap}
    → SameShape h g
    → IsCertified u log h
    → IsCertified u log g
IsCertified-same u log s c p j e =
    subst (Certified u log) (sym (s.same_hash j)) (c p j (sym (s.same_justify p) ∙ e))

-- The line between two blocks is one in the world.
pub Line-Follows :
    {w : World} {genesis : Ptr} {h : Heap}
    → IsLinked h
    → InWorld w genesis h
    → (a : Ptr) (xs : List Ptr) (b : Ptr) → IsSettled genesis h b
    → Line h a xs b
    → Follows w (hash_at h b) (hash_at h a)
Line-Follows {w} {h = h} l i a [] b settled e =
    subst (λ x. Follows w (hash_at h x) (hash_at h a)) (sym e) (Follows-refl (hash_at h a))
Line-Follows {w} {h = h} l i a (x ∷ xs) b settled (q, e, p, line) =
    let (below, up) = i.parents x q p in
    let here : IsSettled _ h x = inr (q, p) in
    let rest : Follows w (w.parent_of (hash_at h x)) (hash_at h a) =
      subst (λ k. Follows w k (hash_at h a)) (sym up) (Line-Follows l i a xs q below line) in
    subst (λ x. Follows w (hash_at h x) (hash_at h a)) (sym e)
      (Follows-parent rest (
        i.heights x here
        ∙ l.step x q p
        ∙ ap suc (sym (i.heights q below) ∙ ap w.height_of (sym up))))

pub JustifyBelow-world :
    {w : World} {genesis : Ptr} {h : Heap} → IsWorld w → InWorld w genesis h → JustifyBelow h
JustifyBelow-world {w} {genesis} {h} is i p j e =
    let (below, settled, same) = i.justifies p j e in
    let hp = i.heights p below in
    let hj = i.heights j settled in
    let sj = ap w.height_of same in
    elim (Bool-cases (ltb 0 (h.cell p).block_height)) [
      | inl above ↦
          (let f = is.behind (hash_at h p) (omega (arith, hp, ltb→lt _ _ above)) in
            omega (arith, f.heights, hp, hj, sj))
      | inr low ↦
          (let zero_hash : hash_at h p ≡ 0 =
              is.only_genesis (hash_at h p) (ground (arith, hp, low)) in
            omega (
              arith,
              hj,
              sj,
              ap (λ k. w.height_of (w.justify_of k)) zero_hash,
              ap w.height_of is.root_justify,
              is.genesis,
            ))
    ]

-- A block that is executed heads a certified three-chain, unless it is genesis.
abbrev pub IsExecuted : World → Quorums → Log → Hash → Type 0
IsExecuted w u log k = (k ≡ 0) ⊎ ((k1 k2 : Hash) × Chain w k k1 k2 × Certified u log k2)

pub record Local (w : World) (u : Quorums) (log : Log) (r : ReplicaId) (c : Core) : Type 0 where
  pub inv : Inv c
  pub in_world : InWorld w c.genesis c.heap
  pub certified : IsCertified u log c.heap
  pub lock_settled : IsSettled c.genesis c.heap c.b_lock
  pub lock_certified : Certified u log (hash_at c.heap c.b_lock)
  pub decided_low : DecidedBelowLock c
  pub root_decided : is_decided c.heap c.genesis ≡ true
  pub covers :
      (k : Hash) → Voted log r k → w.height_of (w.justify_of (w.justify_of k)) ≤ height c c.b_lock
  pub votes_low : (k : Hash) → Voted log r k → w.height_of k ≤ c.vheight
  pub exec_settled : IsSettled c.genesis c.heap c.b_exec
  pub exec_parent : IsParent c.genesis c.heap c.b_exec
  pub executed : IsExecuted w u log (hash_at c.heap c.b_exec)
