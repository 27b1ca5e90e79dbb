-- ===== src/App/Alloc.antt =====
-- A block that is minted is new: the store stays a store.
use mathlib.Core.Option.{some-injective}
use cs244b_fp.Prelude.{
  suc, ◌≡◌, ◌≢◌, refl, sym, ap, ◌∙◌, inl, inr, true, false, Option, none, some, ◌==◌, arith,
  Bool-cases,
}
use cs244b_fp.Prelude.Maps.{find}
use cs244b_fp.Config.{Hash}
use cs244b_fp.Block.{Ptr, HotstuffBlock, Heap, get_parent_hash, alloc}
use cs244b_fp.Block.Disk.{is_decided}
use cs244b_fp.Block.Shape.{IsLinked}
use cs244b_fp.Consensus.ThreeChain.{HasQc}
use cs244b_fp.Consensus.Invariant.{Grows}
use cs244b_fp.Storage.BlockStore.{BlockStore, MissingDependencies, get_block, is_missing}
use cs244b_fp.Storage.BlockStore.Insert.{IsStore, HasRoom, Reports, Inserted, missing, linked}

-- The address that is allocated next has not been used.
pub record IsUnused (s : BlockStore) (h : Heap) : Type 0 where
  pub no_parent : (h.cell h.next).parent_block_ptr ≡ none
  pub undecided : is_decided h h.next ≡ false
  pub no_child : (p : Ptr) → (h.cell p).parent_block_ptr ≢ some h.next
  pub not_cached : (k : Hash) → find k s.block_cache ≢ some h.next

pub alloc_old :
    (b : HotstuffBlock) (h : Heap) (x : Ptr) → x ≢ h.next → (alloc b h).1.cell x ≡ h.cell x
unfolding alloc
alloc_old b h x other = ground (arith, other)

pub alloc_new : (b : HotstuffBlock) (h : Heap) → (alloc b h).1.cell h.next ≡ b
unfolding alloc
alloc_new b h = ground arith

module _ (s : BlockStore) (h : Heap) (b : HotstuffBlock) (is : IsStore s h) (unused : IsUnused s h)
    (room : HasRoom h) (new_height : b.block_height ≡ 0) (unlinked : b.parent_block_ptr ≡ none)
    (unjustified : b.justify_block_ptr ≡ none) where
  pub cached_old : (k : Hash) (p : Ptr) → find k s.block_cache ≡ some p → p ≢ h.next
  cached_old k p e same = unused.not_cached k (e ∙ ap some same)

  child_old : (p q : Ptr) → (h.cell p).parent_block_ptr ≡ some q → p ≢ h.next
  child_old p q e same =
      let clash : none ≡ some q =
        sym unused.no_parent ∙ ap (λ x. (h.cell x).parent_block_ptr) (sym same) ∙ e in
      absurd cc

  decided_old : (p : Ptr) → is_decided h p ≡ true → p ≢ h.next
  decided_old p e same =
      let clash : false ≡ true = sym unused.undecided ∙ ap (is_decided h) (sym same) ∙ e in
      absurd cc

  new_child :
      (p q : Ptr)
      → ((alloc b h).1.cell p).parent_block_ptr ≡ some q
      → (h.cell p).parent_block_ptr ≡ some q
  unfolding alloc
  new_child p q e = ground (arith, e, unlinked)

  alloc-IsLinked : IsLinked (alloc b h).1
  unfolding alloc
  alloc-IsLinked = record {
    step = λ p q e. ground (arith, is.tree.step p q, unlinked, unused.no_child p);
    root = λ p e. ground (arith, new_height, is.tree.root p);
  }

  alloc-HasQc : HasQc (alloc b h).1
  unfolding alloc
  alloc-HasQc p j e = elim (Bool-cases (h.next == p)) [
    | inl here ↦
        (let clash : none ≡ some j = sym unjustified ∙ ground (arith, here, e) in absurd cc)
    | inr other ↦
        let (qc, f) = is.with_qc p j (ground (arith, other, e)) in (qc, ground (arith, other, f))
  ]

  pub alloc-Grows : Grows h (alloc b h).1
  unfolding alloc
  alloc-Grows = record {
    grown_linked = alloc-IsLinked;
    grown_qc = alloc-HasQc;
    stays = λ p q e. let same = alloc_old b h p (child_old p q e) in (rw same e, rw same refl);
    stays_decided = λ p e. ap (λ x. x.decided) (alloc_old b h p (decided_old p e)) ∙ e;
  }

  pub alloc-IsStore : IsStore s (alloc b h).1
  unfolding alloc
  alloc-IsStore = record {
    tree = alloc-IsLinked;
    with_qc = alloc-HasQc;
    sorted = is.sorted;
    own_hash = λ k p e. rw (alloc_old b h p (cached_old k p e)) (is.own_hash k p e);
    parents = λ p q e.
        let parent = is.parents p q (new_child p q e) in
        rw (alloc_old b h q (cached_old _ q parent)) parent;
  }

  pub alloc-HasRoom : HasRoom (alloc b h).1
  unfolding alloc
  alloc-HasRoom p = ground (arith, room p, new_height)

pub Grows-trans : {h g k : Heap} → Grows h g → Grows g k → Grows h k
Grows-trans a b = record {
  grown_linked = b.grown_linked;
  grown_qc = b.grown_qc;
  stays = λ p q e.
      let (parent, same) = a.stays p q e in
      let (parent', same') = b.stays p q parent in (parent', same' ∙ same);
  stays_decided = λ p e. b.stays_decided p (a.stays_decided p e);
}

-- What the insertion of a block leaves whose dependencies are in the cache.
pub record Linked (h : Heap) (blk leaf certified : Ptr)
    (r : MissingDependencies × BlockStore × Heap) : Type 0 where
  pub complete : is_missing r.0 ≡ false
  pub parent : (r.2.cell blk).parent_block_ptr ≡ some leaf
  pub justify : (r.2.cell blk).justify_block_ptr ≡ some certified
  pub above : (r.2.cell blk).block_height ≡ suc (h.cell leaf).block_height
  pub is_store : IsStore r.1 r.2
  pub grows : Grows h r.2

reported :
    (m : Option Hash) (k : Hash) (s : BlockStore) (p : Ptr)
    → Reports m k s
    → get_block k s ≡ some p
    → m ≡ none
reported m k s p (inl (free, _)) e = free
reported m k s p (inr (_, gone)) e = let clash : none ≡ some p = sym gone ∙ e in absurd cc

complete :
    (m : MissingDependencies) → m.parent_hash ≡ none → m.justify_hash ≡ none → is_missing m ≡ false
unfolding is_missing
complete m e f = rw e (rw f refl)

pub Inserted-Linked :
    {s : BlockStore} {h : Heap} {blk : Ptr} {j : Hash} {r : MissingDependencies × BlockStore × Heap}
    (leaf certified : Ptr)
    → Inserted s h blk j r
    → get_block (get_parent_hash (h.cell blk)) s ≡ some leaf
    → get_block j s ≡ some certified
    → Linked h blk leaf certified r
Inserted-Linked {s} {h} {blk} {j} leaf certified (missing {m} lacks parent justify) e f =
    let clash : true ≡ false =
      sym lacks
      ∙ complete m (reported m.parent_hash _ s leaf parent e)
          (reported m.justify_hash j s certified justify f) in
    absurd cc
Inserted-Linked {s} {h} {blk} {j} leaf certified
      (linked {m} {t} {g} {p} {q} all parent justify up certificate higher _ is grows) e f =
    let same = some-injective _ _ (sym parent ∙ e) in
    record {
      complete = all;
      parent = up ∙ ap some same;
      justify = certificate ∙ ap some (some-injective _ _ (sym justify ∙ f));
      above = higher ∙ ap (λ x. suc (h.cell x).block_height) same;
      is_store = is;
      grows = grows;
    }
