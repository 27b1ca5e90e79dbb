-- ===== src/Block/Shape.antt =====
-- The tree that the parent pointers make.
use cs244b_fp.Prelude.{
  suc, ◌+◌, ◌≡◌, refl, sym, ap, ◌∙◌, none, some, List, [], ◌∷◌, ◌++◌, arith, length,
}
use mathlib.Core.Path.{subst}
use mathlib.Core.Option.{some-injective}
use cs244b_fp.Block.{Ptr, HotstuffBlock, Heap, modify}

-- Heights grow by one from parent to child, and only blocks at height zero have no parent.
pub record IsLinked (h : Heap) : Type 0 where
  pub step :
      (p q : Ptr)
      → (h.cell p).parent_block_ptr ≡ some q
      → (h.cell p).block_height ≡ suc (h.cell q).block_height
  pub root : (p : Ptr) → (h.cell p).parent_block_ptr ≡ none → (h.cell p).block_height ≡ 0

-- From `b` the parent pointers lead through `xs`, highest block first, down to `a`.
abbrev pub Line : Heap → Ptr → List Ptr → Ptr → Type 0
Line h a [] b = b ≡ a
Line h a (x ∷ xs) b = (q : Ptr) × (b ≡ x) × ((h.cell x).parent_block_ptr ≡ some q) × Line h a xs q

-- `a` is `b` or one of its ancestors.
abbrev pub Extends : Heap → Ptr → Ptr → Type 0
Extends h b a = (xs : List Ptr) × Line h a xs b

-- The second heap has the tree, the heights and the contents of the first.
pub record SameShape (h g : Heap) : Type 0 where
  pub same_parent : (p : Ptr) → (g.cell p).parent_block_ptr ≡ (h.cell p).parent_block_ptr
  pub same_justify : (p : Ptr) → (g.cell p).justify_block_ptr ≡ (h.cell p).justify_block_ptr
  pub same_height : (p : Ptr) → (g.cell p).block_height ≡ (h.cell p).block_height
  pub same_qc : (p : Ptr) → (g.cell p).parsed_qc ≡ (h.cell p).parsed_qc
  pub same_hash : (p : Ptr) → (g.cell p).self_qc.obj_hash ≡ (h.cell p).self_qc.obj_hash

pub SameShape-refl : (h : Heap) → SameShape h h
SameShape-refl h = record {
  same_parent = λ p. refl;
  same_justify = λ p. refl;
  same_height = λ p. refl;
  same_qc = λ p. refl;
  same_hash = λ p. refl;
}

pub SameShape-trans : {h g k : Heap} → SameShape h g → SameShape g k → SameShape h k
SameShape-trans s t = record {
  same_parent = λ p. t.same_parent p ∙ s.same_parent p;
  same_justify = λ p. t.same_justify p ∙ s.same_justify p;
  same_height = λ p. t.same_height p ∙ s.same_height p;
  same_qc = λ p. t.same_qc p ∙ s.same_qc p;
  same_hash = λ p. t.same_hash p ∙ s.same_hash p;
}

-- A method that leaves those fields of a block alone.
pub record KeepsShape (f : HotstuffBlock → HotstuffBlock) : Type 0 where
  pub keeps_parent : (b : HotstuffBlock) → (f b).parent_block_ptr ≡ b.parent_block_ptr
  pub keeps_justify : (b : HotstuffBlock) → (f b).justify_block_ptr ≡ b.justify_block_ptr
  pub keeps_height : (b : HotstuffBlock) → (f b).block_height ≡ b.block_height
  pub keeps_qc : (b : HotstuffBlock) → (f b).parsed_qc ≡ b.parsed_qc
  pub keeps_hash : (b : HotstuffBlock) → (f b).self_qc.obj_hash ≡ b.self_qc.obj_hash

pub modify-SameShape :
    (f : HotstuffBlock → HotstuffBlock) (p : Ptr) (h : Heap)
    → KeepsShape f
    → SameShape h (modify f p h)
unfolding modify
modify-SameShape f p h k = record {
  same_parent = λ q. ground (arith, k.keeps_parent (h.cell q));
  same_justify = λ q. ground (arith, k.keeps_justify (h.cell q));
  same_height = λ q. ground (arith, k.keeps_height (h.cell q));
  same_qc = λ q. ground (arith, k.keeps_qc (h.cell q));
  same_hash = λ q. ground (arith, k.keeps_hash (h.cell q));
}

pub IsLinked-same : {h g : Heap} → SameShape h g → IsLinked h → IsLinked g
IsLinked-same {h} {g} s l = record {
  step = λ p q e.
      s.same_height p ∙ l.step p q (sym (s.same_parent p) ∙ e) ∙ ap suc (sym (s.same_height q));
  root = λ p e. s.same_height p ∙ l.root p (sym (s.same_parent p) ∙ e);
}

pub Line-same :
    {h g : Heap}
    → SameShape h g
    → (a : Ptr) (xs : List Ptr) (b : Ptr) → Line h a xs b
    → Line g a xs b
Line-same s a [] b l = l
Line-same s a (x ∷ xs) b (q, e, p, l) = (q, e, s.same_parent x ∙ p, Line-same s a xs q l)

-- A line down to `b` and one from `b` down to `a` make one.
pub Line-append :
    (h : Heap) (a : Ptr) (xs ys : List Ptr) (b c : Ptr)
    → Line h b xs c
    → Line h a ys b
    → Line h a (xs ++ ys) c
Line-append h a [] ys b c e m = subst (λ x. Line h a ys x) (sym e) m
Line-append h a (x ∷ xs) ys b c (q, e, p, l) m = (q, e, p, Line-append h a xs ys b q l m)

-- Ancestors are lower, by the length of the way.
pub Line-height :
    (h : Heap) (a : Ptr) (xs : List Ptr) (b : Ptr)
    → IsLinked h
    → Line h a xs b
    → (h.cell b).block_height ≡ length xs + (h.cell a).block_height
Line-height h a [] b l e = ap (λ x. (h.cell x).block_height) e ∙ omega arith
Line-height h a (x ∷ xs) b l (q, e, p, m) =
    ap (λ x. (h.cell x).block_height) e ∙ omega (arith, l.step x q p, Line-height h a xs q l m)

-- At one height a block has one ancestor.
pub Line-unique :
    (h : Heap) (a a' : Ptr) (xs ys : List Ptr) (b : Ptr)
    → Line h a xs b
    → Line h a' ys b
    → length xs ≡ length ys
    → a ≡ a'
Line-unique h a a' [] [] b l m e = sym l ∙ m
Line-unique h a a' [] (y ∷ ys) b l m e = absurd (omega arith)
Line-unique h a a' (x ∷ xs) [] b l m e = absurd (omega arith)
Line-unique h a a' (x ∷ xs) (y ∷ ys) b (q, e, p, l) (r, f, o, m) n =
    let same : r ≡ q =
      some-injective r q (sym o ∙ ap (λ x. (h.cell x).parent_block_ptr) (sym f ∙ e) ∙ p) in
    Line-unique h a a' xs ys q l (subst (λ x. Line h a' ys x) same m) (omega arith)
