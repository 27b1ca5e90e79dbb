-- ===== src/Block/Disk.antt =====
-- `write_to_disk`: the calls of `save_block` that it makes, and the blocks that it marks as on disk.
use mathlib.Core.Path.{subst}
use mathlib.Core.List.{append_assoc, append-nil}
use cs244b_fp.Prelude.{
  Result-cases, ℕ, zero, suc, ◌<◌, ◌≡◌, refl, sym, ap, ◌∙◌, inl, inr, ◌⊎◌, Bool, true, false, none,
  some, List, [], ◌++◌, ◌==◌, ◌>>=◌, ◌∷◌, arith, Bool-cases, Option-cases, Result, ok,
}
use cs244b_fp.Wire.{HotstuffBlockWire}
use cs244b_fp.Block.{Ptr, HotstuffBlock, Heap, modify, write_to_disk, save_each, record_saved}
use cs244b_fp.Block.Shape.{
  IsLinked, IsLinked-same, SameShape, SameShape-refl, SameShape-trans, KeepsShape, modify-SameShape,
}

abbrev pub on_disk : Heap → Ptr → Bool
on_disk h p = (h.cell p).written_to_disk

abbrev pub is_decided : Heap → Ptr → Bool
is_decided h p = (h.cell p).decided

abbrev mark : HotstuffBlock → HotstuffBlock
mark b = record b { written_to_disk = true }

mark-KeepsShape : KeepsShape mark
mark-KeepsShape = record {
  keeps_parent = λ b. refl;
  keeps_justify = λ b. refl;
  keeps_height = λ b. refl;
  keeps_qc = λ b. refl;
  keeps_hash = λ b. refl;
}

-- What a write from `p` leaves.
pub record Written (p : Ptr) (h g : Heap) : Type 0 where
  pub shape : SameShape h g
  pub target : on_disk g p ≡ true
  pub keeps : (x : Ptr) → on_disk h x ≡ true → on_disk g x ≡ true
  pub grows :
      (x y : Ptr)
      → on_disk g x ≡ true
      → (h.cell x).parent_block_ptr ≡ some y
      → (on_disk g y ≡ true) ⊎ (on_disk h x ≡ true)
  pub decisions : (x : Ptr) → is_decided g x ≡ is_decided h x

-- What is marked besides is `p`, whose parent is `q`.
fresh_mark :
    (h : Heap) (p q x y : Ptr)
    → (h.cell p).parent_block_ptr ≡ some q
    → (h.cell x).parent_block_ptr ≡ some y
    → on_disk (modify mark p h) x ≡ true
    → (y ≡ q) ⊎ (on_disk h x ≡ true)
unfolding modify
fresh_mark h p q x y up o m = ground (arith, ap (λ z. (h.cell z).parent_block_ptr) {x = p} {y = x})

-- A block of the list.
abbrev pub Has : HotstuffBlockWire → List HotstuffBlockWire → Type 0
Has w [] = ⊥
Has w (x ∷ xs) = (x ≡ w) ⊎ Has w xs

-- What is on disk after a write was before, or is saved by it.
abbrev pub SavesMarked : Heap → Heap → List HotstuffBlockWire → Type 0
SavesMarked h g ws =
    (x : Ptr) → on_disk g x ≡ true → (on_disk h x ≡ true) ⊎ Has (h.cell x).wire_block ws

module _ {S : Type 0} (save : HotstuffBlockWire → S → Result S) where
  abbrev Outcome : ℕ → Ptr → Heap → Type 0
  Outcome fuel p h =
      (ws : List HotstuffBlockWire) × (g : Heap) × ((s : S)
        → write_to_disk save fuel p h s ≡ (save_each save ws s >>= (λ s'. ok (s', g))))
      × Written p h g
      × SavesMarked h g ws

  saves_root :
      (fuel : ℕ) (p : Ptr) (h : Heap) (s : S)
      → on_disk h p ≡ false
      → (h.cell p).parent_block_ptr ≡ none
      → write_to_disk save (suc fuel) p h s
        ≡ (save_each save ((h.cell p).wire_block ∷ []) s >>= (λ s'. ok (s', modify mark p h)))
  unfolding write_to_disk save_each
  saves_root fuel p h s new root = elim (Result-cases (save (h.cell p).wire_block s)) [
    | inl (s', e) ↦ rw (new, e, root, write_to_disk, save_each)
    | inr (x, e) ↦ rw (new, e, write_to_disk, save_each)
  ]

  saves_parent :
      (fuel : ℕ) (p q : Ptr) (h g : Heap) (ws : List HotstuffBlockWire) (s : S)
      → on_disk h p ≡ false
      → (h.cell p).parent_block_ptr ≡ some q
      → ((s : S)
          → write_to_disk save fuel q (modify mark p h) s
            ≡ (save_each save ws s >>= (λ s'. ok (s', g))))
      → write_to_disk save (suc fuel) p h s
        ≡ (save_each save ((h.cell p).wire_block ∷ ws) s >>= (λ s'. ok (s', g)))
  unfolding write_to_disk save_each
  saves_parent fuel p q h g ws s new up rest = elim (Result-cases (save (h.cell p).wire_block s)) [
    | inl (s', e) ↦ rw (new, e, up, write_to_disk, save_each) (rest s')
    | inr (x, e) ↦ rw (new, e, write_to_disk, save_each)
  ]

  same_wire : (h : Heap) (p x : Ptr) → ((modify mark p h).cell x).wire_block ≡ (h.cell x).wire_block
  unfolding modify
  same_wire h p x = ground arith

  -- What is marked besides is `p`.
  marked_or_old :
      (h : Heap) (p x : Ptr)
      → on_disk (modify mark p h) x ≡ true
      → (on_disk h x ≡ true) ⊎ ((h.cell p).wire_block ≡ (h.cell x).wire_block)
  unfolding modify
  marked_or_old h p x m = elim (Bool-cases (p == x)) [
    | inl same ↦ inr (ap (λ z. (h.cell z).wire_block) {x = p} {y = x} (ground (arith, same)))
    | inr other ↦ inl (rw (other, on_disk) at m)
  ]

  write_to_disk-Outcome :
      (fuel : ℕ) (p : Ptr) (h : Heap)
      → IsLinked h
      → (h.cell p).block_height < fuel
      → Outcome fuel p h
  unfolding write_to_disk modify save_each
  write_to_disk-Outcome zero p h l f = absurd (omega arith)
  write_to_disk-Outcome (suc fuel) p h l f = elim (Bool-cases (on_disk h p)) [
    | inl old ↦ (
      [],
      h,
      λ s. rw (old, write_to_disk),
      record {
        shape = SameShape-refl h;
        target = old;
        keeps = λ x e. e;
        grows = λ x y e q. inr e;
        decisions = λ x. refl;
      },
      λ x e. inl e,
    )
    | inr new ↦ elim (Option-cases (h.cell p).parent_block_ptr) [
      | inl root ↦ (
        (h.cell p).wire_block ∷ [],
        modify mark p h,
        λ s. saves_root fuel p h s new root,
        record {
          shape = modify-SameShape mark p h mark-KeepsShape;
          target = ground arith;
          keeps = λ x e. ground arith;
          grows = λ x y e q. ground arith;
          decisions = λ x. ground arith;
        },
        λ x e. elim (marked_or_old h p x e) [ inl old ↦ inl old | inr one ↦ inr (inl one) ],
      )
      | inr (q, up) ↦
          let s = modify-SameShape mark p h mark-KeepsShape in
          let (ws, g, e, w, m) =
            write_to_disk-Outcome fuel q (modify mark p h) (IsLinked-same s l)
              (omega (arith, s.same_height q, l.step p q up)) in
          (
            (h.cell p).wire_block ∷ ws,
            g,
            λ t. saves_parent fuel p q h g ws t new up e,
            record {
              shape = SameShape-trans s w.shape;
              target = w.keeps p (ground arith);
              keeps = λ x i. w.keeps x (ground arith);
              grows = λ x y i o.
                  ground (
                    arith,
                    w.grows x y i (s.same_parent x ∙ o),
                    w.target,
                    fresh_mark h p q x y up o,
                  );
              decisions = λ x. w.decisions x ∙ ground arith;
            },
            λ x i. elim (m x i) [
              | inl marked ↦ elim (marked_or_old h p x marked) [
                | inl old ↦ inl old
                | inr one ↦ inr (inl one)
              ]
              | inr has ↦ inr (inr (subst (λ k. Has k ws) (same_wire h p x) has))
            ],
          )
    ]
  ]

save_each-record_saved :
    (ws acc : List HotstuffBlockWire) → save_each record_saved ws acc ≡ ok (acc ++ ws)
unfolding save_each
save_each-record_saved [] acc = ap ok (sym (append-nil acc))
save_each-record_saved (w ∷ ws) acc =
    save_each-record_saved ws (acc ++ w ∷ []) ∙ ap ok (append_assoc acc (w ∷ []) ws)

-- A write whose saves are recorded ends within the height of the block.
pub write_to_disk-Written :
    (p : Ptr) (h : Heap)
    → IsLinked h
    → (saved : List HotstuffBlockWire) × (g : Heap) × (write_to_disk record_saved
          (suc (h.cell p).block_height)
          p
          h
          []
        ≡ ok (saved, g))
      × Written p h g
write_to_disk-Written p h l =
    let (ws, g, e, w, m) = write_to_disk-Outcome record_saved _ p h l (omega arith) in
    (ws, g, e [] ∙ ap (λ r. r >>= (λ s'. ok (s', g))) (save_each-record_saved ws []), w)

-- A block on disk has its parent on disk.
abbrev pub IsOnDiskClosed : Heap → Type 0
IsOnDiskClosed h =
    (x y : Ptr) → on_disk h x ≡ true → (h.cell x).parent_block_ptr ≡ some y → on_disk h y ≡ true

pub Written-closed : {p : Ptr} {h g : Heap} → Written p h g → IsOnDiskClosed h → IsOnDiskClosed g
Written-closed {h} {g} w c x y i e =
    let up : (h.cell x).parent_block_ptr ≡ some y = sym (w.shape.same_parent x) ∙ e in
    elim (w.grows x y i up) [ inl done ↦ done | inr old ↦ w.keeps y (c x y old up) ]
