-- ===== src/Storage/GarbageCollector/Collected.antt =====
-- What a round of garbage collection does.
use cs244b_fp.Prelude.{
  sym, ◌&&◌, ℕ, zero, suc, ◌+◌, ◌<◌, ◌≡◌, refl, ap, ◌∙◌, inl, inr, Bool, true, false, List, [], ◌∷◌,
  arith, ltb, Bool-cases, ◌==◌, if◌then◌else◌, length, ok,
}
use cs244b_fp.Block.{Ptr, HotstuffBlock, Heap, flush_from_memory, modify}
use cs244b_fp.Block.Shape.{SameShape, SameShape-refl, SameShape-trans, KeepsShape, modify-SameShape}
use cs244b_fp.Storage.GarbageCollector.{Collector, back, pop_back, gc_loop, do_gc}

-- How often a pointer stands in a list.
abbrev pub occurs : Ptr → List Ptr → ℕ
occurs z [] = 0
occurs z (x ∷ xs) = (if x == z then 1 else 0) + occurs z xs

occurs-back : (z y : Ptr) (ys : List Ptr) → occurs z (back y ys ∷ pop_back y ys) ≡ occurs z (y ∷ ys)
unfolding back pop_back
occurs-back z y [] = refl
occurs-back z y (x ∷ xs) = omega (arith, occurs-back z x xs)

length-pop_back : (y : Ptr) (ys : List Ptr) → length (pop_back y ys) ≡ length ys
unfolding pop_back
length-pop_back y [] = refl
length-pop_back y (x ∷ xs) = ap suc (length-pop_back x xs)

flush-KeepsShape : KeepsShape flush_from_memory
unfolding flush_from_memory
flush-KeepsShape = record {
  keeps_parent = λ b. ground arith;
  keeps_justify = λ b. ground arith;
  keeps_height = λ b. ground arith;
  keeps_qc = λ b. ground arith;
  keeps_hash = λ b. ground arith;
}

flush_again : (b : HotstuffBlock) → flush_from_memory (flush_from_memory b) ≡ flush_from_memory b
unfolding flush_from_memory
flush_again b = elim (Bool-cases b.flushed_from_memory) [
  | inl old ↦ rw (old, flush_from_memory)
  | inr new ↦ rw (new, flush_from_memory)
]

-- The pointer is in the list, and its block is below the height.
abbrev pub is_collected : ℕ → List Ptr → Heap → Ptr → Bool
is_collected low xs h z = ltb 0 (occurs z xs) && ltb (h.cell z).block_height low

-- Of the list are kept the blocks at or above the height, as often as they occur; those below are
-- flushed from memory, and every other block, in the list or not, stays what it was.
pub record Collected (low : ℕ) (xs : List Ptr) (h : Heap) (kept : List Ptr) (g : Heap)
    : Type 0 where
  pub shape : SameShape h g
  pub keeps :
      (z : Ptr) → occurs z kept ≡ (if ltb (h.cell z).block_height low then 0 else occurs z xs)
  pub cells :
      (z : Ptr)
      → g.cell z ≡ (if is_collected low xs h z then flush_from_memory (h.cell z) else h.cell z)

is_collected-head :
    (low : ℕ) (x z : Ptr) (xs : List Ptr) (h : Heap)
    → ltb (h.cell x).block_height low ≡ true
    → (x == z) ≡ true
    → is_collected low (x ∷ xs) h z ≡ true
is_collected-head low x z xs h under here =
    ground (arith, under, here, ap (λ p. (h.cell p).block_height) {x = x} {y = z})

-- One block below the height, flushed; what follows it is collected after.
Collected-flush :
    (low : ℕ) (x : Ptr) (xs ys : List Ptr) (h : Heap) (kept : List Ptr) (g : Heap)
    → ltb (h.cell x).block_height low ≡ true
    → ((z : Ptr) → occurs z ys ≡ occurs z xs)
    → Collected low ys (modify flush_from_memory x h) kept g
    → Collected low (x ∷ xs) h kept g
unfolding modify
Collected-flush low x xs ys h kept g under same c =
    let s = modify-SameShape flush_from_memory x h flush-KeepsShape in
    let alike = λ (z : Ptr). ap (λ p. (h.cell p).block_height) {x = x} {y = z} in
    let h' = modify flush_from_memory x h in
    record {
      shape = SameShape-trans s c.shape;
      keeps = λ z. ground (arith, c.keeps z, s.same_height z, same z, alike z);
      cells = λ z. elim (Bool-cases (x == z)) [
        | inl here ↦
            (let now : h'.cell z ≡ flush_from_memory (h.cell z) = rw here refl in
              c.cells z
              ∙ either (is_collected low ys h' z) (h'.cell z) (h.cell z) now
              ∙ ap (λ b. if b then flush_from_memory (h.cell z) else h.cell z)
                  (sym (is_collected-head low x z xs h under here)))
        | inr other ↦
            (let now : h'.cell z ≡ h.cell z = rw other refl in
              let tests : is_collected low ys h' z ≡ is_collected low (x ∷ xs) h z =
                ap (λ n. ltb 0 n && ltb (h'.cell z).block_height low)
                  (same z ∙ ground (arith, other))
                ∙ ap (λ n. ltb 0 (occurs z (x ∷ xs)) && ltb n low) (s.same_height z) in
              c.cells z
              ∙ ap (λ b. if b then flush_from_memory (h'.cell z) else h'.cell z) tests
              ∙ ap (λ k. if is_collected low (x ∷ xs) h z then flush_from_memory k else k) now)
      ];
    }
  where
    either :
        (b : Bool) (new old : HotstuffBlock)
        → new ≡ flush_from_memory old
        → (if b then flush_from_memory new else new) ≡ flush_from_memory old
    either true new old e = ap flush_from_memory e ∙ flush_again old
    either false new old e = e

Collected-keep :
    (low : ℕ) (x : Ptr) (xs : List Ptr) (h : Heap) (kept : List Ptr) (g : Heap)
    → ltb (h.cell x).block_height low ≡ false
    → Collected low xs h kept g
    → Collected low (x ∷ xs) h (x ∷ kept) g
Collected-keep low x xs h kept g over c = record {
  shape = c.shape;
  keeps = λ z. ground (arith, c.keeps z, ap (λ p. (h.cell p).block_height) {x = x} {y = z});
  cells = λ z.
      c.cells z
      ∙ ap (λ b. if b then flush_from_memory (h.cell z) else h.cell z)
          (ground (arith, over, ap (λ p. (h.cell p).block_height) {x = x} {y = z}));
}

gc_loop-Collected :
    (fuel low : ℕ) (xs : List Ptr) (h : Heap)
    → length xs < fuel
    → (kept : List Ptr) × (g : Heap) × (gc_loop fuel low xs h ≡ ok (kept, g))
      × Collected low xs h kept g
unfolding gc_loop
gc_loop-Collected zero low xs h f = absurd (omega arith)
gc_loop-Collected (suc fuel) low [] h f =
    ([], h, refl, record { shape = SameShape-refl h; keeps = λ z. ground arith; cells = λ z. refl })
gc_loop-Collected (suc fuel) low (x ∷ []) h f =
    elim (Bool-cases (ltb (h.cell x).block_height low)) [
      | inl under ↦
          let (kept, g, e, c) =
            gc_loop-Collected fuel low [] (modify flush_from_memory x h) (omega arith) in
          (kept, g, rw (under, gc_loop) e, Collected-flush low x [] [] h kept g under (λ z. refl) c)
      | inr over ↦
          let (kept, g, e, c) = gc_loop-Collected fuel low [] h (omega arith) in
          (x ∷ kept, g, rw (over, e, gc_loop), Collected-keep low x [] h kept g over c)
    ]
gc_loop-Collected (suc fuel) low (x ∷ y ∷ ys) h f =
    elim (Bool-cases (ltb (h.cell x).block_height low)) [
      | inl under ↦
          let (kept, g, e, c) =
            gc_loop-Collected fuel low (back y ys ∷ pop_back y ys) (modify flush_from_memory x h)
              (omega (arith, length-pop_back y ys)) in
          (
            kept,
            g,
            rw (under, gc_loop) e,
            Collected-flush low x (y ∷ ys) (back y ys ∷ pop_back y ys) h kept g under
                (λ z. occurs-back z y ys) c,
          )
      | inr over ↦
          let (kept, g, e, c) = gc_loop-Collected fuel low (y ∷ ys) h (omega arith) in
          (x ∷ kept, g, rw (over, e, gc_loop), Collected-keep low x (y ∷ ys) h kept g over c)
    ]

-- `do_gc` ends within the length of its list: it keeps exactly the blocks at or above the height,
-- and flushes those of the list below it, body and flag. Every other block, in the list or not, stays
-- what it was.
pub do_gc-Collected :
    (low : ℕ) (s : Collector) (h : Heap)
    → (t : Collector) × (g : Heap) × (do_gc low s h ≡ ok (t, g))
      × Collected low s.gc_list h t.gc_list g
      × (t.gc_list_buffer ≡ s.gc_list_buffer)
      × (t.hotstuff_height_to_gc ≡ s.hotstuff_height_to_gc)
unfolding do_gc
do_gc-Collected low s h =
    let (kept, g, e, c) =
      gc_loop-Collected (suc (length s.gc_list)) low s.gc_list h (omega arith) in
    (record s { gc_list = kept }, g, rw (e, do_gc), c, refl, refl)
