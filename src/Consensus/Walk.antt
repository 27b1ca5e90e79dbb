-- ===== src/Consensus/Walk.antt =====
-- The walks along the parent pointers.
use cs244b_fp.Prelude.{
  ℕ, zero, suc, ◌≤◌, ◌<◌, ◌≡◌, refl, inl, inr, List, [], ◌∷◌, arith, ltb, ltb→lt, Bool-cases,
  Option-cases, ok,
}
use cs244b_fp.Block.{Ptr, Heap}
use cs244b_fp.Block.Shape.{IsLinked, Line}
use cs244b_fp.Consensus.{walk_down}

-- Where a walk ends.
pub record Stop (h : Heap) (low : ℕ) (b end : Ptr) (passed : List Ptr) : Type 0 where
  pub line : Line h end passed b
  pub at_low : low ≤ (h.cell b).block_height → (h.cell end).block_height ≡ low
  pub at_start : (h.cell b).block_height ≤ low → end ≡ b

-- On a tree of blocks a walk returns: the blocks that it passed lead down to where it ends, at the
-- height that was asked for if it starts above that, and else where it starts.
pub walk_down_total :
    (fuel : ℕ) (h : Heap) (low : ℕ) (b : Ptr)
    → IsLinked h
    → (h.cell b).block_height < fuel
    → (passed : List Ptr) × (end : Ptr) × (walk_down fuel h low b ≡ ok (passed, end))
      × Stop h low b end passed
unfolding walk_down
walk_down_total zero h low b l f = absurd (omega arith)
walk_down_total (suc fuel) h low b l f = elim (Bool-cases (ltb low (h.cell b).block_height)) [
  | inr low_enough ↦ (
    [],
    b,
    rw (low_enough, walk_down),
    record { line = refl; at_low = λ le. ground arith; at_start = λ le. refl },
  )
  | inl above ↦ elim (Option-cases (h.cell b).parent_block_ptr) [
    | inl root ↦ absurd (omega (arith, ltb→lt low (h.cell b).block_height above, l.root b root))
    | inr (q, up) ↦
        let (passed, end, e, s) = walk_down_total fuel h low q l (omega (arith, l.step b q up)) in
        let over = ltb→lt low (h.cell b).block_height above in
        (
          b ∷ passed,
          end,
          rw (above, up, e, walk_down),
          record {
            line = (q, refl, up, s.line);
            at_low = λ le. s.at_low (omega (arith, l.step b q up));
            at_start = λ le. absurd (omega arith);
          },
        )
  ]
]
