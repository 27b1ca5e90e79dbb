-- ===== src/Utils/BitVector.antt =====
-- utils/bitvector.h: `BitVector<uint_type>` over an unsigned type of `w` bits, and the wrapped
-- compiler builtins of `BVManipFns`. Locations are `uint8_t`.
pub mod Digits
use Prim.Native.Nat.{bit_and, bit_or}
use cs244b_fp.Prelude.{
  ℕ, zero, suc, ◌+◌, ◌-◌, ◌*◌, ◌/◌, ◌%◌, ◌^◌, ◌≡◌, Bool, not, ◌==◌, if◌then◌else◌,
}

pub record BitVector : Type 0 where
  pub bv : ℕ

-- `__builtin_ffs`: one plus the place of the lowest set bit, 0 if none of the `w` bits is set.
unfoldable pub ffs : ℕ → ℕ → ℕ
ffs zero b = 0
ffs (suc w) b = let r = ffs w (b / 2) in if b % 2 == 1 then 1 else if r == 0 then 0 else r + 1

-- `__builtin_popcount` over `w` bits.
unfoldable pub popcount : ℕ → ℕ → ℕ
popcount zero b = 0
popcount (suc w) b = b % 2 + popcount w (b / 2)

unfoldable pub empty_bv : BitVector
empty_bv = record { bv = 0 }

unfoldable pub empty : BitVector → Bool
empty v = v.bv == 0

unfoldable pub clear : BitVector → BitVector
clear v = record v { bv = 0 }

unfoldable pub get : BitVector → ℕ
get v = v.bv

module _ (w : ℕ) where
  -- `ffs(bv) - 1` as a `uint8_t`: 255 if no bit is set.
  unfoldable pub get_lowest : ℕ → ℕ
  get_lowest b = (ffs w b + 255) % 256

  -- `static_cast<uint_type>(1) << loc`, for a location within the type.
  abbrev pub one_at : ℕ → ℕ
  one_at loc = 2 ^ loc % 2 ^ w

  unfoldable pub add : ℕ → BitVector → BitVector
  add loc v = record { bv = bit_or v.bv (one_at loc) }

  unfoldable pub pop : BitVector → ℕ × BitVector
  pop v = let loc = get_lowest v.bv in (loc, record { bv = (v.bv + 2 ^ w - one_at loc) % 2 ^ w })

  unfoldable pub erase : ℕ → BitVector → BitVector
  erase loc v = record { bv = bit_and v.bv (2 ^ w - 1 - one_at loc) }

  unfoldable pub lowest : BitVector → ℕ
  lowest v = get_lowest v.bv

  unfoldable pub size : BitVector → ℕ
  size v = popcount w v.bv

  unfoldable pub contains : ℕ → BitVector → Bool
  contains loc v = not (bit_and (one_at loc) v.bv == 0)

  unfoldable pub drop_lt : ℕ → BitVector → BitVector
  drop_lt lowest_remaining v = record {
    bv = bit_and ((2 ^ w - 1) * 2 ^ lowest_remaining % 2 ^ w) v.bv;
  }
