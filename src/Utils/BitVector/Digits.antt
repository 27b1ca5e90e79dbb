-- ===== src/Utils/BitVector/Digits.antt =====
-- The digits that `add` sets and `pop` takes away, lowest first.
use cs244b_fp.Prelude.{ℕ, zero, suc, ◌+◌, ◌-◌, ◌*◌, ◌/◌, ◌%◌, ◌^◌, ◌≤◌, ◌<◌, ◌≡◌, refl, ap, arith}
use cs244b_fp.Utils.Powers.{pow_two-suc, pow_two-pos, pow_two_mono, bit_or-pow_two}
use cs244b_fp.Utils.BitVector.{BitVector, ffs, popcount, get_lowest, one_at, add, pop}

pub pow_two_fits : (w loc : ℕ) → loc < w → 2 ^ loc + 2 ^ loc ≤ 2 ^ w
pow_two_fits w loc h = omega (arith, pow_two-suc loc, pow_two_mono (suc loc) w h)

pub one_at-pow_two : (w loc : ℕ) → loc < w → one_at w loc ≡ 2 ^ loc
one_at-pow_two w loc h = grind (arith, pow_two_fits w loc h, pow_two-pos loc)

-- Above every digit that is set, `add` adds the power of the location.
pub add_above :
    (w loc : ℕ) (v : BitVector)
    → loc < w
    → v.bv < 2 ^ loc
    → add w loc v ≡ record { bv = v.bv + 2 ^ loc }
unfolding add
add_above w loc v h below = rw (one_at-pow_two w loc h, bit_or-pow_two loc v.bv below) refl

-- A number whose lowest digit set is the one at `loc`.
abbrev pub lowest_at : ℕ → ℕ → ℕ
lowest_at loc c = 2 ^ loc + c * 2 ^ suc loc

double_lowest_at : (loc c : ℕ) → lowest_at (suc loc) c ≡ 2 * lowest_at loc c
double_lowest_at loc c =
    omega (arith, pow_two-suc loc, ap (λ (t : ℕ). c * t) (pow_two-suc (suc loc)))

ffs-lowest_at : (w loc c : ℕ) → loc < w → ffs w (lowest_at loc c) ≡ suc loc
unfolding ffs
ffs-lowest_at zero loc c h = absurd (omega arith)
ffs-lowest_at (suc w) zero c h = ground (arith, pow_two-suc 0)
ffs-lowest_at (suc w) (suc loc) c h = rw (double_lowest_at loc c) (
    let half : 2 * lowest_at loc c / 2 ≡ lowest_at loc c = omega arith in
    let even : 2 * lowest_at loc c % 2 ≡ 0 = omega arith in
    rw (half, even, ffs-lowest_at w loc c (omega arith)) (ground arith))

pub popcount-lowest_at :
    (w loc c : ℕ) → loc < w → popcount w (lowest_at loc c) ≡ 1 + popcount w (c * 2 ^ suc loc)
unfolding popcount
popcount-lowest_at zero loc c h = absurd (omega arith)
popcount-lowest_at (suc w) zero c h =
    let odd : lowest_at 0 c / 2 ≡ c = omega arith in
    let even : c * 2 ^ 1 / 2 ≡ c = omega arith in rw (odd, even) (omega arith)
popcount-lowest_at (suc w) (suc loc) c h =
    let rest : c * 2 ^ suc (suc loc) ≡ 2 * (c * 2 ^ suc loc) =
      omega (arith, ap (λ (t : ℕ). c * t) (pow_two-suc (suc loc))) in
    let half : 2 * lowest_at loc c / 2 ≡ lowest_at loc c = omega arith in
    let half' : 2 * (c * 2 ^ suc loc) / 2 ≡ c * 2 ^ suc loc = omega arith in
    rw (double_lowest_at loc c, rest, half, half')
      (omega (arith, popcount-lowest_at w loc c (omega arith)))

pub popcount-zero : (w : ℕ) → popcount w 0 ≡ 0
unfolding popcount
popcount-zero zero = refl
popcount-zero (suc w) = omega (arith, popcount-zero w)

mod_wrap : (x n : ℕ) → x < n → (x + n) % n ≡ x
mod_wrap x n h = grind arith

-- `pop` takes the lowest digit away.
pub pop-lowest_at :
    (w loc c : ℕ)
    → loc < w
    → w ≤ 255
    → lowest_at loc c < 2 ^ w
    → pop w (record { bv = lowest_at loc c }) ≡ (loc, record { bv = c * 2 ^ suc loc })
unfolding pop get_lowest
pop-lowest_at w loc c h small fits =
    let place : (suc loc + 255) % 256 ≡ loc = omega arith in
    let fits' : 2 ^ loc ≤ 2 ^ w = omega (arith, pow_two_fits w loc h) in
    let rest : lowest_at loc c + 2 ^ w - 2 ^ loc ≡ c * 2 ^ suc loc + 2 ^ w = omega arith in
    rw (
      ffs-lowest_at w loc c h,
      place,
      one_at-pow_two w loc h,
      rest,
      mod_wrap (c * 2 ^ suc loc) (2 ^ w) (omega (arith, pow_two-pos loc)),
    )
