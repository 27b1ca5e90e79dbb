-- ===== src/Utils/Powers.antt =====
-- Powers of two, and `bit_or` of a number with a power of two above it.
use Prim.Native.Nat.{bit_or, digits, bit_or-bitwise, max}
use native.Mathlib.Nat.{pow-suc, mul_assoc}
use cs244b_fp.Prelude.{
  ℕ, zero, suc, ◌+◌, ◌-◌, ◌*◌, ◌/◌, ◌%◌, ◌^◌, ◌≤◌, ◌<◌, ◌≡◌, refl, sym, ap, ◌∙◌, arith,
}

pub pow_two-suc : (r : ℕ) → 2 ^ suc r ≡ 2 * 2 ^ r
pow_two-suc r = omega (arith, pow-suc 2 r)

pub pow_two-pos : (r : ℕ) → 1 ≤ 2 ^ r
pow_two-pos zero = omega arith
pow_two-pos (suc r) = omega (arith, pow_two-suc r, pow_two-pos r)

pub pow_two_mono : (a b : ℕ) → a ≤ b → 2 ^ a ≤ 2 ^ b
pow_two_mono a zero h = let e : a ≡ 0 = omega arith in rw e (omega arith)
pow_two_mono zero (suc b) h = pow_two-pos (suc b)
pow_two_mono (suc a) (suc b) h =
    omega (arith, pow_two-suc a, pow_two-suc b, pow_two_mono a b (omega arith))

pow_two_cong : (m n : ℕ) → m ≡ n → 2 ^ m ≡ 2 ^ n
pow_two_cong m n e = ap (λ (k : ℕ). 2 ^ k) e

pub pow_two-add : (d r : ℕ) → 2 ^ (d + r) ≡ 2 ^ d * 2 ^ r
pow_two-add zero r = omega (arith, pow_two_cong (0 + r) r (omega arith))
pow_two-add (suc d) r =
    pow_two_cong (suc d + r) (suc (d + r)) (omega arith)
    ∙ pow_two-suc (d + r)
    ∙ ap (λ (n : ℕ). 2 * n) (pow_two-add d r)
    ∙ sym (mul_assoc 2 (2 ^ d) (2 ^ r))
    ∙ ap (λ (n : ℕ). n * 2 ^ r) (sym (pow_two-suc d))

-- `n` is a multiple of 2 ^ r.
abbrev pub Multiple : ℕ → ℕ → Type 0
Multiple r n = (c : ℕ) × (n ≡ c * 2 ^ r)

pub Multiple-pow_two : (r s : ℕ) → r ≤ s → Multiple r (2 ^ s)
Multiple-pow_two r s h =
    (2 ^ (s - r), pow_two_cong s (s - r + r) (omega arith) ∙ pow_two-add (s - r) r)

pub Multiple-add : (r m n : ℕ) → Multiple r m → Multiple r n → Multiple r (m + n)
Multiple-add r m n (c, e) (d, f) = (c + d, omega (arith, e, f))

abbrev or_digits : ℕ → ℕ → ℕ → ℕ
or_digits n a b = digits (λ b. b) max n a b

or_digits_fuel : (n m a b : ℕ) → a ≤ n → a ≤ m → or_digits n a b ≡ or_digits m a b
or_digits_fuel zero zero a b p q = refl
or_digits_fuel zero (suc m) zero b p q = refl
or_digits_fuel zero (suc m) (suc a) b p q = absurd (omega arith)
or_digits_fuel (suc n) zero zero b p q = refl
or_digits_fuel (suc n) zero (suc a) b p q = absurd (omega arith)
or_digits_fuel (suc n) (suc m) zero b p q = refl
or_digits_fuel (suc n) (suc m) (suc a) b p q =
    omega (arith, or_digits_fuel n m (suc a / 2) (b / 2) (omega arith) (omega arith))

zero-bit_or : (b : ℕ) → bit_or 0 b ≡ b
zero-bit_or b = bit_or-bitwise 0 b

bit_or_step : (a b : ℕ) → bit_or a b ≡ bit_or (a / 2) (b / 2) * 2 + max (a % 2) (b % 2)
bit_or_step zero b = omega (arith, zero-bit_or b, zero-bit_or (b / 2))
bit_or_step (suc a) b = omega (
  arith,
  bit_or-bitwise (suc a) b,
  bit_or-bitwise (suc a / 2) (b / 2),
  or_digits_fuel a (suc a / 2) (suc a / 2) (b / 2) (omega arith) (omega arith),
)

-- Setting a digit above all that are set adds its power.
pub bit_or-pow_two : (r a : ℕ) → a < 2 ^ r → bit_or a (2 ^ r) ≡ a + 2 ^ r
bit_or-pow_two zero a h = let e : a ≡ 0 = omega arith in rw e refl
bit_or-pow_two (suc r) a h =
    let e : 2 ^ suc r / 2 ≡ 2 ^ r = omega (arith, pow_two-suc r) in
    omega (
      arith,
      pow_two-suc r,
      bit_or_step a (2 ^ suc r),
      ap (bit_or (a / 2)) e,
      bit_or-pow_two r (a / 2) (omega (arith, pow_two-suc r)),
    )
