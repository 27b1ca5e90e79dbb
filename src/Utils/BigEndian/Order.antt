-- ===== src/Utils/BigEndian/Order.antt =====
-- The order of byte strings and the order of the numbers that they stand for.
use native.Mathlib.Nat.{div-one, div-lt_iff_lt-mul, div-mul-le_self, div-eq_of_lt}
use cs244b_fp.Utils.Powers.{pow_two-pos}
use cs244b_fp.Prelude.{
  ℕ, zero, suc, ◌*◌, ◌/◌, ◌^◌, ◌<◌, ◌≡◌, refl, sym, ◌∙◌, ◌||◌, Bool, true, false, List, [], ◌∷◌,
  ltb, ◌==◌, if◌then◌else◌, arith,
}
use cs244b_fp.Utils.BigEndian.{
  big_endian, append_unsigned_big_endian, append-big_endian, shift_step,
}

-- Byte strings compare by their first difference; a shorter string is less than its extensions.
abbrev pub lex_ltb : List ℕ → List ℕ → Bool
lex_ltb [] [] = false
lex_ltb [] (y ∷ ys) = true
lex_ltb (x ∷ xs) [] = false
lex_ltb (x ∷ xs) (y ∷ ys) = if x == y then lex_ltb xs ys else ltb x y

lt_of_quotient : (v w n : ℕ) → v / 2 ^ n < w / 2 ^ n → v < w
lt_of_quotient v w n h =
    let bound : v < w / 2 ^ n * 2 ^ n = (div-lt_iff_lt-mul (pow_two-pos n)).0 h in
    omega (arith, bound, div-mul-le_self w (2 ^ n))

big_endian-lex :
    (n v w : ℕ)
    → v / 2 ^ (n * 8) ≡ w / 2 ^ (n * 8)
    → lex_ltb (big_endian n v) (big_endian n w) ≡ ltb v w
big_endian-lex zero v w e =
    let same : v ≡ w = sym (div-one v) ∙ e ∙ div-one w in ground (arith, same)
big_endian-lex (suc n) v w e =
    let q = v / 2 ^ (n * 8) in
    let r = w / 2 ^ (n * 8) in
    let high : q / 256 ≡ r / 256 = sym (shift_step n v) ∙ e ∙ shift_step n w in
    ground
      (arith, high, big_endian-lex n v w, lt_of_quotient v w (n * 8), lt_of_quotient w v (n * 8))

-- Numbers that fit in `n` bytes have their bytes in the order of the numbers.
pub append_big_endian-lex :
    (n v w : ℕ)
    → v < 2 ^ (n * 8)
    → w < 2 ^ (n * 8)
    → lex_ltb (append_unsigned_big_endian n [] v) (append_unsigned_big_endian n [] w) ≡ ltb v w
append_big_endian-lex n v w hv hw =
    rw (append-big_endian n [] v) (
      rw (append-big_endian n [] w)
        (big_endian-lex n v w (div-eq_of_lt hv ∙ sym (div-eq_of_lt hw))))

pub lex_ltb_refl : (xs : List ℕ) → lex_ltb xs xs ≡ false
lex_ltb_refl [] = refl
lex_ltb_refl (x ∷ xs) = ground (arith, lex_ltb_refl xs)

-- Keys that differ are ordered.
pub lex_ltb_total : (xs ys : List ℕ) → lex_ltb xs ys || lex_ltb ys xs ≡ false → xs ≡ ys
lex_ltb_total [] [] e = refl
lex_ltb_total [] (y ∷ ys) e = cc
lex_ltb_total (x ∷ xs) [] e = cc
lex_ltb_total (x ∷ xs) (y ∷ ys) e =
    let same : x ≡ y = ground arith in
    let tails : xs ≡ ys = lex_ltb_total xs ys (ground arith) in cc

pub lex_ltb_trans :
    (xs ys zs : List ℕ) → lex_ltb xs ys ≡ true → lex_ltb ys zs ≡ true → lex_ltb xs zs ≡ true
lex_ltb_trans [] [] zs e f = cc
lex_ltb_trans (x ∷ xs) [] zs e f = cc
lex_ltb_trans [] (y ∷ ys) [] e f = f
lex_ltb_trans [] (y ∷ ys) (z ∷ zs) e f = refl
lex_ltb_trans (x ∷ xs) (y ∷ ys) [] e f = f
lex_ltb_trans (x ∷ xs) (y ∷ ys) (z ∷ zs) e f = ground (arith, lex_ltb_trans xs ys zs)
