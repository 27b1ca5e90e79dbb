-- ===== src/Storage/Files/Names.antt =====
-- The names of the files of two blocks.
use cs244b_fp.Prelude.{
  ℕ, zero, suc, ◌+◌, ◌*◌, ◌/◌, ◌%◌, ◌^◌, ◌-◌, ◌<◌, ◌≡◌, refl, sym, ap, ◌∙◌, List, [], ◌∷◌, ◌++◌,
  ltb, if◌then◌else◌, ok_injective, arith,
}
use cs244b_fp.Config.{Hash}
use cs244b_fp.Utils.BigEndian.{
  big_endian, byte_at, read_unsigned_big_endian, append-big_endian, read-append_big_endian,
}
use cs244b_fp.Storage.Files.{hex_digit, array_to_str, block_suffix, block_filename}

-- The digits of `n` bytes, read back.
abbrev undigit : ℕ → ℕ
undigit c = if ltb c 97 then c - 48 else c - 87

unfoldable unhex : ℕ → List ℕ → List ℕ
unhex zero text = []
unhex (suc n) [] = []
unhex (suc n) (c ∷ []) = []
unhex (suc n) (c ∷ d ∷ text) = (undigit c * 16 + undigit d) ∷ unhex n text

undigit-hex_digit : (d : ℕ) → d < 16 → undigit (hex_digit d) ≡ d
undigit-hex_digit d small = ground (arith, small)

unhex-array_to_str :
    (n value : ℕ) (rest : List ℕ)
    → unhex n (array_to_str (big_endian n value) ++ rest) ≡ big_endian n value
unfolding unhex array_to_str
unhex-array_to_str zero value rest = refl
unhex-array_to_str (suc n) value rest =
    let b = byte_at n value in
    rw (undigit-hex_digit (b / 16) (omega arith)) (
      rw (undigit-hex_digit (b % 16) (omega arith))
        (rw (unhex-array_to_str n value rest) (ap (λ x. x ∷ big_endian n value) (omega arith))))

prefix_cancel : (xs ys zs : List ℕ) → xs ++ ys ≡ xs ++ zs → ys ≡ zs
prefix_cancel [] ys zs e = e
prefix_cancel (x ∷ xs) ys zs e = prefix_cancel xs ys zs (cc)

big_endian_injective :
    (n v w : ℕ) → v < 2 ^ (n * 8) → w < 2 ^ (n * 8) → big_endian n v ≡ big_endian n w → v ≡ w
big_endian_injective n v w hv hw e =
    let read = λ (bytes : List ℕ). read_unsigned_big_endian n (bytes ++ []) in
    ok_injective (
      sym (read-append_big_endian n v [] hv)
      ∙ ap read (append-big_endian n [] v ∙ e ∙ sym (append-big_endian n [] w))
      ∙ read-append_big_endian n w [] hw)

-- Blocks with different hashes are in different files.
pub block_filename_injective :
    (data_dir : List ℕ) (k m : Hash)
    → k < 2 ^ 256
    → m < 2 ^ 256
    → block_filename data_dir k ≡ block_filename data_dir m
    → k ≡ m
unfolding block_filename
block_filename_injective data_dir k m hk hm e =
    let same = prefix_cancel _ _ _ e in
    big_endian_injective 32 k m hk hm (
      sym (unhex-array_to_str 32 k block_suffix)
      ∙ ap (unhex 32) same
      ∙ unhex-array_to_str 32 m block_suffix)
