-- ===== src/Utils/BigEndian.antt =====
-- utils/serialize_big_endian.h: numbers as byte strings, highest byte first. `sz` is `sizeof(T)`, at
-- most 32, so that the shifts fit `uint8_t`. Bytes are numbers below 256.
pub mod Order
use cs244b_fp.Prelude.{
  ℕ, zero, suc, ◌+◌, ◌*◌, ◌/◌, ◌%◌, ◌^◌, ◌≤◌, ◌<◌, ◌≡◌, refl, sym, ap, ◌∙◌, List, [], ◌∷◌, ◌++◌,
  length, Result, ok, err, length-append, ◌>>=◌, out_of_range, arith,
}
use cs244b_fp.Utils.Powers.{pow_two-add}
use native.Mathlib.Nat.{div-div-eq-div-mul, mod-eq_of_lt, div-one, div-eq_of_lt, div-le_self}
use mathlib.Core.List.{append_assoc, append-nil}

-- `(value >> (n * 8)) & 0xFF`.
abbrev pub byte_at : ℕ → ℕ → ℕ
byte_at n value = value / 2 ^ (n * 8) % 256

-- The loop of `append_unsigned_big_endian`, with `n` bytes left.
unfoldable pub append_unsigned_big_endian : ℕ → List ℕ → ℕ → List ℕ
append_unsigned_big_endian zero buf value = buf
append_unsigned_big_endian (suc n) buf value =
    append_unsigned_big_endian n (buf ++ byte_at n value ∷ []) value

-- `buf.at(i) = byte`.
unfoldable pub set_at : ℕ → ℕ → List ℕ → Result (List ℕ)
set_at i byte [] = err out_of_range
set_at zero byte (b ∷ buf) = ok (byte ∷ buf)
set_at (suc i) byte (b ∷ buf) = do buf' ← set_at i byte buf; ok (b ∷ buf')

-- The loop of `write_unsigned_big_endian`, with `n` bytes left and `at` the place of the next.
unfoldable pub write_unsigned_big_endian : ℕ → List ℕ → ℕ → ℕ → Result (List ℕ)
write_unsigned_big_endian zero buf value at = ok buf
write_unsigned_big_endian (suc n) buf value at = do
  buf' ← set_at at (byte_at n value) buf
  write_unsigned_big_endian n buf' value (suc at)

-- The loop of `read_unsigned_big_endian`, with `n` of `sz` bytes left. `buf[loc]` is not checked.
unfoldable pub read_bytes : ℕ → ℕ → List ℕ → ℕ → Result ℕ
read_bytes sz zero buf output = ok output
read_bytes sz (suc n) [] output = err out_of_range
read_bytes sz (suc n) (b ∷ buf) output =
    read_bytes sz n buf ((output * 256 % 2 ^ (sz * 8) + b) % 2 ^ (sz * 8))

unfoldable pub read_unsigned_big_endian : ℕ → List ℕ → Result ℕ
unfolding read_bytes
read_unsigned_big_endian sz buf = read_bytes sz sz buf 0

-- The bytes that the loops write.
abbrev pub big_endian : ℕ → ℕ → List ℕ
big_endian zero value = []
big_endian (suc n) value = byte_at n value ∷ big_endian n value

pub length-big_endian : (n value : ℕ) → length (big_endian n value) ≡ n
length-big_endian zero value = refl
length-big_endian (suc n) value = ap suc (length-big_endian n value)

pub shift_step : (n value : ℕ) → value / 2 ^ (suc n * 8) ≡ value / 2 ^ (n * 8) / 256
shift_step n value =
    ap (λ k. value / k)
      (ap (λ k. 2 ^ k) {x = suc n * 8} {y = n * 8 + 8} (omega arith) ∙ pow_two-add (n * 8) 8)
    ∙ sym (div-div-eq-div-mul value (2 ^ (n * 8)) (2 ^ 8))

pub append-big_endian :
    (n : ℕ) (buf : List ℕ) (value : ℕ)
    → append_unsigned_big_endian n buf value ≡ buf ++ big_endian n value
unfolding append_unsigned_big_endian
append-big_endian zero buf value = sym (append-nil buf)
append-big_endian (suc n) buf value =
    append-big_endian n (buf ++ byte_at n value ∷ []) value
    ∙ append_assoc buf (byte_at n value ∷ []) (big_endian n value)

-- Shifting a byte in does not wrap: what is read so far is a leading part of `value`.
next_byte :
    (value n bound : ℕ)
    → value < bound
    → (value / 2 ^ (suc n * 8) * 256 % bound + byte_at n value) % bound ≡ value / 2 ^ (n * 8)
next_byte value n bound h =
    let q = value / 2 ^ (n * 8) in
    let small : q ≤ value = div-le_self value (2 ^ (n * 8)) in
    ap (λ k. (k * 256 % bound + byte_at n value) % bound) (shift_step n value)
    ∙ ap (λ k. (k + q % 256) % bound) (mod-eq_of_lt (omega arith))
    ∙ mod-eq_of_lt (omega arith)
    ∙ omega arith

read_bytes-big_endian :
    (sz n value : ℕ) (rest : List ℕ)
    → value < 2 ^ (sz * 8)
    → read_bytes sz n (big_endian n value ++ rest) (value / 2 ^ (n * 8)) ≡ ok value
unfolding read_bytes
read_bytes-big_endian sz zero value rest h = ap ok (div-one value)
read_bytes-big_endian sz (suc n) value rest h =
    ap (read_bytes sz n (big_endian n value ++ rest)) (next_byte value n (2 ^ (sz * 8)) h)
    ∙ read_bytes-big_endian sz n value rest h

-- The bytes of a number that fits in `sz` bytes are read back as that number, whatever follows them.
pub read-append_big_endian :
    (sz value : ℕ) (rest : List ℕ)
    → value < 2 ^ (sz * 8)
    → read_unsigned_big_endian sz (append_unsigned_big_endian sz [] value ++ rest) ≡ ok value
unfolding read_unsigned_big_endian
read-append_big_endian sz value rest h =
    ap (λ bytes. read_bytes sz sz (bytes ++ rest) 0) (append-big_endian sz [] value)
    ∙ ap (read_bytes sz sz (big_endian sz value ++ rest)) (sym (div-eq_of_lt h))
    ∙ read_bytes-big_endian sz sz value rest h

set_at-append :
    (byte old : ℕ) (pre post : List ℕ)
    → set_at (length pre) byte (pre ++ old ∷ post) ≡ ok (pre ++ byte ∷ post)
unfolding set_at
set_at-append byte old [] post = refl
set_at-append byte old (p ∷ pre) post = rw (set_at-append byte old pre post) refl

-- Writing at a place with room for `sz` bytes replaces these by the bytes that appending adds, and
-- changes no other.
pub write-append_big_endian :
    (sz value : ℕ) (pre mid post : List ℕ)
    → length mid ≡ sz
    → write_unsigned_big_endian sz (pre ++ (mid ++ post)) value (length pre)
      ≡ ok (append_unsigned_big_endian sz pre value ++ post)
unfolding write_unsigned_big_endian append_unsigned_big_endian
write-append_big_endian zero value pre [] post e = refl
write-append_big_endian zero value pre (m ∷ mid) post e = absurd (omega arith)
write-append_big_endian (suc n) value pre [] post e = absurd (omega arith)
write-append_big_endian (suc n) value pre (m ∷ mid) post e =
    let byte = byte_at n value in
    let pre' = pre ++ byte ∷ [] in
    ap (λ r. r >>= (λ buf'. write_unsigned_big_endian n buf' value (suc (length pre))))
      (set_at-append byte m pre (mid ++ post))
    ∙ ap (λ buf'. write_unsigned_big_endian n buf' value (suc (length pre)))
        (sym (append_assoc pre (byte ∷ []) (mid ++ post)))
    ∙ ap (write_unsigned_big_endian n (pre' ++ (mid ++ post)) value) {x = suc (length pre)}
        {y = length pre'} (omega (arith, length-append pre (byte ∷ [])))
    ∙ write-append_big_endian n value pre' mid post (omega arith)
