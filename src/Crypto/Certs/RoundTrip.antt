-- ===== src/Crypto/Certs/RoundTrip.antt =====
-- A certificate comes back from its wire form.
use cs244b_fp.Prelude.{
  ℕ, suc, ◌+◌, ◌*◌, ◌^◌, ◌≤◌, ◌<◌, ◌≡◌, refl, sym, ap, ◌∙◌, List, [], ◌∷◌, ◌++◌, arith, length, All,
  All-append, ==_refl,
}
use mathlib.Core.List.{append_assoc, append-nil}
use native.Mathlib.Nat.{add_assoc, add-zero, zero-add}
use cs244b_fp.Prelude.Maps.{Above, IsSorted, emplace}
use cs244b_fp.Config.{ReplicaId, Signature}
use cs244b_fp.Utils.Powers.{
  pow_two-suc, pow_two-pos, pow_two_mono, Multiple, Multiple-pow_two, Multiple-add,
}
use cs244b_fp.Utils.BitVector.{BitVector, empty_bv, popcount}
use cs244b_fp.Utils.BitVector
use cs244b_fp.Utils.BitVector.Digits.{
  add_above, lowest_at, popcount-lowest_at, popcount-zero, pop-lowest_at,
}
use cs244b_fp.Crypto.Certs.{
  Sigs, QuorumCertificate, id_bits, parse_loop, parse_qc, serialize_loop, serialize,
}

abbrev values : Sigs → List Signature
values [] = []
values ((_, sig) ∷ m) = sig ∷ values m

-- The bitmap of the ids of a map.
abbrev pub mask : Sigs → ℕ
mask [] = 0
mask ((r, _) ∷ m) = 2 ^ r + mask m

abbrev pub Within : Sigs → Type 0
Within = All (λ e. e.0 < id_bits)

-- The ids above `r` make a multiple of 2 ^ (r + 1).
mask-Multiple : (r : ℕ) (m : Sigs) → Above r m → Multiple (suc r) (mask m)
mask-Multiple r [] a = (0, omega arith)
mask-Multiple r ((j, s) ∷ m) a =
    Multiple-add (suc r) (2 ^ j) (mask m) (Multiple-pow_two (suc r) j a.0) (mask-Multiple r m a.1)

still-Above : (n r : ℕ) (m : Sigs) → n < 2 ^ r → Above r m → All (λ e. n + 2 ^ r < 2 ^ e.0) m
still-Above n r [] h a = tt
still-Above n r ((j, s) ∷ m) h a =
    (omega (arith, pow_two-suc r, pow_two_mono (suc r) j a.0), still-Above n r m h a.1)

-- Serialising ascending ids, all above those set already, adds up their powers.
serialize_loop-mask :
    (m : Sigs) (v : BitVector) (out : List Signature)
    → IsSorted m
    → Within m
    → All (λ e. v.bv < 2 ^ e.0) m
    → serialize_loop m v out ≡ (record { bv = v.bv + mask m }, out ++ values m)
unfolding serialize_loop
serialize_loop-mask [] v out s w b = simp (append-nil, add-zero)
serialize_loop-mask ((r, sig) ∷ m) v out s w b = rw (add_above id_bits r v w.0 b.0) (
    serialize_loop-mask m (record { bv = v.bv + 2 ^ r }) (out ++ sig ∷ []) s.1 w.1
      (still-Above v.bv r m b.0 s.0)
    ∙ simp (append_assoc, add_assoc))

-- The least id of a sorted map is the lowest digit of its mask.
mask-lowest_at :
    (r : ReplicaId) (m : Sigs)
    → Above r m
    → (c : ℕ) × (2 ^ r + mask m ≡ lowest_at r c) × (mask m ≡ c * 2 ^ suc r)
mask-lowest_at r m a = let (c, e) = mask-Multiple r m a in (c, rw e, e)

popcount-mask : (m : Sigs) → IsSorted m → Within m → popcount id_bits (mask m) ≡ length m
popcount-mask [] s w = popcount-zero id_bits
popcount-mask ((r, sig) ∷ m) s w =
    let (c, e, f) = mask-lowest_at r m s.0 in
    rw (e, popcount-lowest_at id_bits r c w.0, ← f, popcount-mask m s.1 w.1) (omega arith)

mask-bound-Above :
    (j : ℕ) (m : Sigs)
    → j < id_bits
    → Above j m
    → Within m
    → IsSorted m
    → mask m + 2 ^ suc j ≤ 2 ^ id_bits
mask-bound-Above j [] h a w s = omega (arith, pow_two_mono (suc j) id_bits h)
mask-bound-Above j ((k, sig) ∷ m) h a w s =
    omega (arith, mask-bound-Above k m w.0 s.0 w.1 s.1, pow_two-suc k, pow_two_mono (suc j) k a.0)

mask-bound : (m : Sigs) → IsSorted m → Within m → mask m < 2 ^ id_bits
mask-bound [] s w = omega arith
mask-bound ((r, sig) ∷ m) s w =
    omega (arith, mask-bound-Above r m w.0 s.0 w.1 s.1, pow_two-suc r, pow_two-pos r)

-- Every key of the map is below `r`.
abbrev Below : ℕ → Sigs → Type 0
Below r = All (λ e. e.0 < r)

emplace_last :
    (r : ReplicaId) (sig : Signature) (m : Sigs) → Below r m → emplace r sig m ≡ m ++ (r, sig) ∷ []
unfolding emplace
emplace_last r sig [] b = refl
emplace_last r sig ((j, t) ∷ m) b = ground (arith, emplace_last r sig m b.1)

Below-append :
    (r : ReplicaId) (sig : Signature) (acc m : Sigs)
    → Above r m
    → All (λ e. Below e.0 acc) m
    → All (λ e. Below e.0 (acc ++ (r, sig) ∷ [])) m
Below-append r sig acc [] a b = tt
Below-append r sig acc ((j, t) ∷ m) a b =
    (All-append (λ e. e.0 < j) acc ((r, sig) ∷ []) b.0 (a.0, tt), Below-append r sig acc m a.1 b.1)

parse_loop-mask :
    (m acc : Sigs)
    → IsSorted m
    → Within m
    → mask m < 2 ^ id_bits
    → All (λ e. Below e.0 acc) m
    → parse_loop (values m) (record { bv = mask m }) acc ≡ acc ++ m
unfolding parse_loop
parse_loop-mask [] acc s w f b = sym (append-nil acc)
parse_loop-mask ((r, sig) ∷ m) acc s w f b =
    let (c, e, g) = mask-lowest_at r m s.0 in
    rw
      (
        e,
        parse_loop,
        pop-lowest_at id_bits r c w.0 (omega arith) (omega (arith, e)),
        ← g,
        emplace_last r sig acc b.0,
      )
      (parse_loop-mask m (acc ++ (r, sig) ∷ []) s.1 w.1 (omega arith)
          (Below-append r sig acc m s.0 b.1)
        ∙ append_assoc acc ((r, sig) ∷ []) m)

nothing-Below : (m : Sigs) → All (λ e. Below e.0 []) m
nothing-Below [] = tt
nothing-Below (e ∷ m) = (tt, nothing-Below m)

nothing_set : (m : Sigs) → All (λ e. 0 < 2 ^ e.0) m
nothing_set [] = tt
nothing_set ((r, sig) ∷ m) = (pow_two-pos r, nothing_set m)

length-values : (m : Sigs) → length (values m) ≡ length m
length-values [] = refl
length-values (e ∷ m) = ap suc (length-values m)

-- A certificate over replica ids below 32, in the order of a map, is what parsing its wire form
-- gives back: the same object hash, the same ids with the same signatures.
pub parse_qc-serialize :
    (qc : QuorumCertificate) → IsSorted qc.sigs → Within qc.sigs → parse_qc (serialize qc) ≡ qc
unfolding parse_qc serialize empty_bv BitVector.get BitVector.size
parse_qc-serialize qc s w =
    let e = serialize_loop-mask qc.sigs empty_bv [] s w (nothing_set qc.sigs) in
    rw (
      e,
      zero-add,
      popcount-mask qc.sigs s w,
      length-values qc.sigs,
      ==_refl (length qc.sigs),
      parse_loop-mask qc.sigs [] s w (mask-bound qc.sigs s w) (nothing-Below qc.sigs),
    )
