-- ===== src/Prelude/Maps.antt =====
-- `std::map` with numbers for keys: an association list in ascending order of its keys.
use Prim.Native.Nat.{ℕ, ◌<◌, ◌≤◌}
use mathlib.Core.Path.{◌≡◌, refl, ap}
use mathlib.Core.Logic.{◌⊎◌, inl, inr}
use mathlib.Core.Bool.{true}
use mathlib.Core.List.{List, [], ◌∷◌}
use mathlib.Core.Option.{Option, none, some}
use native.Mathlib.Omega.{arith}
use cs244b_fp.Prelude.Tests.{ltb, ◌==◌, ==_iff, if◌then◌else◌, Bool-cases, Option-cases}
use cs244b_fp.Prelude.Lists.{length}

module _ {V : Type 0} where
  abbrev pub find : ℕ → List (ℕ × V) → Option V
  find k [] = none
  find k ((j, v) ∷ m) = if j == k then some v else find k m

  -- `emplace` leaves an entry that is there.
  unfoldable pub emplace : ℕ → V → List (ℕ × V) → List (ℕ × V)
  emplace k v [] = (k, v) ∷ []
  emplace k v ((j, w) ∷ m) =
      if ltb k j then (k, v) ∷ (j, w) ∷ m else if k == j then (j, w) ∷ m else (j, w) ∷ emplace k v m

  unfoldable pub erase : ℕ → List (ℕ × V) → List (ℕ × V)
  erase k [] = []
  erase k ((j, w) ∷ m) = if j == k then m else (j, w) ∷ erase k m

  -- All keys are above `k`.
  abbrev pub Above : ℕ → List (ℕ × V) → Type 0
  Above k [] = Unit
  Above k ((j, w) ∷ m) = (k < j) × Above k m

  abbrev pub IsSorted : List (ℕ × V) → Type 0
  IsSorted [] = Unit
  IsSorted ((j, w) ∷ m) = Above j m × IsSorted m

  pub Above-mono : (j k : ℕ) (m : List (ℕ × V)) → j ≤ k → Above k m → Above j m
  Above-mono j k [] h a = tt
  Above-mono j k ((i, w) ∷ m) h a = (omega arith, Above-mono j k m h a.1)

  pub emplace-Above :
      (j k : ℕ) (v : V) (m : List (ℕ × V)) → j < k → Above j m → Above j (emplace k v m)
  unfolding emplace
  emplace-Above j k v [] h a = (h, tt)
  emplace-Above j k v ((i, w) ∷ m) h a = ground (arith, emplace-Above j k v m)

  pub emplace-IsSorted : (k : ℕ) (v : V) (m : List (ℕ × V)) → IsSorted m → IsSorted (emplace k v m)
  unfolding emplace
  emplace-IsSorted k v [] s = (tt, tt)
  emplace-IsSorted k v ((i, w) ∷ m) s =
      ground (arith, emplace-IsSorted k v m s.1, emplace-Above i k v m, Above-mono k i m)

  pub find-Above : (k : ℕ) (m : List (ℕ × V)) → Above k m → find k m ≡ none
  find-Above k [] a = refl
  find-Above k ((i, w) ∷ m) a = ground (arith, find-Above k m a.1)

  pub find-below : (j k : ℕ) (m : List (ℕ × V)) → Above k m → j ≤ k → find j m ≡ none
  find-below j k m a h = find-Above j m (Above-mono j k m h a)

  -- What `emplace` does to a lookup: a new key is bound, an old one keeps its value.
  pub find-emplace :
      (j k : ℕ) (v : V) (m : List (ℕ × V))
      → IsSorted m
      → find j (emplace k v m)
        ≡ (if k == j then elim (find k m) [ none ↦ some v | some w ↦ some w ] else find j m)
  unfolding emplace
  find-emplace j k v [] s = ground arith
  find-emplace j k v ((i, w) ∷ m) s = ground (arith, find-emplace j k v m s.1, find-below k i m s.0)

  pub length-emplace_le : (k : ℕ) (v : V) (m : List (ℕ × V)) → length m ≤ length (emplace k v m)
  unfolding emplace
  length-emplace_le k v [] = omega arith
  length-emplace_le k v ((i, w) ∷ m) = ground (arith, length-emplace_le k v m)

  -- A binding after `emplace` is an old one, or the new one.
  pub find-emplace_cases :
      (j k : ℕ) (v w : V) (m : List (ℕ × V))
      → IsSorted m
      → find j (emplace k v m) ≡ some w
      → (find j m ≡ some w) ⊎ ((w ≡ v) × (k ≡ j))
  find-emplace_cases j k v w m s e = elim (Bool-cases (k == j)) [
    | inr other ↦ inl (ground (arith, other, e, find-emplace j k v m s))
    | inl here ↦ elim (Option-cases (find k m)) [
      | inl free ↦ inr (new free here, (==_iff k j).0 here)
      | inr (u, old) ↦ inl (kept u old here)
    ]
  ]
    where
      new : find k m ≡ none → (k == j) ≡ true → w ≡ v
      new free here = ground (arith, find-emplace j k v m s, e, free, here)

      kept : (u : V) → find k m ≡ some u → (k == j) ≡ true → find j m ≡ some w
      kept u old here =
          ground (arith, find-emplace j k v m s, e, old, here, ap (λ i. find i m) {x = k} {y = j})

  pub find-emplace_keeps :
      (j k : ℕ) (v w : V) (m : List (ℕ × V))
      → IsSorted m
      → find j m ≡ some w
      → find j (emplace k v m) ≡ some w
  find-emplace_keeps j k v w m s e =
      ground (arith, find-emplace j k v m s, e, ap (λ i. find i m) {x = k} {y = j})

  pub erase-Above : (j k : ℕ) (m : List (ℕ × V)) → Above j m → Above j (erase k m)
  unfolding erase
  erase-Above j k [] a = tt
  erase-Above j k ((i, w) ∷ m) a = ground (arith, erase-Above j k m)

  pub erase-IsSorted : (k : ℕ) (m : List (ℕ × V)) → IsSorted m → IsSorted (erase k m)
  unfolding erase
  erase-IsSorted k [] s = tt
  erase-IsSorted k ((i, w) ∷ m) s = ground (arith, erase-IsSorted k m s.1, erase-Above i k m s.0)

  -- What is erased is gone, and nothing else.
  pub find-erase :
      (j k : ℕ) (m : List (ℕ × V))
      → IsSorted m
      → find j (erase k m) ≡ (if j == k then none else find j m)
  unfolding erase
  find-erase j k [] s = ground arith
  find-erase j k ((i, w) ∷ m) s = ground (arith, find-erase j k m s.1, find-Above i m s.0)
