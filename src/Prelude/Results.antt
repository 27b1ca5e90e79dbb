-- ===== src/Prelude/Results.antt =====
-- Results of code that can throw. A constructor of `Error` stands for one `throw` of the source, or
-- for a read through a null pointer or an empty optional, which the source does not guard;
-- `never_returns` is a call that waits for ever.
use mathlib.Core.Path.{◌≡◌, refl}
use mathlib.Core.Logic.{◌⊎◌, inl, inr}
use mathlib.Core.Option.{Option, none, some}

pub data Error : Type 0 where
  null_deref out_of_fuel : Error
  duplicate_replica unknown_replica invalid_service : Error
  wrong_certificate invalid_replica_id sign_failed : Error
  body_flushed block_not_found not_in_store safety_breached : Error
  empty_gadget commit_gap uninitialized_vm woke_up_early : Error
  wrong_vote_event insert_failed : Error
  out_of_range : Error
  save_failed : Error
  never_returns : Error
  missing_highest_qc missing_metadata missing_database database_exists round_overwritten
        wrong_size :
      Error
  invalid_dbi env_not_open block_load_failed unknown_client xdr_failed : Error

pub data Result {ℓ} (T : Type ℓ) : Type ℓ where
  err : Error → Result T
  ok : T → Result T

-- A missing value is an exception.
abbrev pub or_fail {ℓ} : {T : Type ℓ} → Option T → Error → Result T
or_fail (some t) problem = ok t
or_fail none problem = err problem

-- The first exception ends the rest.
infixl 5 ◌>>=◌
abbrev pub ◌>>=◌ {ℓ κ} : {S : Type ℓ} {T : Type κ} → Result S → (S → Result T) → Result T
err problem >>= next = err problem
ok s >>= next = next s

pub ok_injective {ℓ} : {T : Type ℓ} {s t : T} → ok s ≡ ok t → s ≡ t
ok_injective e = cc

-- A chain that returns has a first part that returns.
pub first-ok {ℓ κ} :
    {S : Type ℓ} {T : Type κ} (r : Result S) (next : S → Result T) {t : T}
    → (r >>= next) ≡ ok t
    → (s : S) × (r ≡ ok s) × (next s ≡ ok t)
first-ok (err problem) next e = cc
first-ok (ok s) next e = (s, refl, e)

pub Result-cases {ℓ} :
    {T : Type ℓ} (r : Result T) → ((t : T) × (r ≡ ok t)) ⊎ ((problem : Error) × (r ≡ err problem))
Result-cases (err problem) = inr (problem, refl)
Result-cases (ok t) = inl (t, refl)

pub err_injective {ℓ} : {T : Type ℓ} {x y : Error} → ◌≡◌ {A = Result T} (err x) (err y) → x ≡ y
err_injective e = cc
