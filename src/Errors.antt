-- ===== src/Errors.antt =====
-- lytecache-go/errors.go: the sentinel errors as one type, and the results of fallible code.
use lytecache.Common.{Bool, true, false, ◌≡◌, refl, ◌⊎◌, inl, inr}

-- `database` is any error of the database driver; `malformed` an error of strconv that is
-- returned as it is.
pub data Error : Type 0 where
  cache_full serialization schema_version lock_timeout not_numeric overflow : Error
  gap subscription_closed invalid_argument database malformed : Error

pub data Result {ℓ} (A : Type ℓ) : Type ℓ where
  ok : A → Result A
  err : Error → Result A

abbrev pub is_ok {ℓ} : {A : Type ℓ} → Result A → Bool
is_ok (ok a) = true
is_ok (err e) = false

pub Result-cases {ℓ} :
    {A : Type ℓ} (r : Result A) → ((a : A) × (r ≡ ok a)) ⊎ ((e : Error) × (r ≡ err e))
Result-cases (ok a) = inl (a, refl)
Result-cases (err e) = inr (e, refl)
