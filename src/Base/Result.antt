-- ===== src/Base/Result.antt =====
-- src/error.rs: the error type, the HTTP status it is answered with, and the result monad.
-- The texts that an error carries are not modelled.
use Prim.Native.Nat.{ℕ}
use mathlib.Core.Path.{◌≡◌, refl}
use mathlib.Core.Bool.{Bool, true, false}
use mathlib.Core.Option.{Option, none, some}
use mathlib.Core.Logic.{◌⊎◌, inl, inr}

pub data Error : Type 0 where
  invalid not_found conflict unavailable database report worker : Error

-- `IntoResponse for Error`
pub status_code : Error → ℕ
status_code invalid = 400
status_code not_found = 404
status_code conflict = 409
status_code unavailable = 503
status_code worker = 503
status_code database = 500
status_code report = 500

-- `Result<T>`: an error, or the value.
pub data Result {κ} (T : Type κ) : Type κ where
  err : Error → Result T
  ok : T → Result T

-- `if c { return Err(e) }`
abbrev pub fail_if : Bool → Error → Result (Unit {0})
fail_if false _ = ok tt
fail_if true cause = err cause

-- `?` at the end of a call: the rest runs on the value only.
abbrev pub ◌>>=◌ {κ μ} : {T : Type κ} {U : Type μ} → Result T → (T → Result U) → Result U
err cause >>= rest = err cause
ok x >>= rest = rest x

abbrev pub ◌>>◌ {μ} : {U : Type μ} → Result (Unit {0}) → Result U → Result U
test >> rest = test >>= λ _. rest

infixl 5 ◌>>=◌ ◌>>◌
-- `.ok_or(e)?`
abbrev pub ok_or {ℓ} : {A : Type ℓ} → Option A → Error → Result A
ok_or (some a) e = ok a
ok_or none e = err e

pub Result-cases {ℓ} :
    {A : Type ℓ} (r : Result A) → ((a : A) × (r ≡ ok a)) ⊎ ((e : Error) × (r ≡ err e))
Result-cases (ok a) = inl (a, refl)
Result-cases (err e) = inr (e, refl)
