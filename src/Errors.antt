-- ===== src/Errors.antt =====
-- src/webhook_platform/shared/domain/errors.py: what an operation raises.
use webhook_delivery_platfor.Base.{
  ℕ, String, Bool, true, false, Option, none, ◌≡◌, ◌⊎◌, inl, inr, refl,
}

-- AppError. Of its `details` the program sets only "retry_after".
pub record AppError : Type 0 where
  pub code : String
  pub message : String
  pub status_code : ℕ
  pub retry_after : Option ℕ

-- What can be raised: an AppError, a ValueError, IndexError or OverflowError of Python, or the IntegrityError of
-- the database for a constraint that a row breaks.
pub data Exception : Type 0 where
  app : AppError → Exception
  value_error index_error overflow_error integrity_error : Exception

abbrev pub app_error : String → String → ℕ → Exception
app_error code message status_code =
    app (record { code = code; message = message; status_code = status_code; retry_after = none })

-- NotFoundError
abbrev pub not_found_error : Exception
not_found_error = app_error "resource_not_found" "Resource not found" 404

-- ForbiddenError
abbrev pub forbidden_error : Exception
forbidden_error = app_error "forbidden" "Insufficient permissions" 403

-- A computation that returns or raises.
pub data Result {ℓ} (A : Type ℓ) : Type ℓ where
  ok : A → Result A
  err : Exception → Result A

abbrev pub is_ok {ℓ} : {A : Type ℓ} → Result A → Bool
is_ok (ok value) = true
is_ok (err raised) = false

pub is_ok-some {ℓ} : {A : Type ℓ} (m : Result A) → is_ok m ≡ true → (a : A) × (m ≡ ok a)
is_ok-some (ok value) h = (value, refl)
is_ok-some (err raised) h = cc

pub Result-cases {ℓ} :
    {A : Type ℓ} (m : Result A) → ((a : A) × (m ≡ ok a)) ⊎ ((x : Exception) × (m ≡ err x))
Result-cases (ok a) = inl (a, refl)
Result-cases (err x) = inr (x, refl)

pub ok-injective {ℓ} : {A : Type ℓ} {a b : A} → ok a ≡ ok b → a ≡ b
ok-injective h = cc

-- One statement after another: an exception ends the operation.
infixl 5 ◌>>=◌
abbrev pub ◌>>=◌ {ℓ ℓ'} :
    {Value : Type ℓ} {Next : Type ℓ'} → Result Value → (Value → Result Next) → Result Next
err raised >>= rest = err raised
ok value >>= rest = rest value

-- A statement without a value, which only checks.
infixl 5 ◌>>◌
abbrev pub ◌>>◌ {ℓ} : {Next : Type ℓ} → Result (Unit {0}) → Result Next → Result Next
check >> rest = check >>= λ done. rest

-- An operation that returns has had a first statement that returned.
pub >>=-eq-ok {ℓ ℓ'} :
    {Value : Type ℓ} {Next : Type ℓ'} (m : Result Value) (rest : Value → Result Next)
    {result : Next}
    → (m >>= rest) ≡ ok result
    → (value : Value) × (m ≡ ok value) × (rest value ≡ ok result)
>>=-eq-ok (err raised) rest h = cc
>>=-eq-ok (ok value) rest h = (value, refl, h)
