-- ===== src/Base/Results.antt =====
-- The error values of `internal/model/errors.go` and `internal/store/store.go`, and results.
use mathlib.Core.Path.{◌≡◌, refl}
use mathlib.Core.Logic.{◌⊎◌, inl, inr}
use mathlib.Core.Bool.{Bool, true, false}
use adaptive_api_routing_gat.Base.Texts.{Text}

pub data Error : Type 0 where
  err_not_found err_conflict : Error
  validation_error : (field message : Text) → Error

-- What a method that returns a value and an error answers: one of the two.
pub data Result {ℓ} (A : Type ℓ) : Type ℓ where
  err : Error → Result A
  ok : (value : A) → Result A

infixl 5 ◌>>◌ ◌>>=◌
-- `if err != nil { return err }`, and what follows for the value.
abbrev pub ◌>>=◌ {κ ℓ} : {B : Type κ} {A : Type ℓ} → Result A → (A → Result B) → Result B
result >>= next = elim result [ err e ↦ err e | ok value ↦ next value ]

abbrev pub ◌>>◌ {κ} : {B : Type κ} → Result (Unit {0}) → Result B → Result B
checked >> next = checked >>= λ _. next

-- `if bad { return e }`
abbrev pub refuse_if : Bool → Error → Result (Unit {0})
refuse_if true e = err e
refuse_if false e = ok tt

pub Result-cases {ℓ} :
    {A : Type ℓ} (r : Result A) → ((a : A) × (r ≡ ok a)) ⊎ ((e : Error) × (r ≡ err e))
Result-cases (ok a) = inl (a, refl)
Result-cases (err e) = inr (e, refl)

pub ok-injective {ℓ} : {A : Type ℓ} {a b : A} → ok a ≡ ok b → a ≡ b
ok-injective e = cc

pub err-ne-ok {ℓ} : {A : Type ℓ} {e : Error} {a : A} → err e ≡ ok a → ⊥
err-ne-ok p = cc
