-- ===== src/Base/Results.antt =====
-- A value or an error, as the source's result structures hold one of the two.
use mathlib.Core.Path.{◌≡◌, refl}
use mathlib.Core.Logic.{◌⊎◌, inl, inr}
use mathlib.Core.Bool.{Bool, true, false}
use mathlib.Core.Option.{Option, none, some}
use native.Mathlib.Omega.{arith}

pub data Result {ℓ κ} (E : Type ℓ) (A : Type κ) : Type (ℓ ⊔ κ) where
  ok : A → Result E A
  err : E → Result E A

module _ {ℓ} {E : Type ℓ} where
  -- An optional value, or the error that its absence stands for.
  abbrev pub or_fail {κ} : {A : Type κ} → Option A → E → Result E A
  or_fail (some value) error = ok value
  or_fail none error = err error

  -- `if (!test) return error;`
  abbrev pub guard : Bool → E → Result E (Unit {0})
  guard false error = err error
  guard true error = ok tt

  infixl 5 ◌>>=◌ ◌>>◌
  abbrev pub ◌>>=◌ {κ μ} : {A : Type κ} {B : Type μ} → Result E A → (A → Result E B) → Result E B
  err error >>= next = err error
  ok value >>= next = next value

  abbrev pub ◌>>◌ {κ} : {B : Type κ} → Result E (Unit {0}) → Result E B → Result E B
  first >> second = first >>= λ _. second

  pub guard-eq-ok : (test : Bool) (error : E) {u : Unit {0}} → guard test error ≡ ok u → test ≡ true
  guard-eq-ok false error h = cc
  guard-eq-ok true error h = refl

  pub or_fail-eq-ok {κ} :
      {A : Type κ} (o : Option A) (e : E) {a : A} → or_fail o e ≡ ok a → o ≡ some a
  or_fail-eq-ok none e h = cc
  or_fail-eq-ok (some a) e h = ground arith

  -- What a step that led to a value gave.
  pub >>=-eq-ok {κ μ} :
      {A : Type κ} {B : Type μ} (first : Result E A) (next : A → Result E B) {last : B}
      → (first >>= next) ≡ ok last
      → (value : A) × (first ≡ ok value) × (next value ≡ ok last)
  >>=-eq-ok (err error) next h = cc
  >>=-eq-ok (ok value) next h = (value, refl, h)

pub Result-cases {ℓ κ} :
    {E : Type ℓ} {A : Type κ} (r : Result E A)
    → ((error : E) × (r ≡ err error)) ⊎ ((value : A) × (r ≡ ok value))
Result-cases (err error) = inl (error, refl)
Result-cases (ok value) = inr (value, refl)
