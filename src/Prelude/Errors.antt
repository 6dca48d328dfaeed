-- ===== src/Prelude/Errors.antt =====
-- A Go result with its `error`, which is the text of the error, and the early return of one.
use Prim.Native.String.{String}
use mathlib.Core.Path.{◌≡◌, refl, ap}
use mathlib.Core.Logic.{◌⊎◌, inl, inr}
use mathlib.Core.Bool.{Bool, true, false}
use mathlib.Core.Option.{Option, none, some}

pub data Result {ℓ} (A : Type ℓ) : Type ℓ where
  ok : A → Result A
  err : String → Result A

-- `if b { return errors.New(e) }`, and what follows it.
abbrev pub fail_if {ℓ} : {A : Type ℓ} → Bool → String → Result A → Result A
fail_if false e rest = rest
fail_if true e rest = err e

pub Result-cases {ℓ} :
    {A : Type ℓ} (m : Result A) → ((e : String) × (m ≡ err e)) ⊎ ((a : A) × (m ≡ ok a))
Result-cases (ok a) = inr (a, refl)
Result-cases (err e) = inl (e, refl)

pub eq_of_ok {ℓ} : {A : Type ℓ} {a b : A} → ok a ≡ ok b → a ≡ b
eq_of_ok h = cc

pub err≢ok {ℓ} : {A : Type ℓ} {a : A} {e : String} → ¬ (err e ≡ ok a)
err≢ok h = cc

-- What follows a call whose error is returned early.
abbrev pub and_then {ℓ κ} : {A : Type ℓ} {B : Type κ} → Result A → (A → Result B) → Result B
and_then (ok a) f = f a
and_then (err e) f = err e

pub and_then-ok {ℓ κ} :
    {A : Type ℓ} {B : Type κ} (m : Result A) (f : A → Result B) {b : B}
    → and_then m f ≡ ok b
    → (a : A) × (m ≡ ok a) × (f a ≡ ok b)
and_then-ok (ok a) f h = (a, refl, h)
and_then-ok (err e) f h = absurd (err≢ok h)

abbrev pub to_option {ℓ} : {A : Type ℓ} → Result A → Option A
to_option (ok a) = some a
to_option (err e) = none

pub to_option-some {ℓ} : {A : Type ℓ} (m : Result A) {a : A} → to_option m ≡ some a → m ≡ ok a
to_option-some (ok b) h = ap ok (cc)
to_option-some (err e) h = cc
