-- ===== src/Prelude/Errors.antt =====
-- Results of fallible calls, over the error type of a component, and their `do` notation.
use mathlib.Core.Path.{◌≡◌, refl}
use mathlib.Core.Logic.{◌⊎◌, inl, inr}
use mathlib.Core.Bool.{Bool, true, false}
use mathlib.Core.Option.{Option, none, some}

pub data Result {ℓ κ} (E : Type κ) (A : Type ℓ) : Type (ℓ ⊔ κ) where
  ok : A → Result E A
  err : E → Result E A

module _ {κ} {E : Type κ} where
  infixl 5 ◌>>=◌
  abbrev pub ◌>>=◌ {ℓ ι} :
      {A : Type ℓ} {B : Type ι} (m : Result E A) → (A → Result E B) → Result E B
  err e >>= k = err e
  ok a >>= k = k a

  -- The code's `if !test { return err }`.
  abbrev pub guard : Bool → E → Result E (Unit {0})
  guard true e = ok tt
  guard false e = err e

  -- The code's `if test { return err }`.
  abbrev pub refuse : Bool → E → Result E (Unit {0})
  refuse true e = err e
  refuse false e = ok tt

  abbrev pub or_fail {ℓ} : {A : Type ℓ} → Option A → E → Result E A
  or_fail none e = err e
  or_fail (some a) e = ok a

  infixl 5 ◌>>◌
  abbrev pub ◌>>◌ {ι} : {B : Type ι} → Result E (Unit {0}) → Result E B → Result E B
  check >> k = check >>= λ _. k

  pub refuse-eq-ok {ℓ} :
      {B : Type ℓ} (test : Bool) (e : E) (k : Result E B) {b : B}
      → (refuse test e >> k) ≡ ok b
      → (test ≡ false) × (k ≡ ok b)
  refuse-eq-ok true e k h = cc
  refuse-eq-ok false e k h = (refl, h)

  pub Result-cases {ℓ} :
      {A : Type ℓ} (m : Result E A) → ((a : A) × (m ≡ ok a)) ⊎ ((e : E) × (m ≡ err e))
  Result-cases (ok a) = inl (a, refl)
  Result-cases (err e) = inr (e, refl)

  -- A call that does not fail has a first part that does not.
  pub bind-eq-ok {ℓ ι} :
      {A : Type ℓ} {B : Type ι} (m : Result E A) (k : A → Result E B) {b : B}
      → (m >>= k) ≡ ok b
      → (a : A) × (m ≡ ok a) × (k a ≡ ok b)
  bind-eq-ok (ok a) k h = (a, refl, h)
  bind-eq-ok (err e) k h = cc

  pub ok-injective {ℓ} : {A : Type ℓ} {a b : A} (m : Result E A) → m ≡ ok a → m ≡ ok b → a ≡ b
  ok-injective m h k = cc

  pub refused-eq-ok : (test : Bool) (e : E) → refuse test e ≡ ok tt → test ≡ false
  refused-eq-ok true e h = cc
  refused-eq-ok false e h = refl
