-- ===== src/Prelude/Weights.antt =====
-- Sums over a list of threads, at the place of one of them.
use Prim.Native.Nat.{ℕ, zero, suc, ◌+◌, ◌*◌, ◌≤◌}
use mathlib.Core.Path.{◌≡◌, refl}
use mathlib.Core.Bool.{Bool}
use mathlib.Core.List.{List, [], ◌∷◌, ◌++◌}
use native.Mathlib.Omega.{arith}
use relayforge.Prelude.Tests.{if◌then◌else◌}
use relayforge.Prelude.Lists.{length}

module _ {ℓ} {A : Type ℓ} where
  abbrev pub replicate : ℕ → A → List A
  replicate zero a = []
  replicate (suc n) a = a ∷ replicate n a

module _ {ℓ} {A : Type ℓ} (w : A → ℕ) where
  abbrev pub weigh : List A → ℕ
  weigh [] = 0
  weigh (x ∷ xs) = w x + weigh xs

  pub weigh-append : (xs ys : List A) → weigh (xs ++ ys) ≡ weigh xs + weigh ys
  weigh-append [] ys = omega arith
  weigh-append (x ∷ xs) ys = omega (arith, weigh-append xs ys)

  pub weigh-at : (xs ys : List A) (a : A) → weigh (xs ++ a ∷ ys) ≡ weigh xs + w a + weigh ys
  weigh-at xs ys a = omega (arith, weigh-append xs (a ∷ ys))

  pub weigh-last : (xs : List A) (a : A) → weigh (xs ++ a ∷ []) ≡ weigh xs + w a
  weigh-last xs a = omega (arith, weigh-append xs (a ∷ []))

  pub weigh-replicate : (n : ℕ) (a : A) → w a ≡ 0 → weigh (replicate n a) ≡ 0
  weigh-replicate zero a h = refl
  weigh-replicate (suc n) a h = omega (arith, weigh-replicate n a h, h)

  pub weigh-le : (k : ℕ) → ((a : A) → w a ≤ k) → (xs : List A) → weigh xs ≤ k * length xs
  weigh-le k h [] = omega arith
  weigh-le k h (x ∷ xs) = grind (arith, h x, weigh-le k h xs)

module _ {ℓ} {A : Type ℓ} where
  abbrev pub one_if : (A → Bool) → A → ℕ
  one_if p a = if p a then 1 else 0

  -- How many pass a test.
  abbrev pub count : (A → Bool) → List A → ℕ
  count p = weigh (one_if p)

  pub length-replicate : (n : ℕ) (a : A) → length (replicate n a) ≡ n
  length-replicate zero a = refl
  length-replicate (suc n) a = omega (arith, length-replicate n a)

  pub length-at : (xs ys : List A) (a b : A) → length (xs ++ a ∷ ys) ≡ length (xs ++ b ∷ ys)
  length-at [] ys a b = refl
  length-at (x ∷ xs) ys a b = omega (arith, length-at xs ys a b)
