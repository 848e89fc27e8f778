-- ===== src/Prelude/Lists.antt =====
-- Lists as tables: selection, update, search and Boolean quantifiers, with their laws.
use mathlib.Core.Logic.{inl, inr}
use relayforge.Prelude.Tests.{if◌then◌else◌, Bool-cases}
use mathlib.Core.Path.{◌≡◌, refl, sym, ap, subst}
use Prim.Native.Nat.{ℕ, zero, suc, ◌+◌, ◌≤◌}
use mathlib.Core.Bool.{Bool, true, false, ◌&&◌, ◌||◌}
use mathlib.Core.Option.{Option, none, some}
use mathlib.Core.List.{List, [], ◌∷◌, ◌++◌, Memᴰ}
use mathlib.Core.List.Memᴰ.{head, tail}
use native.Mathlib.Omega.{arith}

module _ {ℓ} {A : Type ℓ} where
  abbrev pub length : List A → ℕ
  length [] = 0
  length (x ∷ xs) = suc (length xs)

  abbrev pub take : ℕ → List A → List A
  take zero xs = []
  take (suc n) [] = []
  take (suc n) (x ∷ xs) = x ∷ take n xs

  abbrev pub drop : ℕ → List A → List A
  drop zero xs = xs
  drop (suc n) [] = []
  drop (suc n) (x ∷ xs) = drop n xs

  -- WHERE.
  abbrev pub select : (A → Bool) → List A → List A
  select p [] = []
  select p (x ∷ xs) = let rest = select p xs in if p x then x ∷ rest else rest

  -- The first row that passes.
  abbrev pub find? : (A → Bool) → List A → Option A
  find? p [] = none
  find? p (x ∷ xs) = let rest = find? p xs in if p x then some x else rest

  -- UPDATE … SET f WHERE p.
  abbrev pub update : (A → Bool) → (A → A) → List A → List A
  update p f [] = []
  update p f (x ∷ xs) = (if p x then f x else x) ∷ update p f xs

  abbrev pub all_of : (A → Bool) → List A → Bool
  all_of p [] = true
  all_of p (x ∷ xs) = p x && all_of p xs

  abbrev pub any_of : (A → Bool) → List A → Bool
  any_of p [] = false
  any_of p (x ∷ xs) = p x || any_of p xs

  abbrev pub All {κ} : (A → Type κ) → List A → Type κ
  All P [] = Unit
  All P (x ∷ xs) = P x × All P xs

module _ {ℓ} {A : Type ℓ} where
  pub length-append : (xs ys : List A) → length (xs ++ ys) ≡ length xs + length ys
  length-append [] ys = omega arith
  length-append (x ∷ xs) ys = omega (arith, length-append xs ys)

  pub length-take-le : (n : ℕ) (xs : List A) → length (take n xs) ≤ n
  length-take-le zero xs = omega arith
  length-take-le (suc n) [] = omega arith
  length-take-le (suc n) (x ∷ xs) = omega (arith, length-take-le n xs)

  pub All-mono {κ ι} :
      {P : A → Type κ} {Q : A → Type ι} (f : (a : A) → P a → Q a) (xs : List A)
      → All P xs
      → All Q xs
  All-mono f [] h = tt
  All-mono f (x ∷ xs) h = (f x h.0, All-mono f xs h.1)

  pub All-both {κ ι} :
      (P : A → Type κ) (Q : A → Type ι) (xs : List A)
      → All P xs
      → All Q xs
      → All (λ a. P a × Q a) xs
  All-both P Q [] h k = tt
  All-both P Q (x ∷ xs) h k = ((h.0, k.0), All-both P Q xs h.1 k.1)

  pub All-take {κ} : (P : A → Type κ) (n : ℕ) (xs : List A) → All P xs → All P (take n xs)
  All-take P zero xs h = tt
  All-take P (suc n) [] h = tt
  All-take P (suc n) (x ∷ xs) h = (h.0, All-take P n xs h.1)

  pub All-append {κ} : (P : A → Type κ) (xs ys : List A) → All P xs → All P ys → All P (xs ++ ys)
  All-append P [] ys hx hy = hy
  All-append P (x ∷ xs) ys hx hy = (hx.0, All-append P xs ys hx.1 hy)

  -- An update keeps what the changed rows satisfy.
  pub All-update {κ} :
      (P : A → Type κ) (p : A → Bool) (f : A → A)
      → ((a : A) → p a ≡ true → P a → P (f a))
      → (xs : List A) → All P xs
      → All P (update p f xs)
  All-update P p f keep [] h = tt
  All-update P p f keep (x ∷ xs) h = (ground (arith, keep x), All-update P p f keep xs h.1)

  pub find?-sound : (p : A → Bool) (xs : List A) {a : A} → find? p xs ≡ some a → p a ≡ true
  find?-sound p [] e = cc
  find?-sound p (x ∷ xs) {a} e = elim (Bool-cases (p x)) [
    | inl hit ↦ ground arith
    | inr miss ↦ find?-sound p xs (ground arith)
  ]

  pub find?-All {κ} :
      (P : A → Type κ) (p : A → Bool) (xs : List A) {a : A} → All P xs → find? p xs ≡ some a → P a
  find?-All P p [] h e = cc
  find?-All P p (x ∷ xs) {a} h e = elim (Bool-cases (p x)) [
    | inl hit ↦ ground arith
    | inr miss ↦ find?-All P p xs h.1 (ground arith)
  ]

module _ {ℓ} {A : Type ℓ} where
  pub All-mem {κ} : (P : A → Type κ) (xs : List A) {a : A} → All P xs → Memᴰ a xs → P a
  All-mem P [] h i = elim i [ ]
  All-mem P (x ∷ xs) h (head e) = subst P (sym e) h.0
  All-mem P (x ∷ xs) h (tail i) = All-mem P xs h.1 i

  pub All-of-mem {κ} : (P : A → Type κ) (xs : List A) → ((a : A) → Memᴰ a xs → P a) → All P xs
  All-of-mem P [] f = tt
  All-of-mem P (x ∷ xs) f = (f x (head refl), All-of-mem P xs (λ a i. f a (tail i)))

  -- What holds of the rows of a table holds of the selected ones, which pass the test.
  pub All-select {κ} :
      (P : A → Type κ) (p : A → Bool) (xs : List A)
      → All P xs
      → All (λ a. P a × (p a ≡ true)) (select p xs)
  All-select P p [] h = tt
  All-select P p (x ∷ xs) h = elim (Bool-cases (p x)) [
    | inl hit ↦ rw hit ((h.0, hit), All-select P p xs h.1)
    | inr miss ↦ rw miss (All-select P p xs h.1)
  ]

  pub any_of-find {κ} :
      (P : A → Type κ) (p : A → Bool) (xs : List A)
      → All P xs
      → any_of p xs ≡ true
      → (a : A) × P a × (p a ≡ true)
  any_of-find P p [] h e = cc
  any_of-find P p (x ∷ xs) h e = elim (Bool-cases (p x)) [
    | inl hit ↦ (x, h.0, hit)
    | inr miss ↦ any_of-find P p xs h.1 (rw miss at e)
  ]

  pub any_of-mem :
      (p : A → Bool) (xs : List A) {a : A} → Memᴰ a xs → p a ≡ true → any_of p xs ≡ true
  any_of-mem p [] i h = elim i [ ]
  any_of-mem p (x ∷ xs) {a} (head e) h = rw (← e) (rw h refl)
  any_of-mem p (x ∷ xs) {a} (tail i) h = ground (arith, any_of-mem p xs i h)

  pub find?-mem : (p : A → Bool) (xs : List A) {a : A} → find? p xs ≡ some a → Memᴰ a xs
  find?-mem p [] e = cc
  find?-mem p (x ∷ xs) {a} e = elim (Bool-cases (p x)) [
    | inl hit ↦ head (ground arith)
    | inr miss ↦ tail (find?-mem p xs (ground arith))
  ]

  pub all_of-All : (p : A → Bool) (xs : List A) → All (λ a. p a ≡ true) xs → all_of p xs ≡ true
  all_of-All p [] h = refl
  all_of-All p (x ∷ xs) h = rw h.0 (all_of-All p xs h.1)

  -- A row that the update leaves, and the image of a row that it changes, are in the new table.
  pub mem-update :
      (p : A → Bool) (f : A → A) (xs : List A) (a : A)
      → Memᴰ a xs
      → Memᴰ (if p a then f a else a) (update p f xs)
  mem-update p f [] a i = elim i [ ]
  mem-update p f (x ∷ xs) a (head e) = head (ap (λ b. if p b then f b else b) e)
  mem-update p f (x ∷ xs) a (tail i) = tail (mem-update p f xs a i)

  -- What holds of the rows that stay and of the new versions of those that change.
  pub All-update_each {κ} :
      (P : A → Type κ) (p : A → Bool) (f : A → A) (xs : List A)
      → All (λ a. p a ≡ true → P (f a)) xs
      → All P xs
      → All P (update p f xs)
  All-update_each P p f [] h k = tt
  All-update_each P p f (x ∷ xs) h k = elim (Bool-cases (p x)) [
    | inl hit ↦ rw hit (h.0 hit, All-update_each P p f xs h.1 k.1)
    | inr miss ↦ rw miss (k.0, All-update_each P p f xs h.1 k.1)
  ]

  pub find?-none-mem :
      (p : A → Bool) (xs : List A) {a : A} → find? p xs ≡ none → Memᴰ a xs → p a ≡ true → ⊥
  find?-none-mem p [] e i h = elim i [ ]
  find?-none-mem p (x ∷ xs) {a} e (head s) h = let hit = rw s at h in ground arith
  find?-none-mem p (x ∷ xs) {a} e (tail i) h = elim (Bool-cases (p x)) [
    | inl hit ↦ ground arith
    | inr miss ↦ find?-none-mem p xs (ground arith) i h
  ]

  pub find?-eq-none : (p : A → Bool) (xs : List A) → All (λ a. p a ≡ false) xs → find? p xs ≡ none
  find?-eq-none p [] h = refl
  find?-eq-none p (x ∷ xs) h = rw h.0 (find?-eq-none p xs h.1)
