-- ===== src/Prelude/Sorting.antt =====
-- SQL's ORDER BY on a key that is a number, or on several: stable insertion sorts.
use Prim.Native.Nat.{ℕ, suc, ◌≤◌}
use mathlib.Core.Path.{◌≡◌, refl}
use mathlib.Core.Logic.{inl, inr}
use mathlib.Core.List.{List, [], ◌∷◌}
use mathlib.Core.Bool.{Bool}
use native.Mathlib.Omega.{arith}
use relayforge.Prelude.Tests.{leb, if◌then◌else◌, Bool-cases}
use relayforge.Prelude.Lists.{All, All-mono, length}

module _ {ℓ} {A : Type ℓ} (key : A → ℕ) where
  insert_by : A → List A → List A
  insert_by a [] = a ∷ []
  insert_by a (x ∷ xs) =
      let later = insert_by a xs in if leb (key a) (key x) then a ∷ x ∷ xs else x ∷ later

  unfoldable pub sort_by : List A → List A
  unfolding insert_by
  sort_by [] = []
  sort_by (x ∷ xs) = insert_by x (sort_by xs)

  All-insert_by {κ} :
      (P : A → Type κ) (a : A) (xs : List A) → P a → All P xs → All P (insert_by a xs)
  unfolding insert_by
  All-insert_by P a [] h hs = (h, tt)
  All-insert_by P a (x ∷ xs) h hs = ground (arith, All-insert_by P a xs h hs.1)

  -- Sorting keeps what every row satisfies.
  pub All-sort_by {κ} : (P : A → Type κ) (xs : List A) → All P xs → All P (sort_by xs)
  unfolding sort_by
  All-sort_by P [] h = tt
  All-sort_by P (x ∷ xs) h = All-insert_by P x (sort_by xs) h.0 (All-sort_by P xs h.1)

  All-of_insert_by {κ} :
      (P : A → Type κ) (a : A) (xs : List A) → All P (insert_by a xs) → P a × All P xs
  unfolding insert_by
  All-of_insert_by P a [] h = (h.0, tt)
  All-of_insert_by P a (x ∷ xs) h = elim (Bool-cases (leb (key a) (key x))) [
    | inl before ↦ rw before at h
    | inr after ↦
        let later = rw after at h in
        let rest = All-of_insert_by P a xs later.1 in (rest.0, (later.0, rest.1))
  ]

  -- What every row of the sorted list satisfies, every row does.
  pub All-of_sort_by {κ} : (P : A → Type κ) (xs : List A) → All P (sort_by xs) → All P xs
  unfolding sort_by
  All-of_sort_by P [] h = tt
  All-of_sort_by P (x ∷ xs) h =
      let parts = All-of_insert_by P x (sort_by xs) h in (parts.0, All-of_sort_by P xs parts.1)

  -- Every row comes before the rows behind it.
  abbrev pub Ascending : List A → Type 0
  Ascending [] = Unit
  Ascending (x ∷ xs) = All (λ y. key x ≤ key y) xs × Ascending xs

  insert_by-Ascending : (a : A) (xs : List A) → Ascending xs → Ascending (insert_by a xs)
  unfolding insert_by
  insert_by-Ascending a [] h = (tt, tt)
  insert_by-Ascending a (x ∷ xs) h = elim (Bool-cases (leb (key a) (key x))) [
    | inl before ↦
        let first : key a ≤ key x = ground arith in
        rw before ((first, All-mono (λ y le. omega (arith, le, first)) xs h.0), h)
    | inr after ↦
        let later : key x ≤ key a = ground arith in
        rw after (All-insert_by (λ y. key x ≤ key y) a xs later h.0, insert_by-Ascending a xs h.1)
  ]

  pub sort_by-Ascending : (xs : List A) → Ascending (sort_by xs)
  unfolding sort_by
  sort_by-Ascending [] = tt
  sort_by-Ascending (x ∷ xs) = insert_by-Ascending x (sort_by xs) (sort_by-Ascending xs)

  length-insert_by : (a : A) (xs : List A) → length (insert_by a xs) ≡ suc (length xs)
  unfolding insert_by
  length-insert_by a [] = refl
  length-insert_by a (x ∷ xs) = ground (arith, length-insert_by a xs)

  pub length-sort_by : (xs : List A) → length (sort_by xs) ≡ length xs
  unfolding sort_by
  length-sort_by [] = refl
  length-sort_by (x ∷ xs) = omega (arith, length-insert_by x (sort_by xs), length-sort_by xs)

-- ORDER BY on several keys: `before a b` says that `a` comes first for certain.
module _ {ℓ} {A : Type ℓ} (before : A → A → Bool) where
  insert_with : A → List A → List A
  insert_with a [] = a ∷ []
  insert_with a (x ∷ xs) =
      let later = insert_with a xs in if before x a then x ∷ later else a ∷ x ∷ xs

  unfoldable pub sort_with : List A → List A
  unfolding insert_with
  sort_with [] = []
  sort_with (x ∷ xs) = insert_with x (sort_with xs)
