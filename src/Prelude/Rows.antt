-- ===== src/Prelude/Rows.antt =====
-- Insertions into a table with a conflict target, and tests of a table that has grown.
use mathlib.Core.Logic.{◌⊎◌, inl, inr}
use relayforge.Prelude.Tests.{Option-cases, Bool-cases}
use mathlib.Core.Path.{◌≡◌, refl, sym, ap, subst}
use mathlib.Core.Bool.{Bool, true, false}
use mathlib.Core.Option.{Option, none, some}
use mathlib.Core.List.{List, [], ◌∷◌, ◌++◌, Memᴰ}
use mathlib.Core.List.Memᴰ.{head, tail}
use native.Mathlib.Omega.{arith}
use relayforge.Prelude.Lists.{find?, any_of, update, All}

module _ {ℓ} {A : Type ℓ} where
  abbrev pub settle : Option A → A → List A → List A × A
  settle none new xs = (xs ++ new ∷ [], new)
  settle (some old) new xs = (xs, old)

  -- INSERT … ON CONFLICT … DO UPDATE that changes nothing: the new table, and the row returned.
  abbrev pub upsert : (A → Bool) → A → List A → List A × A
  upsert p new xs = settle (find? p xs) new xs

  pub find?-append :
      (p : A → Bool) (xs : List A) (a : A)
      → find? p xs ≡ none
      → p a ≡ true
      → find? p (xs ++ a ∷ []) ≡ some a
  find?-append p [] a e h = rw h refl
  find?-append p (x ∷ xs) a e h = elim (Bool-cases (p x)) [
    | inl hit ↦ absurd (ground arith)
    | inr miss ↦ rw miss (find?-append p xs a (ground arith) h)
  ]

  -- A second insertion finds the row of the first, and changes nothing.
  pub upsert_again :
      (p : A → Bool) (new new' : A) (xs : List A)
      → p new ≡ true
      → upsert p new' (upsert p new xs).0 ≡ upsert p new xs
  upsert_again p new new' xs h = elim (Option-cases (find? p xs)) [
    | inl e ↦
        subst (λ r. upsert p new' r.0 ≡ r) (sym (ap (λ o. settle o new xs) e))
          (ap (λ o. settle o new' (xs ++ new ∷ [])) (find?-append p xs new e h))
    | inr (a, e) ↦
        subst (λ r. upsert p new' r.0 ≡ r) (sym (ap (λ o. settle o new xs) e))
          (ap (λ o. settle o new' xs) e)
  ]

  -- The row that an insertion returns is new, or satisfies the conflict's test.
  pub upsert_cases :
      (p : A → Bool) (new : A) (xs : List A)
      → ((find? p xs ≡ none) × (upsert p new xs ≡ (xs ++ new ∷ [], new)))
        ⊎ ((old : A) × (find? p xs ≡ some old) × (upsert p new xs ≡ (xs, old)))
  upsert_cases p new xs = elim (Option-cases (find? p xs)) [
    | inl e ↦ inl (e, ap (λ o. settle o new xs) e)
    | inr (a, e) ↦ inr (a, e, ap (λ o. settle o new xs) e)
  ]

  pub mem-append : (xs ys : List A) {a : A} → Memᴰ a xs → Memᴰ a (xs ++ ys)
  mem-append [] ys i = elim i [ ]
  mem-append (x ∷ xs) ys (head e) = head e
  mem-append (x ∷ xs) ys (tail i) = tail (mem-append xs ys i)

  pub any_of-false : (p : A → Bool) (xs : List A) → All (λ a. p a ≡ false) xs → any_of p xs ≡ false
  any_of-false p [] h = refl
  any_of-false p (x ∷ xs) h = rw h.0 (any_of-false p xs h.1)

  pub any_of-append :
      (p : A → Bool) (xs ys : List A) → any_of p xs ≡ true → any_of p (xs ++ ys) ≡ true
  any_of-append p [] ys h = cc
  any_of-append p (x ∷ xs) ys h = elim (Bool-cases (p x)) [
    | inl hit ↦ rw hit refl
    | inr miss ↦ rw miss (any_of-append p xs ys (rw miss at h))
  ]

  pub any_of-append_last :
      (p : A → Bool) (xs : List A) (a : A) → p a ≡ true → any_of p (xs ++ a ∷ []) ≡ true
  any_of-append_last p [] a h = rw h refl
  any_of-append_last p (x ∷ xs) a h = ground (arith, any_of-append_last p xs a h)

  -- An update that does not change what the test sees.
  pub any_of-update :
      (p q : A → Bool) (f : A → A)
      → ((a : A) → q (f a) ≡ q a)
      → (xs : List A) → any_of q (update p f xs) ≡ any_of q xs
  any_of-update p q f same [] = refl
  any_of-update p q f same (x ∷ xs) = ground (arith, same x, any_of-update p q f same xs)

  pub find?-of-any_of :
      (p : A → Bool) (xs : List A) → any_of p xs ≡ true → (a : A) × (find? p xs ≡ some a)
  find?-of-any_of p xs h = elim (Option-cases (find? p xs)) [
    | inr found ↦ found
    | inl e ↦ absurd (missing xs h e)
  ]
    where
      missing : (xs : List A) → any_of p xs ≡ true → find? p xs ≡ none → ⊥
      missing [] h e = cc
      missing (x ∷ xs) h e = elim (Bool-cases (p x)) [
        | inl hit ↦ ground arith
        | inr miss ↦ missing xs (rw miss at h) (ground arith)
      ]
