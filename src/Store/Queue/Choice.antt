-- ===== src/Store/Queue/Choice.antt =====
-- ORDER BY d.next_attempt_at, d.created_at LIMIT 1: the row that is chosen, and why.
use relayforge.Prelude.{
  Option-cases, All-mono, Bool-cases, Memᴰ, All, arith, ◌∷◌, [], List, some, none, false, true,
  Bool, inr, inl, subst, refl, ◌≡◌,
}
use relayforge.Store.Queue.{earliest, sooner}
use relayforge.Store.Tables.{DeliveryRow}

-- If no row comes before `e`, and `e` not before `d`, none comes before `d`.
sooner_negative :
    (x e d : DeliveryRow) → sooner x e ≡ false → sooner e d ≡ false → sooner x d ≡ false
unfolding sooner
sooner_negative x e d h k = ground arith

sooner_self : (d : DeliveryRow) → sooner d d ≡ false
unfolding sooner
sooner_self d = ground arith

sooner_asym : (e x : DeliveryRow) → sooner e x ≡ true → sooner x e ≡ false
unfolding sooner
sooner_asym e x h = ground arith

module _ (p : DeliveryRow → Bool) where
  -- No row that passes comes before `d`.
  abbrev pub First : DeliveryRow → List DeliveryRow → Type 0
  First d = All (λ e. p e ≡ true → sooner e d ≡ false)

  pub earliest-none : (ds : List DeliveryRow) → earliest p ds ≡ none → All (λ e. p e ≡ false) ds
  unfolding earliest
  earliest-none [] h = tt
  earliest-none (d ∷ ds) h = elim (Bool-cases (p d)) [
    | inl hit ↦ absurd (ground arith)
    | inr miss ↦ (miss, earliest-none ds (ground arith))
  ]

  abbrev Chosen : List DeliveryRow → DeliveryRow → Type 0
  Chosen ds d = Memᴰ d ds × (p d ≡ true) × First d ds

  Chosen-missed :
      (x : DeliveryRow) (xs : List DeliveryRow) (d : DeliveryRow)
      → p x ≡ false
      → Chosen xs d
      → Chosen (x ∷ xs) d
  Chosen-missed x xs d miss (i, q, f) = (Memᴰ.tail i, q, (λ hit. absurd (cc), f))

  Chosen-alone :
      (x : DeliveryRow) (xs : List DeliveryRow)
      → p x ≡ true
      → All (λ e. p e ≡ false) xs
      → Chosen (x ∷ xs) x
  Chosen-alone x xs hit misses =
      (Memᴰ.head refl, hit, (λ _. sooner_self x, All-mono (λ y miss hit'. absurd (cc)) xs misses))

  Chosen-before :
      (x : DeliveryRow) (xs : List DeliveryRow) (e : DeliveryRow)
      → sooner e x ≡ true
      → Chosen xs e
      → Chosen (x ∷ xs) e
  Chosen-before x xs e before (i, q, f) = (Memᴰ.tail i, q, (λ _. sooner_asym e x before, f))

  Chosen-after :
      (x : DeliveryRow) (xs : List DeliveryRow) (e : DeliveryRow)
      → p x ≡ true
      → sooner e x ≡ false
      → Chosen xs e
      → Chosen (x ∷ xs) x
  Chosen-after x xs e hit after (i, q, f) = (
    Memᴰ.head refl,
    hit,
    (λ _. sooner_self x, All-mono (λ y g h. sooner_negative y e x (g h) after) xs f),
  )

  -- The chosen row is in the table, passes, and none that passes comes before it.
  pub earliest-some :
      (ds : List DeliveryRow) (d : DeliveryRow)
      → earliest p ds ≡ some d
      → Memᴰ d ds × (p d ≡ true) × First d ds
  unfolding earliest
  earliest-some [] d h = absurd (cc)
  earliest-some (x ∷ xs) d h = elim (Bool-cases (p x)) [
    | inr miss ↦ Chosen-missed x xs d miss (earliest-some xs d (ground arith))
    | inl hit ↦ elim (Option-cases (earliest p xs)) [
      | inl e ↦
          let same : x ≡ d = ground arith in
          subst (Chosen (x ∷ xs)) same (Chosen-alone x xs hit (earliest-none xs e))
      | inr (e, later) ↦ elim (Bool-cases (sooner e x)) [
        | inl before ↦
            let same : e ≡ d = ground arith in
            subst (Chosen (x ∷ xs)) same (Chosen-before x xs e before (earliest-some xs e later))
        | inr after ↦
            let same : x ≡ d = ground arith in
            subst (Chosen (x ∷ xs)) same (Chosen-after x xs e hit after (earliest-some xs e later))
      ]
    ]
  ]
