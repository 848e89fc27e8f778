-- ===== src/Api/Token.antt =====
-- Which header the check of the token lets through.
use relayforge.Prelude.{
  Option-cases, Bool-cases, ◌==◌, arith, ◌++◌, ◌∷◌, [], some, true, inr, inl, ◌↔◌, ◌∙◌, ap, refl,
  ◌≡◌,
}
use relayforge.Prelude.Text.{Text, codes, text_eq, text_eq_iff, text_eq_refl}
use relayforge.Api.Replies.{Request}
use relayforge.Api.Routing.{cut, authorized}

-- The two parts of a text that has been cut.
cut-join : (s before after : Text) → cut s ≡ some (before, after) → s ≡ before ++ (32 ∷ after)
unfolding cut
cut-join [] before after h = absurd (cc)
cut-join (b ∷ s) before after h = elim (Bool-cases (b == 32)) [
  | inl space ↦
      let byte : b ≡ 32 = ground arith in
      let front : [] ≡ before = ground arith in
      let back : s ≡ after = ground arith in rw (← front, ← back, byte) refl
  | inr letter ↦ elim (Option-cases (cut s)) [
    | inl e ↦ absurd (ground (arith, e))
    | inr ((first, rest), e) ↦
        let front : b ∷ first ≡ before = ground (arith, e) in
        let back : rest ≡ after = ground (arith, e) in
        rw (← front, ← back) (ap (λ t. b ∷ t) (cut-join s first rest e))
  ]
]

authorized_sound :
    (key : Text) (r : Request) → authorized key r ≡ true → r.authorization ≡ codes "Bearer " ++ key
unfolding authorized
authorized_sound key r h = elim (Option-cases (cut r.authorization)) [
  | inl e ↦ absurd (ground (arith, e))
  | inr ((scheme, token), e) ↦
      let bearer : scheme ≡ codes "Bearer" =
        (text_eq_iff scheme (codes "Bearer")).0 (ground (arith, e)) in
      let same : token ≡ key = (text_eq_iff token key).0 (ground (arith, e)) in
      cut-join r.authorization scheme token e ∙ rw (bearer, same) refl
]

authorized_complete :
    (key : Text) (r : Request) → r.authorization ≡ codes "Bearer " ++ key → authorized key r ≡ true
unfolding authorized text_eq
authorized_complete key r e = rw (e, authorized) (text_eq_refl key)

-- A request is authorized exactly if its header is the word Bearer, one space, and the key.
pub authorized_iff :
    (key : Text) (r : Request)
    → (authorized key r ≡ true) ↔ (r.authorization ≡ codes "Bearer " ++ key)
authorized_iff key r = (authorized_sound key r, authorized_complete key r)
