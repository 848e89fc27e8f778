-- ===== src/Secure/Envelope.antt =====
-- What is sealed can be opened, and nothing else.
use relayforge.Prelude.{
  length-append, Bool-cases, ltb, err, ok, ◌==◌, arith, ◌++◌, ◌∷◌, [], some, none, ◌||◌, not, false,
  inr, inl, ◌↔◌, ◌∙◌, subst, ap, refl, ◌≡◌, ◌≤◌, ◌-◌, ◌+◌, suc, zero, ℕ, Result, take, drop, length,
}
use relayforge.Secure.{BoxError, Aead, encrypt, decrypt, invalid_ciphertext, envelope_version}
use native.Mathlib.Numerals.{one-add}
use relayforge.Prelude.Text.{Text}

-- What crypto/cipher documents: Open undoes Seal under the same nonce and data, and a sealed text is
-- longer than its plaintext by the overhead.
pub record IsLawful (aead : Aead) : Type 0 where
  pub open_seal :
      (nonce plaintext additional_data : Text)
      → aead.open_sealed nonce (aead.seal nonce plaintext additional_data) additional_data
        ≡ some plaintext
  pub length_seal :
      (nonce plaintext additional_data : Text)
      → length (aead.seal nonce plaintext additional_data) ≡ length plaintext + aead.overhead

take-append : (xs ys : Text) → take (length xs) (xs ++ ys) ≡ xs
take-append [] ys = refl
take-append (x ∷ xs) ys = ap (λ zs. x ∷ zs) (take-append xs ys)

drop-append : (xs ys : Text) → drop (length xs) (xs ++ ys) ≡ ys
drop-append [] ys = refl
drop-append (x ∷ xs) ys = drop-append xs ys

drop_suc : (n : ℕ) (b : ℕ) (s : Text) → drop (1 + n) (b ∷ s) ≡ drop n s
drop_suc n b s = rw (one-add n) refl

-- An envelope of a nonce and a sealed part that are long enough.
opens :
    (aead : Aead) (nonce sealed additional_data : Text)
    → length nonce ≡ aead.nonce_size
    → aead.overhead ≤ length sealed
    → decrypt aead (envelope_version ∷ (nonce ++ sealed)) additional_data
      ≡ (elim (aead.open_sealed nonce sealed additional_data) as (λ _. Result BoxError Text) [
        | some plaintext ↦ ok plaintext
        | none ↦ err invalid_ciphertext
      ])
unfolding decrypt
opens aead nonce sealed additional_data size long =
    let short : ltb (suc (length (nonce ++ sealed))) (1 + aead.nonce_size + aead.overhead) ≡ false =
      ground (arith, length-append nonce sealed) in
    let front : take aead.nonce_size (nonce ++ sealed) ≡ nonce =
      subst (λ n. take n (nonce ++ sealed) ≡ nonce) size (take-append nonce sealed) in
    let back : drop (1 + aead.nonce_size) (envelope_version ∷ (nonce ++ sealed)) ≡ sealed =
      drop_suc aead.nonce_size envelope_version (nonce ++ sealed)
      ∙ subst (λ n. drop n (nonce ++ sealed) ≡ sealed) size (drop-append nonce sealed) in
    rw (short, front, back) refl

-- An envelope is of a known version, with a whole nonce, and opens to the plaintext.
abbrev Opens : Aead → Text → Text → Text → Type 0
Opens aead envelope additional_data plaintext =
    (nonce : Text) × (sealed : Text) × (envelope ≡ envelope_version ∷ (nonce ++ sealed))
    × (length nonce ≡ aead.nonce_size)
    × (aead.overhead ≤ length sealed)
    × (aead.open_sealed nonce sealed additional_data ≡ some plaintext)

take-drop : (n : ℕ) (s : Text) → take n s ++ drop n s ≡ s
take-drop zero s = refl
take-drop (suc n) [] = refl
take-drop (suc n) (b ∷ s) = ap (λ t. b ∷ t) (take-drop n s)

length_parts :
    (n : ℕ) (s : Text) → n ≤ length s → (length (take n s) ≡ n) × (length (drop n s) ≡ length s - n)
length_parts zero s h = (refl, omega arith)
length_parts (suc n) [] h = absurd (omega arith)
length_parts (suc n) (b ∷ s) h =
    let p = length_parts n s (omega arith) in (omega arith, omega arith)

decrypt_sound :
    (aead : Aead) (envelope additional_data plaintext : Text)
    → decrypt aead envelope additional_data ≡ ok plaintext
    → Opens aead envelope additional_data plaintext
unfolding decrypt
decrypt_sound aead [] additional_data plaintext h = absurd (ground arith)
decrypt_sound aead (b ∷ s) additional_data plaintext h =
    elim (Bool-cases (ltb (length (b ∷ s)) (1 + aead.nonce_size + aead.overhead) || not (b == 1))) [
      | inl bad ↦ absurd (ground arith)
      | inr good ↦
          let parts = length_parts aead.nonce_size s (ground arith) in
          let version : b ≡ 1 = ground arith in
          let opened : aead.open_sealed (take aead.nonce_size s) (drop aead.nonce_size s)
                additional_data
              ≡ some plaintext =
            subst
              (λ t. aead.open_sealed (take aead.nonce_size s) t additional_data ≡ some plaintext)
              (drop_suc aead.nonce_size b s) (ground arith) in
          (
            take aead.nonce_size s,
            drop aead.nonce_size s,
            rw (version, take-drop aead.nonce_size s) refl,
            parts.0,
            ground arith,
            opened,
          )
    ]

-- Decrypt returns a plaintext exactly for an envelope of the known version, with a nonce of the
-- cipher's size and a sealed part that is no shorter than the overhead, which opens to it.
pub decrypt_iff :
    (aead : Aead) (envelope additional_data plaintext : Text)
    → (decrypt aead envelope additional_data ≡ ok plaintext)
      ↔ Opens aead envelope additional_data plaintext
decrypt_iff aead envelope additional_data plaintext = (
  decrypt_sound aead envelope additional_data plaintext,
  λ (nonce, sealed, e, size, long, opened).
      rw e (opens aead nonce sealed additional_data size long ∙ rw opened refl),
)

-- What Encrypt returns, with a random source that fills the nonce, Decrypt turns back into the
-- plaintext under the same additional data.
pub decrypt-encrypt :
    (aead : Aead) (random : ℕ → Result Text Text) (nonce plaintext additional_data : Text)
    → IsLawful aead
    → random aead.nonce_size ≡ ok nonce
    → length nonce ≡ aead.nonce_size
    → (envelope : Text) × (encrypt aead random plaintext additional_data ≡ ok envelope)
      × (decrypt aead envelope additional_data ≡ ok plaintext)
unfolding encrypt
decrypt-encrypt aead random nonce plaintext additional_data law filled size = (
  envelope_version ∷ (nonce ++ aead.seal nonce plaintext additional_data),
  rw (filled, encrypt) refl,
  opens aead nonce (aead.seal nonce plaintext additional_data) additional_data size
        (omega (arith, law.length_seal nonce plaintext additional_data))
      ∙ rw (law.open_seal nonce plaintext additional_data) refl,
)
