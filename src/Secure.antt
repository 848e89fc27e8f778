-- ===== src/Secure.antt =====
-- internal/secure/box.go: secrets in an envelope of a version, a nonce and a sealed text. AES-GCM and
-- the random source are parameters.
pub mod Envelope
use relayforge.Prelude.{
  ltb, Result, if◌then◌else◌, ◌==◌, ◌++◌, ◌∷◌, [], some, none, Option, ◌||◌, not, ◌+◌, ℕ, ok, err,
  take, drop, length,
}
use relayforge.Prelude.Text.{Text}

-- cipher.AEAD; Open gives nothing for a text that Seal has not made.
pub record Aead : Type 0 where
  pub nonce_size : ℕ
  pub overhead : ℕ
  pub seal : Text → Text → Text → Text
  pub open_sealed : Text → Text → Text → Option Text

pub data BoxError : Type 0 where
  wrong_key_size invalid_ciphertext : BoxError
  cipher_failed nonce_failed : Text → BoxError

abbrev pub envelope_version : ℕ
envelope_version = 1

-- NewBox; `new_gcm` is aes.NewCipher with cipher.NewGCM.
unfoldable pub new_box : (Text → Result Text Aead) → Text → Result BoxError Aead
new_box new_gcm key =
    if not (length key == 32)
    then err wrong_key_size
    else elim (new_gcm key) [ ok aead ↦ ok aead | err e ↦ err (cipher_failed e) ]

-- Encrypt; `random n` is what io.ReadFull gives for a buffer of `n` bytes.
unfoldable pub encrypt : Aead → (ℕ → Result Text Text) → Text → Text → Result BoxError Text
encrypt aead random plaintext additional_data = elim (random aead.nonce_size) [
  | err e ↦ err (nonce_failed e)
  | ok nonce ↦ ok (envelope_version ∷ (nonce ++ aead.seal nonce plaintext additional_data))
]

-- The first byte of an envelope, which is never asked of an empty one.
abbrev pub version_of : Text → ℕ
version_of [] = 0
version_of (b ∷ _) = b

unfoldable pub decrypt : Aead → Text → Text → Result BoxError Text
decrypt aead envelope additional_data =
    if ltb (length envelope) (1 + aead.nonce_size + aead.overhead)
      || not (version_of envelope == envelope_version)
    then err invalid_ciphertext
    else elim (aead.open_sealed (take aead.nonce_size (drop 1 envelope))
        (drop (1 + aead.nonce_size) envelope) additional_data) [
          | some plaintext ↦ ok plaintext
          | none ↦ err invalid_ciphertext
        ]
