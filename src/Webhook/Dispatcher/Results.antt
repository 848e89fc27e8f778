-- ===== src/Webhook/Dispatcher/Results.antt =====
-- What Deliver returns.
use relayforge.Prelude.{
  ok, if◌then◌else◌, ◌==◌, arith, ◌∷◌, some, none, ◌||◌, ◌&&◌, not, false, true, Bool, inr, inl,
  ◌≢◌, refl, ◌≡◌, ◌≤◌, ℕ, Bool-cases, Result-cases,
}
use relayforge.Prelude.Text.{
  codes, text_eq, Text, trim_space, is_empty, is_graphic, trim_space-graphic,
}
use relayforge.Prelude.Int.{pos, ◌≤ℤ◌}
use relayforge.Prelude.Utf8.{to_valid_utf8-graphic, replacement}
use relayforge.Delivery.Policy.{Decision, evaluate}
use relayforge.Webhook.Dispatcher.{
  secret_context, post_of, WebhookRequest, WebhookResult, CircuitSignal, Wire, Post, Response,
  failed, answered, deliver, error_text, circuit_none, circuit_failure,
}

-- A result that tells of an answer with its decision, or of a failure with a message.
pub record IsDelivered (r : WebhookResult) : Type 0 where
  pub answered :
      (code : ℕ)
      → r.status_code ≡ some code
      → (100 ≤ code) × (code ≤ 599) × (evaluate code false ≡ r.decision)
  pub unanswered :
      r.status_code ≡ none
      → (is_empty (trim_space r.error_message) ≡ false) × (r.decision ≢ Decision.succeed)
  pub lasted : pos 0 ≤ℤ r.duration
  pub in_order : r.started_at ≤ r.completed_at

either_kept :
    (long : Bool) (b : ℕ) (s t : Text)
    → is_graphic b ≡ true
    → is_empty (trim_space (if long then b ∷ s else b ∷ t)) ≡ false
either_kept true b s t h = trim_space-graphic b s h
either_kept false b s t h = trim_space-graphic b t h

error_text-graphic :
    (b : ℕ) (s : Text) → is_graphic b ≡ true → is_empty (trim_space (error_text (b ∷ s))) ≡ false
unfolding error_text
error_text-graphic b s h = rw (to_valid_utf8-graphic b s replacement h) (either_kept _ b _ _ h)

failed-IsDelivered :
    (started_at completed_at : ℕ) (decision : Decision) (signal : CircuitSignal) (b : ℕ) (s : Text)
    → started_at ≤ completed_at
    → is_graphic b ≡ true
    → decision ≢ Decision.succeed
    → IsDelivered (failed started_at completed_at decision signal (b ∷ s))
unfolding failed
failed-IsDelivered started_at completed_at decision signal b s h g d = record {
  answered = λ code e. cc;
  unanswered = λ e. (error_text-graphic b s g, d);
  lasted = ground arith;
  in_order = h;
}

discarded-IsDelivered :
    (started_at completed_at b : ℕ) (s : Text)
    → started_at ≤ completed_at
    → is_graphic b ≡ true
    → IsDelivered (failed started_at completed_at Decision.discard circuit_none (b ∷ s))
discarded-IsDelivered started_at completed_at b s h g =
    failed-IsDelivered started_at completed_at Decision.discard circuit_none b s h g
      (λ e. absurd (cc))

answered-IsDelivered :
    (limit started_at completed_at : ℕ) (response : Response)
    → started_at ≤ completed_at
    → 100 ≤ response.status_code
    → response.status_code ≤ 599
    → IsDelivered (answered limit started_at completed_at response)
unfolding answered
answered-IsDelivered limit started_at completed_at response h low high = record {
  answered = λ code e. ground arith;
  unanswered = λ e. absurd (cc);
  lasted = ground arith;
  in_order = h;
}

module _ (wire : Wire) where
  -- What holds of every failure with a message that begins with a printable byte, and of every answer of
  -- the client, holds of the result of Deliver.
  pub deliver-cases :
      (P : WebhookResult → Type 0) (allow_http : Bool) (limit started_at completed_at : ℕ)
      (input : WebhookRequest)
      → ((decision : Decision) (signal : CircuitSignal) (b : ℕ) (s : Text)
          → is_graphic b ≡ true
          → (decision ≡ Decision.succeed → ⊥)
          → P (failed started_at completed_at decision signal (b ∷ s)))
      → ((post : Post) (response : Response)
          → wire.send post ≡ ok response
          → P (answered limit started_at completed_at response))
      → P (deliver wire allow_http limit started_at completed_at input)
  unfolding deliver
  deliver-cases P allow_http limit started_at completed_at input fails answers =
      let discards = λ (b : ℕ) (s : Text) (g : is_graphic b ≡ true).
        fails Decision.discard circuit_none b s g (λ x. cc) in
      elim (Result-cases
        (wire.decrypt input.secret_ciphertext (secret_context input.endpoint_id))) [
          | inr (x, e) ↦ rw (e, deliver) (discards _ _ refl)
          | inl (secret, e) ↦ elim (Bool-cases (input.timeout == 0)) [
            | inl zero_ ↦ rw (e, deliver, zero_) (discards _ _ refl)
            | inr timed ↦ elim (Result-cases (wire.url_scheme input.target_url)) [
              | inr (x, f) ↦ rw (e, deliver, timed, f) (discards _ _ refl)
              | inl (scheme, f) ↦
                  elim (Bool-cases (
                    not (text_eq scheme (codes "https"))
                    && (not allow_http || not (text_eq scheme (codes "http"))))) [
                      | inl barred ↦ rw (e, deliver, timed, f, barred) (discards _ _ refl)
                      | inr open_ ↦
                          elim (Result-cases (wire.send (post_of wire started_at secret input))) [
                            | inr (x, g) ↦
                                rw (e, deliver, timed, f, open_, g)
                                  (fails Decision.retry circuit_failure _ _ refl (λ x. cc))
                            | inl (response, g) ↦
                                rw (e, deliver, timed, f, open_, g) (answers _ response g)
                          ]
                    ]
            ]
          ]
        ]

  -- A result of Deliver, by a clock that does not run backwards and a client that returns status codes
  -- from 100 to 599, tells of an answer with the decision on its code, or has a message and is no
  -- success.
  pub deliver-IsDelivered :
      (allow_http : Bool) (limit started_at completed_at : ℕ) (input : WebhookRequest)
      → started_at ≤ completed_at
      → ((post : Post) (response : Response)
          → wire.send post ≡ ok response
          → (100 ≤ response.status_code) × (response.status_code ≤ 599))
      → IsDelivered (deliver wire allow_http limit started_at completed_at input)
  deliver-IsDelivered allow_http limit started_at completed_at input h codes_ =
      deliver-cases (λ r. IsDelivered r) allow_http limit started_at completed_at input
        (λ decision signal b s g not_succeed.
          failed-IsDelivered started_at completed_at decision signal b s h g not_succeed)
        (λ post response sent.
          answered-IsDelivered limit started_at completed_at response h
            (codes_ post response sent).0 (codes_ post response sent).1)
