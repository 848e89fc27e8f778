-- ===== src/Webhook/Dispatcher.antt =====
-- internal/webhook/dispatcher.go and signature.go: posting a delivery. Decryption, the HTTP client,
-- the HMAC and the printing of numbers are parameters; an error is its text. The readings of the clock
-- are arguments.
pub mod Results
pub mod Setup
use relayforge.Prelude.{
  ◌-◌, ltb, Result, leb, ◌/◌, if◌then◌else◌, ◌==◌, ◌++◌, ◌∷◌, [], List, some, none, Option, ◌||◌,
  ◌&&◌, not, false, Bool, ◌+◌, ℕ, ok, err, length, take,
}
use relayforge.Prelude.Int.{ℤ, sub_ℕ}
use relayforge.Prelude.Text.{Text, codes, text_eq}
use relayforge.Prelude.Utf8.{utf8_valid, to_valid_utf8, replacement}
use relayforge.Delivery.Policy.{Decision, evaluate}

pub data CircuitSignal : Type 0 where
  circuit_none circuit_failure circuit_success : CircuitSignal

pub record WebhookRequest : Type 0 where
  pub delivery_id : Text
  pub event_id : Text
  pub endpoint_id : Text
  pub event_type : Text
  pub target_url : Text
  pub secret_ciphertext : Text
  pub payload : Text
  pub timeout : ℕ

pub record WebhookResult : Type 0 where
  pub decision : Decision
  pub status_code : Option ℕ
  pub response_body : Text
  pub error_message : Text
  pub circuit_signal : CircuitSignal
  pub duration : ℤ
  pub started_at : ℕ
  pub completed_at : ℕ

-- The POST request that is handed to the HTTP client.
pub record Post : Type 0 where
  pub url : Text
  pub headers : List (Text × Text)
  pub body : Text
  pub timeout : ℕ

-- `read` is io.ReadAll of the body cut by io.LimitReader: the bytes, and the error if there was one.
pub record Response : Type 0 where
  pub status_code : ℕ
  pub read : ℕ → Text × Option Text

-- `url_scheme` is http.NewRequestWithContext: the scheme of the parsed target.
pub record Wire : Type 0 where
  pub decrypt : Text → Text → Result Text Text
  pub url_scheme : Text → Result Text Text
  pub send : Post → Result Text Response
  pub hmac_sha256 : Text → Text → Text
  pub hex : Text → Text
  pub format_int : ℤ → Text

unfoldable pub circuit_signal_of : ℕ → CircuitSignal
circuit_signal_of status =
    if leb 500 status || status == 408
    then circuit_failure
    else if leb 100 status
    then circuit_success
    else circuit_none

unfoldable pub valid_text : Text → Text
valid_text value = if utf8_valid value then value else to_valid_utf8 value replacement

unfoldable pub error_text : Text → Text
error_text message =
    let result = to_valid_utf8 message replacement in
    if ltb 2048 (length result) then take 2048 result else result

unfoldable pub failed : ℕ → ℕ → Decision → CircuitSignal → Text → WebhookResult
unfolding error_text
failed started_at completed_at decision signal message = record {
  decision = decision;
  status_code = none;
  response_body = [];
  error_message = error_text message;
  circuit_signal = signal;
  duration = sub_ℕ completed_at started_at;
  started_at = started_at;
  completed_at = completed_at;
}

-- endpoint.SecretContext
abbrev pub secret_context : Text → Text
secret_context endpoint_id = codes "relayforge:endpoint:" ++ endpoint_id

-- Time.Unix
abbrev pub unix : ℕ → ℤ
unix t = sub_ℕ (t / 1000000000) 62135596800

-- What Deliver makes of a response.
unfoldable pub answered : ℕ → ℕ → ℕ → Response → WebhookResult
unfolding circuit_signal_of valid_text error_text
answered limit started_at completed_at response =
    let (bytes, read_error) = response.read (limit + 1) in
    record {
      decision = evaluate response.status_code false;
      status_code = some response.status_code;
      response_body = valid_text (if ltb limit (length bytes) then take limit bytes else bytes);
      error_message = elim read_error [
        | none ↦ []
        | some e ↦ error_text (codes "read webhook response: " ++ e)
      ];
      circuit_signal = circuit_signal_of response.status_code;
      duration = sub_ℕ completed_at started_at;
      started_at = started_at;
      completed_at = completed_at;
    }

module _ (wire : Wire) where
  unfoldable pub sign : Text → ℤ → Text → Text → Text
  sign secret timestamp delivery_id body =
      codes "v1="
      ++ wire.hex (
          wire.hmac_sha256 secret
            (wire.format_int timestamp ++ (codes "." ++ (delivery_id ++ (codes "." ++ body)))))

  unfoldable pub post_of : ℕ → Text → WebhookRequest → Post
  unfolding sign
  post_of started_at secret input = record {
    url = input.target_url;
    headers =
        (codes "Content-Type", codes "application/json")
        ∷ (codes "User-Agent", codes "RelayForge/1.0")
        ∷ (codes "X-RelayForge-Delivery", input.delivery_id)
        ∷ (codes "X-RelayForge-Event-ID", input.event_id)
        ∷ (codes "X-RelayForge-Event", input.event_type)
        ∷ (codes "X-RelayForge-Timestamp", wire.format_int (unix started_at))
        ∷ (
          codes "X-RelayForge-Signature",
          sign secret (unix started_at) input.delivery_id input.payload,
        )
        ∷ [];
    body = input.payload;
    timeout = input.timeout;
  }

  -- Deliver
  unfoldable pub deliver : Bool → ℕ → ℕ → ℕ → WebhookRequest → WebhookResult
  unfolding answered failed post_of
  deliver allow_http limit started_at completed_at input =
      let discarded = failed started_at completed_at Decision.discard circuit_none in
      elim (wire.decrypt input.secret_ciphertext (secret_context input.endpoint_id)) [
        | err e ↦ discarded (codes "decrypt endpoint secret: " ++ e)
        | ok secret ↦
            if input.timeout == 0
            then discarded (codes "endpoint timeout must be positive")
            else elim (wire.url_scheme input.target_url) [
              | err e ↦ discarded (codes "build webhook request: " ++ e)
              | ok scheme ↦
                  if not (text_eq scheme (codes "https"))
                    && (not allow_http || not (text_eq scheme (codes "http")))
                  then discarded (codes "webhook target must use HTTPS")
                  else elim (wire.send (post_of started_at secret input)) [
                    | err e ↦
                        failed started_at completed_at Decision.retry circuit_failure
                          (codes "send webhook: " ++ e)
                    | ok response ↦ answered limit started_at completed_at response
                  ]
            ]
      ]
