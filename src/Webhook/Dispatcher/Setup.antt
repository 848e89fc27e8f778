-- ===== src/Webhook/Dispatcher/Setup.antt =====
-- internal/webhook/dispatcher.go: NewDispatcher and Close. The resolver, the dialer and the clock that
-- stand in for missing options belong to the standard library; the settings of the HTTP client are data
-- here, and redirects are answers to it.
use relayforge.Prelude.{
  if◌then◌else◌, arith, length, take, ltb, ◌≤◌, ◌*◌, ◌+◌, ℕ, Bool, true, false, none, some, Option,
  ◌∷◌, [], Bool-cases, inl, inr, length-take-le, ◌++◌,
}
use relayforge.Prelude.Int.{ℤ, pos, pos_part, ltz}
use relayforge.Prelude.Text.{Text, codes}
use relayforge.Prelude.Utf8.{to_valid_utf8, replacement, utf8_valid, length-to_valid_utf8-le}
use relayforge.Delivery.Policy.{Decision}
use relayforge.Webhook.Dispatcher.Results.{deliver-cases}
use relayforge.Webhook.Dispatcher.{
  CircuitSignal, Wire, WebhookRequest, WebhookResult, Response, deliver, answered, failed,
  valid_text, error_text,
}

pub record Options : Type 0 where
  pub allow_http : Bool
  pub allow_private_targets : Bool
  pub response_limit : ℤ

-- http.Transport, as far as it is set; times in nanoseconds.
pub record Transport : Type 0 where
  pub uses_proxy : Bool
  pub dials_private_targets : Bool
  pub force_attempt_http2 : Bool
  pub max_idle_conns : ℕ
  pub max_idle_conns_per_host : ℕ
  pub idle_conn_timeout : ℕ
  pub tls_handshake_timeout : ℕ
  pub min_tls_version : ℕ
  pub expect_continue_timeout : ℕ
  pub max_response_header_bytes : ℕ

pub record Dispatcher : Type 0 where
  pub allow_http : Bool
  pub response_limit : ℕ
  pub transport : Transport
  pub follows_redirects : Bool

unfoldable pub new_dispatcher : Options → Dispatcher
new_dispatcher options = record {
  allow_http = options.allow_http;
  response_limit =
      if ltz options.response_limit (pos 1) then 32768 else pos_part options.response_limit;
  transport = record {
    uses_proxy = false;
    dials_private_targets = options.allow_private_targets;
    force_attempt_http2 = true;
    max_idle_conns = 100;
    max_idle_conns_per_host = 10;
    idle_conn_timeout = 90000000000;
    tls_handshake_timeout = 10000000000;
    min_tls_version = 0x0303;
    expect_continue_timeout = 1000000000;
    max_response_header_bytes = 65536;
  };
  follows_redirects = false;
}

valid_text-le : (s : Text) → length (valid_text s) ≤ 3 * length s
unfolding valid_text
valid_text-le s = elim (Bool-cases (utf8_valid s)) [
  | inl fine ↦ rw fine (omega arith)
  | inr broken ↦ rw broken (length-to_valid_utf8-le s)
]

error_text-le : (s : Text) → length (error_text s) ≤ 2048
unfolding error_text
error_text-le s = elim (Bool-cases (ltb 2048 (length (to_valid_utf8 s replacement)))) [
  | inl long ↦ rw long (length-take-le 2048 (to_valid_utf8 s replacement))
  | inr short ↦ rw short (ground arith)
]

-- A result whose texts are no longer than the limits allow.
pub record IsBounded (limit : ℕ) (r : WebhookResult) : Type 0 where
  pub body : length r.response_body ≤ 3 * limit
  pub message : length r.error_message ≤ 2048

cut-le : (limit : ℕ) (s : Text) → length (if ltb limit (length s) then take limit s else s) ≤ limit
cut-le limit s = elim (Bool-cases (ltb limit (length s))) [
  | inl long ↦ rw long (length-take-le limit s)
  | inr short ↦ rw short (ground arith)
]

read_error-le :
    (o : Option Text)
    → length {A = ℕ} (elim o as (λ _. Text) [
      | none ↦ []
      | some e ↦ error_text (codes "read webhook response: " ++ e)
    ])
      ≤ 2048
read_error-le none = omega arith
read_error-le (some e) = error_text-le (codes "read webhook response: " ++ e)

answered-IsBounded :
    (limit started_at completed_at : ℕ) (response : Response)
    → IsBounded limit (answered limit started_at completed_at response)
unfolding answered
answered-IsBounded limit started_at completed_at response =
    let (bytes, read_error) = response.read (limit + 1) in
    record {
      body = omega (
        arith,
        valid_text-le (if ltb limit (length bytes) then take limit bytes else bytes),
        cut-le limit bytes,
      );
      message = read_error-le read_error;
    }

failed-IsBounded :
    (limit started_at completed_at : ℕ) (decision : Decision) (signal : CircuitSignal) (s : Text)
    → IsBounded limit (failed started_at completed_at decision signal s)
unfolding failed
failed-IsBounded limit started_at completed_at decision signal s = record {
  body = omega arith;
  message = error_text-le s;
}

-- A dispatcher has a limit of at least one byte on what it takes of a response, and whatever the client
-- answers, the body of a result of Deliver has at most three times as many bytes, and its message at
-- most 2048.
pub deliver-IsBounded :
    (wire : Wire) (options : Options) (started_at completed_at : ℕ) (input : WebhookRequest)
    → let d = new_dispatcher options in
      (1 ≤ d.response_limit)
      × IsBounded d.response_limit
          (deliver wire d.allow_http d.response_limit started_at completed_at input)
unfolding new_dispatcher
deliver-IsBounded wire options started_at completed_at input =
    let d = new_dispatcher options in
    (
      ground arith,
      deliver-cases wire (λ r. IsBounded d.response_limit r) d.allow_http d.response_limit
          started_at completed_at input
          (λ decision signal b s g not_succeed.
            failed-IsBounded d.response_limit started_at completed_at decision signal (b ∷ s))
          (λ post response sent.
            answered-IsBounded d.response_limit started_at completed_at response),
    )
