-- ===== src/Eventing.antt =====
-- internal/eventing/service.go: the checks of Publish before an event is stored. The tests of
-- uuid.Parse and json.Valid, and PostgreSQL's conversion to jsonb, are parameters.
pub mod Publishing
use relayforge.Store.Events.{Jsonb}
use relayforge.Prelude.Utf8.{rune_count, utf8_valid}
use relayforge.Prelude.{
  leb, Result, ◌>>◌, ◌>>=◌, if◌then◌else◌, ◌==◌, ◌∷◌, [], Option, ◌||◌, ◌&&◌, not, false, Bool, ℕ,
  ok, err, length, all_of, ltb, refuse, guard,
}
use relayforge.Prelude.Text.{Text, between, is_empty, trim_space}
use relayforge.Store.Tables.{Database, StoreError}
use relayforge.Store.Events.{EnqueueParams, Enqueued, enqueue_event}

pub record PublishInput : Type 0 where
  pub endpoint_id : Text
  pub event_type : Text
  pub payload : Text
  pub idempotency_key : Text

pub data PublishError : Type 0 where
  malformed_endpoint_id unsafe_event_type bad_payload bad_idempotency_key : PublishError
  enqueue_failed : StoreError → PublishError

unfoldable pub maximum_payload_bytes : ℕ
maximum_payload_bytes = 1048576

abbrev pub is_alphanumeric : ℕ → Bool
is_alphanumeric b = between 65 90 b || between 97 122 b || between 48 57 b

-- Letters, digits, and the characters . _ : -
abbrev pub is_safe : ℕ → Bool
is_safe b = is_alphanumeric b || b == 46 || b == 95 || b == 58 || b == 45

-- eventTypePattern
unfoldable pub matches_event_type : Text → Bool
matches_event_type [] = false
matches_event_type (b ∷ s) = is_alphanumeric b && all_of is_safe s && leb (length s) 99

-- A rune below 32, or 127, is a byte of its own.
unfoldable pub valid_idempotency_key : Text → Bool
unfolding rune_count
valid_idempotency_key value =
    if is_empty value || not (utf8_valid value) || ltb 200 (rune_count value)
    then false
    else all_of (λ b. not (ltb b 32 || b == 127)) value

-- The parameters that Publish hands to the store, with fresh identifiers.
unfoldable pub params_of : PublishInput → Text → Text → EnqueueParams
params_of input event_id delivery_id = record {
  event_id = event_id;
  delivery_id = delivery_id;
  endpoint_id = input.endpoint_id;
  event_type = trim_space input.event_type;
  payload = input.payload;
  idempotency_key = trim_space input.idempotency_key;
}

abbrev pub as_publish_error {ℓ} : {A : Type ℓ} → Result StoreError A → Result PublishError A
as_publish_error (ok a) = ok a
as_publish_error (err e) = err (enqueue_failed e)

module _ (is_uuid is_json : Text → Bool) (jsonb : Jsonb) where
  -- The checks of Publish.
  unfoldable pub check_input : PublishInput → Result PublishError (Unit {0})
  unfolding maximum_payload_bytes
  check_input input = do
    guard (is_uuid input.endpoint_id) malformed_endpoint_id
    guard (matches_event_type (trim_space input.event_type)) unsafe_event_type
    refuse
        (length input.payload == 0
          || ltb maximum_payload_bytes (length input.payload)
          || not (is_json input.payload))
        bad_payload
    guard (valid_idempotency_key (trim_space input.idempotency_key)) bad_idempotency_key

  unfoldable pub publish :
      ℕ → Text → Text → PublishInput → Database → Result PublishError (Database × Enqueued)
  unfolding check_input params_of
  publish now event_id delivery_id input db = do
    check_input input
    as_publish_error (enqueue_event jsonb now (params_of input event_id delivery_id) db)
