-- ===== src/Api/Views.antt =====
-- internal/api/endpoints.go, deliveries.go and events.go: what is shown of the records.
use relayforge.Prelude.Int.{whole_ms, ℤ}
use relayforge.Prelude.{◌/◌, map, [], List, Option, Bool, ℕ}
use relayforge.Prelude.Text.{Text}
use relayforge.Delivery.Model.{Status, Endpoint, Delivery, Attempt}
use relayforge.Store.Deliveries.{Details}
use relayforge.Store.Events.{Enqueued}

pub record EndpointResponse : Type 0 where
  pub id : Text
  pub name : Text
  pub url : Text
  pub secret : Text
  pub timeout_ms : ℕ
  pub max_attempts : ℕ
  pub consecutive_failures : ℕ
  pub circuit_open_until : Option ℕ
  pub disabled_at : Option ℕ
  pub created_at : ℕ
  pub updated_at : ℕ

pub record DeliveryResponse : Type 0 where
  pub id : Text
  pub event_id : Text
  pub endpoint_id : Text
  pub status : Status
  pub attempt_count : ℕ
  pub max_attempts : ℕ
  pub next_attempt_at : ℕ
  pub locked_until : Option ℕ
  pub last_status_code : Option ℕ
  pub last_error : Text
  pub last_completed_at : Option ℕ
  pub created_at : ℕ
  pub updated_at : ℕ

pub record EventResponse : Type 0 where
  pub id : Text
  pub endpoint_id : Text
  pub event_type : Text
  pub payload : Text
  pub idempotency_key : Text
  pub created_at : ℕ

pub record AttemptResponse : Type 0 where
  pub id : Text
  pub number : ℕ
  pub status_code : Option ℕ
  pub response_body : Text
  pub error_message : Text
  pub duration_ms : ℤ
  pub started_at : ℕ
  pub completed_at : ℕ

pub record DeliveryDetailsResponse : Type 0 where
  pub delivery : DeliveryResponse
  pub event : EventResponse
  pub attempts : List AttemptResponse

pub record PublishEventResponse : Type 0 where
  pub event_id : Text
  pub delivery_id : Text
  pub status : Status
  pub duplicate : Bool

-- endpointView; the secret stays empty.
unfoldable pub endpoint_view : Endpoint → EndpointResponse
endpoint_view value = record {
  id = value.id;
  name = value.name;
  url = value.url;
  secret = [];
  timeout_ms = value.timeout / 1000000;
  max_attempts = value.max_attempts;
  consecutive_failures = value.consecutive_failures;
  circuit_open_until = value.circuit_open_until;
  disabled_at = value.disabled_at;
  created_at = value.created_at;
  updated_at = value.updated_at;
}

unfoldable pub delivery_view : Delivery → DeliveryResponse
delivery_view value = record {
  id = value.id;
  event_id = value.event_id;
  endpoint_id = value.endpoint_id;
  status = value.status;
  attempt_count = value.attempt_count;
  max_attempts = value.max_attempts;
  next_attempt_at = value.next_attempt_at;
  locked_until = value.locked_until;
  last_status_code = value.last_status_code;
  last_error = value.last_error;
  last_completed_at = value.last_completed_at;
  created_at = value.created_at;
  updated_at = value.updated_at;
}

-- The bodies that getDelivery and publishEvent build.
unfoldable pub attempt_view : Attempt → AttemptResponse
attempt_view attempt = record {
  id = attempt.id;
  number = attempt.number;
  status_code = attempt.status_code;
  response_body = attempt.response_body;
  error_message = attempt.error_message;
  duration_ms = whole_ms attempt.duration;
  started_at = attempt.started_at;
  completed_at = attempt.completed_at;
}

unfoldable pub details_view : Details → DeliveryDetailsResponse
unfolding delivery_view attempt_view
details_view details = record {
  delivery = delivery_view details.delivery;
  event = record {
    id = details.event.id;
    endpoint_id = details.event.endpoint_id;
    event_type = details.event.event_type;
    payload = details.event.payload;
    idempotency_key = details.event.idempotency_key;
    created_at = details.event.created_at;
  };
  attempts = map attempt_view details.attempts;
}

unfoldable pub published_view : Enqueued → PublishEventResponse
published_view result = record {
  event_id = result.event.id;
  delivery_id = result.delivery.id;
  status = result.delivery.status;
  duplicate = result.duplicate;
}
