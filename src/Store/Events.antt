-- ===== src/Store/Events.antt =====
-- internal/store/events.go, and the parameters of internal/eventing/service.go: storing an event once
-- with its delivery. A payload is stored as the text that
-- PostgreSQL prints its jsonb value as.
pub mod Storing
pub mod Idempotency
pub mod Soundness
use relayforge.Prelude.{
  ◌>>◌, ◌>>=◌, ok, [], none, Option, ◌&&◌, not, true, Bool, ◌≡◌, ℕ, guard, upsert, is_some, refuse,
  find?, or_fail, Result,
}
use relayforge.Store.Tables.{
  scan_delivery, check_delivery, idempotency_conflict, constraint_violated, event_endpoint_disabled,
  endpoint_not_found, StoreError, DeliveryRow, Database,
}
use relayforge.Delivery.Model.{Status, Delivery, Event}
use relayforge.Prelude.Text.{text_eq, Text}
use relayforge.Prelude.Utf8.{storable}

-- PostgreSQL's jsonb: the conversion of a text, which fails on what is no JSON, to the text that the
-- value is printed as, and the equality of the values, for which 1 and 1.0 are equal although their
-- texts are not.
pub record Jsonb : Type 0 where
  pub convert : Text → Option Text
  pub equal : Text → Text → Bool
  pub equal_sym : (a b : Text) → equal a b ≡ true → equal b a ≡ true
  pub equal_trans : (a b c : Text) → equal a b ≡ true → equal b c ≡ true → equal a c ≡ true

pub record EnqueueParams : Type 0 where
  pub event_id : Text
  pub delivery_id : Text
  pub endpoint_id : Text
  pub event_type : Text
  pub payload : Text
  pub idempotency_key : Text

pub record Enqueued : Type 0 where
  pub event : Event
  pub delivery : Delivery
  pub duplicate : Bool

-- The conflict target of the first insert.
unfoldable pub same_key : Text → Text → Event → Bool
same_key endpoint_id key e = text_eq e.endpoint_id endpoint_id && text_eq e.idempotency_key key

unfoldable pub new_event : ℕ → EnqueueParams → Text → Event
new_event now p payload = record {
  id = p.event_id;
  endpoint_id = p.endpoint_id;
  event_type = p.event_type;
  payload = payload;
  idempotency_key = p.idempotency_key;
  created_at = now;
}

-- The row of the second insert, with the table's defaults.
unfoldable pub new_delivery : ℕ → EnqueueParams → Text → ℕ → DeliveryRow
new_delivery now p event_id max_attempts = record {
  id = p.delivery_id;
  event_id = event_id;
  endpoint_id = p.endpoint_id;
  status = Status.pending;
  attempt_count = 0;
  max_attempts = max_attempts;
  next_attempt_at = now;
  locked_by = none;
  lease_token = none;
  locked_at = none;
  locked_until = none;
  last_status_code = none;
  last_error = [];
  last_completed_at = none;
  created_at = now;
  updated_at = now;
}

-- EnqueueEvent. PostgreSQL refuses the texts of an event that it cannot store before it looks for the
-- key.
unfoldable pub enqueue_event :
    Jsonb → ℕ → EnqueueParams → Database → Result StoreError (Database × Enqueued)
unfolding same_key new_event new_delivery
enqueue_event jsonb now p db = do
  endpoint ← or_fail (find? (λ e. text_eq e.id p.endpoint_id) db.endpoints) endpoint_not_found
  refuse (is_some endpoint.disabled_at) event_endpoint_disabled
  guard (storable p.event_type && storable p.idempotency_key) constraint_violated
  payload ← or_fail (jsonb.convert p.payload) constraint_violated
  let stored = upsert (same_key p.endpoint_id p.idempotency_key) (new_event now p payload) db.events
  guard (text_eq stored.1.event_type p.event_type && jsonb.equal stored.1.payload payload)
      idempotency_conflict
  let row = new_delivery now p stored.1.id endpoint.max_attempts
  let queued = upsert (λ d. text_eq d.event_id stored.1.id) row db.deliveries
  guard (check_delivery queued.1) constraint_violated
  ok (
    record db { events = stored.0; deliveries = queued.0 },
    record {
      event = stored.1;
      delivery = scan_delivery queued.1;
      duplicate = not (text_eq stored.1.id p.event_id);
    },
  )
