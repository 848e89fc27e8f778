-- ===== src/Examples/Tables.antt =====
-- Events, replays and counts on the sample database.
use relayforge.Store.Events.{Jsonb}
use relayforge.Prelude.{true, ◌∙◌, sym}
use relayforge.Prelude.Text.{text_eq_iff}
use relayforge.Prelude.{err, ok, ◌++◌, ◌∷◌, [], some, none, false, inr, refl, ◌≡◌, find?}
use relayforge.Prelude.Utf8.{storable}
use relayforge.Store.Tables.{
  check_endpoint, scan_endpoint, update_endpoints, EndpointRow, check_delivery,
  idempotency_conflict, DeliveryRow, scan_delivery, Database,
}
use relayforge.Store.Endpoints.{disable_endpoint}
use relayforge.Prelude.Text.{codes, text_eq}
use relayforge.Delivery.Model.{Delivery, Status, Event}
use relayforge.Examples.Data.{owner, given_up, tables, waiting}
use relayforge.Store.Events.Idempotency.{enqueue_event_conflict}
use relayforge.Store.Events.{Enqueued, enqueue_event, EnqueueParams}

-- Every text is JSON, and equal as jsonb to itself only.
abbrev pub plain : Jsonb
plain = record {
  convert = λ t. some t;
  equal = text_eq;
  equal_sym = λ a b h. (text_eq_iff b a).1 (sym ((text_eq_iff a b).0 h));
  equal_trans = λ a b c h k. (text_eq_iff a c).1 ((text_eq_iff a b).0 h ∙ (text_eq_iff b c).0 k);
}

abbrev pub request : EnqueueParams
request = record {
  event_id = codes "e4";
  delivery_id = codes "d4";
  endpoint_id = codes "ep";
  event_type = codes "invoice.paid";
  payload = codes "2";
  idempotency_key = codes "k4";
}

abbrev pub fresh_event : Event
fresh_event = record {
  id = codes "e4";
  endpoint_id = codes "ep";
  event_type = codes "invoice.paid";
  payload = codes "2";
  idempotency_key = codes "k4";
  created_at = 900;
}

abbrev fresh_row : DeliveryRow
fresh_row = record waiting {
  id = codes "d4";
  event_id = codes "e4";
  next_attempt_at = 900;
  created_at = 900;
  updated_at = 900;
}

abbrev pub enqueued_tables : Database
enqueued_tables = record tables {
  events = tables.events ++ fresh_event ∷ [];
  deliveries = tables.deliveries ++ fresh_row ∷ [];
}

abbrev pub fresh_delivery : Delivery
fresh_delivery = record {
  id = codes "d4";
  event_id = codes "e4";
  endpoint_id = codes "ep";
  status = Status.pending;
  attempt_count = 0;
  max_attempts = 3;
  next_attempt_at = 900;
  locked_by = [];
  lease_token = [];
  locked_at = none;
  locked_until = none;
  last_status_code = none;
  last_error = [];
  last_completed_at = none;
  created_at = 900;
  updated_at = 900;
}

abbrev pub enqueued : Enqueued
enqueued = record { event = fresh_event; delivery = fresh_delivery; duplicate = false }

enqueue_returns : enqueue_event plain 900 request tables ≡ ok (enqueued_tables, enqueued)
unfolding enqueue_event text_eq check_delivery scan_delivery storable
enqueue_returns = refl

abbrev other_request : EnqueueParams
other_request = record request {
  event_id = codes "e5";
  delivery_id = codes "d5";
  payload = codes "3";
}

payloads_apart : text_eq (codes "2") (codes "3") ≡ false
unfolding text_eq
payloads_apart = refl

type_fits : storable other_request.event_type ≡ true
unfolding storable
type_fits = refl

enqueue_event_conflict_example :
    enqueue_event plain 950 other_request enqueued_tables ≡ err idempotency_conflict
enqueue_event_conflict_example =
    enqueue_event_conflict plain 900 950 request other_request tables enqueued_tables enqueued
      (codes "2") (codes "3") enqueue_returns type_fits refl refl refl refl (inr payloads_apart)

found_dead : find? (λ d. text_eq d.id (codes "d3")) tables.deliveries ≡ some given_up
unfolding text_eq
found_dead = refl

found_owner : find? (λ e. text_eq e.id (codes "ep")) tables.endpoints ≡ some owner
unfolding text_eq
found_owner = refl

abbrev disabled_owner : EndpointRow
disabled_owner = record owner { disabled_at = some 900; updated_at = 900 }

abbrev disabled_tables : Database
disabled_tables = record tables { endpoints = disabled_owner ∷ [] }

disable_returns :
    disable_endpoint 900 (codes "ep") tables ≡ ok (disabled_tables, scan_endpoint disabled_owner)
unfolding disable_endpoint update_endpoints check_endpoint text_eq storable
disable_returns = refl
