-- ===== src/Examples/History.antt =====
-- A short history: an endpoint, an event for it, and a claim.
use relayforge.Prelude.{ok, ◌∷◌, [], some, none, Option, true, refl, ◌≡◌, Memᴰ}
use relayforge.Store.Queue.{
  scan_job, record_leases, scan_leases, released, claimed, earliest, is_expired, expired_leases,
  CircuitOutcome, recover_expired_leases, claim_next, endpoint_open, is_claimable, claim_delivery,
  Job, AttemptResult,
}
use relayforge.Prelude.Sorting.{sort_by}
use relayforge.Store.History.Progress.{claim_delivery-progress}
use relayforge.Store.Events.{Enqueued, enqueue_event, EnqueueParams}
use relayforge.Store.Tables.{
  update_deliveries, scan_delivery, check_endpoint, check_delivery, Database, DeliveryRow,
  EndpointRow, scan_endpoint,
}
use relayforge.Prelude.Int.{pos}
use relayforge.Delivery.Policy.{Decision}
use relayforge.Store.History.Invariant.{History-keeps}
use relayforge.Store.Evolution.{Grows}
use relayforge.Store.History.{no_rows, History, Step}
use relayforge.Store.Endpoints.{create_endpoint}
use relayforge.Prelude.Utf8.{storable}
use relayforge.Prelude.Text.{codes, text_eq, trim_space}
use relayforge.Delivery.Model.{Status, Endpoint}
use relayforge.Examples.Tables.{plain}
use relayforge.Examples.Data.{session, lease, named, name-storable}

abbrev pub shop : Endpoint
shop = record {
  id = codes "ep";
  name = codes "shop";
  url = codes "https://shop.example/";
  secret_ciphertext = 1 ∷ [];
  timeout = 5000000000;
  max_attempts = 3;
  consecutive_failures = 0;
  disabled_at = none;
  circuit_open_until = none;
  created_at = 0;
  updated_at = 0;
}

abbrev shop_row : EndpointRow
shop_row = record {
  id = codes "ep";
  name = codes "shop";
  url = codes "https://shop.example/";
  secret_ciphertext = 1 ∷ [];
  timeout_ms = 5000;
  max_attempts = 3;
  consecutive_failures = 0;
  circuit_open_until = none;
  disabled_at = none;
  created_at = 100;
  updated_at = 100;
}

abbrev opened : Database
opened = record no_rows { endpoints = shop_row ∷ [] }

shop-opened : create_endpoint 100 shop no_rows ≡ ok (opened, scan_endpoint shop_row)
unfolding create_endpoint check_endpoint storable scan_endpoint
shop-opened = refl

abbrev order : EnqueueParams
order = record {
  event_id = codes "e1";
  delivery_id = codes "d1";
  endpoint_id = codes "ep";
  event_type = codes "order.paid";
  payload = codes "2";
  idempotency_key = codes "k1";
}

abbrev order_row : DeliveryRow
order_row = record {
  id = codes "d1";
  event_id = codes "e1";
  endpoint_id = codes "ep";
  status = Status.pending;
  attempt_count = 0;
  max_attempts = 3;
  next_attempt_at = 200;
  locked_by = none;
  lease_token = none;
  locked_at = none;
  locked_until = none;
  last_status_code = none;
  last_error = [];
  last_completed_at = none;
  created_at = 200;
  updated_at = 200;
}

abbrev pub ordered : Database
ordered = record opened {
  events =
      record {
        id = codes "e1";
        endpoint_id = codes "ep";
        event_type = codes "order.paid";
        payload = codes "2";
        idempotency_key = codes "k1";
        created_at = 200;
      }
      ∷ [];
  deliveries = order_row ∷ [];
}

order_stored : (e : Enqueued) × (enqueue_event plain 200 order opened ≡ ok (ordered, e))
unfolding enqueue_event text_eq check_delivery scan_delivery storable
order_stored = (_, refl)

pub past : History plain no_rows ordered
past =
    History.step
      (History.step History.begin
        (Step.create 100 shop opened (scan_endpoint shop_row) shop-opened))
      (Step.enqueue 200 order ordered order_stored.0 tt order_stored.1)

abbrev under_way : DeliveryRow
under_way = record order_row {
  status = Status.processing;
  attempt_count = 1;
  locked_by = some (codes "w2");
  lease_token = some (codes "t2");
  locked_at = some 2000000000;
  locked_until = some 3000000000;
  updated_at = 2000000000;
}

abbrev claimed_order : Database
claimed_order = record ordered { deliveries = under_way ∷ [] }

order_claimed :
    (job : Option Job) × (claim_delivery session (codes "w2") lease ordered
      ≡ ok (claimed_order, job))
unfolding claim_delivery claim_next recover_expired_leases update_deliveries expired_leases sort_by
    is_expired is_claimable endpoint_open earliest claimed released scan_leases record_leases
    scan_job scan_delivery scan_endpoint check_delivery text_eq trim_space storable
order_claimed = (_, refl)

abbrev the_claim : Step plain ordered claimed_order
the_claim = Step.claim session (codes "w2") lease claimed_order order_claimed.0 order_claimed.1

History-keeps_example :
    (e : DeliveryRow) × Memᴰ e claimed_order.deliveries
    × Grows order_row e
    × (order_row.status ≡ Status.succeeded → e.status ≡ Status.succeeded)
History-keeps_example =
    History-keeps plain ordered claimed_order order_row past (History.step History.begin the_claim)
      (Memᴰ.head refl)

order_claimable : is_claimable 2000000000 ordered.endpoints order_row ≡ true
unfolding is_claimable endpoint_open text_eq
order_claimable = refl

claim_delivery-progress_example :
    (db' : Database) × (job : Job) × (claim_delivery session (codes "w2") lease ordered
      ≡ ok (db', some job))
claim_delivery-progress_example =
    claim_delivery-progress plain ordered past session (codes "w2") lease order_row named
      name-storable refl (Memᴰ.head refl) order_claimable refl

abbrev answered : AttemptResult
answered = record {
  delivery_id = codes "d1";
  worker_id = codes "w2";
  lease_token = codes "t2";
  attempt_number = 1;
  decision = Decision.succeed;
  status_code = some 200;
  response_body = codes "ok";
  error_message = [];
  duration = pos 7;
  started_at = 410;
  completed_at = 417;
  next_attempt_at = 0;
  circuit_outcome = CircuitOutcome.success;
  circuit_threshold = 0;
  circuit_cooldown = pos 0;
}
