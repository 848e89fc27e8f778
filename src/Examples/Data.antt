-- ===== src/Examples/Data.antt =====
-- A database with one endpoint, one event and three deliveries: one under a lease, one waiting, one
-- dead; and calls on it.
use relayforge.Prelude.{true, ok, arith, ◌∷◌, [], some, none, false, refl, ◌≡◌}
use relayforge.Store.Tables.{
  scan_endpoint, scan_delivery, update_deliveries, DeliveryRow, Database, EndpointRow,
  check_delivery,
}
use relayforge.Store.Queue.{
  scan_job, record_leases, scan_leases, released, claimed, earliest, endpoint_open, is_claimable,
  is_expired, expired_leases, CircuitOutcome, recover_expired_leases, claim_next, Job,
  claim_delivery, Session, AttemptResult,
}
use relayforge.Prelude.Sorting.{sort_by}
use relayforge.Store.Queue.Recovery.{IsSoundDb}
use relayforge.Delivery.Policy.{Decision, evaluate}
use relayforge.Delivery.Model.{Status, Event}
use relayforge.Prelude.Int.{pos, ℤ}
use relayforge.Store.Queue.Validation.{validate_attempt_result_sound, IsAcceptable}
use relayforge.Prelude.Utf8.{storable}
use relayforge.Prelude.Text.{codes, text_eq, is_empty, Text, trim_space}
use relayforge.Store.Queue.Finish.{validate_attempt_result}

abbrev pub owner : EndpointRow
owner = record {
  id = codes "ep";
  name = codes "billing";
  url = codes "https://example.com/";
  secret_ciphertext = 1 ∷ [];
  timeout_ms = 5000;
  max_attempts = 3;
  consecutive_failures = 1;
  circuit_open_until = none;
  disabled_at = none;
  created_at = 100;
  updated_at = 100;
}

abbrev pub stored_event : Text → Event
stored_event id = record {
  id = id;
  endpoint_id = codes "ep";
  event_type = codes "invoice.paid";
  payload = codes "1";
  idempotency_key = id;
  created_at = 200;
}

abbrev pub waiting : DeliveryRow
waiting = record {
  id = codes "d2";
  event_id = codes "e2";
  endpoint_id = codes "ep";
  status = Status.pending;
  attempt_count = 0;
  max_attempts = 3;
  next_attempt_at = 300;
  locked_by = none;
  lease_token = none;
  locked_at = none;
  locked_until = none;
  last_status_code = none;
  last_error = [];
  last_completed_at = none;
  created_at = 200;
  updated_at = 200;
}

pub name-storable : storable (trim_space (codes "w2")) ≡ true
unfolding storable trim_space
name-storable = refl

abbrev pub leased : DeliveryRow
leased = record waiting {
  id = codes "d1";
  event_id = codes "e1";
  status = Status.processing;
  attempt_count = 1;
  locked_by = some (codes "w1");
  lease_token = some (codes "t1");
  locked_at = some 400;
  locked_until = some 5000000400;
}

abbrev pub given_up : DeliveryRow
given_up = record waiting {
  id = codes "d3";
  event_id = codes "e3";
  status = Status.dead;
  attempt_count = 3;
}

abbrev pub tables : Database
tables = record {
  endpoints = owner ∷ [];
  events = stored_event (codes "e1") ∷ stored_event (codes "e2") ∷ stored_event (codes "e3") ∷ [];
  deliveries = leased ∷ waiting ∷ given_up ∷ [];
  attempts = [];
}

pub tables-IsSoundDb : IsSoundDb tables
unfolding check_delivery text_eq storable
tables-IsSoundDb = record {
  rows = (
    record { checked = refl; attempted = λ e. omega arith },
    (
      record { checked = refl; attempted = λ e. absurd (cc) },
      (record { checked = refl; attempted = λ e. absurd (cc) }, tt),
    ),
  );
  unique = ((refl, (refl, tt)), ((refl, tt), (tt, tt)));
}

abbrev pub session : Session
session = record {
  now = 2000000000;
  held_at_recovery = λ _. false;
  held_at_claim = λ _. false;
  lease_token = codes "t2";
  attempt_ids = λ n. n ∷ [];
}

abbrev pub lease : ℤ
lease = pos 1000000000

pub named : is_empty (trim_space (codes "w2")) ≡ false
unfolding trim_space
named = refl

abbrev pub taken_row : DeliveryRow
taken_row = record waiting {
  status = Status.processing;
  attempt_count = 1;
  locked_by = some (codes "w2");
  lease_token = some (codes "t2");
  locked_at = some 2000000000;
  locked_until = some 3000000000;
  updated_at = 2000000000;
}

abbrev pub claimed_tables : Database
claimed_tables = record tables { deliveries = leased ∷ taken_row ∷ given_up ∷ [] }

abbrev pub job : Job
job = record {
  delivery = record {
    id = codes "d2";
    event_id = codes "e2";
    endpoint_id = codes "ep";
    status = Status.processing;
    attempt_count = 1;
    max_attempts = 3;
    next_attempt_at = 300;
    locked_by = codes "w2";
    lease_token = codes "t2";
    locked_at = some 2000000000;
    locked_until = some 3000000000;
    last_status_code = none;
    last_error = [];
    last_completed_at = none;
    created_at = 200;
    updated_at = 2000000000;
  };
  event = stored_event (codes "e2");
  endpoint = record {
    id = codes "ep";
    name = codes "billing";
    url = codes "https://example.com/";
    secret_ciphertext = 1 ∷ [];
    timeout = 5000000000;
    max_attempts = 3;
    consecutive_failures = 1;
    disabled_at = none;
    circuit_open_until = none;
    created_at = 100;
    updated_at = 100;
  };
}

pub claim_returns : claim_delivery session (codes "w2") lease tables ≡ ok (claimed_tables, some job)
unfolding claim_delivery claim_next recover_expired_leases update_deliveries expired_leases sort_by
    is_expired is_claimable endpoint_open earliest claimed released scan_leases record_leases
    scan_job scan_delivery scan_endpoint check_delivery text_eq trim_space storable
claim_returns = refl

abbrev pub answer : AttemptResult
answer = record {
  delivery_id = codes "d1";
  worker_id = codes "w1";
  lease_token = codes "t1";
  attempt_number = 1;
  decision = Decision.succeed;
  status_code = some 200;
  response_body = codes "ok";
  error_message = [];
  duration = pos 7;
  started_at = 410;
  completed_at = 417;
  next_attempt_at = 0;
  circuit_outcome = CircuitOutcome.success;
  circuit_threshold = 0;
  circuit_cooldown = pos 0;
}

pub answer-valid : validate_attempt_result answer ≡ ok tt
unfolding validate_attempt_result trim_space evaluate
answer-valid = refl

pub answer-IsAcceptable : IsAcceptable answer
answer-IsAcceptable = validate_attempt_result_sound answer answer-valid
