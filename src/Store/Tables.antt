-- ===== src/Store/Tables.antt =====
-- migrations/001_init.up.sql: the rows, their constraints, and what a row scans to. An identifier
-- is the canonical text of a UUID; a fresh one differs from all others. Foreign keys are no
-- checks here: the transactions refer to rows that they have just read or written.
pub mod Keys
use relayforge.Prelude.{
  ℕ, ◌*◌, Bool, true, false, not, ◌&&◌, ◌||◌, List, [], ◌∷◌, ◌++◌, Option, none, some, ltb, leb,
  ◌==◌, if◌then◌else◌, Result, ok, ◌>>◌, guard, is_none, is_some, test_option, update, all_of,
  any_of,
}
use relayforge.Prelude.Int.{ℤ, pos, from_ms, lez, int32_max}
use relayforge.Prelude.Text.{Text, text_eq, is_empty, between}
use relayforge.Prelude.Utf8.{storable}
use relayforge.Delivery.Model.{Status, status_eq, Endpoint, Event, Delivery, Attempt}

pub record EndpointRow : Type 0 where
  pub id : Text
  pub name : Text
  pub url : Text
  pub secret_ciphertext : Text
  pub timeout_ms : ℕ
  pub max_attempts : ℕ
  pub consecutive_failures : ℕ
  pub circuit_open_until : Option ℕ
  pub disabled_at : Option ℕ
  pub created_at : ℕ
  pub updated_at : ℕ

pub record DeliveryRow : Type 0 where
  pub id : Text
  pub event_id : Text
  pub endpoint_id : Text
  pub status : Status
  pub attempt_count : ℕ
  pub max_attempts : ℕ
  pub next_attempt_at : ℕ
  pub locked_by : Option Text
  pub lease_token : Option Text
  pub locked_at : Option ℕ
  pub locked_until : Option ℕ
  pub last_status_code : Option ℕ
  pub last_error : Text
  pub last_completed_at : Option ℕ
  pub created_at : ℕ
  pub updated_at : ℕ

pub record AttemptRow : Type 0 where
  pub id : Text
  pub delivery_id : Text
  pub attempt_number : ℕ
  pub status_code : Option ℕ
  pub response_body : Text
  pub error_message : Text
  pub duration_ms : ℤ
  pub started_at : ℕ
  pub completed_at : ℕ

-- The order of a table's rows stands for the one in which PostgreSQL meets them.
pub record Database : Type 0 where
  pub endpoints : List EndpointRow
  pub events : List Event
  pub deliveries : List DeliveryRow
  pub attempts : List AttemptRow

-- The refusals of validateAttemptResult, in the order of its checks.
pub data ResultError : Type 0 where
  delivery_id_missing worker_id_missing lease_token_missing attempt_out_of_range : ResultError
  status_out_of_range message_missing status_missing decision_mismatch : ResultError
  negative_duration bad_timestamps next_attempt_too_early bad_circuit : ResultError

-- `constraint_violated` is an error of PostgreSQL, `scan_failed` one of reading a NULL.
pub data StoreError : Type 0 where
  constraint_violated scan_failed : StoreError
  worker_id_required lease_too_short lease_lost : StoreError
  invalid_result : ResultError → StoreError
  delivery_not_found delivery_endpoint_disabled not_replayable : StoreError
  endpoint_not_found event_endpoint_disabled idempotency_conflict : StoreError

abbrev pub same : Bool → Bool → Bool
same true b = b
same false b = not b

-- The CHECK constraints and the integer range of a row of `deliveries`, and the encoding of the name
-- of its worker.
unfoldable pub check_delivery : DeliveryRow → Bool
unfolding status_eq
check_delivery d =
    leb 1 d.max_attempts
    && leb d.max_attempts int32_max
    && leb d.attempt_count d.max_attempts
    && test_option true (between 100 599) d.last_status_code
    && same (is_none d.locked_by) (is_none d.lease_token)
    && same (is_none d.locked_by) (is_none d.locked_at)
    && same (is_none d.locked_by) (is_none d.locked_until)
    && same (status_eq d.status Status.processing) (is_some d.locked_by)
    && test_option true (λ until. test_option true (λ at. ltb at until) d.locked_at) d.locked_until
    && test_option true storable d.locked_by

-- Those of a row of `endpoints`, and the encoding of its texts.
unfoldable pub check_endpoint : EndpointRow → Bool
check_endpoint e =
    between 100 30000 e.timeout_ms
    && between 1 100 e.max_attempts
    && leb e.consecutive_failures int32_max
    && storable e.name
    && storable e.url

-- Those of a row of `delivery_attempts`, and the encoding of its texts.
unfoldable pub check_attempt : AttemptRow → Bool
check_attempt a =
    leb 1 a.attempt_number
    && leb a.attempt_number int32_max
    && test_option true (between 100 599) a.status_code
    && lez (pos 0) a.duration_ms
    && leb a.started_at a.completed_at
    && (is_some a.status_code || not (is_empty a.error_message))
    && storable a.response_body
    && storable a.error_message

-- Whether two rows clash on UNIQUE (delivery_id, attempt_number).
unfoldable pub same_attempt : Text → ℕ → AttemptRow → Bool
same_attempt delivery_id number a = text_eq a.delivery_id delivery_id && a.attempt_number == number

-- UPDATE deliveries SET f WHERE p: refused if a new row violates a constraint.
unfoldable pub update_deliveries :
    (DeliveryRow → Bool) → (DeliveryRow → DeliveryRow) → Database → Result StoreError Database
update_deliveries p f db = do
  guard (all_of (λ d. if p d then check_delivery (f d) else true) db.deliveries) constraint_violated
  ok (record db { deliveries = update p f db.deliveries })

unfoldable pub update_endpoints :
    (EndpointRow → Bool) → (EndpointRow → EndpointRow) → Database → Result StoreError Database
update_endpoints p f db = do
  guard (all_of (λ e. if p e then check_endpoint (f e) else true) db.endpoints) constraint_violated
  ok (record db { endpoints = update p f db.endpoints })

-- INSERT INTO delivery_attempts.
unfoldable pub insert_attempt : AttemptRow → Database → Result StoreError Database
unfolding same_attempt
insert_attempt a db = do
  guard (check_attempt a) constraint_violated
  guard (not (any_of (same_attempt a.delivery_id a.attempt_number) db.attempts)) constraint_violated
  ok (record db { attempts = db.attempts ++ a ∷ [] })

-- The same with ON CONFLICT (delivery_id, attempt_number) DO NOTHING.
unfoldable pub insert_attempt_once : AttemptRow → Database → Result StoreError Database
unfolding same_attempt
insert_attempt_once a db = do
  guard (check_attempt a) constraint_violated
  ok (
      if any_of (same_attempt a.delivery_id a.attempt_number) db.attempts
      then db
      else record db { attempts = db.attempts ++ a ∷ [] })

-- NULL reads as the empty text.
abbrev pub text_or_empty : Option Text → Text
text_or_empty none = []
text_or_empty (some t) = t

-- scanDelivery
unfoldable pub scan_delivery : DeliveryRow → Delivery
scan_delivery d = record {
  id = d.id;
  event_id = d.event_id;
  endpoint_id = d.endpoint_id;
  status = d.status;
  attempt_count = d.attempt_count;
  max_attempts = d.max_attempts;
  next_attempt_at = d.next_attempt_at;
  locked_by = text_or_empty d.locked_by;
  lease_token = text_or_empty d.lease_token;
  locked_at = d.locked_at;
  locked_until = d.locked_until;
  last_status_code = d.last_status_code;
  last_error = d.last_error;
  last_completed_at = d.last_completed_at;
  created_at = d.created_at;
  updated_at = d.updated_at;
}

-- scanEndpoint
unfoldable pub scan_endpoint : EndpointRow → Endpoint
scan_endpoint e = record {
  id = e.id;
  name = e.name;
  url = e.url;
  secret_ciphertext = e.secret_ciphertext;
  timeout = e.timeout_ms * 1000000;
  max_attempts = e.max_attempts;
  consecutive_failures = e.consecutive_failures;
  disabled_at = e.disabled_at;
  circuit_open_until = e.circuit_open_until;
  created_at = e.created_at;
  updated_at = e.updated_at;
}

-- The scan of a row of `delivery_attempts` in GetDelivery.
unfoldable pub scan_attempt : AttemptRow → Attempt
scan_attempt a = record {
  id = a.id;
  delivery_id = a.delivery_id;
  number = a.attempt_number;
  status_code = a.status_code;
  response_body = a.response_body;
  error_message = a.error_message;
  duration = from_ms a.duration_ms;
  started_at = a.started_at;
  completed_at = a.completed_at;
}
