-- ===== src/Store/Queue/Finish.antt =====
-- internal/store/queue.go: FinishAttempt and validateAttemptResult.
use relayforge.Prelude.{
  ℕ, ◌+◌, max, Bool, true, false, not, ◌&&◌, ◌||◌, none, some, ltb, leb, ◌==◌, if◌then◌else◌,
  Result, ok, err, ◌>>=◌, ◌>>◌, guard, refuse, or_fail, is_none, test_option, find?,
}
use relayforge.Prelude.Int.{ℤ, pos, ltz, whole_ms, from_ms, int32_max, add_duration}
use relayforge.Prelude.Text.{Text, text_eq, is_empty, trim_space}
use relayforge.Delivery.Model.{Status, status_eq}
use relayforge.Delivery.Policy.{Decision, decision_eq, evaluate}
use relayforge.Store.Tables.{
  EndpointRow, DeliveryRow, AttemptRow, Database, StoreError, constraint_violated, lease_lost,
  invalid_result, ResultError, delivery_id_missing, worker_id_missing, lease_token_missing,
  attempt_out_of_range, status_out_of_range, message_missing, status_missing, decision_mismatch,
  negative_duration, bad_timestamps, next_attempt_too_early, bad_circuit, update_deliveries,
  update_endpoints, insert_attempt,
}
use relayforge.Prelude.Utf8.{storable}
use relayforge.Store.Queue.{
  AttemptResult, CircuitOutcome, unchanged, failure, success, duration_milliseconds,
}

unfoldable pub is_failure : CircuitOutcome → Bool
is_failure failure = true
is_failure _ = false

unfoldable pub validate_attempt_result : AttemptResult → Result ResultError (Unit {0})
unfolding decision_eq is_failure
validate_attempt_result r = do
  refuse (is_empty (trim_space r.delivery_id)) delivery_id_missing
  refuse (is_empty (trim_space r.worker_id)) worker_id_missing
  refuse (is_empty (trim_space r.lease_token)) lease_token_missing
  refuse (ltb r.attempt_number 1 || ltb int32_max r.attempt_number) attempt_out_of_range
  refuse (test_option false (λ code. ltb code 100 || ltb 599 code) r.status_code)
      status_out_of_range
  refuse (is_none r.status_code && is_empty (trim_space r.error_message)) message_missing
  refuse (is_none r.status_code && decision_eq r.decision Decision.succeed) status_missing
  refuse
      (test_option false (λ code. not (decision_eq (evaluate code false) r.decision)) r.status_code)
      decision_mismatch
  refuse (ltz r.duration (pos 0)) negative_duration
  refuse (r.started_at == 0 || r.completed_at == 0 || ltb r.completed_at r.started_at)
      bad_timestamps
  refuse (decision_eq r.decision Decision.retry && not (ltb r.completed_at r.next_attempt_at))
      next_attempt_too_early
  refuse
      (is_failure r.circuit_outcome
        && (ltb r.circuit_threshold 1 || ltz r.circuit_cooldown (pos 1000000)))
      bad_circuit

-- The WHERE of the update.
unfoldable pub holds_lease : AttemptResult → DeliveryRow → Bool
unfolding status_eq
holds_lease r d =
    text_eq d.id r.delivery_id
    && status_eq d.status Status.processing
    && test_option false (λ worker. text_eq worker r.worker_id) d.locked_by
    && test_option false (λ token. text_eq token r.lease_token) d.lease_token
    && d.attempt_count == r.attempt_number

-- The status that the update sets.
unfoldable pub next_status : Decision → DeliveryRow → Status
next_status Decision.succeed d = Status.succeeded
next_status Decision.retry d =
    if ltb d.attempt_count d.max_attempts then Status.retrying else Status.dead
next_status Decision.discard d = Status.dead

-- Its SET as a whole.
unfoldable pub finished : ℕ → AttemptResult → DeliveryRow → DeliveryRow
unfolding next_status decision_eq
finished now r d = record d {
  status = next_status r.decision d;
  next_attempt_at =
      if decision_eq r.decision Decision.retry && ltb d.attempt_count d.max_attempts
      then r.next_attempt_at
      else d.next_attempt_at;
  locked_by = none;
  lease_token = none;
  locked_at = none;
  locked_until = none;
  last_status_code = r.status_code;
  last_error = r.error_message;
  last_completed_at = some r.completed_at;
  updated_at = now;
}

-- The row that is inserted into `delivery_attempts`.
unfoldable pub attempt_row : Text → AttemptResult → AttemptRow
attempt_row id r = record {
  id = id;
  delivery_id = r.delivery_id;
  attempt_number = r.attempt_number;
  status_code = r.status_code;
  response_body = r.response_body;
  error_message = r.error_message;
  duration_ms = duration_milliseconds r.duration;
  started_at = r.started_at;
  completed_at = r.completed_at;
}

-- The SET for a failed endpoint.
unfoldable pub circuit_failed : ℕ → ℕ → ℤ → EndpointRow → EndpointRow
circuit_failed now threshold cooldown e = record e {
  consecutive_failures = e.consecutive_failures + 1;
  circuit_open_until =
      if leb threshold (e.consecutive_failures + 1)
      then some (
          max (elim e.circuit_open_until [ none ↦ now | some until ↦ until ])
            (add_duration now (from_ms (whole_ms cooldown))))
      else e.circuit_open_until;
  updated_at = now;
}

-- The SET for an endpoint that answered.
unfoldable pub circuit_succeeded : ℕ → EndpointRow → EndpointRow
circuit_succeeded now e = record e {
  consecutive_failures = 0;
  circuit_open_until = none;
  updated_at = now;
}

-- The switch on the circuit outcome.
unfoldable pub update_circuit :
    ℕ → CircuitOutcome → ℕ → ℤ → Text → Database → Result StoreError Database
unfolding circuit_failed circuit_succeeded
update_circuit now unchanged threshold cooldown endpoint_id db = ok db
update_circuit now failure threshold cooldown endpoint_id db =
    update_endpoints (λ e. text_eq e.id endpoint_id) (circuit_failed now threshold cooldown) db
update_circuit now success threshold cooldown endpoint_id db =
    update_endpoints (λ e. text_eq e.id endpoint_id) (circuit_succeeded now) db

abbrev pub as_store_error {ℓ} : {A : Type ℓ} → Result ResultError A → Result StoreError A
as_store_error (ok a) = ok a
as_store_error (err e) = err (invalid_result e)

-- FinishAttempt; `id` is the fresh identifier of the attempt. PostgreSQL refuses the texts that it
-- cannot store before it looks for the lease.
unfoldable pub finish_attempt :
    ℕ → Text → AttemptResult → Database → Result StoreError (Database × Status)
unfolding validate_attempt_result holds_lease finished attempt_row update_circuit
finish_attempt now id r db = do
  as_store_error (validate_attempt_result r)
  guard (storable r.worker_id && storable r.error_message) constraint_violated
  d ← or_fail (find? (holds_lease r) db.deliveries) lease_lost
  updated ← update_deliveries (holds_lease r) (finished now r) db
  recorded ← insert_attempt (attempt_row id r) updated
  done ←
      update_circuit now r.circuit_outcome r.circuit_threshold r.circuit_cooldown d.endpoint_id
        recorded
  ok (done, (finished now r d).status)
