-- ===== src/Store/Queue/Validation.antt =====
-- What validateAttemptResult guarantees.
use relayforge.Prelude.{
  true, Option-cases, ◌↔◌, inl, inr, ℕ, ◌≤◌, ◌<◌, ◌≡◌, ◌≢◌, false, not, ◌||◌, Option, none, some,
  arith, ok, ltb, test_option,
}
use relayforge.Prelude.Utf8.{storable}
use relayforge.Prelude.Text.{Text, trim_space, is_empty, is_empty-trim_space}
use relayforge.Store.Queue.Finish.{attempt_row, validate_attempt_result, is_failure}
use relayforge.Store.Tables.{check_attempt}
use relayforge.Prelude.Int.{ℤ, pos, negsuc, ltz, int32_max, ◌≤ℤ◌}
use relayforge.Delivery.Policy.{Decision, decision_eq, evaluate}
use relayforge.Store.Queue.{AttemptResult, failure, duration_milliseconds}

-- The number of milliseconds of a duration that is not negative fits a PostgreSQL integer.
pub duration_milliseconds_range :
    (d : ℤ)
    → ltz d (pos 0) ≡ false
    → (pos 0 ≤ℤ duration_milliseconds d) × (duration_milliseconds d ≤ℤ pos int32_max)
unfolding duration_milliseconds
duration_milliseconds_range (pos n) h = ground arith
duration_milliseconds_range (negsuc n) h = absurd (ground arith)

-- A result that may be stored, in words of its own.
pub record IsAcceptable (r : AttemptResult) : Type 0 where
  pub delivery_named : is_empty (trim_space r.delivery_id) ≡ false
  pub worker_named : is_empty (trim_space r.worker_id) ≡ false
  pub lease_named : is_empty (trim_space r.lease_token) ≡ false
  pub attempt_range : (1 ≤ r.attempt_number) × (r.attempt_number ≤ int32_max)
  pub answered :
      (code : ℕ)
      → r.status_code ≡ some code
      → (100 ≤ code) × (code ≤ 599) × (evaluate code false ≡ r.decision)
  pub unanswered :
      r.status_code ≡ none
      → (is_empty (trim_space r.error_message) ≡ false) × (r.decision ≢ Decision.succeed)
  pub lasted : pos 0 ≤ℤ r.duration
  pub started : 0 < r.started_at
  pub in_order : r.started_at ≤ r.completed_at
  pub retry_later : r.decision ≡ Decision.retry → r.completed_at < r.next_attempt_at
  pub circuit :
      r.circuit_outcome ≡ failure → (1 ≤ r.circuit_threshold) × (pos 1000000 ≤ℤ r.circuit_cooldown)

answered_of :
    (status : Option ℕ) (decision : Decision)
    → test_option false (λ code. ltb code 100 || ltb 599 code) status ≡ false
    → test_option false (λ code. not (decision_eq (evaluate code false) decision)) status ≡ false
    → (code : ℕ) → status ≡ some code
    → (100 ≤ code) × (code ≤ 599) × (evaluate code false ≡ decision)
unfolding decision_eq
answered_of status decision range match code e = ground arith

-- validateAttemptResult lets through acceptable results only.
pub validate_attempt_result_sound :
    (r : AttemptResult) → validate_attempt_result r ≡ ok tt → IsAcceptable r
unfolding validate_attempt_result decision_eq is_failure
validate_attempt_result_sound r h = record {
  delivery_named = ground arith;
  worker_named = ground arith;
  lease_named = ground arith;
  attempt_range = ground arith;
  answered = answered_of r.status_code r.decision (ground arith) (ground arith);
  unanswered = λ e. ground arith;
  lasted = ground arith;
  started = ground arith;
  in_order = ground arith;
  retry_later = λ e. ground arith;
  circuit = λ e. ground arith;
}

match_of :
    (code : ℕ) (decision : Decision)
    → evaluate code false ≡ decision
    → not (decision_eq (evaluate code false) decision) ≡ false
unfolding decision_eq
match_of code decision e = rw e (ground arith)

-- validateAttemptResult lets every acceptable result through.
pub validate_attempt_result_complete :
    (r : AttemptResult) → IsAcceptable r → validate_attempt_result r ≡ ok tt
unfolding validate_attempt_result decision_eq is_failure
validate_attempt_result_complete r a = elim (Option-cases r.status_code) [
  | inl e ↦ ground (arith, a.unanswered e)
  | inr (code, e) ↦ ground (arith, a.answered code e, match_of code r.decision)
]

-- validateAttemptResult lets a result through exactly if it is acceptable.
pub validate_attempt_result_iff :
    (r : AttemptResult) → (validate_attempt_result r ≡ ok tt) ↔ IsAcceptable r
validate_attempt_result_iff r =
    (validate_attempt_result_sound r, validate_attempt_result_complete r)

-- The row of an acceptable result whose texts can be stored meets every constraint of the table of
-- attempts.
pub attempt_row-check :
    (id : Text) (r : AttemptResult)
    → IsAcceptable r
    → storable r.response_body ≡ true
    → storable r.error_message ≡ true
    → check_attempt (attempt_row id r) ≡ true
unfolding check_attempt attempt_row
attempt_row-check id r a body message = elim (Option-cases r.status_code) [
  | inl e ↦ ground (
    arith,
    a.unanswered e,
    is_empty-trim_space r.error_message,
    duration_milliseconds_range r.duration,
  )
  | inr (code, e) ↦ ground (arith, a.answered code e, duration_milliseconds_range r.duration)
]
