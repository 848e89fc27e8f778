-- ===== src/Worker.antt =====
-- internal/worker/pool.go: the settings of a pool, and one attempt of a worker. Whether the context
-- is cancelled, the random sample and the dispatcher's result are arguments; log lines and metrics
-- are left out.
pub mod Process
pub mod Pool
use relayforge.Prelude.{
  refuse, Result, ◌>>◌, err, ok, if◌then◌else◌, some, none, ◌||◌, false, true, Bool, ℕ,
}
use relayforge.Prelude.Int.{pos_part, ℤ, pos, lez, ltz, add_duration}
use relayforge.Prelude.Text.{Text}
use relayforge.Delivery.Policy.{Decision, decision_eq, Floats, RetryPolicy, next_delay}
use relayforge.Store.Tables.{Database, StoreError}
use relayforge.Store.Queue.{
  Job, Session, AttemptResult, CircuitOutcome, unchanged, failure, success, claim_delivery,
}
use relayforge.Store.Queue.Finish.{finish_attempt}
use relayforge.Delivery.Model.{Status}
use relayforge.Webhook.Dispatcher.{
  WebhookRequest, WebhookResult, CircuitSignal, circuit_none, circuit_failure, circuit_success,
}

pub record Config (F : Type 0) : Type 0 where
  pub concurrency : ℤ
  pub poll_interval : ℤ
  pub lease_duration : ℤ
  pub finish_timeout : ℤ
  pub retry_policy : RetryPolicy F
  pub circuit_threshold : ℤ
  pub circuit_cooldown : ℤ

pub data ConfigError : Type 0 where
  concurrency_not_positive durations_not_positive invalid_circuit : ConfigError

-- New, as the test of its settings.
unfoldable pub new : {F : Type 0} → Config F → Result ConfigError (Config F)
new config = do
  refuse (ltz config.concurrency (pos 1)) concurrency_not_positive
  refuse
      (lez config.poll_interval (pos 0)
        || lez config.lease_duration (pos 0)
        || lez config.finish_timeout (pos 0))
      durations_not_positive
  refuse (ltz config.circuit_threshold (pos 1) || lez config.circuit_cooldown (pos 0))
      invalid_circuit
  ok config

-- The request that process hands to the dispatcher.
unfoldable pub request_of : Job → WebhookRequest
request_of job = record {
  delivery_id = job.delivery.id;
  event_id = job.event.id;
  endpoint_id = job.endpoint.id;
  event_type = job.event.event_type;
  target_url = job.endpoint.url;
  secret_ciphertext = job.endpoint.secret_ciphertext;
  payload = job.event.payload;
  timeout = job.endpoint.timeout;
}

-- The switch on the circuit signal, which is left out once the context is cancelled.
unfoldable pub outcome_of : Bool → CircuitSignal → CircuitOutcome
outcome_of true signal = unchanged
outcome_of false circuit_none = unchanged
outcome_of false circuit_failure = failure
outcome_of false circuit_success = success

abbrev pub is_failing : CircuitOutcome → Bool
is_failing failure = true
is_failing _ = false

module _ {F : Type 0} (float : Floats F) (config : Config F) where
  -- The result that process hands to FinishAttempt.
  unfoldable pub result_of : Text → Job → Bool → F → WebhookResult → AttemptResult
  unfolding outcome_of decision_eq
  result_of worker_id job cancelled sample r =
      let outcome = outcome_of cancelled r.circuit_signal in
      record {
        delivery_id = job.delivery.id;
        worker_id = worker_id;
        lease_token = job.delivery.lease_token;
        attempt_number = job.delivery.attempt_count;
        decision = r.decision;
        status_code = r.status_code;
        response_body = r.response_body;
        error_message = r.error_message;
        duration = r.duration;
        started_at = r.started_at;
        completed_at = r.completed_at;
        next_attempt_at =
            if decision_eq r.decision Decision.retry
            then add_duration r.completed_at
                (next_delay float config.retry_policy job.delivery.attempt_count sample)
            else 0;
        circuit_outcome = outcome;
        circuit_threshold = if is_failing outcome then pos_part config.circuit_threshold else 0;
        circuit_cooldown = if is_failing outcome then config.circuit_cooldown else pos 0;
      }

  -- process
  unfoldable pub process :
      (WebhookRequest → WebhookResult)
      → ℕ
      → Text
      → Text
      → Job
      → Bool
      → F
      → Database
      → Result StoreError (Database × Status)
  unfolding result_of request_of
  process dispatcher now id worker_id job cancelled sample db =
      finish_attempt now id (result_of worker_id job cancelled sample (dispatcher (request_of job)))
        db

  -- What a worker does in a round of its loop, apart from waiting: nothing, or an attempt, whose
  -- error is logged.
  pub data Round : Type 0 where
    failed_claim : StoreError → Round
    empty_queue : Round
    attempted : Job → Result StoreError Status → Round

  -- A round of runWorker: the tables after it, and what it did.
  unfoldable pub run_round :
      (WebhookRequest → WebhookResult)
      → Session
      → ℕ
      → Text
      → Text
      → Bool
      → F
      → Database
      → Database × Round
  unfolding process
  run_round dispatcher s now id worker_id cancelled sample db =
      elim (claim_delivery s worker_id config.lease_duration db) [
        | err e ↦ (db, failed_claim e)
        | ok (claimed_db, none) ↦ (claimed_db, empty_queue)
        | ok (claimed_db, some job) ↦
            elim (process dispatcher now id worker_id job cancelled sample claimed_db) [
              | err e ↦ (claimed_db, attempted job (err e))
              | ok (db', status) ↦ (db', attempted job (ok status))
            ]
      ]
