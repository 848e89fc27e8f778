-- ===== src/Worker/Process.antt =====
-- Rounds of a worker: claim, deliver, finish.
use relayforge.Prelude.Int.{add_duration, pos_part, ℤ, pos, ◌≤ℤ◌, int32_max}
use relayforge.Delivery.Policy.{decision_eq, Decision, Floats, next_delay}
use relayforge.Worker.{is_failing, Config, result_of}
use relayforge.Prelude.{if◌then◌else◌, arith, false, Bool, ◌≡◌, ◌<◌, ◌≤◌, ℕ}
use relayforge.Prelude.Text.{Text, trim_space, is_empty}
use relayforge.Store.Queue.{Job, CircuitOutcome, failure}
use relayforge.Store.Queue.Validation.{IsAcceptable}
use relayforge.Webhook.Dispatcher.{WebhookResult}
use relayforge.Webhook.Dispatcher.Results.{IsDelivered}

-- A job whose identifiers are not blank.
pub record IsNamed (job : Job) : Type 0 where
  pub delivery_named : is_empty (trim_space job.delivery.id) ≡ false
  pub lease_named : is_empty (trim_space job.delivery.lease_token) ≡ false

retry_moves :
    (decision : Decision) (at : ℕ) (delay : ℤ)
    → decision ≡ Decision.retry
    → pos 1 ≤ℤ delay
    → at < (if decision_eq decision Decision.retry then add_duration at delay else 0)
unfolding decision_eq
retry_moves decision at delay e h = ground arith

circuit_ready :
    (outcome : CircuitOutcome) (threshold cooldown : ℤ)
    → outcome ≡ failure
    → pos 1 ≤ℤ threshold
    → pos 1000000 ≤ℤ cooldown
    → (1 ≤ (if is_failing outcome then pos_part threshold else 0))
      × (pos 1000000 ≤ℤ (if is_failing outcome then cooldown else pos 0))
circuit_ready outcome threshold cooldown e h k = ground arith

module _ {F : Type 0} (float : Floats F) (config : Config F)
    (threshold : pos 1 ≤ℤ config.circuit_threshold)
    (cooldown : pos 1000000 ≤ℤ config.circuit_cooldown) where
  -- With a circuit threshold and a cooldown that are large enough, process hands to FinishAttempt a
  -- result that it accepts, if the dispatcher tells of an answer or a failure and the delay before a
  -- retry is positive.
  pub result_of-IsAcceptable :
      (worker_id : Text) (job : Job) (cancelled : Bool) (sample : F) (r : WebhookResult)
      → IsNamed job
      → is_empty (trim_space worker_id) ≡ false
      → (1 ≤ job.delivery.attempt_count) × (job.delivery.attempt_count ≤ int32_max)
      → IsDelivered r
      → 0 < r.started_at
      → pos 1 ≤ℤ next_delay float config.retry_policy job.delivery.attempt_count sample
      → IsAcceptable (result_of float config worker_id job cancelled sample r)
  unfolding result_of
  result_of-IsAcceptable worker_id job cancelled sample r n named range d started delay = record {
    delivery_named = n.delivery_named;
    worker_named = named;
    lease_named = n.lease_named;
    attempt_range = range;
    answered = d.answered;
    unanswered = d.unanswered;
    lasted = d.lasted;
    started = started;
    in_order = d.in_order;
    retry_later = λ e. retry_moves r.decision r.completed_at _ e delay;
    circuit =
        λ e. circuit_ready _ config.circuit_threshold config.circuit_cooldown e threshold cooldown;
  }
