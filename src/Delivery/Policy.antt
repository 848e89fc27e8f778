-- ===== src/Delivery/Policy.antt =====
-- internal/delivery/policy.go. Floating point numbers are a parameter; `base` and `max` of a policy
-- are positive once NewRetryPolicy has returned it, and are held as numbers of nanoseconds.
pub mod Backoff
use relayforge.Prelude.{
  ℕ, zero, suc, ◌-◌, ◌*◌, ◌/◌, Bool, true, false, ◌&&◌, ◌||◌, ltb, leb, ◌==◌, if◌then◌else◌, Result,
  ok, ◌>>=◌, ◌>>◌, refuse,
}
use relayforge.Prelude.Int.{ℤ, pos, pos_part, ltz, lez}

pub data Decision : Type 0 where
  succeed retry discard : Decision

unfoldable pub decision_eq : Decision → Decision → Bool
decision_eq Decision.succeed Decision.succeed = true
decision_eq Decision.retry Decision.retry = true
decision_eq Decision.discard Decision.discard = true
decision_eq _ _ = false

-- The operations of `float64` that the package uses, with the conversions from and to durations.
pub record Floats (F : Type 0) : Type 0 where
  pub of_ℕ : ℕ → F
  pub add : F → F → F
  pub sub : F → F → F
  pub mul : F → F → F
  pub less : F → F → Bool
  pub of_duration : ℕ → F
  pub to_duration : F → ℤ

pub record RetryPolicy (F : Type 0) : Type 0 where
  pub base : ℕ
  pub max : ℕ
  pub jitter : F

pub data PolicyError : Type 0 where
  base_not_positive max_below_base jitter_out_of_range : PolicyError

-- The loop of NextDelay, with `rounds` rounds left.
unfoldable pub backoff : ℕ → ℕ → ℕ → ℕ
backoff limit zero delay = delay
backoff limit (suc rounds) delay =
    let doubled = backoff limit rounds (delay * 2) in
    if leb (limit / 2) delay then limit else doubled

-- NextDelay up to the point where the jitter comes in.
unfoldable pub capped_backoff : ℕ → ℕ → ℕ → ℕ
unfolding backoff
capped_backoff base limit attempt =
    let current = if ltb attempt 1 then 1 else attempt in
    let delay = backoff limit (current - 1) base in if ltb limit delay then limit else delay

module _ {F : Type 0} (float : Floats F) where
  open float use {of_ℕ, add, sub, mul, less, of_duration, to_duration}

  unfoldable pub new_retry_policy : ℤ → ℤ → F → Result PolicyError (RetryPolicy F)
  new_retry_policy base limit jitter = do
    refuse (lez base (pos 0)) base_not_positive
    refuse (ltz limit base) max_below_base
    refuse (less jitter (of_ℕ 0) || less (of_ℕ 1) jitter) jitter_out_of_range
    ok (record { base = pos_part base; max = pos_part limit; jitter = jitter })

  -- The sample forced into [0, 1].
  unfoldable pub clamp_sample : F → F
  clamp_sample sample =
      let raised = if less sample (of_ℕ 0) then of_ℕ 0 else sample in
      if less (of_ℕ 1) raised then of_ℕ 1 else raised

  unfoldable pub next_delay : RetryPolicy F → ℕ → F → ℤ
  unfolding capped_backoff clamp_sample
  next_delay p attempt sample =
      let delay = capped_backoff p.base p.max attempt in
      let factor =
        add (of_ℕ 1) (mul (sub (mul (clamp_sample sample) (of_ℕ 2)) (of_ℕ 1)) p.jitter) in
      let result = to_duration (mul (of_duration delay) factor) in
      if ltz (pos p.max) result then pos p.max else result

-- Evaluate; `failed` says that the request returned an error.
unfoldable pub evaluate : ℕ → Bool → Decision
evaluate status_code failed =
    if failed
    then retry
    else if leb 200 status_code && ltb status_code 300
    then succeed
    else if status_code == 408 || status_code == 425 || status_code == 429 || leb 500 status_code
    then retry
    else discard

-- ValidateMaxAttempts: whether it returns no error.
unfoldable pub validate_max_attempts : ℕ → Bool
validate_max_attempts attempts = if ltb attempts 1 || ltb 100 attempts then false else true
