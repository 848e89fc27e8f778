-- ===== src/Examples/Policies.antt =====
-- Retry policies and the life of a delivery.
use relayforge.Prelude.{ok, arith, refl, ◌≡◌, ◌≤◌, ◌*◌, ◌-◌, ◌+◌, ℕ, ltb, ◌^◌, min}
use relayforge.Delivery.Policy.Backoff.{capped_backoff_exponential}
use relayforge.Delivery.Policy.{capped_backoff, new_retry_policy, Floats, RetryPolicy}
use relayforge.Prelude.Int.{pos}

-- A stand-in for floating point numbers: whole numbers.
abbrev pub whole : Floats ℕ
whole = record {
  of_ℕ = λ n. n;
  add = ◌+◌;
  sub = ◌-◌;
  mul = ◌*◌;
  less = ltb;
  of_duration = λ d. d;
  to_duration = pos;
}

abbrev policy : RetryPolicy ℕ
policy = record { base = 1000; max = 5000; jitter = 1 }

policy_returns : new_retry_policy whole (pos 1000) (pos 5000) 1 ≡ ok policy
unfolding new_retry_policy
policy_returns = refl

capped_backoff_exponential_example :
    (min (1000 * 2 ^ 2) 5000 ≤ capped_backoff 1000 5000 3)
    × (capped_backoff 1000 5000 3 ≤ min (1000 * 2 ^ 2 + 1) 5000)
capped_backoff_exponential_example = capped_backoff_exponential 1000 5000 2 (omega arith)
