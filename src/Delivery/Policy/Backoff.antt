-- ===== src/Delivery/Policy/Backoff.antt =====
-- The delay between attempts: capped exponential growth, whatever the floating point numbers do.
use relayforge.Prelude.Int.{ltz}
use relayforge.Prelude.{if◌then◌else◌}
use relayforge.Prelude.{
  ℕ, zero, suc, ◌+◌, ◌*◌, ◌/◌, ◌^◌, ◌≤◌, ◌<◌, min, ◌≡◌, false, ok, arith, leb, if◌then◌else◌,
  Bool-cases, inl, inr, leb→le,
}
use native.Mathlib.Nat.{pow-suc, pow-zero, one-le-pow}
use relayforge.Prelude.Int.{ℤ, pos, ◌≤ℤ◌}
use relayforge.Delivery.Policy.{
  Floats, RetryPolicy, backoff, capped_backoff, new_retry_policy, next_delay,
}

double_pow : (a k : ℕ) → a * 2 * 2 ^ k ≡ a * 2 ^ suc k
double_pow a k = rw (pow-suc) (omega arith)

pow_positive : (k : ℕ) → 1 ≤ 2 ^ k
pow_positive k = one-le-pow k 2 (omega arith)

far_double : (d k : ℕ) → d * 2 ≤ d * 2 ^ suc k
far_double d k = rw (pow-suc) (grind (arith, pow_positive k))

backoff_bounds :
    (limit rounds delay : ℕ)
    → delay ≤ limit
    → (min (delay * 2 ^ rounds) limit ≤ backoff limit rounds delay)
      × (backoff limit rounds delay ≤ min (delay * 2 ^ rounds + 1) limit)
unfolding backoff
backoff_bounds limit zero delay k = rw pow-zero (omega arith)
backoff_bounds limit (suc rounds) delay k = elim (Bool-cases (leb (limit / 2) delay)) [
  | inl far ↦ rw far (omega (arith, far_double delay rounds, leb→le (limit / 2) delay far))
  | inr near ↦
      rw (near, ← double_pow delay rounds) (backoff_bounds limit rounds (delay * 2) (ground arith))
]

-- For a base that does not exceed the limit, the delay before jitter of attempt `n + 1` is at least
-- the smaller of the limit and `base * 2 ^ n`, at most the limit, and at most one nanosecond above
-- `base * 2 ^ n`.
pub capped_backoff_exponential :
    (base limit n : ℕ)
    → base ≤ limit
    → (min (base * 2 ^ n) limit ≤ capped_backoff base limit (suc n))
      × (capped_backoff base limit (suc n) ≤ min (base * 2 ^ n + 1) limit)
unfolding capped_backoff
capped_backoff_exponential base limit n h = ground (arith, backoff_bounds limit n base h)

capped-le : (limit : ℕ) (d : ℤ) → (if ltz (pos limit) d then pos limit else d) ≤ℤ pos limit
capped-le limit d = ground arith

-- Under any floating point arithmetic, the delay never exceeds the policy's maximum.
pub next_delay_capped :
    {F : Type 0} (float : Floats F) (p : RetryPolicy F) (attempt : ℕ) (sample : F)
    → next_delay float p attempt sample ≤ℤ pos p.max
unfolding next_delay
next_delay_capped float p attempt sample = capped-le p.max _

-- A policy that NewRetryPolicy accepts has a positive base that does not exceed its maximum, both as
-- given, and a jitter that is neither below 0 nor above 1.
pub new_retry_policy_sound :
    {F : Type 0} (float : Floats F) (base limit : ℤ) (jitter : F) {p : RetryPolicy F}
    → new_retry_policy float base limit jitter ≡ ok p
    → (base ≡ pos p.base)
      × (limit ≡ pos p.max)
      × (0 < p.base)
      × (p.base ≤ p.max)
      × (p.jitter ≡ jitter)
      × (float.less p.jitter (float.of_ℕ 0) ≡ false)
      × (float.less (float.of_ℕ 1) p.jitter ≡ false)
unfolding new_retry_policy
new_retry_policy_sound float base limit jitter e = ground arith
