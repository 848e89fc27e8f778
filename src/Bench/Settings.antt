-- ===== src/Bench/Settings.antt =====
-- Which settings a benchmark runs with.
use relayforge.Prelude.{
  Bool-cases, Option-cases, Result-cases, ok, if◌then◌else◌, arith, List, ◌||◌, false, true, inr,
  inl, ◌≡◌,
}
use relayforge.Prelude.Text.{trim_space, Text, codes, is_empty}
use relayforge.Bench.{BenchConfig, CommandLine, parse_config}
use relayforge.Prelude.Int.{◌≤ℤ◌, ℤ, pos, ltz, lez}
use relayforge.Eventing.{matches_event_type}

pub record IsRunnable (line : CommandLine) (c : BenchConfig) : Type 0 where
  pub token : is_empty c.api_key ≡ false
  pub endpoint : line.is_uuid c.endpoint_id ≡ true
  pub event_type : matches_event_type c.event_type ≡ true
  pub requests : (pos 1 ≤ℤ c.requests) × (c.requests ≤ℤ pos 1000000)
  pub concurrency :
      (pos 1 ≤ℤ c.concurrency) × (c.concurrency ≤ℤ pos 1000) × (c.concurrency ≤ℤ c.requests)
  pub timeout : lez c.request_timeout (pos 0) ≡ false

concurrency_range :
    (requests given : ℤ)
    → (ltz requests (pos 1) || ltz (pos 1000000) requests) ≡ false
    → (ltz given (pos 1) || ltz (pos 1000) given) ≡ false
    → let used = if ltz requests given then requests else given in
      (pos 1 ≤ℤ requests)
      × (requests ≤ℤ pos 1000000)
      × (pos 1 ≤ℤ used)
      × (used ≤ℤ pos 1000)
      × (used ≤ℤ requests)
concurrency_range requests given h k = elim (Bool-cases (ltz requests given)) [
  | inl fewer ↦ rw fewer (ground arith, ground arith, ground arith, ground arith, ground arith)
  | inr enough ↦ rw enough (ground arith, ground arith, ground arith, ground arith, ground arith)
]

-- The settings that parseConfig returns have a token, a well-formed identifier and event type, 1 to
-- 1000000 requests, no more workers than requests or 1000, and a positive timeout.
pub parse_config-IsRunnable :
    (line : CommandLine) (args : List Text) (getenv : Text → Text) (c : BenchConfig)
    → parse_config line args getenv ≡ ok c
    → IsRunnable line c
unfolding parse_config
parse_config-IsRunnable line args getenv c h =
    elim (Result-cases (line.parse_flags args (getenv (codes "RELAYFORGE_API_KEY")))) [
      | inr (x, e) ↦ absurd (ground (arith, e))
      | inl ((given, left), e) ↦ elim (Option-cases (line.parse_url (trim_space given.base_url))) [
        | inl f ↦ absurd (ground (arith, e, f))
        | inr (url, f) ↦
            let range =
              concurrency_range given.requests given.concurrency (ground (arith, e, f))
                (ground (arith, e, f)) in
            let used : c.concurrency ≡ (
                if ltz given.requests given.concurrency
                then given.requests
                else given.concurrency) =
              ground (arith, e, f) in
            let asked : c.requests ≡ given.requests = ground (arith, e, f) in
            record {
              token = ground (arith, e, f);
              endpoint = ground (arith, e, f);
              event_type = ground (arith, e, f);
              requests = rw asked (range.0, range.1);
              concurrency = rw (used, asked) (range.2, range.3, range.4);
              timeout = ground (arith, e, f);
            }
      ]
    ]
