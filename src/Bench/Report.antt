-- ===== src/Bench/Report.antt =====
-- cmd/relaybench/main.go: the counters of the report, and the latencies.
use relayforge.Prelude.{
  ltb, length, if◌then◌else◌, ◌==◌, ◌++◌, ◌∷◌, [], List, some, none, Option, not, ◌-◌, ◌+◌, suc,
  zero, ℕ,
}
use relayforge.Prelude.Sorting.{sort_by}
use relayforge.Bench.{Sample}
use relayforge.Delivery.Policy.{Floats}
use relayforge.Prelude.Int.{ℤ, pos, negsuc}
use relayforge.Prelude.Text.{Text, codes, is_empty, text_eq}

-- A map from texts to counts.
abbrev pub Counts : Type 0
Counts = List (Text × ℕ)

-- counts[key]++
unfoldable pub bump : Text → Counts → Counts
bump key [] = (key, 1) ∷ []
bump key ((k, n) ∷ rest) =
    let later = bump key rest in if text_eq k key then (k, n + 1) ∷ rest else (k, n) ∷ later

-- counts[key] = n
unfoldable pub assign : Text → ℕ → Counts → Counts
assign key n [] = (key, n) ∷ []
assign key n ((k, old) ∷ rest) =
    let later = assign key n rest in if text_eq k key then (k, n) ∷ rest else (k, old) ∷ later

-- The counters of report, with the latencies in the order of the results.
pub record Tally : Type 0 where
  pub completed : ℕ
  pub accepted : ℕ
  pub failed : ℕ
  pub status_codes : Counts
  pub errors : Counts
  pub latencies : List ℕ

module _ (itoa : ℕ → Text) where
  -- A round of the loop over the results.
  unfoldable pub count_sample : Sample → Tally → Tally
  unfolding bump
  count_sample s t = record {
    completed = t.completed + 1;
    accepted = if is_empty s.error then t.accepted + 1 else t.accepted;
    failed = if is_empty s.error then t.failed else t.failed + 1;
    status_codes =
        if not (s.status == 0) then bump (itoa s.status) t.status_codes else t.status_codes;
    errors = if is_empty s.error then t.errors else bump s.error t.errors;
    latencies = t.latencies ++ s.duration ∷ [];
  }

  unfoldable pub count_samples : List Sample → Tally → Tally
  unfolding count_sample
  count_samples [] t = t
  count_samples (s ∷ ss) t = count_samples ss (count_sample s t)

  -- run, from the results to the counters of its report.
  unfoldable pub tally_of : ℕ → List Sample → Tally
  unfolding count_samples assign
  tally_of requested samples =
      let t = count_samples samples (record {
        completed = 0;
        accepted = 0;
        failed = 0;
        status_codes = [];
        errors = [];
        latencies = [];
      }) in
      if ltb t.completed requested
      then record t {
        failed = t.failed + (requested - t.completed);
        errors = assign (codes "not started") (requested - t.completed) t.errors;
      }
      else t

-- values[index]; nothing stands for a panic.
abbrev pub get_elem? : List ℕ → ℕ → Option ℕ
get_elem? [] n = none
get_elem? (x ∷ xs) zero = some x
get_elem? (x ∷ xs) (suc n) = get_elem? xs n

pub record Percentiles : Type 0 where
  pub shortest : ℕ
  pub p50 : ℕ
  pub p95 : ℕ
  pub p99 : ℕ
  pub longest : ℕ

-- int(math.Ceil(x)), and the constants 0.50, 0.95 and 0.99.
pub record Quantiles (F : Type 0) : Type 0 where
  pub ceil_to_int : F → ℤ
  pub half : F
  pub most : F
  pub nearly_all : F

module _ {F : Type 0} (float : Floats F) (q : Quantiles F) where
  unfoldable pub percentile : List ℕ → F → Option ℕ
  percentile values quantile =
      elim (q.ceil_to_int (float.mul (float.of_ℕ (length values)) quantile)) [
        | pos n ↦ elim n [ zero ↦ none | suc index ↦ get_elem? values index ]
        | negsuc n ↦ none
      ]

  -- summarizeLatency once the values are sorted.
  unfoldable pub summarize_sorted : List ℕ → Option Percentiles
  summarize_sorted values = elim (percentile values q.half) [
    | none ↦ none
    | some p50 ↦ elim (percentile values q.most) [
      | none ↦ none
      | some p95 ↦ elim (percentile values q.nearly_all) [
        | none ↦ none
        | some p99 ↦ elim (get_elem? values 0) [
          | none ↦ none
          | some shortest ↦ elim (get_elem? values (length values - 1)) [
            | none ↦ none
            | some longest ↦
                some (record {
                  shortest = shortest;
                  p50 = p50;
                  p95 = p95;
                  p99 = p99;
                  longest = longest;
                })
          ]
        ]
      ]
    ]
  ]

  -- summarizeLatency before the conversion to milliseconds; of no values, all are zero.
  unfoldable pub summarize_latency : List ℕ → Option Percentiles
  unfolding summarize_sorted
  summarize_latency [] = some (record { shortest = 0; p50 = 0; p95 = 0; p99 = 0; longest = 0 })
  summarize_latency (v ∷ vs) = summarize_sorted (sort_by (λ d. d) (v ∷ vs))
