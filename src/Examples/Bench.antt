-- ===== src/Examples/Bench.antt =====
-- A small run of the benchmark: one event accepted, one refused, and one not started.
use relayforge.Prelude.{All, ◌/◌, arith, ◌∷◌, [], List, some, false, refl, ◌≡◌, ◌*◌, ◌+◌, ℕ}
use relayforge.Bench.Latency.{summarize_latency-IsOrdered, IsRounding, IsOrdered}
use relayforge.Prelude.Text.{Text, codes, text_eq}
use relayforge.Delivery.Policy.{Floats}
use relayforge.Prelude.Int.{pos}
use relayforge.Prelude.{ltb, ◌-◌}
use relayforge.Bench.{Sample}
use relayforge.Bench.Report.{summarize_latency, Percentiles, Quantiles}

abbrev samples : List Sample
samples =
    record { duration = 30; status = 202; error = [] }
    ∷ record { duration = 10; status = 500; error = codes "http 500: down" }
    ∷ []

named_errors : All (λ s. text_eq s.error (codes "not started") ≡ false) samples
unfolding text_eq
named_errors = (refl, (refl, tt))

abbrev byte : ℕ → Text
byte n = n ∷ []

-- Numbers with two decimals, cut off, and their ceiling.
abbrev hundredths : Floats ℕ
hundredths = record {
  of_ℕ = λ n. n * 100;
  add = ◌+◌;
  sub = ◌-◌;
  mul = λ x y. x * y / 100;
  less = ltb;
  of_duration = λ d. d * 100;
  to_duration = λ x. pos (x / 100);
}

abbrev quantiles : Quantiles ℕ
quantiles = record {
  ceil_to_int = λ x. pos ((x + 99) / 100);
  half = 50;
  most = 95;
  nearly_all = 99;
}

hundredths-IsRounding : IsRounding hundredths quantiles
hundredths-IsRounding = record {
  above_zero = λ n h k. ground arith;
  half_most = λ n h k. ground arith;
  most_nearly_all = λ n h k. ground arith;
  below_whole = λ n h k. ground arith;
  less_trans = λ x y z h k. ground arith;
  ceil_range = λ n x k h l. ((x + 99) / 100, refl, ground arith, ground arith);
  ceil_order = λ n x y k g h l. ground arith;
}

summarize_latency-IsOrdered_example :
    (r : Percentiles) × (summarize_latency hundredths quantiles (30 ∷ 10 ∷ 20 ∷ []) ≡ some r)
    × IsOrdered hundredths quantiles (30 ∷ 10 ∷ 20 ∷ []) r
summarize_latency-IsOrdered_example =
    summarize_latency-IsOrdered hundredths quantiles 30 (10 ∷ 20 ∷ []) hundredths-IsRounding
      (omega arith)
