-- ===== src/Bench/Run.antt =====
-- cmd/relaybench/main.go: run and main. The goroutine that hands out the numbers of the events, the
-- workers, and the loop over the results take steps that are interleaved in any way; `jobs` has no
-- buffer and `results` one of as many places as there are workers. The client may make any exchange of
-- a request.
pub mod Accounting
pub mod Ending
use relayforge.Prelude.{
  if◌then◌else◌, ◌==◌, ◌++◌, ◌∷◌, [], List, true, false, not, ◌&&◌, Bool, ◌≡◌, ◌<◌, ◌≤◌, ◌+◌, ℕ,
  Result, ok, err, length, all_of,
}
use relayforge.Prelude.Weights.{replicate}
use relayforge.Prelude.Int.{pos_part}
use relayforge.Prelude.Text.{Text}
use relayforge.Bench.{BenchConfig, BenchError, Sample, Exchange, BenchRequest, publish}
use relayforge.Bench.Report.{Tally, tally_of}

-- Where a worker stands in its loop.
pub data BenchPhase : Type 0 where
  ready : BenchPhase  -- at `range jobs`
  publishing : ℕ → BenchPhase
  sending : Sample → BenchPhase  -- before the result is in the channel
  gone : BenchPhase

abbrev pub is_gone : BenchPhase → Bool
is_gone gone = true
is_gone _ = false

-- `taken` is how many numbers have been handed out, and `handed` which.
pub record BenchState : Type 0 where
  pub taken : ℕ
  pub handed : List ℕ
  pub closed : Bool
  pub cancelled : Bool
  pub phases : List BenchPhase
  pub results : List Sample
  pub collected : List Sample

abbrev pub requested : BenchConfig → ℕ
requested c = pos_part c.requests

abbrev pub workers : BenchConfig → ℕ
workers c = pos_part c.concurrency

abbrev pub run_started : BenchConfig → BenchState
run_started c = record {
  taken = 0;
  handed = [];
  closed = false;
  cancelled = false;
  phases = replicate (workers c) ready;
  results = [];
  collected = [];
}

abbrev pub phased : BenchState → List BenchPhase → BenchPhase → List BenchPhase → BenchState
phased s before p after = record s { phases = before ++ p ∷ after }

module _ (itoa : ℕ → Text) (status_text : ℕ → Text) (c : BenchConfig) (run_id : Text) where
  pub data BenchStep (s : BenchState) : BenchState → Type 0 where
    -- jobs <- sequence, with a worker that waits for it
    hand :
        (before after : List BenchPhase)
        → s.phases ≡ before ++ ready ∷ after
        → s.closed ≡ false
        → s.taken < requested c
        → BenchStep s (record (phased s before (publishing (s.taken + 1)) after) {
          taken = s.taken + 1;
          handed = s.handed ++ (s.taken + 1) ∷ [];
        })
    -- the end of the loop over the numbers, and its return once the context is cancelled
    close_done : s.closed ≡ false → requested c ≤ s.taken → BenchStep s (record s { closed = true })
    close_cancelled :
        s.closed ≡ false → s.cancelled ≡ true → BenchStep s (record s { closed = true })
    -- publish
    call :
        (before after : List BenchPhase) (sequence : ℕ) (client : BenchRequest → Exchange)
        → s.phases ≡ before ++ publishing sequence ∷ after
        → BenchStep s
            (phased s before (sending (publish itoa status_text client c run_id sequence)) after)
    -- results <- sample
    send :
        (before after : List BenchPhase) (sample : Sample)
        → s.phases ≡ before ++ sending sample ∷ after
        → length s.results < workers c
        → BenchStep s (record (phased s before ready after) { results = s.results ++ sample ∷ [] })
    leave :
        (before after : List BenchPhase)
        → s.phases ≡ before ++ ready ∷ after
        → s.closed ≡ true
        → BenchStep s (phased s before gone after)
    -- the loop over the results
    receive :
        (sample : Sample) (rest : List Sample)
        → s.results ≡ sample ∷ rest
        → BenchStep s (record s { results = rest; collected = s.collected ++ sample ∷ [] })

  -- The steps of run, and the end of the context.
  pub data BenchRuns (s : BenchState) : BenchState → Type 0 where
    begin : BenchRuns s s
    go : {t u : BenchState} → BenchRuns s t → BenchStep t u → BenchRuns s u
    cancel : {t : BenchState} → BenchRuns s t → BenchRuns s (record t { cancelled = true })

abbrev pub no_results : List Sample → Bool
no_results [] = true
no_results (_ ∷ _) = false

-- The workers have left, so `results` is closed, and it has been emptied: run builds its report.
abbrev pub is_over : BenchState → Bool
is_over s = all_of is_gone s.phases && no_results s.results

-- The counters of the report.
unfoldable pub report_of : (ℕ → Text) → BenchConfig → BenchState → Tally
report_of itoa c s = tally_of itoa (requested c) s.collected

-- main, from the settings, whether the context was cancelled, the report, and whether it was printed,
-- to the exit status.
unfoldable pub exit_status : Result BenchError BenchConfig → Bool → Tally → Bool → ℕ
exit_status (err e) cancelled report printed = 2
exit_status (ok c) cancelled report printed =
    if not printed then 1 else if cancelled then 1 else if not (report.failed == 0) then 1 else 0
