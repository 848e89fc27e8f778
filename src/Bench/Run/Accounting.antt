-- ===== src/Bench/Run/Accounting.antt =====
-- What a run of the benchmark reports, however its goroutines are interleaved.
use relayforge.Prelude.{
  ◌↔◌, arith, Bool-cases, inl, inr, ◌⊎◌, ◌++◌, ◌∷◌, [], List, false, true, Bool, &&-eq-true, refl,
  ◌≡◌, ◌≤◌, ◌+◌, ℕ, zero, suc, ok, length, ap, sym, ◌∙◌, All, all_of, length-append,
}
use relayforge.Prelude.Weights.{
  weigh-at, weigh-replicate, one_if, count, length-at, length-replicate,
}
use relayforge.Prelude.Text.{Text, codes, text_eq}
use relayforge.Bench.{BenchConfig, Sample, publish}
use relayforge.Bench.Totals.{total, tally_of-adds_up}
use relayforge.Bench.Run.{
  BenchPhase, ready, publishing, sending, gone, is_gone, BenchState, requested, workers,
  run_started, BenchStep, hand, close_done, close_cancelled, call, send, leave, receive, BenchRuns,
  begin, go, cancel, no_results, is_over, report_of, exit_status,
}

-- 1, …, n
abbrev pub up_to : ℕ → List ℕ
up_to zero = []
up_to (suc n) = up_to n ++ suc n ∷ []

abbrev is_busy : BenchPhase → Bool
is_busy (publishing sequence) = true
is_busy (sending sample) = true
is_busy _ = false

-- Each number that was handed out is with one worker, in the channel, or collected.
record IsAccounted (c : BenchConfig) (s : BenchState) : Type 0 where
  within : s.taken ≤ requested c
  in_order : s.handed ≡ up_to s.taken
  conserved : s.taken ≡ count is_busy s.phases + length s.results + length s.collected
  closing : s.closed ≡ true → (s.cancelled ≡ true) ⊎ (s.taken ≡ requested c)
  open_workers : s.closed ≡ false → count is_gone s.phases ≡ 0
  crew : length s.phases ≡ workers c

up_to_next : (n : ℕ) → up_to n ++ (n + 1) ∷ [] ≡ up_to (n + 1)
up_to_next n = ground arith

busy_at :
    (phases before after : List BenchPhase) (p q : BenchPhase)
    → phases ≡ before ++ p ∷ after
    → (count is_busy (before ++ q ∷ after) + one_if is_busy p
        ≡ count is_busy phases + one_if is_busy q)
      × (count is_gone (before ++ q ∷ after) + one_if is_gone p
          ≡ count is_gone phases + one_if is_gone q)
      × (length (before ++ q ∷ after) ≡ length phases)
busy_at phases before after p q e = (
  omega (
    arith,
    ap (count is_busy) e,
    weigh-at (one_if is_busy) before after p,
    weigh-at (one_if is_busy) before after q,
  ),
  omega (
    arith,
    ap (count is_gone) e,
    weigh-at (one_if is_gone) before after p,
    weigh-at (one_if is_gone) before after q,
  ),
  length-at before after q p ∙ sym (ap length e),
)

start-IsAccounted : (c : BenchConfig) → IsAccounted c (run_started c)
start-IsAccounted c = record {
  within = omega arith;
  in_order = refl;
  conserved = omega (arith, weigh-replicate (one_if is_busy) (workers c) ready refl);
  closing = λ over. cc;
  open_workers = λ o. weigh-replicate (one_if is_gone) (workers c) ready refl;
  crew = length-replicate (workers c) ready;
}

module _ (itoa : ℕ → Text) (status_text : ℕ → Text) (c : BenchConfig) (run_id : Text) where
  BenchStep-IsAccounted :
      {s t : BenchState}
      → BenchStep itoa status_text c run_id s t
      → IsAccounted c s
      → IsAccounted c t
  BenchStep-IsAccounted {s} (hand before after e still few) h =
      let (busy, left, crew) = busy_at s.phases before after ready (publishing (s.taken + 1)) e in
      record {
        within = omega (arith, few);
        in_order = ap (λ ns. ns ++ (s.taken + 1) ∷ []) h.in_order ∙ up_to_next s.taken;
        conserved = omega (arith, busy, h.conserved);
        closing = λ over. cc;
        open_workers = λ o. omega (arith, left, h.open_workers o);
        crew = crew ∙ h.crew;
      }
  BenchStep-IsAccounted {s} (close_done still enough) h = record {
    within = h.within;
    in_order = h.in_order;
    conserved = h.conserved;
    crew = h.crew;
    closing = λ over. inr (omega (arith, enough, h.within));
    open_workers = λ o. cc;
  }
  BenchStep-IsAccounted {s} (close_cancelled still over) h = record {
    within = h.within;
    in_order = h.in_order;
    conserved = h.conserved;
    crew = h.crew;
    closing = λ _. inl over;
    open_workers = λ o. cc;
  }
  BenchStep-IsAccounted {s} (call before after sequence client e) h =
      let (busy, left, crew) =
        busy_at s.phases before after (publishing sequence)
          (sending (publish itoa status_text client c run_id sequence)) e in
      record {
        within = h.within;
        in_order = h.in_order;
        closing = h.closing;
        conserved = omega (arith, busy, h.conserved);
        open_workers = λ o. omega (arith, left, h.open_workers o);
        crew = crew ∙ h.crew;
      }
  BenchStep-IsAccounted {s} (send before after sample e room) h =
      let (busy, left, crew) = busy_at s.phases before after (sending sample) ready e in
      record {
        within = h.within;
        in_order = h.in_order;
        closing = h.closing;
        conserved = omega (arith, busy, h.conserved, length-append s.results (sample ∷ []));
        open_workers = λ o. omega (arith, left, h.open_workers o);
        crew = crew ∙ h.crew;
      }
  BenchStep-IsAccounted {s} (leave before after e over) h =
      let (busy, left, crew) = busy_at s.phases before after ready gone e in
      record {
        within = h.within;
        in_order = h.in_order;
        closing = h.closing;
        conserved = omega (arith, busy, h.conserved);
        open_workers = λ o. cc;
        crew = crew ∙ h.crew;
      }
  BenchStep-IsAccounted {s} (receive sample rest e) h = record {
    within = h.within;
    in_order = h.in_order;
    closing = h.closing;
    open_workers = h.open_workers;
    crew = h.crew;
    conserved = omega (arith, ap length e, h.conserved, length-append s.collected (sample ∷ []));
  }

  BenchRuns-IsAccounted :
      (s : BenchState) → BenchRuns itoa status_text c run_id (run_started c) s → IsAccounted c s
  BenchRuns-IsAccounted _ begin = start-IsAccounted c
  BenchRuns-IsAccounted _ (go {t} r step) = BenchStep-IsAccounted step (BenchRuns-IsAccounted t r)
  BenchRuns-IsAccounted _ (cancel {t} r) =
      let h = BenchRuns-IsAccounted t r in
      record {
        within = h.within;
        in_order = h.in_order;
        conserved = h.conserved;
        closing = λ over. inl refl;
        open_workers = h.open_workers;
        crew = h.crew;
      }

-- Workers that have all left are not busy.
gone_counts :
    (phases : List BenchPhase)
    → all_of is_gone phases ≡ true
    → (count is_busy phases ≡ 0) × (count is_gone phases ≡ length phases)
gone_counts [] h = (refl, refl)
gone_counts (gone ∷ phases) h =
    let (idle, same) = gone_counts phases h in (omega (arith, idle), omega (arith, same))
gone_counts (ready ∷ phases) h = cc
gone_counts (publishing n ∷ phases) h = cc
gone_counts (sending sample ∷ phases) h = cc

no_results-length : (rs : List Sample) → no_results rs ≡ true → length rs ≡ 0
no_results-length [] h = refl
no_results-length (r ∷ rs) h = cc

module _ (itoa : ℕ → Text) (status_text : ℕ → Text) (c : BenchConfig) (run_id : Text)
    (s : BenchState) (some_workers : 1 ≤ workers c)
    (r : BenchRuns itoa status_text c run_id (run_started c) s) (over : is_over s ≡ true)
    (named : All (λ x. text_eq x.error (codes "not started") ≡ false) s.collected) where
  -- When a run with a worker is over, however its goroutines were interleaved: the workers
  -- were given the numbers 1 to the size of the results, each once and in this order; if the context was not cancelled,
  -- all that were asked for; and the report adds up to those asked for, if no result has the error
  -- `not started`.
  pub is_over-adds_up :
      let t = report_of itoa c s in
      (s.handed ≡ up_to (length s.collected))
      × (t.completed ≡ length s.collected)
      × (t.accepted + t.failed ≡ requested c)
      × (total t.errors ≡ t.failed)
      × (s.cancelled ≡ false → t.completed ≡ requested c)
  unfolding report_of
  is_over-adds_up =
      let h = BenchRuns-IsAccounted itoa status_text c run_id s r in
      let (left, drained) = &&-eq-true (all_of is_gone s.phases) (no_results s.results) over in
      let (idle, all) = gone_counts s.phases left in
      let same : s.taken ≡ length s.collected =
        omega (arith, h.conserved, idle, no_results-length s.results drained) in
      let (sum, completed, errors, _, _) =
        tally_of-adds_up itoa (requested c) s.collected (omega (arith, same, h.within)) named in
      (
        h.in_order ∙ ap up_to same,
        completed,
        sum,
        errors,
        λ live. elim (Bool-cases s.closed) [
          | inr o ↦ absurd (omega (arith, h.open_workers o, all, h.crew, some_workers))
          | inl shut ↦ elim (h.closing shut) [
            | inl ended ↦ absurd (cc)
            | inr enough ↦ omega (arith, completed, same, enough)
          ]
        ],
      )

  -- When a run with a worker is over, and no result has the error `not started`: main exits with 0
  -- exactly if the report was printed, the context not cancelled, and every event that was asked for
  -- accepted.
  pub exit_status_iff :
      (printed : Bool)
      → (exit_status (ok c) s.cancelled (report_of itoa c s) printed ≡ 0)
        ↔ ((printed ≡ true) × (s.cancelled ≡ false) × ((report_of itoa c s).accepted ≡ requested c))
  unfolding exit_status
  exit_status_iff printed =
      let (_, _, sum, _, _) = is_over-adds_up in
      (
        λ h. (ground arith, ground arith, ground (arith, sum)),
        λ h. ground (arith, h.0, h.1, h.2, sum),
      )
