-- ===== src/Bench/Run/Ending.antt =====
-- A run of the benchmark ends.
use relayforge.Prelude.{
  if◌then◌else◌, arith, Bool-cases, inl, inr, ◌⊎◌, ◌++◌, ◌∷◌, [], List, false, true, refl, ◌≡◌, ◌≤◌,
  ◌<◌, ◌+◌, ◌-◌, ◌*◌, ℕ, zero, suc, length, ap, all_of, length-append, leb→le, ◌&&◌, leb,
}
use relayforge.Prelude.Weights.{weigh, weigh-at, replicate}
use relayforge.Prelude.Text.{Text}
use relayforge.Bench.{BenchConfig, Sample, Exchange, BenchRequest, publish}
use relayforge.Bench.Run.{
  BenchPhase, ready, publishing, sending, gone, is_gone, BenchState, requested, workers,
  run_started, BenchStep, hand, close_done, close_cancelled, call, send, leave, receive, BenchRuns,
  begin, go, cancel, no_results, is_over,
}

-- The steps that a worker may still take with what it has.
abbrev chore : BenchPhase → ℕ
chore ready = 1
chore (publishing sequence) = 4
chore (sending sample) = 3
chore gone = 0

abbrev pub effort : BenchConfig → BenchState → ℕ
effort c s =
    4 * (requested c - s.taken)
    + weigh chore s.phases
    + length s.results
    + (if s.closed then 0 else 1)

chore_at :
    (phases before after : List BenchPhase) (p q : BenchPhase)
    → phases ≡ before ++ p ∷ after
    → weigh chore (before ++ q ∷ after) + chore p ≡ weigh chore phases + chore q
chore_at phases before after p q e =
    omega (arith, ap (weigh chore) e, weigh-at chore before after p, weigh-at chore before after q)

-- The first worker that has not left.
at_work :
    (phases : List BenchPhase)
    → all_of is_gone phases ≡ false
    → (before : List BenchPhase) × (p : BenchPhase) × (after : List BenchPhase) × (phases
        ≡ before ++ p ∷ after)
      × (is_gone p ≡ false)
at_work [] h = cc
at_work (gone ∷ phases) h =
    let (before, p, after, e, busy) = at_work phases h in
    (gone ∷ before, p, after, ap (λ ps. gone ∷ ps) e, busy)
at_work (ready ∷ phases) h = ([], ready, phases, refl, refl)
at_work (publishing n ∷ phases) h = ([], publishing n, phases, refl, refl)
at_work (sending s ∷ phases) h = ([], sending s, phases, refl, refl)

module _ (itoa : ℕ → Text) (status_text : ℕ → Text) (c : BenchConfig) (run_id : Text) where
  abbrev Steps : BenchState → BenchState → Type 0
  Steps = BenchStep itoa status_text c run_id

  step-effort : {s t : BenchState} → Steps s t → effort c t < effort c s
  step-effort {s} (hand before after e still few) =
      let lighter = chore_at s.phases before after ready (publishing (s.taken + 1)) e in
      rw still (omega (arith, lighter, few))
  step-effort {s} (close_done still enough) = rw still (omega arith)
  step-effort {s} (close_cancelled still over) = rw still (omega arith)
  step-effort {s} (call before after sequence client e) =
      let lighter =
        chore_at s.phases before after (publishing sequence)
          (sending (publish itoa status_text client c run_id sequence)) e in
      omega (arith, lighter)
  step-effort {s} (send before after sample e room) =
      let lighter = chore_at s.phases before after (sending sample) ready e in
      omega (arith, lighter, length-append s.results (sample ∷ []))
  step-effort {s} (leave before after e over) =
      let lighter = chore_at s.phases before after ready gone e in omega (arith, lighter)
  step-effort {s} (receive sample rest e) = omega (arith, ap length e)

  -- The steps of a run, without the end of the context.
  abbrev pub steps_of : {s t : BenchState} → BenchRuns itoa status_text c run_id s t → ℕ
  steps_of begin = 0
  steps_of (go r step) = suc (steps_of r)
  steps_of (cancel r) = steps_of r

  run-effort :
      {s t : BenchState}
      → (r : BenchRuns itoa status_text c run_id s t) → steps_of r + effort c t ≤ effort c s
  run-effort begin = omega arith
  run-effort (go r step) = omega (arith, run-effort r, step-effort step)
  run-effort (cancel r) = run-effort r

  worker_can_step :
      (client : BenchRequest → Exchange) (s : BenchState) (before : List BenchPhase)
      (p : BenchPhase) (after : List BenchPhase)
      → s.phases ≡ before ++ p ∷ after
      → is_gone p ≡ false
      → 1 ≤ workers c
      → length s.results ≡ 0
      → (t : BenchState) × Steps s t
  worker_can_step client s before gone after e busy some_workers empty = cc
  worker_can_step client s before (publishing n) after e busy some_workers empty =
      (_, call before after n client e)
  worker_can_step client s before (sending x) after e busy some_workers empty =
      (_, send before after x e (omega (arith, empty, some_workers)))
  worker_can_step client s before ready after e busy some_workers empty =
      elim (Bool-cases s.closed) [
        | inl shut ↦ (_, leave before after e shut)
        | inr still ↦ elim (Bool-cases (leb (requested c) s.taken)) [
          | inl enough ↦ (_, close_done still (leb→le _ _ enough))
          | inr few ↦ (_, hand before after e still (ground arith))
        ]
      ]

  can_step :
      (client : BenchRequest → Exchange) (s : BenchState) (rs : List Sample)
      → s.results ≡ rs
      → 1 ≤ workers c
      → (all_of is_gone s.phases && no_results rs) ≡ false
      → (t : BenchState) × Steps s t
  can_step client s (r ∷ rs) e some_workers busy = (_, receive r rs e)
  can_step client s [] e some_workers busy =
      let (before, p, after, f, stays) = at_work s.phases (ground arith) in
      worker_can_step client s before p after f stays some_workers (ap length e)

  -- Every run with a worker ends: it takes at most four steps for each event that was asked for, one for
  -- each worker and one to close the channel, and until it is over, some goroutine can take a step,
  -- whatever the client meets with.
  pub run-ends :
      (client : BenchRequest → Exchange) (s : BenchState)
      (r : BenchRuns itoa status_text c run_id (run_started c) s)
      → 1 ≤ workers c
      → (steps_of r ≤ 4 * requested c + workers c + 1)
        × ((is_over s ≡ true) ⊎ ((t : BenchState) × BenchStep itoa status_text c run_id s t))
  run-ends client s r some_workers = (
    omega (arith, run-effort r, weigh-replicate_one (workers c)),
    elim (Bool-cases (is_over s)) [
      | inl over ↦ inl over
      | inr busy ↦ inr (can_step client s s.results refl some_workers busy)
    ],
  )
    where
      weigh-replicate_one : (n : ℕ) → weigh chore (replicate n ready) ≡ n
      weigh-replicate_one zero = refl
      weigh-replicate_one (suc n) = omega (arith, weigh-replicate_one n)
