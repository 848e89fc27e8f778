-- ===== src/Worker/Pool/Stopping.antt =====
-- Run returns once the context of the pool is cancelled.
use relayforge.Store.Events.{Jsonb}
use relayforge.Prelude.{
  arith, Bool-cases, inl, inr, ◌⊎◌, ◌++◌, ◌∷◌, [], List, false, true, Bool, refl, ◌≡◌, ◌≤◌, ◌+◌,
  ◌*◌, ℕ, suc, Result, Result-cases, ok, err, length, Option, ap, ◌∙◌, all_of,
}
use relayforge.Prelude.Weights.{weigh, weigh-at, weigh-le}
use relayforge.Prelude.Text.{Text}
use relayforge.Delivery.Policy.{Floats}
use relayforge.Delivery.Model.{Status}
use relayforge.Webhook.Dispatcher.{WebhookRequest, WebhookResult}
use relayforge.Store.Tables.{Database}
use relayforge.Store.Queue.{Job}
use relayforge.Store.Queue.Finish.{finish_attempt}
use relayforge.Worker.{Config, result_of, request_of}
use relayforge.Worker.Pool.{
  Observer, Phase, claiming, delivering, waiting, returned, QueueError, PoolState, after_claim,
  after_process, after_wait, is_returned, has_stopped, done, Claims, Finishes, WorkerStep, claim,
  finish, wake, worker_id, work, others, cancel, finishing, deliver, after_deliver, Reaches, start,
  later,
}

-- How many steps a worker may still take once the context is cancelled.
abbrev pub burden : Phase → ℕ
burden claiming = 1
burden (delivering job) = 3
burden (finishing job r) = 2
burden waiting = 2
burden returned = 0

burden-le : (p : Phase) → burden p ≤ 3
burden-le claiming = omega arith
burden-le (delivering job) = omega arith
burden-le (finishing job r) = omega arith
burden-le waiting = omega arith
burden-le returned = omega arith

-- The first worker that has not returned.
running :
    (phases : List Phase)
    → all_of is_returned phases ≡ false
    → (before : List Phase) × (p : Phase) × (after : List Phase) × (phases ≡ before ++ p ∷ after)
      × (is_returned p ≡ false)
running [] h = cc
running (returned ∷ phases) h =
    let (before, p, after, e, busy) = running phases h in
    (returned ∷ before, p, after, ap (λ ps. returned ∷ ps) e, busy)
running (claiming ∷ phases) h = ([], claiming, phases, refl, refl)
running (delivering job ∷ phases) h = ([], delivering job, phases, refl, refl)
running (finishing job r ∷ phases) h = ([], finishing job r, phases, refl, refl)
running (waiting ∷ phases) h = ([], waiting, phases, refl, refl)

module _ {F : Type 0} (float : Floats F) (config : Config F) (itoa : ℕ → Text) (instance_id : Text)
    (answers : Bool → Bool) (jsonb : Jsonb) {O : Type 0} (observer : Observer O) where
  abbrev Steps : PoolState O → PoolState O → Type 0
  Steps = WorkerStep float config itoa instance_id answers jsonb observer

  abbrev pub Pool : PoolState O → PoolState O → Type 0
  Pool = Reaches float config itoa instance_id answers jsonb observer

  -- The steps of the workers among those of a run.
  abbrev pub work_steps : {s t : PoolState O} → Pool s t → ℕ
  work_steps start = 0
  work_steps (later r (work w)) = suc (work_steps r)
  work_steps (later r (others db' s)) = work_steps r
  work_steps (later r cancel) = work_steps r

  keeps_cancelled : {s t : PoolState O} → Steps s t → t.cancelled ≡ s.cancelled
  keeps_cancelled (claim before after db' result e c) = refl
  keeps_cancelled (deliver before after job dispatcher e) = refl
  keeps_cancelled (finish before after job r db' result e f) = refl
  keeps_cancelled (wake before after fired e w) = refl

  run_cancelled : {s t : PoolState O} → Pool s t → s.cancelled ≡ true → t.cancelled ≡ true
  run_cancelled start h = h
  run_cancelled (later r (work w)) h = keeps_cancelled w ∙ run_cancelled r h
  run_cancelled (later r (others db' s)) h = run_cancelled r h
  run_cancelled (later r cancel) h = refl

  claim-burden :
      (cancelled : Bool) (worker : Text) (db db' : Database)
      (result : Result QueueError (Option Job)) (o : O)
      → answers true ≡ false
      → cancelled ≡ true
      → Claims float config itoa instance_id answers jsonb cancelled worker db db' result
      → burden (after_claim observer cancelled result o).0 ≡ 0
  unfolding after_claim
  claim-burden cancelled worker db _ _ o silent h (Claims.answered s db' job a c) =
      absurd (cc (a, ap answers h, silent))
  claim-burden cancelled worker db _ _ o silent h (Claims.rejected s e a c) =
      absurd (cc (a, ap answers h, silent))
  claim-burden cancelled worker db _ _ o silent h (Claims.broken e) = rw h refl

  process-burden :
      (result : Result QueueError Status) (o : O) → burden (after_process observer result o).0 ≡ 1
  unfolding after_process
  process-burden (ok status) o = refl
  process-burden (err e) o = refl

  wait-burden : (fired : Bool) → burden (after_wait fired) ≤ 1
  unfolding after_wait
  wait-burden true = omega arith
  wait-burden false = omega arith

  lighter :
      (phases before after : List Phase) (p q : Phase)
      → phases ≡ before ++ p ∷ after
      → suc (burden q) ≤ burden p
      → suc (weigh burden (before ++ q ∷ after)) ≤ weigh burden phases
  lighter phases before after p q e h =
      omega
        (arith, ap (weigh burden) e, weigh-at burden before after p, weigh-at burden before after q)

  step-burden :
      {s t : PoolState O}
      → answers true ≡ false
      → s.cancelled ≡ true
      → Steps s t
      → suc (weigh burden t.phases) ≤ weigh burden s.phases
  unfolding after_deliver
  step-burden {s} silent h (claim before after db' result e c) =
      lighter s.phases before after claiming _ e
        (omega (arith, claim-burden s.cancelled _ s.db db' result s.observed silent h c))
  step-burden {s} silent h (deliver before after job dispatcher e) =
      lighter s.phases before after (delivering job) (finishing job (dispatcher (request_of job))) e
        (omega arith)
  step-burden {s} silent h (finish before after job r db' result e f) =
      lighter s.phases before after (finishing job r) _ e
        (omega (arith, process-burden result s.observed))
  step-burden {s} silent h (wake before after fired e w) =
      lighter s.phases before after waiting _ e (omega (arith, wait-burden fired))

  run-burden :
      {s t : PoolState O}
      → answers true ≡ false
      → s.cancelled ≡ true
      → (r : Pool s t) → work_steps r + weigh burden t.phases ≤ weigh burden s.phases
  run-burden silent h start = omega arith
  run-burden silent h (later r (work w)) =
      omega (arith, run-burden silent h r, step-burden silent (run_cancelled r h) w)
  run-burden silent h (later r (others db' s)) = run-burden silent h r
  run-burden silent h (later r cancel) = run-burden silent h r

  -- A worker in process goes on as FinishAttempt answers to the result of its dispatcher.
  can_step :
      (dispatcher : WebhookRequest → WebhookResult) (now : ℕ) (id : Text) (sample : F)
      (s : PoolState O) (before : List Phase) (p : Phase) (after : List Phase)
      → s.cancelled ≡ true
      → s.phases ≡ before ++ p ∷ after
      → is_returned p ≡ false
      → (t : PoolState O) × Steps s t
  can_step dispatcher now id sample s before claiming after h e busy =
      (_, claim before after s.db (err (QueueError.interrupted [])) e (Claims.broken []))
  can_step dispatcher now id sample s before (delivering job) after h e busy =
      (_, deliver before after job dispatcher e)
  can_step dispatcher now id sample s before (finishing job r) after h e busy =
      let worker = worker_id itoa instance_id (length before + 1) in
      elim (Result-cases
        (finish_attempt now id (result_of float config worker job s.cancelled sample r) s.db)) [
          | inl ((db', status), f) ↦ (
            _,
            finish before after job r db' (ok status) e
                (Finishes.stored now id sample db' status f),
          )
          | inr (x, f) ↦ (
            _,
            finish before after job r s.db (err (QueueError.refused x)) e
                (Finishes.rejected now id sample x f),
          )
        ]
  can_step dispatcher now id sample s before waiting after h e busy =
      (_, wake before after false e (done h))
  can_step dispatcher now id sample s before returned after h e busy = cc

  -- Once the context of a pool is cancelled, its workers take at most three more steps each, whatever the
  -- rest of the server does in between; and until all have returned, one of them can take a step,
  -- whatever a dispatcher tells it. So Run returns. The queue is taken not to answer claims under a cancelled context.
  pub cancelled-stops :
      (dispatcher : WebhookRequest → WebhookResult) (now : ℕ) (id : Text) (sample : F)
      (s t : PoolState O)
      → answers true ≡ false
      → s.cancelled ≡ true
      → (r : Pool s t)
      → (work_steps r ≤ 3 * length s.phases)
        × ((has_stopped t ≡ true)
            ⊎ ((u : PoolState O) × WorkerStep float config itoa instance_id answers jsonb observer t
                  u))
  cancelled-stops dispatcher now id sample s t silent h r = (
    omega (arith, run-burden silent h r, weigh-le burden 3 burden-le s.phases),
    elim (Bool-cases (has_stopped t)) [
      | inl stopped ↦ inl stopped
      | inr busy ↦
          let (before, p, after, e, runs) = running t.phases busy in
          inr (can_step dispatcher now id sample t before p after (run_cancelled r h) e runs)
    ],
  )
