-- ===== src/Worker/Pool/Settling.antt =====
-- What holds when Run returns.
use relayforge.Store.Events.{Jsonb}
use relayforge.Prelude.{
  arith, Bool-cases, inl, inr, ◌++◌, ◌∷◌, [], List, none, some, false, true, Bool, refl, ◌≡◌, ℕ,
  Result, ok, err, length, Option, ap, all_of,
}
use relayforge.Prelude.Weights.{
  weigh, weigh-at, weigh-replicate, one_if, count, length-at, length-replicate,
}
use relayforge.Prelude.Int.{pos_part, pos, ◌≤ℤ◌}
use relayforge.Prelude.Text.{Text}
use relayforge.Delivery.Policy.{Floats}
use relayforge.Delivery.Model.{Status}
use relayforge.Store.Tables.{Database}
use relayforge.Store.Queue.{Job}
use relayforge.Observability.{Call, metrics_observer}
use relayforge.Worker.Pool.Accounting.{
  Reaches-IsCounted, rise, fall, is_claimed, is_attempt, is_posting, is_finishing,
}
use relayforge.Worker.{Config, request_of}
use relayforge.Worker.Pool.{
  Phase, claiming, delivering, waiting, returned, QueueError, PoolState, after_claim, after_process,
  after_wait, is_returned, has_stopped, Waits, timer, done, WorkerStep, claim, finish, wake, work,
  others, cancel, finishing, deliver, after_deliver, Reaches, start, later, run_started,
}

-- Of workers that have all returned, none is in process.
stopped_counts :
    (phases : List Phase)
    → all_of is_returned phases ≡ true
    → (count is_posting phases ≡ 0)
      × (count is_finishing phases ≡ 0)
      × (count is_returned phases ≡ length phases)
stopped_counts [] h = (refl, refl, refl)
stopped_counts (returned ∷ phases) h =
    let (unposted, idle, same) = stopped_counts phases h in
    (omega (arith, unposted), omega (arith, idle), omega (arith, same))
stopped_counts (claiming ∷ phases) h = cc
stopped_counts (delivering job ∷ phases) h = cc
stopped_counts (finishing job r ∷ phases) h = cc
stopped_counts (waiting ∷ phases) h = cc

-- While the context is not cancelled, no worker has returned.
record IsOpen (n : ℕ) (cancelled : Bool) (phases : List Phase) : Type 0 where
  workers : length phases ≡ n
  none_returned : cancelled ≡ false → count is_returned phases ≡ 0

module _ {F : Type 0} (float : Floats F) (config : Config F) (itoa : ℕ → Text) (instance_id : Text)
    (answers : Bool → Bool) (jsonb : Jsonb) where
  stays-IsOpen :
      (n : ℕ) (cancelled : Bool) (phases before after : List Phase) (p q : Phase)
      → phases ≡ before ++ p ∷ after
      → (cancelled ≡ false → is_returned q ≡ false)
      → IsOpen n cancelled phases
      → IsOpen n cancelled (before ++ q ∷ after)
  stays-IsOpen n cancelled phases before after p q e h k = record {
    workers = omega (arith, k.workers, ap length e, length-at before after p q);
    none_returned = λ live.
        let quiet = k.none_returned live in
        let moved : one_if is_returned q ≡ 0 = rw (h live) refl in
        omega (
          arith,
          moved,
          quiet,
          ap (count is_returned) e,
          weigh-at (one_if is_returned) before after p,
          weigh-at (one_if is_returned) before after q,
        );
  }

  claim_runs :
      (cancelled : Bool) (result : Result QueueError (Option Job)) (calls : List Call)
      → cancelled ≡ false
      → is_returned (after_claim metrics_observer cancelled result calls).0 ≡ false
  unfolding after_claim
  claim_runs cancelled (err e) calls h = rw h refl
  claim_runs cancelled (ok none) calls h = refl
  claim_runs cancelled (ok (some job)) calls h = refl

  process_runs :
      (result : Result QueueError Status) (calls : List Call)
      → is_returned (after_process metrics_observer result calls).0 ≡ false
  unfolding after_process
  process_runs (ok status) calls = refl
  process_runs (err e) calls = refl

  wait_runs :
      (cancelled fired : Bool)
      → Waits cancelled fired
      → cancelled ≡ false
      → is_returned (after_wait fired) ≡ false
  unfolding after_wait
  wait_runs cancelled _ timer h = refl
  wait_runs cancelled _ (done e) h = cc

  step-IsOpen :
      (n : ℕ) {s t : PoolState (List Call)}
      → WorkerStep float config itoa instance_id answers jsonb metrics_observer s t
      → IsOpen n s.cancelled s.phases
      → IsOpen n t.cancelled t.phases
  unfolding after_deliver
  step-IsOpen n {s} (claim before after db' result e c) =
      stays-IsOpen n s.cancelled s.phases before after claiming _ e
        (claim_runs s.cancelled result s.observed)
  step-IsOpen n {s} (deliver before after job dispatcher e) =
      stays-IsOpen n s.cancelled s.phases before after (delivering job)
        (finishing job (dispatcher (request_of job))) e (λ live. refl)
  step-IsOpen n {s} (finish before after job r db' result e f) =
      stays-IsOpen n s.cancelled s.phases before after (finishing job r) _ e
        (λ live. process_runs result s.observed)
  step-IsOpen n {s} (wake before after fired e w) =
      stays-IsOpen n s.cancelled s.phases before after waiting _ e (wait_runs s.cancelled fired w)

  Reaches-IsOpen :
      (db : Database) {s : PoolState (List Call)}
      → Reaches float config itoa instance_id answers jsonb metrics_observer
          (run_started config db [])
          s
      → IsOpen (pos_part config.concurrency) s.cancelled s.phases
  Reaches-IsOpen db start = record {
    workers = length-replicate (pos_part config.concurrency) claiming;
    none_returned =
        λ live. weigh-replicate (one_if is_returned) (pos_part config.concurrency) claiming refl;
  }
  Reaches-IsOpen db (later r (work w)) = step-IsOpen _ w (Reaches-IsOpen db r)
  Reaches-IsOpen db (later r (others db' s)) = Reaches-IsOpen db r
  Reaches-IsOpen db (later r cancel) =
      let k = Reaches-IsOpen db r in record { workers = k.workers; none_returned = λ live. cc }

  -- A pool with a worker returns from Run only after its context was cancelled, and then the gauge of
  -- the deliveries in flight is back at zero, and every claim that returned a job has had its attempt
  -- counted.
  pub has_stopped-IsSettled :
      (db : Database) (s : PoolState (List Call))
      → pos 1 ≤ℤ config.concurrency
      → Reaches float config itoa instance_id answers jsonb metrics_observer
          (run_started config db [])
          s
      → has_stopped s ≡ true
      → (s.cancelled ≡ true)
        × (weigh rise s.observed ≡ weigh fall s.observed)
        × (count is_claimed s.observed ≡ count is_attempt s.observed)
  has_stopped-IsSettled db s some_workers r stopped =
      let k = Reaches-IsOpen db r in
      let counted = Reaches-IsCounted float config itoa instance_id answers jsonb db s r in
      let (unposted, idle, all) = stopped_counts s.phases stopped in
      (
        elim (Bool-cases s.cancelled) [
          | inl over ↦ over
          | inr live ↦ absurd (omega (arith, k.none_returned live, all, k.workers, some_workers))
        ],
        omega (arith, unposted, idle, counted.gauge),
        omega (arith, unposted, counted.claims),
      )
