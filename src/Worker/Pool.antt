-- ===== src/Worker/Pool.antt =====
-- internal/worker/pool.go: runWorker as the phases of a worker, and Run as workers that are
-- interleaved in any way with one another, with the rest of the server, and with the end of the
-- context. `answers` tells whether the queue answers a claim under a context that is cancelled or not.
-- Log lines are left out.
pub mod Accounting
pub mod Stopping
pub mod Settling
pub mod Names
pub mod Safety
pub mod Numbering
pub mod Making
pub mod Attempts
use relayforge.Store.Events.{Jsonb}
use relayforge.Prelude.{
  if◌then◌else◌, ◌++◌, ◌∷◌, List, Option, none, some, true, false, Bool, ◌≡◌, ◌+◌, ℕ, Result, ok,
  err, length, all_of,
}
use relayforge.Prelude.Weights.{replicate}
use relayforge.Prelude.Int.{pos_part, ℤ, pos, negsuc}
use relayforge.Prelude.Text.{Text, codes}
use relayforge.Delivery.Model.{Status}
use relayforge.Delivery.Policy.{Decision, Floats}
use relayforge.Store.Tables.{Database, StoreError}
use relayforge.Store.History.{Step}
use relayforge.Store.Queue.{Job, Session, claim_delivery}
use relayforge.Webhook.Dispatcher.{WebhookRequest, WebhookResult}
use relayforge.Store.Queue.Finish.{finish_attempt}
use relayforge.Worker.{Config, result_of, request_of}

-- Observer, as what its methods do to a state of it.
pub record Observer (O : Type 0) : Type 0 where
  pub observe_claim : Text → O → O
  pub observe_attempt : Decision → ℤ → O → O
  pub observe_finish_error : O → O
  pub add_in_flight : ℤ → O → O

unfoldable pub no_op_observer : {O : Type 0} → Observer O
no_op_observer = record {
  observe_claim = λ result o. o;
  observe_attempt = λ decision duration o. o;
  observe_finish_error = λ o. o;
  add_in_flight = λ delta o. o;
}

-- The observer that New puts into the pool.
unfoldable pub observer_of : {O : Type 0} → Option (Observer O) → Observer O
unfolding no_op_observer
observer_of none = no_op_observer
observer_of (some observer) = observer

-- An error of the queue: one that its code returns, or one of the connection or of the context.
pub data QueueError : Type 0 where
  refused : StoreError → QueueError
  interrupted : Text → QueueError

-- Where a worker stands in its loop.
pub data Phase : Type 0 where
  claiming : Phase  -- at the head of the loop
  delivering : Job → Phase  -- in process, before the dispatcher has returned
  finishing : Job → WebhookResult → Phase  -- in process, before FinishAttempt has returned
  waiting : Phase  -- in wait
  returned : Phase

abbrev pub is_returned : Phase → Bool
is_returned returned = true
is_returned _ = false

-- The name of the n-th worker.
unfoldable pub worker_id : (ℕ → Text) → Text → ℕ → Text
worker_id itoa instance_id n = instance_id ++ codes "/" ++ itoa n

module _ {O : Type 0} (observer : Observer O) where
  -- runWorker, from the claim to the next point where it may stop or wait. The flag tells whether
  -- the context is cancelled.
  unfoldable pub after_claim : Bool → Result QueueError (Option Job) → O → Phase × O
  after_claim cancelled (err e) o =
      if cancelled then (returned, o) else (waiting, observer.observe_claim (codes "error") o)
  after_claim cancelled (ok none) o = (waiting, observer.observe_claim (codes "empty") o)
  after_claim cancelled (ok (some job)) o =
      (delivering job, observer.add_in_flight (pos 1) (observer.observe_claim (codes "claimed") o))

  -- process, once the dispatcher has returned.
  unfoldable pub after_deliver : Job → WebhookResult → O → Phase × O
  after_deliver job r o = (finishing job r, observer.observe_attempt r.decision r.duration o)

  -- runWorker, once process has returned.
  unfoldable pub after_process : Result QueueError Status → O → Phase × O
  after_process (ok status) o = (claiming, observer.add_in_flight (negsuc 0) o)
  after_process (err e) o =
      (claiming, observer.observe_finish_error (observer.add_in_flight (negsuc 0) o))

-- Which value `wait` may return: if both channels are ready, either.
pub data Waits (cancelled : Bool) : Bool → Type 0 where
  timer : Waits cancelled true
  done : cancelled ≡ true → Waits cancelled false

unfoldable pub after_wait : Bool → Phase
after_wait true = claiming
after_wait false = returned

pub record PoolState (O : Type 0) : Type 0 where
  pub db : Database
  pub cancelled : Bool
  pub observed : O
  pub phases : List Phase

abbrev pub advance :
    {O : Type 0} → PoolState O → Database → List Phase → List Phase → Phase × O → PoolState O
advance s db before after (p, o) = record s { db = db; observed = o; phases = before ++ p ∷ after }

-- Run returns once every worker has.
abbrev pub has_stopped : {O : Type 0} → PoolState O → Bool
has_stopped s = all_of is_returned s.phases

-- The pool when Run has started its workers.
abbrev pub run_started : {F O : Type 0} → Config F → Database → O → PoolState O
run_started config db o = record {
  db = db;
  cancelled = false;
  observed = o;
  phases = replicate (pos_part config.concurrency) claiming;
}

module _ {F : Type 0} (float : Floats F) (config : Config F) (itoa : ℕ → Text) (instance_id : Text)
    (answers : Bool → Bool) (jsonb : Jsonb) where
  -- A call of ClaimDelivery by a worker: it is answered, or the call breaks off.
  pub data Claims (cancelled : Bool) (worker : Text) (db : Database)
      : Database → Result QueueError (Option Job) → Type 0 where
    answered :
        (session : Session) (db' : Database) (job : Option Job)
        → answers cancelled ≡ true
        → claim_delivery session worker config.lease_duration db ≡ ok (db', job)
        → Claims cancelled worker db db' (ok job)
    rejected :
        (session : Session) (e : StoreError)
        → answers cancelled ≡ true
        → claim_delivery session worker config.lease_duration db ≡ err e
        → Claims cancelled worker db db (err (refused e))
    broken : (e : Text) → Claims cancelled worker db db (err (interrupted e))

  -- A call of FinishAttempt by process, which runs under a context of its own: it is answered, or the
  -- call breaks off.
  pub data Finishes (cancelled : Bool) (worker : Text) (job : Job) (r : WebhookResult)
      (db : Database) : Database → Result QueueError Status → Type 0 where
    stored :
        (now : ℕ) (id : Text) (sample : F) (db' : Database) (status : Status)
        → finish_attempt now id (result_of float config worker job cancelled sample r) db
          ≡ ok (db', status)
        → Finishes cancelled worker job r db db' (ok status)
    rejected :
        (now : ℕ) (id : Text) (sample : F) (e : StoreError)
        → finish_attempt now id (result_of float config worker job cancelled sample r) db ≡ err e
        → Finishes cancelled worker job r db db (err (refused e))
    broken : (e : Text) → Finishes cancelled worker job r db db (err (interrupted e))

  module _ {O : Type 0} (observer : Observer O) where
    -- A step of one worker, the one after `before`.
    pub data WorkerStep (s : PoolState O) : PoolState O → Type 0 where
      claim :
          (before after : List Phase) (db' : Database) (result : Result QueueError (Option Job))
          → s.phases ≡ before ++ claiming ∷ after
          → Claims s.cancelled (worker_id itoa instance_id (length before + 1)) s.db db' result
          → WorkerStep s
              (advance s db' before after (after_claim observer s.cancelled result s.observed))
      deliver :
          (before after : List Phase) (job : Job) (dispatcher : WebhookRequest → WebhookResult)
          → s.phases ≡ before ++ delivering job ∷ after
          → WorkerStep s (
              advance s s.db before after
                (after_deliver observer job (dispatcher (request_of job)) s.observed))
      finish :
          (before after : List Phase) (job : Job) (r : WebhookResult) (db' : Database)
          (result : Result QueueError Status)
          → s.phases ≡ before ++ finishing job r ∷ after
          → Finishes s.cancelled
              (worker_id itoa instance_id (length before + 1))
              job
              r
              s.db
              db'
              result
          → WorkerStep s (advance s db' before after (after_process observer result s.observed))
      wake :
          (before after : List Phase) (fired : Bool)
          → s.phases ≡ before ++ waiting ∷ after
          → Waits s.cancelled fired
          → WorkerStep s (advance s s.db before after (after_wait fired, s.observed))

    -- A step of a worker, of another part of the server, or the end of the context.
    pub data PoolStep (s : PoolState O) : PoolState O → Type 0 where
      work : {t : PoolState O} → WorkerStep s t → PoolStep s t
      others : (db' : Database) → Step jsonb s.db db' → PoolStep s (record s { db = db' })
      cancel : PoolStep s (record s { cancelled = true })

    pub data Reaches (s : PoolState O) : PoolState O → Type 0 where
      start : Reaches s s
      later : {t u : PoolState O} → Reaches s t → PoolStep t u → Reaches s u
