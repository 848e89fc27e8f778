-- ===== src/Worker/Pool/Accounting.antt =====
-- What the metrics of a pool add up to, however its workers are interleaved.
use relayforge.Store.Events.{Jsonb}
use relayforge.Prelude.{
  arith, ◌++◌, ◌∷◌, [], List, none, some, false, true, Bool, refl, ◌≡◌, ◌≤◌, ◌+◌, ℕ, Result, ok,
  err, Option, subst,
}
use mathlib.Core.List.{append_assoc}
use relayforge.Prelude.Weights.{weigh, weigh-append, weigh-at, weigh-replicate, one_if, count}
use relayforge.Prelude.Int.{pos_part, neg_part, pos, negsuc}
use relayforge.Prelude.Text.{Text, codes, text_eq}
use relayforge.Delivery.Model.{Status}
use relayforge.Delivery.Policy.{Floats}
use relayforge.Store.Tables.{Database}
use relayforge.Store.Queue.{Job}
use relayforge.Webhook.Dispatcher.{WebhookResult}
use relayforge.Observability.{
  Call, inc, add, metrics_observer, worker_claims, delivery_attempts, delivery_finish_errors,
  delivery_in_flight,
}
use relayforge.Worker.{Config, request_of}
use relayforge.Worker.Pool.{
  Phase, claiming, delivering, waiting, QueueError, PoolState, after_claim, after_process,
  after_deliver, finishing, deliver, after_wait, WorkerStep, claim, finish, wake, work, others,
  cancel, Reaches, start, later, run_started,
}

-- What a call adds to, and takes from, the gauge of the deliveries in flight.
abbrev pub rise : Call → ℕ
rise (add delivery_in_flight labels delta) = pos_part delta
rise _ = 0

abbrev pub fall : Call → ℕ
fall (add delivery_in_flight labels delta) = neg_part delta
fall _ = 0

-- Whether a call counts a claim that returned a job, an attempt, or an error of FinishAttempt.
abbrev pub is_claimed : Call → Bool
is_claimed (inc worker_claims (result ∷ [])) = text_eq result (codes "claimed")
is_claimed _ = false

abbrev pub is_attempt : Call → Bool
is_attempt (inc delivery_attempts labels) = true
is_attempt _ = false

abbrev pub is_finish_error : Call → Bool
is_finish_error (inc delivery_finish_errors labels) = true
is_finish_error _ = false

abbrev pub is_posting : Phase → Bool
is_posting (delivering job) = true
is_posting _ = false

abbrev pub is_finishing : Phase → Bool
is_finishing (finishing job r) = true
is_finishing _ = false

-- The counters agree with what the workers are doing.
pub record IsCounted (calls : List Call) (phases : List Phase) : Type 0 where
  pub gauge :
      weigh rise calls ≡ weigh fall calls + count is_posting phases + count is_finishing phases
  pub claims : count is_claimed calls ≡ count is_attempt calls + count is_posting phases
  pub attempts : count is_attempt calls ≡ weigh fall calls + count is_finishing phases
  pub errors : count is_finish_error calls ≤ weigh fall calls

-- What a part of runWorker does to the counters: `taken` jobs, `tried` attempts, `given` ends of process.
record Adds (calls calls' : List Call) (taken tried given : ℕ) : Type 0 where
  up : weigh rise calls' ≡ weigh rise calls + taken
  down : weigh fall calls' ≡ weigh fall calls + given
  claimed : count is_claimed calls' ≡ count is_claimed calls + taken
  attempted : count is_attempt calls' ≡ count is_attempt calls + tried
  failing : count is_finish_error calls' ≤ count is_finish_error calls + given

Adds-append :
    (calls new : List Call)
    → count is_claimed new ≡ weigh rise new
    → count is_finish_error new ≤ weigh fall new
    → Adds calls (calls ++ new) (weigh rise new) (count is_attempt new) (weigh fall new)
Adds-append calls new same few = record {
  up = weigh-append rise calls new;
  down = weigh-append fall calls new;
  claimed = omega (arith, weigh-append (one_if is_claimed) calls new, same);
  attempted = weigh-append (one_if is_attempt) calls new;
  failing = omega (arith, weigh-append (one_if is_finish_error) calls new, few);
}

after_claim-Adds :
    (cancelled : Bool) (result : Result QueueError (Option Job)) (calls : List Call)
    → let next = after_claim metrics_observer cancelled result calls in
      Adds calls next.1 (one_if is_posting next.0) 0 0 × (one_if is_finishing next.0 ≡ 0)
unfolding after_claim metrics_observer text_eq
after_claim-Adds true (err e) calls = (omega arith, refl)
after_claim-Adds false (err e) calls = (Adds-append calls _ refl (omega arith), refl)
after_claim-Adds cancelled (ok none) calls = (Adds-append calls _ refl (omega arith), refl)
after_claim-Adds cancelled (ok (some job)) calls = (
  simp append_assoc (
      Adds-append calls
        (inc worker_claims (codes "claimed" ∷ []) ∷ add delivery_in_flight [] (pos 1) ∷ []) refl
        (omega arith)),
  refl,
)

after_deliver-Adds :
    (job : Job) (r : WebhookResult) (calls : List Call)
    → Adds calls (after_deliver metrics_observer job r calls).1 0 1 0
unfolding after_deliver metrics_observer
after_deliver-Adds job r calls = Adds-append calls _ refl (omega arith)

after_process-Adds :
    (result : Result QueueError Status) (calls : List Call)
    → let next = after_process metrics_observer result calls in
      Adds calls next.1 0 0 1 × (one_if is_posting next.0 ≡ 0) × (one_if is_finishing next.0 ≡ 0)
unfolding after_process metrics_observer
after_process-Adds (ok status) calls = (Adds-append calls _ refl (omega arith), refl, refl)
after_process-Adds (err e) calls = (
  simp append_assoc (
      Adds-append calls (add delivery_in_flight [] (negsuc 0) ∷ inc delivery_finish_errors [] ∷ [])
        refl (omega arith)),
  refl,
  refl,
)

after_wait-idle :
    (fired : Bool)
    → (one_if is_posting (after_wait fired) ≡ 0) × (one_if is_finishing (after_wait fired) ≡ 0)
unfolding after_wait
after_wait-idle true = (refl, refl)
after_wait-idle false = (refl, refl)

-- A worker leaves a phase for another one, and the counters move with it.
moves :
    (calls calls' : List Call) (before after : List Phase) (p q : Phase) (taken tried given : ℕ)
    → Adds calls calls' taken tried given
    → one_if is_posting q + tried ≡ one_if is_posting p + taken
    → one_if is_finishing q + given ≡ one_if is_finishing p + tried
    → IsCounted calls (before ++ p ∷ after)
    → IsCounted calls' (before ++ q ∷ after)
moves calls calls' before after p q taken tried given a e f h =
    let posting = weigh-at (one_if is_posting) before after in
    let ending = weigh-at (one_if is_finishing) before after in
    record {
      gauge = omega (arith, a.up, a.down, h.gauge, posting p, posting q, ending p, ending q, e, f);
      claims = omega (arith, a.claimed, a.attempted, h.claims, posting p, posting q, e);
      attempts = omega (arith, a.down, a.attempted, h.attempts, ending p, ending q, f);
      errors = omega (arith, a.down, a.failing, h.errors);
    }

module _ {F : Type 0} (float : Floats F) (config : Config F) (itoa : ℕ → Text) (instance_id : Text)
    (answers : Bool → Bool) (jsonb : Jsonb) where
  WorkerStep-IsCounted :
      {s t : PoolState (List Call)}
      → WorkerStep float config itoa instance_id answers jsonb metrics_observer s t
      → IsCounted s.observed s.phases
      → IsCounted t.observed t.phases
  unfolding after_deliver
  WorkerStep-IsCounted {s} (claim before after db' result e c) h =
      let (adds, idle) = after_claim-Adds s.cancelled result s.observed in
      moves s.observed _ before after claiming _ _ 0 0 adds (omega arith) (omega (arith, idle))
        (subst (IsCounted s.observed) e h)
  WorkerStep-IsCounted {s} (deliver before after job dispatcher e) h =
      moves s.observed _ before after (delivering job) (finishing job (dispatcher (request_of job)))
        0 1 0 (after_deliver-Adds job (dispatcher (request_of job)) s.observed) (omega arith)
        (omega arith) (subst (IsCounted s.observed) e h)
  WorkerStep-IsCounted {s} (finish before after job r db' result e f) h =
      let (adds, unposted, idle) = after_process-Adds result s.observed in
      moves s.observed _ before after (finishing job r) _ 0 0 1 adds (omega (arith, unposted))
        (omega (arith, idle)) (subst (IsCounted s.observed) e h)
  WorkerStep-IsCounted {s} (wake before after fired e w) h =
      let (unposted, idle) = after_wait-idle fired in
      moves s.observed s.observed before after waiting _ 0 0 0 (omega arith)
        (omega (arith, unposted)) (omega (arith, idle)) (subst (IsCounted s.observed) e h)

  abbrev pub Pool : PoolState (List Call) → PoolState (List Call) → Type 0
  Pool = Reaches float config itoa instance_id answers jsonb metrics_observer

  -- However the workers of a pool are interleaved with one another and with the rest of the server,
  -- from the start of Run on: the gauge of the deliveries in flight is the number of workers in
  -- process; the claims that returned a job are the attempts and those that the dispatcher has not
  -- returned from; the attempts are those that process has returned from and those before
  -- FinishAttempt has returned; and errors of FinishAttempt are no more than the former.
  pub Reaches-IsCounted :
      (db : Database) (s : PoolState (List Call))
      → Pool (run_started config db []) s
      → IsCounted s.observed s.phases
  Reaches-IsCounted db _ start =
      let unposted =
        weigh-replicate (one_if is_posting) (pos_part config.concurrency) claiming refl in
      let idle =
        weigh-replicate (one_if is_finishing) (pos_part config.concurrency) claiming refl in
      record {
        gauge = omega (arith, unposted, idle);
        claims = omega (arith, unposted);
        attempts = omega (arith, idle);
        errors = omega arith;
      }
  Reaches-IsCounted db _ (later r (work w)) = WorkerStep-IsCounted w (Reaches-IsCounted db _ r)
  Reaches-IsCounted db _ (later r (others db' s)) = Reaches-IsCounted db _ r
  Reaches-IsCounted db _ (later r cancel) = Reaches-IsCounted db _ r
