-- ===== src/Examples/Pool.antt =====
-- A pool of one worker that claims a delivery, makes an attempt that cannot be stored, and stops.
use relayforge.Examples.Tables.{plain}
use relayforge.Prelude.{
  arith, ◌++◌, ◌∷◌, [], List, some, none, false, true, not, refl, ◌≡◌, ◌≢◌, ◌↔◌, ◌≤◌, ◌+◌, ◌*◌, ◌⊎◌,
  ℕ, ok, err, ap, length, length-append, Memᴰ,
}
use relayforge.Prelude.Weights.{weigh, count, replicate, length-replicate}
use relayforge.Prelude.Int.{pos}
use relayforge.Prelude.Text.{Text, codes, text_eq, trim_space}
use relayforge.Store.Tables.{
  Database, DeliveryRow, scan_endpoint, scan_delivery, update_deliveries, check_delivery,
  check_endpoint, StoreError,
}
use relayforge.Store.Queue.{
  Job, claim_delivery, AttemptResult, scan_job, record_leases, scan_leases, released, claimed,
  earliest, endpoint_open, is_claimable, is_expired, expired_leases, recover_expired_leases,
  claim_next,
}
use relayforge.Prelude.Sorting.{sort_by}
use relayforge.Store.Queue.Finish.{holds_lease}
use relayforge.Prelude.Utf8.{storable}
use relayforge.Store.Stats.{operational_stats, count_status}
use relayforge.Delivery.Model.{Status, status_text}
use relayforge.Worker.{result_of}
use relayforge.Worker.Pool.{
  PoolState, advance, run_started, after_claim, after_process, after_deliver, deliver, worker_id,
  Reaches, start, later, work, cancel, claim, finish, Claims, Finishes, interrupted, has_stopped,
  WorkerStep,
}
use relayforge.Worker.Pool.Accounting.{
  Reaches-IsCounted, IsCounted, rise, fall, is_claimed, is_attempt,
}
use relayforge.Worker.Pool.Stopping.{cancelled-stops, work_steps}
use relayforge.Store.History.{IsWhole}
use relayforge.Worker.Pool.Attempts.{claims-once, claims_of}
use relayforge.Worker.Pool.Making.{is_making}
use relayforge.Worker.Pool.Names.{PrintsNumbers, claimed_is_own}
use relayforge.Observability.{Call, metrics_observer, collect, PoolStats}
use relayforge.Observability.Scrapes.{
  collect_lem, success_values, shown_under, delivered, is_delivery_count,
}
use relayforge.Server.Serving.{Events, server_closed, asks_version, run, main_status}
use relayforge.Server.Serving.Endings.{main_status_iff, run-IsSettled, IsClean}
use relayforge.Examples.Policies.{whole}
use relayforge.Examples.Worker.{config, reply}
use relayforge.Examples.Data.{
  tables, tables-IsSoundDb, session, lease, leased, given_up, taken_row, job,
}

-- Numbers in base one, between a first and a last digit.
abbrev pub itoa : ℕ → Text
itoa n = replicate n 49 ++ 48 ∷ []

itoa-length : (n : ℕ) → length (itoa n) ≡ n + 1
itoa-length n =
    let (one, nought) : ℕ × ℕ = (49, 48) in
    omega (arith, length-append (replicate n one) (nought ∷ []), length-replicate n one)

itoa-PrintsNumbers : PrintsNumbers itoa
itoa-PrintsNumbers = record {
  last_digit = λ n. (replicate n 49, 48, refl, refl);
  apart = λ n m e. omega (arith, ap length e, itoa-length n, itoa-length m);
}

abbrev pool_tables : Database
pool_tables = record tables {
  deliveries = leased ∷ record taken_row { locked_by = some (codes "p/10") } ∷ given_up ∷ [];
}

abbrev pool_job : Job
pool_job = record job { delivery = record job.delivery { locked_by = codes "p/10" } }

pool_claim :
    claim_delivery session (worker_id itoa (codes "p") 1) lease tables
    ≡ ok (pool_tables, some pool_job)
unfolding claim_delivery claim_next recover_expired_leases update_deliveries expired_leases sort_by
    is_expired is_claimable endpoint_open earliest claimed released scan_leases record_leases
    scan_job scan_delivery scan_endpoint check_delivery text_eq trim_space worker_id storable
pool_claim = refl

claimed_is_own_example :
    (d : DeliveryRow) × Memᴰ d pool_tables.deliveries
    × (holds_lease (result_of whole config (worker_id itoa (codes "p") 1) pool_job false 0 reply) d
        ≡ true)
    × ((m : ℕ) (r' : AttemptResult)
        → m ≢ 1
        → r'.worker_id ≡ worker_id itoa (codes "p") m
        → holds_lease r' d ≡ false)
claimed_is_own_example =
    claimed_is_own whole config itoa itoa-PrintsNumbers 112 [] refl refl 1 session tables
      pool_tables pool_job false 0 reply tables-IsSoundDb pool_claim

abbrev begun : PoolState (List Call)
begun = run_started config tables []

abbrev holding : PoolState (List Call)
holding =
    advance begun pool_tables [] [] (after_claim metrics_observer false (ok (some pool_job)) [])

abbrev posted : PoolState (List Call)
posted =
    advance holding pool_tables [] []
      (after_deliver metrics_observer pool_job reply holding.observed)

abbrev lost : PoolState (List Call)
lost =
    advance posted pool_tables [] []
      (after_process metrics_observer (err (interrupted [])) posted.observed)

abbrev ending : PoolState (List Call)
ending = record lost { cancelled = true }

abbrev over : PoolState (List Call)
over =
    advance ending pool_tables [] []
      (after_claim metrics_observer true (err (interrupted [])) ending.observed)

abbrev Pool : PoolState (List Call) → PoolState (List Call) → Type 0
Pool = Reaches whole config itoa (codes "p") not plain metrics_observer

to_holding : Pool begun holding
to_holding = later start (
    work (
      claim [] [] pool_tables (ok (some pool_job)) refl
        (Claims.answered session pool_tables (some pool_job) refl pool_claim)))

to_posted : Pool begun posted
unfolding after_claim
to_posted = later to_holding (work (deliver [] [] pool_job (λ _. reply) refl))

to_ending : Pool begun ending
unfolding after_claim after_deliver
to_ending =
    later
      (later to_posted (
        work (
          finish [] [] pool_job reply pool_tables (err (interrupted [])) refl
            (Finishes.broken []))))
      cancel

last_step : Pool ending over
unfolding after_claim after_deliver after_process
last_step =
    later start (work (claim [] [] pool_tables (err (interrupted [])) refl (Claims.broken [])))

to_over : Pool begun over
unfolding after_claim after_deliver after_process
to_over =
    later to_ending (work (claim [] [] pool_tables (err (interrupted [])) refl (Claims.broken [])))

over-has_stopped : has_stopped over ≡ true
unfolding after_claim
over-has_stopped = refl

Reaches-IsCounted_example : IsCounted posted.observed posted.phases
Reaches-IsCounted_example =
    Reaches-IsCounted whole config itoa (codes "p") not plain tables posted to_posted

cancelled-stops_example :
    (work_steps whole config itoa (codes "p") not plain metrics_observer last_step
      ≤ 3 * length ending.phases)
    × ((has_stopped over ≡ true)
        ⊎ ((u : PoolState (List Call)) × WorkerStep whole config itoa
              (codes "p")
              not
              plain
              metrics_observer
              over
              u))
cancelled-stops_example =
    cancelled-stops whole config itoa (codes "p") not plain metrics_observer (λ _. reply) 2500000000
      (codes "a1") 0 ending over refl refl last_step

abbrev events : Events
events = record {
  first = none;
  shutdown_error = none;
  late = some server_closed;
  workers_done = true;
}

run-clean : run (ok tt) events ≡ ok tt
unfolding run
run-clean = refl

run-IsSettled_example :
    (over.cancelled ≡ true)
    × (weigh rise over.observed ≡ weigh fall over.observed)
    × (count is_claimed over.observed ≡ count is_attempt over.observed)
run-IsSettled_example =
    run-IsSettled whole config itoa (codes "p") not plain events tables over (omega arith) to_over
      (λ _. over-has_stopped) run-clean

main_status_iff_example :
    (main_status (codes "relayforge" ∷ []) true (run (ok tt) events) ≡ 0) ↔ IsClean events
unfolding asks_version
main_status_iff_example = main_status_iff (codes "relayforge" ∷ []) true events refl

abbrev connections : PoolStats
connections = record { acquired = pos 1; idle = pos 1; total = pos 2; max = pos 10 }

collect_lem_example :
    let shown = collect (ok (operational_stats 0 tables)) connections in
    let failed = collect (err StoreError.lease_lost) connections in
    (success_values shown ≡ pos 1 ∷ [])
    × ((s : Status)
        → shown_under (status_text s) shown ≡ some (pos (count_status s tables.deliveries)))
    × (weigh delivered shown ≡ 3)
    × (success_values failed ≡ pos 0 ∷ [])
    × (count is_delivery_count failed ≡ 0)
collect_lem_example = collect_lem 0 tables StoreError.lease_lost connections

tables-IsWhole : IsWhole tables
unfolding text_eq check_endpoint storable
tables-IsWhole = record {
  sound = tables-IsSoundDb;
  tied = record { linked = ((refl, refl), ((refl, refl), ((refl, refl), tt))); logged = tt };
  fits = (refl, tt);
}

claims-once_example :
    (claims_of whole config itoa 112 [] not plain itoa-PrintsNumbers refl refl metrics_observer
        (codes "d2")
        1
        to_holding
      ≤ 1)
    × (count (is_making (codes "d2") 1) holding.phases
        ≤ claims_of whole config itoa 112 [] not plain itoa-PrintsNumbers refl refl metrics_observer
            (codes "d2")
            1
            to_holding)
claims-once_example =
    claims-once whole config itoa 112 [] not plain itoa-PrintsNumbers refl refl metrics_observer
      (codes "d2") 1 tables [] holding tables-IsWhole to_holding
