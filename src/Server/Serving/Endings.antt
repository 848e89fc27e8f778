-- ===== src/Server/Serving/Endings.antt =====
-- When the server ends without an error, and what its workers have done by then.
use relayforge.Store.Events.{Jsonb}
use relayforge.Prelude.{
  arith, none, some, Option, true, false, Bool, ◌≡◌, ◌↔◌, ℕ, Result-cases, inl, inr, ok, refl, [],
  List,
}
use relayforge.Prelude.Weights.{weigh, count}
use relayforge.Prelude.Text.{Text}
use relayforge.Prelude.Int.{pos, ◌≤ℤ◌}
use relayforge.Delivery.Policy.{Floats}
use relayforge.Store.Tables.{Database}
use relayforge.Observability.{Call, metrics_observer}
use relayforge.Worker.{Config}
use relayforge.Worker.Pool.{PoolState, Reaches, run_started, has_stopped}
use relayforge.Worker.Pool.Accounting.{rise, fall, is_claimed, is_attempt}
use relayforge.Worker.Pool.Settling.{has_stopped-IsSettled}
use relayforge.Server.Serving.{
  ServeEnd, server_closed, crashed, Events, serve, run, asks_version, main_status,
}

abbrev pub is_crash : Option ServeEnd → Bool
is_crash (some (crashed e)) = true
is_crash (some server_closed) = false
is_crash none = false

abbrev pub IsClean : Events → Type 0
IsClean v =
    (is_crash v.first ≡ false)
    × (v.shutdown_error ≡ none)
    × (is_crash v.late ≡ false)
    × (v.workers_done ≡ true)

serve_iff : (v : Events) → (serve v ≡ ok tt) ↔ IsClean v
unfolding serve
serve_iff v = split v.first v.shutdown_error v.late v.workers_done
  where
    split :
        (first : Option ServeEnd) (shut : Option Text) (late : Option ServeEnd) (finished : Bool)
        → (serve (record {
          first = first;
          shutdown_error = shut;
          late = late;
          workers_done = finished;
        })
            ≡ ok tt)
          ↔ IsClean (record {
            first = first;
            shutdown_error = shut;
            late = late;
            workers_done = finished;
          })
    split first shut late finished = ground arith

-- When it is not asked for its version and its parts could be set up, the server's exit status is 0
-- exactly if it ended cleanly: ListenAndServe returned nothing but ErrServerClosed, the shutdown made
-- no error, and the workers were done in time.
pub main_status_iff :
    (args : List Text) (printed : Bool) (v : Events)
    → asks_version args ≡ false
    → (main_status args printed (run (ok tt) v) ≡ 0) ↔ IsClean v
unfolding main_status run
main_status_iff args printed v h = elim (Result-cases (serve v)) [
  | inl (done, e) ↦ (λ k. (serve_iff v).0 e, λ k. rw (h, e) refl)
  | inr (x, e) ↦ (λ k. absurd (ground (arith, h, e)), λ k. absurd (cc (e, (serve_iff v).1 k)))
]

module _ {F : Type 0} (float : Floats F) (config : Config F) (itoa : ℕ → Text) (instance_id : Text)
    (answers : Bool → Bool) (jsonb : Jsonb) where
  -- If run ends without an error, then the workers of its pool had stopped: their context was
  -- cancelled, the gauge of the deliveries in flight was back at zero, and every claim that returned a
  -- job had had its attempt counted; where the channel of the workers is closed only once Run has
  -- returned, and there is a worker.
  pub run-IsSettled :
      (v : Events) (db : Database) (s : PoolState (List Call))
      → pos 1 ≤ℤ config.concurrency
      → Reaches float config itoa instance_id answers jsonb metrics_observer
          (run_started config db [])
          s
      → (v.workers_done ≡ true → has_stopped s ≡ true)
      → run (ok tt) v ≡ ok tt
      → (s.cancelled ≡ true)
        × (weigh rise s.observed ≡ weigh fall s.observed)
        × (count is_claimed s.observed ≡ count is_attempt s.observed)
  unfolding run
  run-IsSettled v db s some_workers r told h =
      let clean : IsClean v = elim (Result-cases (serve v)) [
        | inl (done, e) ↦ (serve_iff v).0 e
        | inr (x, e) ↦ absurd (ground (arith, e))
      ] in
      has_stopped-IsSettled float config itoa instance_id answers jsonb db s some_workers r
        (told clean.3)
