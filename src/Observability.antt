-- ===== src/Observability.antt =====
-- internal/observability/metrics.go: the instruments, and what the observers and a scrape hand to the
-- Prometheus client, whose calls are kept as a list. A duration is kept in nanoseconds, and a gauge as an
-- integer, where the code converts to float64. The order within the two maps of Collect is one of those
-- that Go may take.
pub mod Scrapes
use relayforge.Prelude.{◌++◌, ◌∷◌, [], List, ℕ, Result, ok, err}
use relayforge.Prelude.Int.{ℤ, pos}
use relayforge.Prelude.Text.{Text, codes}
use relayforge.Delivery.Policy.{Decision}
use relayforge.Store.Stats.{OperationalStats}
use relayforge.Store.Tables.{StoreError}
use relayforge.Worker.Pool.{Observer}

-- The fields of Metrics that belong to the client.
pub data Instrument : Type 0 where
  http_requests http_duration worker_claims delivery_attempts delivery_duration : Instrument
  delivery_finish_errors delivery_in_flight : Instrument
  deliveries open_circuits stats_scrape_success database_connections : Instrument

pub data InstrumentKind : Type 0 where
  counter histogram gauge described : InstrumentKind

-- What NewMetrics asks the client for. The parts of the name are joined by the client.
pub record Opts : Type 0 where
  pub kind : InstrumentKind
  pub name : List Text
  pub help : Text
  pub labels : List Text

opts_in : InstrumentKind → Text → Text → Text → List Text → Opts
opts_in kind subsystem name help labels = record {
  kind = kind;
  name = codes "relayforge" ∷ subsystem ∷ name ∷ [];
  help = help;
  labels = labels;
}

new_desc : Text → Text → List Text → Opts
new_desc name help labels = record {
  kind = described;
  name = name ∷ [];
  help = help;
  labels = labels;
}

unfoldable pub opts_of : Instrument → Opts
unfolding opts_in new_desc
opts_of http_requests =
    opts_in counter (codes "http") (codes "requests_total") (codes "Total HTTP requests.")
      (codes "method" ∷ codes "route" ∷ codes "status" ∷ [])
opts_of http_duration =
    opts_in histogram (codes "http") (codes "request_duration_seconds")
      (codes "HTTP request duration in seconds.") (codes "method" ∷ codes "route" ∷ [])
opts_of worker_claims =
    opts_in counter (codes "worker") (codes "claims_total")
      (codes "Delivery claim attempts by result.") (codes "result" ∷ [])
opts_of delivery_attempts =
    opts_in counter (codes "delivery") (codes "attempts_total")
      (codes "Webhook delivery attempts by decision.") (codes "decision" ∷ [])
opts_of delivery_duration =
    opts_in histogram (codes "delivery") (codes "attempt_duration_seconds")
      (codes "Webhook delivery attempt duration in seconds.") (codes "decision" ∷ [])
opts_of delivery_finish_errors =
    opts_in counter (codes "delivery") (codes "finish_errors_total")
      (codes "Failed delivery result persistence operations.") []
opts_of delivery_in_flight =
    opts_in gauge (codes "delivery") (codes "in_flight")
      (codes "Deliveries currently processed by this instance.") []
opts_of deliveries =
    new_desc (codes "relayforge_deliveries") (codes "Current durable deliveries by status.")
      (codes "status" ∷ [])
opts_of open_circuits =
    new_desc (codes "relayforge_open_circuits") (codes "Endpoints with an open circuit.") []
opts_of stats_scrape_success =
    new_desc (codes "relayforge_operational_stats_scrape_success")
      (codes "Whether durable operational stats were collected successfully.") []
opts_of database_connections =
    new_desc (codes "relayforge_database_connections")
      (codes "PostgreSQL pool connections by state.") (codes "state" ∷ [])

-- A call of the client, with the values of the labels.
pub data Call : Type 0 where
  inc : Instrument → List Text → Call
  observe : Instrument → List Text → ℤ → Call
  add : Instrument → List Text → ℤ → Call

abbrev pub instrument_of : Call → Instrument
instrument_of (inc i labels) = i
instrument_of (observe i labels value) = i
instrument_of (add i labels delta) = i

abbrev pub labels_of : Call → List Text
labels_of (inc i labels) = labels
labels_of (observe i labels value) = labels
labels_of (add i labels delta) = labels

-- string(decision)
unfoldable pub decision_text : Decision → Text
decision_text Decision.succeed = codes "succeed"
decision_text Decision.retry = codes "retry"
decision_text Decision.discard = codes "discard"

unfoldable pub observe_http_request : (ℕ → Text) → Text → Text → ℕ → ℤ → List Call → List Call
observe_http_request itoa method route status duration calls =
    calls
    ++ inc http_requests (method ∷ route ∷ itoa status ∷ [])
      ∷ observe http_duration (method ∷ route ∷ []) duration
      ∷ []

-- ObserveClaim, ObserveAttempt, ObserveFinishError and AddInFlight.
unfoldable pub metrics_observer : Observer (List Call)
unfolding decision_text
metrics_observer = record {
  observe_claim = λ result calls. calls ++ inc worker_claims (result ∷ []) ∷ [];
  observe_attempt = λ decision duration calls.
      calls
      ++ inc delivery_attempts (decision_text decision ∷ [])
        ∷ observe delivery_duration (decision_text decision ∷ []) duration
        ∷ [];
  observe_finish_error = λ calls. calls ++ inc delivery_finish_errors [] ∷ [];
  add_in_flight = λ delta calls. calls ++ add delivery_in_flight [] delta ∷ [];
}

-- What pgxpool tells of its connections.
pub record PoolStats : Type 0 where
  pub acquired : ℤ
  pub idle : ℤ
  pub total : ℤ
  pub max : ℤ

-- A metric that Collect sends.
pub record Series : Type 0 where
  pub desc : Instrument
  pub value : ℤ
  pub labels : List Text

unfoldable pub describe : List Instrument
describe = deliveries ∷ open_circuits ∷ stats_scrape_success ∷ database_connections ∷ []

abbrev pub series : Instrument → ℤ → List Text → Series
series desc value labels = record { desc = desc; value = value; labels = labels }

-- The part of Collect that depends on the stats of the store.
unfoldable pub collect_stats : Result StoreError OperationalStats → List Series
collect_stats (err e) = series stats_scrape_success (pos 0) [] ∷ []
collect_stats (ok stats) =
    series stats_scrape_success (pos 1) []
    ∷ series deliveries (pos stats.pending) (codes "pending" ∷ [])
    ∷ series deliveries (pos stats.processing) (codes "processing" ∷ [])
    ∷ series deliveries (pos stats.retrying) (codes "retrying" ∷ [])
    ∷ series deliveries (pos stats.succeeded) (codes "succeeded" ∷ [])
    ∷ series deliveries (pos stats.dead) (codes "dead" ∷ [])
    ∷ series open_circuits (pos stats.open_circuits) []
    ∷ []

-- The part that depends on the connections.
unfoldable pub collect_pool : PoolStats → List Series
collect_pool pool =
    series database_connections pool.acquired (codes "acquired" ∷ [])
    ∷ series database_connections pool.idle (codes "idle" ∷ [])
    ∷ series database_connections pool.total (codes "total" ∷ [])
    ∷ series database_connections pool.max (codes "max" ∷ [])
    ∷ []

unfoldable pub collect : Result StoreError OperationalStats → PoolStats → List Series
unfolding collect_stats collect_pool
collect stats pool = collect_stats stats ++ collect_pool pool
