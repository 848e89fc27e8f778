-- ===== src/Lib.antt =====
-- RelayForge: durable delivery of webhooks over PostgreSQL.
--
-- An event is stored together with one delivery of it (internal/store/events.go). Workers claim the
-- deliveries that are due under a lease, post them to their endpoint, and finish the attempt: the
-- delivery has succeeded, is tried again later, or is dead (internal/worker/pool.go,
-- internal/store/queue.go). A lease that runs out is recovered by the next claim. A dead delivery can
-- be replayed (internal/store/deliveries.go). The development models what the parts decide and what
-- they write to the tables.
--
--   Delivery.Model    internal/delivery/model.go: statuses, their changes, the records
--   Delivery.Policy   internal/delivery/policy.go: NewRetryPolicy, NextDelay, Evaluate
--   Store.Tables      migrations/001_init.up.sql: rows, constraints, scans
--   Store.Queue       internal/store/queue.go: ClaimDelivery, recoverExpiredLeases
--   Store.Queue.Finish  the same file: FinishAttempt, validateAttemptResult
--   Store.Events      internal/store/events.go: EnqueueEvent
--   Store.Deliveries  internal/store/deliveries.go: GetDelivery, ReplayDelivery
--   Store.Endpoints   internal/store/endpoints.go: CreateEndpoint, ListEndpoints, GetEndpoint,
--                     DisableEndpoint
--   Store.Stats       internal/store/stats.go: GetOperationalStats
--   Store.History     the transactions above in any order, as steps of one database
--   Webhook.Netip     net/netip, as the dialer uses it
--   Webhook.Dialer    internal/webhook/dialer.go: SafeDialer
--   Webhook.Dispatcher  internal/webhook/dispatcher.go and signature.go: Deliver, Sign
--   Eventing          internal/eventing/service.go: Publish
--   Webhook.Dispatcher.Setup  the same file: NewDispatcher
--   Worker            internal/worker/pool.go: New, process, a round of runWorker
--   Worker.Pool       the same file: Run, runWorker and wait, as workers that are interleaved
--   Observability     internal/observability/metrics.go: NewMetrics, the observers, Describe, Collect
--   Secure            internal/secure/box.go: NewBox, Encrypt, Decrypt
--   Endpoint          internal/endpoint/service.go: Create, List, Get, Disable, normalizeTarget
--   Management        internal/delivery/management.go: Get, Replay
--   Config            internal/config/config.go: Load
--   Server            cmd/relayforge/main.go: run, up to the start of the workers
--   Server.Serving    the same file: the end of run, and main
--   DatabasePool      internal/database/database.go: Open
--   Server.Operation  requests, claims and attempts on one database, interleaved in any way
--   Bench, Bench.Report  cmd/relaybench/main.go: parseConfig, publish, the counters and percentiles
--   Bench.Run         the same file: the goroutines of run, and main
--   Buildinfo         internal/buildinfo/buildinfo.go: Current
--   Api.Replies, Api.Views  internal/api: errors, statuses and bodies; decodeJSON
--   Api.Handlers      internal/api/endpoints.go, events.go, deliveries.go: the handlers
--   Api.Routing       internal/api/server.go: Handler, authenticate
--   Api.Recorder, Api.AccessLog  internal/api/server.go: responseWriter, accessLog
--   Examples          runs and instances on sample data
--
-- A transaction is a function of the tables: it returns the tables that it commits with its answer, or
-- the error that it is rolled back with. Statements that PostgreSQL would refuse for a constraint,
-- or for a text that it cannot store, return `constraint_violated`. The time, the fresh identifiers, and the rows that concurrent
-- transactions hold locked (SKIP LOCKED) are arguments. float64 and
-- PostgreSQL's jsonb, with the symmetry and transitivity of its equality, are parameters too; no theorem
-- assumes anything more of them but what it names.
--
-- A database is sound when every row of `deliveries` meets its constraints, a row that is being
-- processed has been attempted, and no two rows share an identifier (Store.Queue.Recovery.IsSoundDb).
-- A table of deliveries evolves into another when its rows stay in place, move along
-- Status.CanTransition, and their counts and limits do not fall (Store.Evolution).
--
-- Times are numbers of nanoseconds since Go's zero time, durations integers of nanoseconds, both
-- without an upper bound; the 32-bit conversion of durationMilliseconds and the range of PostgreSQL's
-- integers are written out. Identifiers are texts, and a text is a list of bytes. No function runs on
-- fuel: the loops are recursions on lists or on the number of rounds.
--
-- A worker joins these parts: a round of it claims, delivers and finishes, each over what the one before
-- left. A request joins the services: its handler maps the tables to the tables after it and a reply.
-- A pool is a list of workers, each in a phase of its loop, over one database; a step is one of a
-- worker, of another transaction of the server, or the end of the context (Worker.Pool.PoolStep). A call
-- of the queue is answered, refused, or breaks off without effect; FinishAttempt that is committed and
-- breaks off before its answer is not among the steps. A run of the benchmark is a list of workers with
-- the two channels between its goroutines (Bench.Run.BenchStep). What the metrics are told is a list of
-- calls of the Prometheus client (Observability.Call); what counters and gauges show is read off it.
-- A history is any sequence of committed transactions (Store.History.History). A database is whole when
-- it is sound, each delivery has its event and its endpoint, each recorded attempt a delivery that has
-- counted it, and the constraints of `endpoints` hold (Store.History.IsWhole).
--
-- Decryption, the HTTP client, HMAC, the resolver, http.ServeMux, JSON, base64, net/url, AES-GCM, and
-- the parsers of package strconv and time are parameters. The texts of wrapped errors are not printed:
-- a reply holds the error. An identifier that a request names in another spelling than the canonical
-- one is not found.
--
-- Not modelled: lost connections and cancelled contexts inside the store's transactions, the rounding of
-- times to microseconds, the listener, signals and timers of the server, whose outcomes are arguments,
-- the texts of messages, the buckets of histograms, the client of Prometheus, the driver behind the
-- database pool and the running of migrations, and float64 where the code prints rates and seconds.
pub mod Prelude
pub mod Delivery
pub mod Store
pub mod Webhook
pub mod Worker
pub mod Observability
pub mod Eventing
pub mod Secure
pub mod Endpoint
pub mod Management
pub mod Config
pub mod DatabasePool
pub mod Server
pub mod Api
pub mod Bench
pub mod Buildinfo
pub mod Examples
