-- ===== src/Store/History.antt =====
-- The transactions of the services and the workers on one database, in any order: a step relation,
-- and what every history keeps. A transaction that fails is rolled back, and is no step.
pub mod Ties
pub mod Recording
pub mod Preservation
pub mod Invariant
pub mod Progress
use relayforge.Store.Events.{Jsonb}
use relayforge.Store.Endpoints.{disable_endpoint, create_endpoint}
use relayforge.Delivery.Model.{Endpoint, Delivery, Status}
use relayforge.Store.Deliveries.{replay_delivery}
use relayforge.Store.Events.{enqueue_event, Enqueued, EnqueueParams}
use relayforge.Prelude.Text.{text_eq, Text}
use relayforge.Store.Queue.Finish.{finish_attempt}
use relayforge.Store.Queue.{AttemptResult, claim_delivery, Job, Session}
use relayforge.Store.Tables.{check_endpoint, Database}
use relayforge.Prelude.{All, ok, [], Option, false, true, ◌≡◌, ℕ}
use relayforge.Store.History.Ties.{Tied}
use relayforge.Prelude.Int.{ℤ}
use relayforge.Store.Queue.Recovery.{IsSoundDb}

-- One committed transaction of internal/store. The identifier of a new delivery is a fresh one.
pub data Step (jsonb : Jsonb) (db : Database) : Database → Type 0 where
  claim :
      (s : Session) (worker : Text) (lease : ℤ) (db' : Database) (job : Option Job)
      → claim_delivery s worker lease db ≡ ok (db', job)
      → Step jsonb db db'
  finish :
      (now : ℕ) (id : Text) (r : AttemptResult) (db' : Database) (status : Status)
      → finish_attempt now id r db ≡ ok (db', status)
      → Step jsonb db db'
  enqueue :
      (now : ℕ) (p : EnqueueParams) (db' : Database) (e : Enqueued)
      → All (λ d. text_eq d.id p.delivery_id ≡ false) db.deliveries
      → enqueue_event jsonb now p db ≡ ok (db', e)
      → Step jsonb db db'
  replay :
      (now : ℕ) (id : Text) (db' : Database) (d : Delivery)
      → replay_delivery now id db ≡ ok (db', d)
      → Step jsonb db db'
  create :
      (now : ℕ) (value : Endpoint) (db' : Database) (e : Endpoint)
      → create_endpoint now value db ≡ ok (db', e)
      → Step jsonb db db'
  disable :
      (now : ℕ) (id : Text) (db' : Database) (e : Endpoint)
      → disable_endpoint now id db ≡ ok (db', e)
      → Step jsonb db db'

-- A history of transactions, oldest first.
pub data History (jsonb : Jsonb) (db : Database) : Database → Type 0 where
  begin : History jsonb db db
  step : {mid db' : Database} → History jsonb db mid → Step jsonb mid db' → History jsonb db db'

-- The tables as the migration leaves them.
abbrev pub no_rows : Database
no_rows = record { endpoints = []; events = []; deliveries = []; attempts = [] }

-- A database that a history can lead to.
pub record IsWhole (db : Database) : Type 0 where
  pub sound : IsSoundDb db
  pub tied : Tied db.events db.endpoints db.deliveries db.attempts
  pub fits : All (λ e. check_endpoint e ≡ true) db.endpoints
