-- ===== src/Server/Operation.antt =====
-- The server at work: requests, claims and attempts of the workers on one database, interleaved in any
-- way.
use relayforge.Worker
use relayforge.Prelude.{All, ok, Option, false, Bool, inr, inl, subst, sym, ◌≡◌, ℕ}
use relayforge.Store.History.Invariant.{History-IsWhole, reachable-IsWhole}
use relayforge.Api.Safety.{handle-IsPermitted}
use relayforge.Store.Evolution.{Evolves}
use relayforge.Prelude.Text.{Text, text_eq}
use relayforge.Delivery.Policy.{Floats}
use relayforge.Delivery.Model.{Status}
use relayforge.Store.Tables.{Database}
use relayforge.Store.Queue.{Job, Session, claim_delivery}
use relayforge.Store.History.{History, Step, IsWhole, no_rows}
use relayforge.Api.Handlers.{Server, Moment}
use relayforge.Api.Replies.{Request}
use relayforge.Api.Routing.{Mux, handle}
use relayforge.Webhook.Dispatcher.{WebhookRequest, WebhookResult}
use relayforge.Worker.{process, result_of, request_of}

module _ {F : Type 0} (float : Floats F) (config : Worker.Config F) (server : Server) (mux : Mux)
    (has_metrics : Bool) where
  -- What one of the parts does next. A worker claims, and makes an attempt at a job that it holds or
  -- held; whatever others did in between has been done.
  pub data Act (db : Database) : Database → Type 0 where
    request :
        (m : Moment) (is_ready : Bool) (r : Request)
        → All (λ d. text_eq d.id m.other_id ≡ false) db.deliveries
        → Act db (handle server mux has_metrics is_ready m r db).0
    claim :
        (s : Session) (worker : Text) (db' : Database) (job : Option Job)
        → claim_delivery s worker config.lease_duration db ≡ ok (db', job)
        → Act db db'
    attempt :
        (dispatcher : WebhookRequest → WebhookResult) (now : ℕ) (id worker : Text) (job : Job)
        (cancelled : Bool) (sample : F) (db' : Database) (status : Status)
        → process float config dispatcher now id worker job cancelled sample db ≡ ok (db', status)
        → Act db db'

  pub data Runs (db : Database) : Database → Type 0 where
    rest : Runs db db
    act : {mid db' : Database} → Runs db mid → Act mid db' → Runs db db'

  Act-History : (db db' : Database) → Act db db' → History server.jsonb db db'
  unfolding process
  Act-History db _ (request m is_ready r fresh) =
      elim (handle-IsPermitted server m db fresh mux has_metrics is_ready r) [
        | inl same ↦ subst (History server.jsonb db) (sym same) History.begin
        | inr (committed, _, _) ↦ History.step History.begin committed
      ]
  Act-History db db' (claim s worker _ job h) =
      History.step History.begin (Step.claim s worker config.lease_duration db' job h)
  Act-History db db' (attempt dispatcher now id worker job cancelled sample _ status h) =
      History.step History.begin (
        Step.finish now id
          (result_of float config worker job cancelled sample (dispatcher (request_of job))) db'
          status h)

  History-append :
      (a b c : Database)
      → History server.jsonb a b
      → History server.jsonb b c
      → History server.jsonb a c
  History-append a b _ past History.begin = past
  History-append a b c past (History.step {mid} later s) =
      History.step (History-append a b mid past later) s

  Runs-History : (db db' : Database) → Runs db db' → History server.jsonb db db'
  Runs-History db _ rest = History.begin
  Runs-History db db' (act {mid} before a) =
      History-append db mid db' (Runs-History db mid before) (Act-History mid db' a)

  -- However requests, claims and attempts of any number of workers are interleaved, the database that
  -- they lead to from empty tables is whole, and what follows loses no delivery: each keeps its row,
  -- further along its life; provided that each new delivery gets a fresh identifier.
  pub Runs-IsWhole :
      (db later : Database)
      → Runs no_rows db
      → Runs db later
      → IsWhole db × IsWhole later × Evolves db.deliveries later.deliveries
  Runs-IsWhole db later past future =
      let w = reachable-IsWhole server.jsonb db (Runs-History no_rows db past) in
      let (w', evolves) = History-IsWhole server.jsonb db later w (Runs-History db later future) in
      (w, w', evolves)
