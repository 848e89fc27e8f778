-- ===== src/Worker/Pool/Safety.antt =====
-- What a pool does to the database.
use relayforge.Store.Events.{Jsonb}
use relayforge.Prelude.{Option, Bool, ℕ, Result}
use relayforge.Prelude.Text.{Text}
use relayforge.Delivery.Model.{Status}
use relayforge.Delivery.Policy.{Floats}
use relayforge.Store.Tables.{Database}
use relayforge.Store.Evolution.{Evolves}
use relayforge.Store.Queue.{Job}
use relayforge.Store.History.{History, Step, IsWhole}
use relayforge.Store.History.Invariant.{History-IsWhole}
use relayforge.Webhook.Dispatcher.{WebhookResult}
use relayforge.Worker.{Config, result_of}
use relayforge.Worker.Pool.{
  Observer, PoolState, QueueError, Claims, Finishes, WorkerStep, claim, deliver, finish, wake, work,
  others, cancel, Reaches, start, later,
}

module _ {F : Type 0} (float : Floats F) (config : Config F) (itoa : ℕ → Text) (instance_id : Text)
    (answers : Bool → Bool) (jsonb : Jsonb) where
  Claims-History :
      {cancelled : Bool} {worker : Text} {first db db' : Database}
      {result : Result QueueError (Option Job)}
      → History jsonb first db
      → Claims float config itoa instance_id answers jsonb cancelled worker db db' result
      → History jsonb first db'
  Claims-History {worker} past (Claims.answered session db' job a c) =
      History.step past (Step.claim session worker config.lease_duration db' job c)
  Claims-History past (Claims.rejected session e a c) = past
  Claims-History past (Claims.broken e) = past

  Finishes-History :
      {cancelled : Bool} {worker : Text} {job : Job} {r : WebhookResult} {first db db' : Database}
      {result : Result QueueError Status}
      → History jsonb first db
      → Finishes float config itoa instance_id answers jsonb cancelled worker job r db db' result
      → History jsonb first db'
  Finishes-History {cancelled} {worker} {job} {r} past
        (Finishes.stored now id sample db' status f) =
      History.step past
        (Step.finish now id (result_of float config worker job cancelled sample r) db' status f)
  Finishes-History past (Finishes.rejected now id sample e f) = past
  Finishes-History past (Finishes.broken e) = past

  module _ {O : Type 0} (observer : Observer O) where
    WorkerStep-History :
        {first : Database} {s t : PoolState O}
        → History jsonb first s.db
        → WorkerStep float config itoa instance_id answers jsonb observer s t
        → History jsonb first t.db
    WorkerStep-History past (claim before after db' result e c) = Claims-History past c
    WorkerStep-History past (deliver before after job dispatcher e) = past
    WorkerStep-History past (finish before after job r db' result e f) = Finishes-History past f
    WorkerStep-History past (wake before after fired e w) = past

    Reaches-History :
        {s t : PoolState O}
        → Reaches float config itoa instance_id answers jsonb observer s t
        → History jsonb s.db t.db
    Reaches-History start = History.begin
    Reaches-History (later r (work w)) = WorkerStep-History (Reaches-History r) w
    Reaches-History (later r (others db' s)) = History.step (Reaches-History r) s
    Reaches-History (later r cancel) = Reaches-History r

    -- From a whole database, the workers of a pool, interleaved in any way with one another and with the
    -- other transactions of the server, with calls that break off and with the end of the context, lead
    -- to whole databases only, and lose no delivery: each keeps its row, further along its life.
    pub Reaches-IsWhole :
        (s t : PoolState O)
        → IsWhole s.db
        → Reaches float config itoa instance_id answers jsonb observer s t
        → IsWhole t.db × Evolves s.db.deliveries t.db.deliveries
    Reaches-IsWhole s t whole r = History-IsWhole jsonb s.db t.db whole (Reaches-History r)
