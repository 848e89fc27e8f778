-- ===== src/Eventing/Publishing.antt =====
-- Publishing an event once, and again.
use relayforge.Store.Events.{Jsonb}
use relayforge.Prelude.{◌>>◌, err, ok, arith, not, Bool, ap, refl, ◌≡◌, ℕ, Result}
use relayforge.Eventing.{PublishError, PublishInput, publish, params_of, as_publish_error}
use relayforge.Store.Tables.{StoreError, Database}
use relayforge.Prelude.Text.{Text, text_eq}
use relayforge.Store.Events.{Enqueued}
use relayforge.Store.Events.Idempotency.{enqueue_event-again}

published :
    (c : Result PublishError (Unit {0})) (m : Result StoreError (Database × Enqueued))
    {x : Database × Enqueued}
    → (c >> as_publish_error m) ≡ ok x
    → (c ≡ ok tt) × (m ≡ ok x)
published (ok tt) (ok y) h = (refl, ground arith)
published (ok tt) (err e) h = absurd (cc)
published (err e) m h = absurd (cc)

module _ (is_uuid is_json : Text → Bool) (jsonb : Jsonb) where
  -- Publishing the same input again, under other fresh identifiers, changes nothing and returns the
  -- event and the delivery of the first time, as a duplicate unless the identifier of the event is the
  -- stored one.
  pub publish-again :
      (now later : ℕ) (event_id delivery_id event_id' delivery_id' : Text) (input : PublishInput)
      (db db' : Database) (r : Enqueued)
      → publish is_uuid is_json jsonb now event_id delivery_id input db ≡ ok (db', r)
      → (r' : Enqueued) × (publish is_uuid is_json jsonb later event_id' delivery_id' input db'
          ≡ ok (db', r'))
        × (r'.event ≡ r.event)
        × (r'.delivery ≡ r.delivery)
        × (r'.duplicate ≡ not (text_eq r.event.id event_id'))
  unfolding publish params_of
  publish-again now later event_id delivery_id event_id' delivery_id' input db db' r h =
      let (fine, stored) = published _ _ h in
      let (r', e, same_event, same_delivery, duplicate) =
        enqueue_event-again jsonb now later (params_of input event_id delivery_id) event_id'
          delivery_id' db db' r stored in
      (r', rw (fine, publish) (ap as_publish_error e), same_event, same_delivery, duplicate)
