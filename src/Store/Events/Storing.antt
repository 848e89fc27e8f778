-- ===== src/Store/Events/Storing.antt =====
-- What a call of EnqueueEvent that returns a result has done.
use relayforge.Store.Events.{Jsonb}
use relayforge.Store.Tables.{scan_delivery, check_delivery, DeliveryRow, Database, EndpointRow}
use relayforge.Store.Events.{
  new_event, new_delivery, same_key, enqueue_event, Enqueued, EnqueueParams,
}
use relayforge.Prelude.{
  is_some, Option-cases, find?, upsert, ok, arith, List, some, false, true, inr, inl, ◌≡◌, ℕ,
}
use relayforge.Prelude.Text.{text_eq, Text}
use relayforge.Delivery.Model.{Event}
use relayforge.Prelude.Utf8.{storable}

abbrev pub event_upsert : ℕ → EnqueueParams → Text → Database → List Event × Event
event_upsert now p payload db =
    upsert (same_key p.endpoint_id p.idempotency_key) (new_event now p payload) db.events

abbrev pub delivery_upsert :
    ℕ → EnqueueParams → Text → ℕ → Database → List DeliveryRow × DeliveryRow
delivery_upsert now p event_id n db =
    upsert (λ d. text_eq d.event_id event_id) (new_delivery now p event_id n) db.deliveries

module _ (jsonb : Jsonb) where
  -- What a call of EnqueueEvent that returns a result has passed, and its result.
  pub record Stored (now : ℕ) (p : EnqueueParams) (db db' : Database) (r : Enqueued) : Type 0 where
    pub owner : EndpointRow
    pub payload : Text
    pub owned : find? (λ e. text_eq e.id p.endpoint_id) db.endpoints ≡ some owner
    pub enabled : is_some owner.disabled_at ≡ false
    pub type_storable : storable p.event_type ≡ true
    pub key_storable : storable p.idempotency_key ≡ true
    pub converted : jsonb.convert p.payload ≡ some payload
    pub type_fits : text_eq (event_upsert now p payload db).1.event_type p.event_type ≡ true
    pub payload_fits : jsonb.equal (event_upsert now p payload db).1.payload payload ≡ true
    pub checked :
        check_delivery
          (delivery_upsert now p (event_upsert now p payload db).1.id owner.max_attempts db).1
        ≡ true
    pub tables : db' ≡ record db {
      events = (event_upsert now p payload db).0;
      deliveries =
          (delivery_upsert now p (event_upsert now p payload db).1.id owner.max_attempts db).0;
    }
    pub event : r.event ≡ (event_upsert now p payload db).1
    pub delivery :
        r.delivery
        ≡ scan_delivery
            (delivery_upsert now p (event_upsert now p payload db).1.id owner.max_attempts db).1

  pub stored :
      (now : ℕ) (p : EnqueueParams) (db db' : Database) (r : Enqueued)
      → enqueue_event jsonb now p db ≡ ok (db', r)
      → Stored now p db db' r
  unfolding enqueue_event
  stored now p db db' r h =
      elim (Option-cases (find? (λ e. text_eq e.id p.endpoint_id) db.endpoints)) [
        | inl e ↦ absurd (ground (arith, e))
        | inr (owner, e) ↦ elim (Option-cases (jsonb.convert p.payload)) [
          | inl f ↦ absurd (ground (arith, e, f))
          | inr (payload, f) ↦ record {
            owner = owner;
            payload = payload;
            owned = e;
            enabled = ground arith;
            type_storable = ground arith;
            key_storable = ground arith;
            converted = f;
            type_fits = ground arith;
            payload_fits = ground arith;
            checked = ground arith;
            tables = ground arith;
            event = ground arith;
            delivery = ground arith;
          }
        ]
      ]
