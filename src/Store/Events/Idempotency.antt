-- ===== src/Store/Events/Idempotency.antt =====
-- An event is stored once for its idempotency key.
use relayforge.Store.Events.{Jsonb}
use relayforge.Store.Events.Storing.{delivery_upsert, event_upsert, stored}
use relayforge.Prelude.{
  Bool-cases, ◌>>◌, err, ok, List, some, ◌&&◌, not, false, true, Bool, inr, inl, ◌⊎◌, ◌≢◌, ◌∙◌,
  subst, ap, sym, refl, ◌≡◌, ℕ, guard, upsert_again, Result, is_some, find?, upsert,
}
use relayforge.Prelude.Text.{text_eq_iff, text_eq, text_eq_refl, Text}
use mathlib.Core.Path.{subst₂, ap₂}
use relayforge.Store.Tables.{
  constraint_violated, idempotency_conflict, StoreError, scan_delivery, check_delivery, EndpointRow,
  DeliveryRow, Database,
}
use relayforge.Store.Events.{
  constraint_violated, idempotency_conflict, Enqueued, EnqueueParams, new_event, enqueue_event,
  new_delivery, same_key,
}
use relayforge.Delivery.Model.{Event}
use relayforge.Prelude.Utf8.{storable}

new_event-same_key :
    (now : ℕ) (p : EnqueueParams) (payload : Text)
    → same_key p.endpoint_id p.idempotency_key (new_event now p payload) ≡ true
unfolding same_key new_event
new_event-same_key now p payload =
    rw (text_eq_refl p.endpoint_id, text_eq_refl p.idempotency_key) refl

new_delivery-event :
    (now : ℕ) (p : EnqueueParams) (event_id : Text) (n : ℕ)
    → text_eq (new_delivery now p event_id n).event_id event_id ≡ true
unfolding new_delivery
new_delivery-event now p event_id n = text_eq_refl event_id

module _ (jsonb : Jsonb) where
  -- The same request once more, under the fresh identifiers of a second call.
  abbrev pub again : EnqueueParams → Text → Text → EnqueueParams
  again p event_id delivery_id = record p { event_id = event_id; delivery_id = delivery_id }

  abbrev passes : EnqueueParams → Text → EndpointRow → Event → Bool
  passes p payload owner e = text_eq e.event_type p.event_type && jsonb.equal e.payload payload

  -- EnqueueEvent once the endpoint and the payload are known.
  enqueue_tail :
      ℕ
      → EnqueueParams
      → EndpointRow
      → Text
      → Database
      → (List Event × Event)
      → (List DeliveryRow × DeliveryRow)
      → Result StoreError (Database × Enqueued)
  enqueue_tail now p owner payload db stored queued = do
    guard (text_eq stored.1.event_type p.event_type && jsonb.equal stored.1.payload payload)
        idempotency_conflict
    guard (check_delivery queued.1) constraint_violated
    ok (
      record db { events = stored.0; deliveries = queued.0 },
      record {
        event = stored.1;
        delivery = scan_delivery queued.1;
        duplicate = not (text_eq stored.1.id p.event_id);
      },
    )

  enqueue_event-tail :
      (now : ℕ) (p : EnqueueParams) (db : Database) (owner : EndpointRow) (payload : Text)
      → find? (λ e. text_eq e.id p.endpoint_id) db.endpoints ≡ some owner
      → is_some owner.disabled_at ≡ false
      → storable p.event_type ≡ true
      → storable p.idempotency_key ≡ true
      → jsonb.convert p.payload ≡ some payload
      → enqueue_event jsonb now p db
        ≡ enqueue_tail now p owner payload db
            (event_upsert now p payload db)
            (delivery_upsert now p (event_upsert now p payload db).1.id owner.max_attempts db)
  unfolding enqueue_event enqueue_tail
  enqueue_event-tail now p db owner payload e f type_fits key_fits g =
      rw (e, f, type_fits, key_fits, g) refl

  tail_ok :
      (now : ℕ) (p : EnqueueParams) (owner : EndpointRow) (payload : Text) (db : Database)
      (stored : List Event × Event) (queued : List DeliveryRow × DeliveryRow)
      → text_eq stored.1.event_type p.event_type ≡ true
      → jsonb.equal stored.1.payload payload ≡ true
      → check_delivery queued.1 ≡ true
      → enqueue_tail now p owner payload db stored queued
        ≡ ok (
          record db { events = stored.0; deliveries = queued.0 },
          record {
            event = stored.1;
            delivery = scan_delivery queued.1;
            duplicate = not (text_eq stored.1.id p.event_id);
          },
        )
  unfolding enqueue_tail
  tail_ok now p owner payload db stored queued e f g = rw (e, f, g) refl

  -- Reuse of an idempotency key for the same event: once EnqueueEvent has stored an event, a second call
  -- with the same endpoint, key, type and payload changes nothing and returns the same event and
  -- delivery, and reports a duplicate exactly if the stored event has another identifier than its own.
  pub enqueue_event-again :
      (now later : ℕ) (p : EnqueueParams) (event_id delivery_id : Text) (db db' : Database)
      (r : Enqueued)
      → enqueue_event jsonb now p db ≡ ok (db', r)
      → (r' : Enqueued) × (enqueue_event jsonb later (again p event_id delivery_id) db'
          ≡ ok (db', r'))
        × (r'.event ≡ r.event)
        × (r'.delivery ≡ r.delivery)
        × (r'.duplicate ≡ not (text_eq r.event.id event_id))
  enqueue_event-again now later p event_id delivery_id db db' r h =
      let s = stored jsonb now p db db' r h in
      let q = again p event_id delivery_id in
      let ev = event_upsert now p s.payload db in
      let dv = delivery_upsert now p ev.1.id s.owner.max_attempts db in
      let after : Database = record db { events = ev.0; deliveries = dv.0 } in
      let same_ev : event_upsert later q s.payload after ≡ ev =
        upsert_again (same_key p.endpoint_id p.idempotency_key) (new_event now p s.payload)
          (new_event later q s.payload) db.events (new_event-same_key now p s.payload) in
      let same_dv : delivery_upsert later q ev.1.id s.owner.max_attempts after ≡ dv =
        upsert_again (λ d. text_eq d.event_id ev.1.id)
          (new_delivery now p ev.1.id s.owner.max_attempts)
          (new_delivery later q ev.1.id s.owner.max_attempts) db.deliveries
          (new_delivery-event now p ev.1.id s.owner.max_attempts) in
      let start =
        enqueue_event-tail later q after s.owner s.payload s.owned s.enabled s.type_storable
          s.key_storable s.converted in
      let both : enqueue_tail later q s.owner s.payload after (event_upsert later q s.payload after)
            (delivery_upsert later q (event_upsert later q s.payload after).1.id
              s.owner.max_attempts after)
          ≡ enqueue_tail later q s.owner s.payload after ev dv =
        ap₂ (λ x y. enqueue_tail later q s.owner s.payload after x y) same_ev
          (ap
              (λ (x : List Event × Event).
                delivery_upsert later q x.1.id s.owner.max_attempts after)
              same_ev
            ∙ same_dv) in
      let done =
        tail_ok later q s.owner s.payload after ev dv s.type_fits s.payload_fits s.checked in
      (
        record {
          event = ev.1;
          delivery = scan_delivery dv.1;
          duplicate = not (text_eq ev.1.id event_id);
        },
        subst
            (λ x.
              enqueue_event jsonb later q x
              ≡ ok (
                x,
                record {
                  event = ev.1;
                  delivery = scan_delivery dv.1;
                  duplicate = not (text_eq ev.1.id event_id);
                },
              ))
            (sym s.tables) (start ∙ both ∙ done),
        sym s.event,
        sym s.delivery,
        ap (λ (e : Event). not (text_eq e.id event_id)) (sym s.event),
      )

  tail_conflict :
      (now : ℕ) (p : EnqueueParams) (owner : EndpointRow) (payload : Text) (db : Database)
      (stored : List Event × Event) (queued : List DeliveryRow × DeliveryRow)
      → (text_eq stored.1.event_type p.event_type && jsonb.equal stored.1.payload payload) ≡ false
      → enqueue_tail now p owner payload db stored queued ≡ err idempotency_conflict
  unfolding enqueue_tail
  tail_conflict now p owner payload db stored queued e = rw e refl

  differs :
      (a b c d : Text)
      → text_eq a b ≡ true
      → jsonb.equal c d ≡ true
      → (t y : Text) → (t ≢ b) ⊎ (jsonb.equal d y ≡ false)
      → (text_eq a t && jsonb.equal c y) ≡ false
  differs a b c d h k t y (inl n) = elim (Bool-cases (text_eq a t)) [
    | inl hit ↦ absurd (n (sym ((text_eq_iff a t).0 hit) ∙ (text_eq_iff a b).0 h))
    | inr miss ↦ rw miss refl
  ]
  differs a b c d h k t y (inr n) = elim (Bool-cases (jsonb.equal c y)) [
    | inl hit ↦ absurd (cc (n, jsonb.equal_trans d c y (jsonb.equal_sym c d k) hit))
    | inr miss ↦ elim (Bool-cases (text_eq a t)) [
      | inl hit ↦ rw (hit, miss) refl
      | inr off ↦ rw off refl
    ]
  ]

  -- Reuse of an idempotency key for another event: once EnqueueEvent has stored an event, a second call
  -- with the same endpoint and key and a type that can be stored, but another type or a payload that PostgreSQL does not
  -- find equal to the stored one as jsonb, is refused as a conflict.
  pub enqueue_event_conflict :
      (now later : ℕ) (p q : EnqueueParams) (db db' : Database) (r : Enqueued) (x y : Text)
      → enqueue_event jsonb now p db ≡ ok (db', r)
      → storable q.event_type ≡ true
      → q.endpoint_id ≡ p.endpoint_id
      → q.idempotency_key ≡ p.idempotency_key
      → jsonb.convert p.payload ≡ some x
      → jsonb.convert q.payload ≡ some y
      → (q.event_type ≢ p.event_type) ⊎ (jsonb.equal x y ≡ false)
      → enqueue_event jsonb later q db' ≡ err idempotency_conflict
  enqueue_event_conflict now later p q db db' r x y h type_storable endpoint key first second
        other =
      let s = stored jsonb now p db db' r h in
      let same : s.payload ≡ x = cc (s.converted, first) in
      let ev = event_upsert now p s.payload db in
      let dv = delivery_upsert now p ev.1.id s.owner.max_attempts db in
      let after : Database = record db { events = ev.0; deliveries = dv.0 } in
      let same_ev : event_upsert later q y after ≡ ev =
        subst₂ (λ a b. upsert (same_key a b) (new_event later q y) after.events ≡ ev) (sym endpoint)
          (sym key)
          (upsert_again (same_key p.endpoint_id p.idempotency_key) (new_event now p s.payload)
            (new_event later q y) db.events (new_event-same_key now p s.payload)) in
      let start =
        enqueue_event-tail later q after s.owner y
          (subst (λ a. find? (λ e. text_eq e.id a) db.endpoints ≡ some s.owner) (sym endpoint)
            s.owned)
          s.enabled type_storable (rw key s.key_storable) second in
      let clash =
        differs ev.1.event_type p.event_type ev.1.payload s.payload s.type_fits s.payload_fits
          q.event_type y
          (subst (λ z. (q.event_type ≢ p.event_type) ⊎ (jsonb.equal z y ≡ false)) (sym same)
            other) in
      let done =
        tail_conflict later q s.owner y after (event_upsert later q y after)
          (delivery_upsert later q (event_upsert later q y after).1.id s.owner.max_attempts after)
          (subst
            (λ (z : List Event × Event).
              (text_eq z.1.event_type q.event_type && jsonb.equal z.1.payload y) ≡ false)
            (sym same_ev) clash) in
      subst (λ z. enqueue_event jsonb later q z ≡ err idempotency_conflict) (sym s.tables)
        (start ∙ done)
