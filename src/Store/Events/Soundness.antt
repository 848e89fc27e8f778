-- ===== src/Store/Events/Soundness.antt =====
-- EnqueueEvent keeps the invariant of the deliveries.
use relayforge.Store.Events.{Jsonb}
use relayforge.Store.Evolution.{Evolves-refl, Evolves-append, Evolves}
use relayforge.Store.Tables.Keys.{UniqueIds-append}
use relayforge.Store.Queue.Rows.{IsSound}
use relayforge.Prelude.{
  All-append, upsert_cases, All, ok, ◌++◌, ◌∷◌, [], List, false, true, inr, inl, ◌∙◌, subst, ap,
  ◌≡◌, ℕ,
}
use relayforge.Store.Tables.{check_delivery, DeliveryRow, Database}
use relayforge.Store.Events.{enqueue_event, Enqueued, EnqueueParams, new_delivery}
use relayforge.Store.Events.Storing.{delivery_upsert, event_upsert, stored}
use relayforge.Prelude.Text.{text_eq}
use relayforge.Store.Queue.Recovery.{IsSoundDb}

module _ (jsonb : Jsonb) where
  -- EnqueueEvent under a fresh delivery identifier keeps a sound database sound, and leaves the rows of
  -- the deliveries in place.
  pub enqueue_event-IsSoundDb :
      (now : ℕ) (p : EnqueueParams) (db db' : Database) (r : Enqueued)
      → IsSoundDb db
      → All (λ d. text_eq d.id p.delivery_id ≡ false) db.deliveries
      → enqueue_event jsonb now p db ≡ ok (db', r)
      → IsSoundDb db' × Evolves db.deliveries db'.deliveries
  unfolding new_delivery
  enqueue_event-IsSoundDb now p db db' r v fresh h =
      let s = stored jsonb now p db db' r h in
      let ev = event_upsert now p s.payload db in
      let row = new_delivery now p ev.1.id s.owner.max_attempts in
      let dv = delivery_upsert now p ev.1.id s.owner.max_attempts db in
      let rows : db'.deliveries ≡ dv.0 = ap (λ (x : Database). x.deliveries) s.tables in
      elim (upsert_cases (λ d. text_eq d.event_id ev.1.id) row db.deliveries) [
        | inl (_, e) ↦
            let new_rows : db'.deliveries ≡ db.deliveries ++ row ∷ [] =
              rows ∙ ap (λ (x : List DeliveryRow × DeliveryRow). x.0) e in
            let checked : check_delivery row ≡ true =
              subst (λ (x : List DeliveryRow × DeliveryRow). check_delivery x.1 ≡ true) e
                s.checked in
            (
              record {
                rows = rw new_rows (
                    All-append IsSound db.deliveries (row ∷ []) v.rows
                      (record { checked = checked; attempted = λ e. absurd (cc) }, tt));
                unique = rw new_rows (UniqueIds-append db.deliveries row v.unique fresh);
              },
              rw new_rows (Evolves-append db.deliveries (row ∷ [])),
            )
        | inr (old, _, e) ↦
            let old_rows : db'.deliveries ≡ db.deliveries =
              rows ∙ ap (λ (x : List DeliveryRow × DeliveryRow). x.0) e in
            (
              record { rows = rw old_rows v.rows; unique = rw old_rows v.unique },
              rw old_rows (Evolves-refl db.deliveries),
            )
      ]
