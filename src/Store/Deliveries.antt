-- ===== src/Store/Deliveries.antt =====
-- internal/store/deliveries.go: reading a delivery and replaying a dead one.
pub mod Replay
use relayforge.Prelude.{
  ◌>>◌, ◌>>=◌, ok, map, List, ◌||◌, not, ◌+◌, ℕ, select, ltb, is_some, refuse, find?, or_fail,
  Result,
}
use relayforge.Store.Tables.{
  update_deliveries, not_replayable, delivery_endpoint_disabled, scan_attempt, scan_delivery,
  delivery_not_found, StoreError, Database, DeliveryRow,
}
use relayforge.Prelude.Int.{int32_max}
use relayforge.Prelude.Sorting.{sort_by}
use relayforge.Prelude.Text.{text_eq, Text}
use relayforge.Delivery.Model.{Attempt, Status, Event, status_eq, Delivery}

pub record Details : Type 0 where
  pub delivery : Delivery
  pub event : Event
  pub attempts : List Attempt

-- GetDelivery
unfoldable pub get_delivery : Text → Database → Result StoreError Details
get_delivery id db = do
  d ← or_fail (find? (λ d. text_eq d.id id) db.deliveries) delivery_not_found
  e ← or_fail (find? (λ e. text_eq e.id d.event_id) db.events) delivery_not_found
  ok (record {
    delivery = scan_delivery d;
    event = e;
    attempts =
        map scan_attempt
          (sort_by (λ a. a.attempt_number) (select (λ a. text_eq a.delivery_id id) db.attempts));
  })

-- The SET of ReplayDelivery.
unfoldable pub replayed : ℕ → ℕ → DeliveryRow → DeliveryRow
replayed now limit d = record d {
  status = Status.pending;
  max_attempts = limit;
  next_attempt_at = now;
  updated_at = now;
}

-- ReplayDelivery; its test `limit > math.MaxInt32 - budget` is on 64-bit integers.
unfoldable pub replay_delivery : ℕ → Text → Database → Result StoreError (Database × Delivery)
unfolding replayed status_eq
replay_delivery now id db = do
  d ← or_fail (find? (λ d. text_eq d.id id) db.deliveries) delivery_not_found
  e ← or_fail (find? (λ e. text_eq e.id d.endpoint_id) db.endpoints) delivery_not_found
  refuse (is_some e.disabled_at) delivery_endpoint_disabled
  refuse (not (status_eq d.status Status.dead) || ltb int32_max (d.max_attempts + e.max_attempts))
      not_replayable
  let limit = d.max_attempts + e.max_attempts
  updated ← update_deliveries (λ x. text_eq x.id id) (replayed now limit) db
  ok (updated, scan_delivery (replayed now limit d))
