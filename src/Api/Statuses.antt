-- ===== src/Api/Statuses.antt =====
-- Which reply a replay gets.
use relayforge.Api.Handlers
use relayforge.Management
use relayforge.Api.Replies.{
  location, fixed, of_delivery, write_error, delivery_body, write_delivery_error, Reply,
}
use relayforge.Prelude.{
  Bool-cases, Memᴰ, find?, err, ok, some, none, false, true, inr, inl, ◌⊎◌, ◌≢◌, subst, ap, sym,
  refl, ◌≡◌, ◌<◌, ◌≤◌, ◌+◌,
}
use relayforge.Store.Deliveries.Replay.{replay_delivery_dead, replay_delivery_refused}
use relayforge.Store.Deliveries.{replayed, replay_delivery}
use relayforge.Management.{repository_failed, malformed_delivery_id}
use relayforge.Store.Tables.{
  scan_delivery, StoreError, Database, DeliveryRow, EndpointRow, delivery_endpoint_disabled,
  not_replayable,
}
use relayforge.Prelude.Int.{int32_max}
use relayforge.Api.Views.{delivery_view}
use relayforge.Api.Handlers.{Server, Moment}
use relayforge.Store.Queue.Recovery.{IsSoundDb}
use relayforge.Delivery.Model.{Delivery, Status}
use relayforge.Prelude.Text.{Text, text_eq, codes}

-- The reply to a replay that has been done.
abbrev pub accepted : Delivery → Reply
accepted d = record {
  status = 202;
  header = location (codes "/v1/deliveries/") d.id;
  body = delivery_body (delivery_view d);
}

module _ (server : Server) (m : Moment) (id : Text) (db : Database) where
  -- A refused replay is answered with 400 for a malformed identifier.
  malformed :
      server.net.is_uuid id ≡ false
      → Handlers.replay_delivery server m id db
        ≡ (db, write_error 400 "invalid_request" (of_delivery malformed_delivery_id))
  unfolding Handlers.replay_delivery Management.replay write_delivery_error
  malformed h = rw (Handlers.replay_delivery, Management.replay, h) refl

  refused :
      (e : StoreError)
      → server.net.is_uuid id ≡ true
      → replay_delivery m.now id db ≡ err e
      → Handlers.replay_delivery server m id db ≡ (db, write_delivery_error (repository_failed e))
  unfolding Handlers.replay_delivery Management.replay
  refused e h f = rw (Handlers.replay_delivery, Management.replay, h, f) refl

  done :
      (db' : Database) (d : Delivery)
      → server.net.is_uuid id ≡ true
      → replay_delivery m.now id db ≡ ok (db', d)
      → Handlers.replay_delivery server m id db ≡ (db', accepted d)
  unfolding Handlers.replay_delivery Management.replay
  done db' d h f = rw (Handlers.replay_delivery, Management.replay, h, f) refl

  -- POST /v1/deliveries/{delivery_id}/replay on a sound database, for a stored delivery with its
  -- endpoint, exactly one of four: a malformed identifier is answered with 400; else, a disabled
  -- endpoint with 409 and the code endpoint_disabled; else, a delivery that is not dead, or has no room
  -- in its limit, with 409 and the code not_replayable; all of these leave the tables alone. Else, the
  -- answer is 202 and shows the delivery pending and due at once, as it is then stored.
  pub replay_delivery_replies :
      (d : DeliveryRow) (e : EndpointRow)
      → IsSoundDb db
      → find? (λ d. text_eq d.id id) db.deliveries ≡ some d
      → find? (λ e. text_eq e.id d.endpoint_id) db.endpoints ≡ some e
      → let result = Handlers.replay_delivery server m id db in
        ((server.net.is_uuid id ≡ false) × (result.0 ≡ db) × (result.1.status ≡ 400))
        ⊎ ((server.net.is_uuid id ≡ true)
            × (e.disabled_at ≢ none)
            × (result ≡ (
              db,
              write_error 409 "endpoint_disabled" (fixed (codes "delivery endpoint is disabled")),
            )))
        ⊎ ((server.net.is_uuid id ≡ true)
            × (e.disabled_at ≡ none)
            × ((d.status ≢ Status.dead) ⊎ (int32_max < d.max_attempts + e.max_attempts))
            × (result ≡ (
              db,
              write_error 409 "not_replayable"
                  (fixed (codes "only dead deliveries can be replayed")),
            )))
        ⊎ ((server.net.is_uuid id ≡ true)
            × (e.disabled_at ≡ none)
            × (d.status ≡ Status.dead)
            × (d.max_attempts + e.max_attempts ≤ int32_max)
            × (result.1
                ≡ accepted (scan_delivery (replayed m.now (d.max_attempts + e.max_attempts) d)))
            × Memᴰ (replayed m.now (d.max_attempts + e.max_attempts) d) result.0.deliveries)
  unfolding write_delivery_error
  replay_delivery_replies d e v found owner = elim (Bool-cases (server.net.is_uuid id)) [
    | inr bad ↦ inl (bad, ap (λ x. x.0) (malformed bad), ap (λ x. x.1.status) (malformed bad))
    | inl good ↦ elim (replay_delivery_refused m.now id db v d e found owner) [
      | inl (off, f) ↦ inr (inl (good, off, refused delivery_endpoint_disabled good f))
      | inr (inl (on, why, f)) ↦ inr (inr (inl (good, on, why, refused not_replayable good f)))
      | inr (inr (on, dead, fits)) ↦
          let (db', f, stored, _, _) =
            replay_delivery_dead m.now id db v d e found owner dead on fits in
          let reply = done db' _ good f in
          inr (
            inr (
              inr (
                good,
                on,
                dead,
                fits,
                ap (λ x. x.1) reply,
                subst
                    (λ (x : Database × Reply).
                      Memᴰ (replayed m.now (d.max_attempts + e.max_attempts) d) x.0.deliveries)
                    (sym reply) stored,
              )))
    ]
  ]
