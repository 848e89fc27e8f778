-- ===== src/Store/Deliveries/Replay.antt =====
-- When a delivery may be replayed, and what a replay does.
use relayforge.Prelude.{
  err, ok, if◌then◌else◌, arith, List, some, none, ◌||◌, not, false, true, Bool, inr, inl, ◌⊎◌, ◌≢◌,
  ◌∙◌, subst, ap, sym, refl, ◌≡◌, ◌<◌, ◌≤◌, ◌+◌, ℕ, All-update_each, Bool-cases, Option-cases,
  mem-update, update, ltb, All-of-mem, All-mem, find?-sound, find?-mem, find?, Memᴰ,
}
use relayforge.Store.Evolution.{Evolves-update, Evolves, Grows-of_change, Grows}
use relayforge.Store.Tables.Keys.{
  UniqueIds-update, update_deliveries_total, UniqueIds-mem, UniqueIds,
}
use relayforge.Delivery.Model.{status_eq, can_transition, Status}
use relayforge.Store.Tables.{
  not_replayable, delivery_endpoint_disabled, scan_delivery, EndpointRow, Database, DeliveryRow,
  check_delivery,
}
use relayforge.Store.Deliveries.{
  not_replayable, delivery_endpoint_disabled, replay_delivery, replayed,
}
use relayforge.Prelude.Text.{text_eq_iff, text_eq, Text}
use relayforge.Store.Queue.Recovery.{IsSoundDb}
use relayforge.Store.Queue.Rows.{IsSound}
use relayforge.Prelude.Int.{int32_max}

replayed-IsSound :
    (now limit : ℕ) (d : DeliveryRow)
    → d.status ≡ Status.dead
    → d.max_attempts ≤ limit
    → limit ≤ int32_max
    → IsSound d
    → IsSound (replayed now limit d)
unfolding replayed check_delivery
replayed-IsSound now limit d dead more fits s = record {
  checked = ground (arith, s.checked);
  attempted = λ e. ground arith;
}

replayed-Grows :
    (now limit : ℕ) (d : DeliveryRow)
    → d.status ≡ Status.dead
    → d.max_attempts ≤ limit
    → Grows d (replayed now limit d)
unfolding replayed can_transition
replayed-Grows now limit d dead more =
    Grows-of_change d (replayed now limit d) refl refl refl (ground arith) (omega arith) more

replayed_id : (now limit : ℕ) (d : DeliveryRow) → (replayed now limit d).id ≡ d.id
unfolding replayed
replayed_id now limit d = refl

-- The rows under the identifier of a dead row are that row.
dead_alone :
    (rows : List DeliveryRow) (id : Text) (d e : DeliveryRow)
    → UniqueIds rows
    → Memᴰ d rows
    → text_eq d.id id ≡ true
    → Memᴰ e rows
    → text_eq e.id id ≡ true
    → e ≡ d
dead_alone rows id d e u i h j k =
    UniqueIds-mem rows e d u j i
      ((text_eq_iff e.id d.id).1 ((text_eq_iff e.id id).0 k ∙ sym ((text_eq_iff d.id id).0 h)))

module _ (now : ℕ) (id : Text) (db : Database) (v : IsSoundDb db) (d : DeliveryRow)
    (e : EndpointRow) (found : find? (λ d. text_eq d.id id) db.deliveries ≡ some d)
    (owner : find? (λ e. text_eq e.id d.endpoint_id) db.endpoints ≡ some e) where
  abbrev budget : ℕ
  budget = d.max_attempts + e.max_attempts

  same : (x : DeliveryRow) → Memᴰ x db.deliveries → text_eq x.id id ≡ true → x ≡ d
  same x j k =
      dead_alone db.deliveries id d x v.unique
        (find?-mem (λ d. text_eq d.id id) db.deliveries found)
        (find?-sound (λ d. text_eq d.id id) db.deliveries found) j k

  sound :
      d.status ≡ Status.dead
      → budget ≤ int32_max
      → (x : DeliveryRow) → Memᴰ x db.deliveries
      → text_eq x.id id ≡ true
      → IsSound (replayed now budget x)
  sound dead fits x j k =
      subst (λ y. IsSound (replayed now budget y)) (sym (same x j k))
        (replayed-IsSound now budget d dead (omega arith) fits (
          All-mem IsSound db.deliveries v.rows
            (find?-mem (λ d. text_eq d.id id) db.deliveries found)))

  grows :
      d.status ≡ Status.dead
      → (x : DeliveryRow) → Memᴰ x db.deliveries
      → text_eq x.id id ≡ true
      → Grows x (replayed now budget x)
  grows dead x j k =
      subst (λ y. Grows y (replayed now budget y)) (sym (same x j k))
        (replayed-Grows now budget d dead (omega arith))

  -- On a sound database, the replay of a dead delivery of an enabled endpoint, with room for the
  -- endpoint's attempts on top of its limit, succeeds: the row is pending and due, may be attempted as
  -- often again as the endpoint allows, keeps its count, and the database stays sound.
  pub replay_delivery_dead :
      d.status ≡ Status.dead
      → e.disabled_at ≡ none
      → d.max_attempts + e.max_attempts ≤ int32_max
      → (db' : Database) × (replay_delivery now id db
          ≡ ok (db', scan_delivery (replayed now (d.max_attempts + e.max_attempts) d)))
        × Memᴰ (replayed now (d.max_attempts + e.max_attempts) d) db'.deliveries
        × IsSoundDb db'
        × Evolves db.deliveries db'.deliveries
  unfolding replay_delivery
  replay_delivery_dead dead on fits =
      let i = find?-mem (λ d. text_eq d.id id) db.deliveries found in
      let h = find?-sound (λ d. text_eq d.id id) db.deliveries found in
      let updated =
        update_deliveries_total (λ x. text_eq x.id id) (replayed now budget) db
          (All-of-mem _ db.deliveries (λ x j k. (sound dead fits x j k).checked)) in
      let live : not (status_eq d.status Status.dead)
            || ltb int32_max (d.max_attempts + e.max_attempts)
          ≡ false =
        rw dead (ground arith) in
      (
        record db {
          deliveries = update (λ x. text_eq x.id id) (replayed now budget) db.deliveries;
        },
        rw (found, owner, on, live, updated) refl,
        subst (λ x. Memᴰ x (update (λ x. text_eq x.id id) (replayed now budget) db.deliveries))
            (ap (λ b. if b then replayed now budget d else d) h)
            (mem-update (λ x. text_eq x.id id) (replayed now budget) db.deliveries d i),
        record {
          rows =
              All-update_each IsSound (λ x. text_eq x.id id) (replayed now budget) db.deliveries
                (All-of-mem _ db.deliveries (sound dead fits)) v.rows;
          unique =
              UniqueIds-update (λ x. text_eq x.id id) (replayed now budget) (replayed_id now budget)
                db.deliveries v.unique;
        },
        Evolves-update (λ x. text_eq x.id id) (replayed now budget) db.deliveries
            (All-of-mem _ db.deliveries (grows dead)),
      )

  abbrev barred : Bool
  barred = not (status_eq d.status Status.dead) || ltb int32_max (d.max_attempts + e.max_attempts)

  barred_why :
      barred ≡ true → (d.status ≢ Status.dead) ⊎ (int32_max < d.max_attempts + e.max_attempts)
  unfolding status_eq
  barred_why h = elim (Bool-cases (status_eq d.status Status.dead)) [
    | inl dead ↦ inr (ground arith)
    | inr live ↦ inl (λ same. ground arith)
  ]

  allowed_why :
      barred ≡ false → (d.status ≡ Status.dead) × (d.max_attempts + e.max_attempts ≤ int32_max)
  unfolding status_eq
  allowed_why h = (ground arith, ground arith)

  -- One of three cases holds of a stored delivery with its endpoint: the endpoint is disabled, and the
  -- replay is refused for that; it is enabled, but the delivery is not dead or its limit has no room
  -- for the endpoint's attempts, and the replay is refused as not replayable; or the endpoint is
  -- enabled, the delivery is dead, and its limit has room.
  pub replay_delivery_refused :
      ((e.disabled_at ≢ none) × (replay_delivery now id db ≡ err delivery_endpoint_disabled))
      ⊎ ((e.disabled_at ≡ none)
          × ((d.status ≢ Status.dead) ⊎ (int32_max < d.max_attempts + e.max_attempts))
          × (replay_delivery now id db ≡ err not_replayable))
      ⊎ ((e.disabled_at ≡ none)
          × (d.status ≡ Status.dead)
          × (d.max_attempts + e.max_attempts ≤ int32_max))
  unfolding replay_delivery
  replay_delivery_refused = elim (Option-cases e.disabled_at) [
    | inr (at, off) ↦ inl (λ h. cc, rw (found, owner, off) refl)
    | inl on ↦ elim (Bool-cases barred) [
      | inl shut ↦ inr (inl (on, barred_why shut, rw (found, owner, on, shut) refl))
      | inr free ↦ inr (inr (on, (allowed_why free).0, (allowed_why free).1))
    ]
  ]
