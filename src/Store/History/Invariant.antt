-- ===== src/Store/History/Invariant.antt =====
-- What every history keeps.
use relayforge.Store.Events.{Jsonb}
use relayforge.Store.History.Preservation.{replay_delivery-IsWhole, claim_delivery-IsWhole}
use relayforge.Store.History.Preservation.Finish.{
  finish_attempt-IsWhole, update_endpoints-Untouched,
}
use relayforge.Prelude.{
  ok, arith, ◌++◌, ◌∷◌, [], List, false, true, inr, inl, ◌∙◌, subst, sym, refl, ◌≡◌, ℕ, find?-sound,
  find?-mem, All-append, any_of-append_last, any_of-mem, any_of-append, Result-cases, upsert_cases,
  Memᴰ, find?, All, Option-cases,
}
use relayforge.Store.History.Ties.{
  Tied-events, Tied-delivery, Tied-endpoints, Tied, has_endpoint, has_event,
}
use relayforge.Prelude.Text.{text_eq_refl, text_eq, Text}
use relayforge.Delivery.Model.Lifecycle.{Life, succeeded_absorbs}
use relayforge.Store.Events.Soundness.{enqueue_event-IsSoundDb}
use relayforge.Store.Evolution.{Evolves-mem, Evolves-trans, Grows, Evolves-refl, Evolves}
use relayforge.Store.Events.{
  new_event, enqueue_event, same_key, Enqueued, new_delivery, EnqueueParams,
}
use relayforge.Store.Events.Storing.{stored, delivery_upsert, event_upsert}
use relayforge.Store.Tables.{check_endpoint, update_endpoints, Database, DeliveryRow, EndpointRow}
use relayforge.Store.History.{Step, no_rows, History, IsWhole}
use relayforge.Store.Endpoints.{new_endpoint, create_endpoint, disabled, disable_endpoint}
use relayforge.Delivery.Model.{Status, Endpoint, Event}

abbrev EventsKept : List Event → List Event → Type 0
EventsKept es es' = (id : Text) → has_event id es ≡ true → has_event id es' ≡ true

-- The events after EnqueueEvent: the old ones, and the stored one.
stored_event_kept :
    (now : ℕ) (p : EnqueueParams) (payload : Text) (db : Database)
    → EventsKept db.events (event_upsert now p payload db).0
      × (has_event (event_upsert now p payload db).1.id (event_upsert now p payload db).0 ≡ true)
stored_event_kept now p payload db =
    let test = same_key p.endpoint_id p.idempotency_key in
    elim (upsert_cases test (new_event now p payload) db.events) [
      | inl (_, e) ↦ rw e (
        (λ id h. any_of-append (λ x. text_eq x.id id) db.events _ h),
        any_of-append_last _ db.events (new_event now p payload) (text_eq_refl _),
      )
      | inr (old, found, e) ↦ rw e (
        (λ id h. h),
        any_of-mem (λ x. text_eq x.id old.id) db.events (find?-mem test db.events found)
            (text_eq_refl old.id),
      )
    ]

new_delivery-names :
    (now : ℕ) (p : EnqueueParams) (event_id : Text) (n : ℕ)
    → ((new_delivery now p event_id n).event_id ≡ event_id)
      × ((new_delivery now p event_id n).endpoint_id ≡ p.endpoint_id)
unfolding new_delivery
new_delivery-names now p event_id n = (refl, refl)

-- The deliveries after EnqueueEvent.
delivery_upsert-Tied :
    (now : ℕ) (p : EnqueueParams) (event_id : Text) (n : ℕ) (db : Database) (events : List Event)
    → has_event event_id events ≡ true
    → has_endpoint p.endpoint_id db.endpoints ≡ true
    → Tied events db.endpoints db.deliveries db.attempts
    → Tied events db.endpoints (delivery_upsert now p event_id n db).0 db.attempts
delivery_upsert-Tied now p event_id n db events event endpoint t =
    let row = new_delivery now p event_id n in
    let names = new_delivery-names now p event_id n in
    elim (upsert_cases (λ d. text_eq d.event_id event_id) row db.deliveries) [
      | inl (_, e) ↦ rw e (
          Tied-delivery events db.endpoints db.deliveries db.attempts row
            (subst (λ x. has_event x events ≡ true) (sym names.0) event)
            (subst (λ x. has_endpoint x db.endpoints ≡ true) (sym names.1) endpoint) t)
      | inr (old, _, e) ↦ rw e t
    ]

enqueue_event-IsWhole :
    (jsonb : Jsonb) (now : ℕ) (p : EnqueueParams) (db db' : Database) (r : Enqueued)
    → IsWhole db
    → All (λ d. text_eq d.id p.delivery_id ≡ false) db.deliveries
    → enqueue_event jsonb now p db ≡ ok (db', r)
    → IsWhole db' × Evolves db.deliveries db'.deliveries
enqueue_event-IsWhole jsonb now p db db' r w fresh h =
    let s = stored jsonb now p db db' r h in
    let kept = enqueue_event-IsSoundDb jsonb now p db db' r w.sound fresh h in
    let ev = event_upsert now p s.payload db in
    let (events, event) = stored_event_kept now p s.payload db in
    let endpoint =
      any_of-mem (λ e. text_eq e.id p.endpoint_id) db.endpoints
        (find?-mem (λ e. text_eq e.id p.endpoint_id) db.endpoints s.owned)
        (find?-sound (λ e. text_eq e.id p.endpoint_id) db.endpoints s.owned) in
    let tied =
      delivery_upsert-Tied now p ev.1.id s.owner.max_attempts db ev.0 event endpoint
        (Tied-events db.events ev.0 db.endpoints db.deliveries db.attempts events w.tied) in
    (record { sound = kept.0; tied = rw s.tables tied; fits = rw s.tables w.fits }, kept.1)

create_endpoint-IsWhole :
    (now : ℕ) (value : Endpoint) (db db' : Database) (e : Endpoint)
    → IsWhole db
    → create_endpoint now value db ≡ ok (db', e)
    → IsWhole db' × Evolves db.deliveries db'.deliveries
unfolding create_endpoint
create_endpoint-IsWhole now value db db' e w h =
    let row = new_endpoint now value in
    let fine : check_endpoint row ≡ true = ground arith in
    let tables : db' ≡ record db { endpoints = db.endpoints ++ row ∷ [] } = ground arith in
    rw tables (
      record {
        sound = record { rows = w.sound.rows; unique = w.sound.unique };
        tied =
            Tied-endpoints db.events db.endpoints (db.endpoints ++ row ∷ []) db.deliveries
              db.attempts (λ id has. any_of-append (λ x. text_eq x.id id) db.endpoints _ has)
              w.tied;
        fits = All-append _ db.endpoints (row ∷ []) w.fits (fine, tt);
      },
      Evolves-refl db.deliveries,
    )

disabled_id : (now : ℕ) (e : EndpointRow) → (disabled now e).id ≡ e.id
unfolding disabled
disabled_id now e = elim (Option-cases e.disabled_at) [
  | inl on ↦ rw on refl
  | inr (at, off) ↦ rw off refl
]

disable_endpoint_called :
    (now : ℕ) (id : Text) (db db' : Database) (e : Endpoint)
    → disable_endpoint now id db ≡ ok (db', e)
    → update_endpoints (λ x. text_eq x.id id) (disabled now) db ≡ ok db'
unfolding disable_endpoint
disable_endpoint_called now id db db' e h =
    elim (Option-cases (find? (λ e. text_eq e.id id) db.endpoints)) [
      | inl f ↦ absurd (ground (arith, f))
      | inr (x, f) ↦
          elim (Result-cases (update_endpoints (λ x. text_eq x.id id) (disabled now) db)) [
            | inr (y, g) ↦ absurd (ground (arith, f, g))
            | inl (y, g) ↦ g ∙ ground (arith, f, g)
          ]
    ]

disable_endpoint-IsWhole :
    (now : ℕ) (id : Text) (db db' : Database) (e : Endpoint)
    → IsWhole db
    → disable_endpoint now id db ≡ ok (db', e)
    → IsWhole db' × Evolves db.deliveries db'.deliveries
disable_endpoint-IsWhole now id db db' e w h =
    let u =
      update_endpoints-Untouched (λ x. text_eq x.id id) (disabled now) db db' (disabled_id now)
        (disable_endpoint_called now id db db' e h) in
    (
      record {
        sound = record {
          rows = rw u.deliveries w.sound.rows;
          unique = rw u.deliveries w.sound.unique;
        };
        tied =
            rw (u.events, u.deliveries, u.attempts)
              (Tied-endpoints db.events db.endpoints db'.endpoints db.deliveries db.attempts
                (λ x has. u.present x ∙ has) w.tied);
        fits = u.fits w.fits;
      },
      rw u.deliveries (Evolves-refl db.deliveries),
    )

module _ (jsonb : Jsonb) where
  -- A committed transaction of any kind keeps a database whole: the constraints hold of its rows, the
  -- identifiers of deliveries are unique, every delivery has its event and its endpoint, and every
  -- recorded attempt a delivery that has counted it; and no delivery is lost or leaves its life.
  pub step-IsWhole :
      (db db' : Database)
      → IsWhole db
      → Step jsonb db db'
      → IsWhole db' × Evolves db.deliveries db'.deliveries
  step-IsWhole db _ w (Step.claim s worker lease db' job h) =
      claim_delivery-IsWhole s worker lease db db' job w h
  step-IsWhole db _ w (Step.finish now id r db' status h) =
      finish_attempt-IsWhole now id r db db' status w h
  step-IsWhole db _ w (Step.enqueue now p db' e fresh h) =
      enqueue_event-IsWhole jsonb now p db db' e w fresh h
  step-IsWhole db _ w (Step.replay now id db' d h) = replay_delivery-IsWhole now id db db' d w h
  step-IsWhole db _ w (Step.create now value db' e h) =
      create_endpoint-IsWhole now value db db' e w h
  step-IsWhole db _ w (Step.disable now id db' e h) = disable_endpoint-IsWhole now id db db' e w h

  pub History-IsWhole :
      (db db' : Database)
      → IsWhole db
      → History jsonb db db'
      → IsWhole db' × Evolves db.deliveries db'.deliveries
  History-IsWhole db db' w History.begin = (w, Evolves-refl db.deliveries)
  History-IsWhole db db' w (History.step {mid} past s) =
      let (v, before) = History-IsWhole db mid w past in
      let (v', after) = step-IsWhole mid db' v s in
      (v', Evolves-trans db.deliveries mid.deliveries db'.deliveries before after)

  no_rows-IsWhole : IsWhole no_rows
  no_rows-IsWhole = record {
    sound = record { rows = tt; unique = tt };
    tied = record { linked = tt; logged = tt };
    fits = tt;
  }

  -- Every database that some history of committed transactions leads to from empty tables is whole.
  pub reachable-IsWhole : (db : Database) → History jsonb no_rows db → IsWhole db
  reachable-IsWhole db past = (History-IsWhole no_rows db no_rows-IsWhole past).0

  -- A delivery of a reachable database is never lost, whatever is done next: there is a row of the same
  -- delivery, event and endpoint, with a count no lower; and one that has succeeded has still
  -- succeeded.
  pub History-keeps :
      (db db' : Database) (d : DeliveryRow)
      → History jsonb no_rows db
      → History jsonb db db'
      → Memᴰ d db.deliveries
      → (e : DeliveryRow) × Memᴰ e db'.deliveries
        × Grows d e
        × (d.status ≡ Status.succeeded → e.status ≡ Status.succeeded)
  History-keeps db db' d past future i =
      let (w, evolves) = History-IsWhole db db' (reachable-IsWhole db past) future in
      let (e, j, g) = Evolves-mem db.deliveries db'.deliveries evolves i in
      (e, j, g, λ s. succeeded_absorbs (subst (λ x. Life x e.status) s g.lives))
