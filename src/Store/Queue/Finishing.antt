-- ===== src/Store/Queue/Finishing.antt =====
-- FinishAttempt: it succeeds for the holder of the lease, and for nobody else.
use relayforge.Prelude.{
  All-mem, All-of-mem, ok, if◌then◌else◌, arith, ◌++◌, ◌∷◌, [], List, some, false, true, Bool, inr,
  inl, ◌∙◌, ap, sym, refl, ◌≡◌, ◌<◌, ℕ, All-update_each, All-mono, find?-mem, find?-sound,
  find?-none-mem, Option-cases, all_of-All, update, All, any_of, find?, Memᴰ,
}
use relayforge.Store.Queue.Rows.{holder-storable, finished-Grows, IsSound, finished-IsSound}
use relayforge.Store.Evolution.{Evolves-update, Evolves}
use relayforge.Store.Tables.Keys.{
  UniqueIds-update, update_deliveries_total, UniqueIds-mem, UniqueIds,
}
use relayforge.Store.Queue.Validation.{
  attempt_row-check, validate_attempt_result_complete, IsAcceptable,
}
use relayforge.Store.Queue.Finish.{
  attempt_row, finished, finish_attempt, circuit_failed, circuit_succeeded, holds_lease,
  update_circuit,
}
use relayforge.Prelude.Utf8.{storable}
use relayforge.Store.Queue.Recovery.{IsSoundDb}
use relayforge.Store.Tables.{
  insert_attempt, same_attempt, DeliveryRow, EndpointRow, update_endpoints, Database,
  check_endpoint,
}
use relayforge.Prelude.Text.{text_eq_iff, text_eq, Text}
use relayforge.Store.Queue.{unchanged, failure, success, AttemptResult, CircuitOutcome}
use relayforge.Prelude.Int.{ℤ, int32_max}

-- What FinishAttempt needs of the other tables: the attempt has no row yet, and the endpoints are
-- within their constraints with room for one more failure.
pub record IsRoomy (db : Database) (r : AttemptResult) : Type 0 where
  pub unrecorded : any_of (same_attempt r.delivery_id r.attempt_number) db.attempts ≡ false
  pub endpoints :
      All (λ e. (check_endpoint e ≡ true) × (e.consecutive_failures < int32_max)) db.endpoints

circuit_failed-check :
    (now threshold : ℕ) (cooldown : ℤ) (e : EndpointRow)
    → check_endpoint e ≡ true
    → e.consecutive_failures < int32_max
    → check_endpoint (circuit_failed now threshold cooldown e) ≡ true
unfolding check_endpoint circuit_failed
circuit_failed-check now threshold cooldown e h k = ground arith

circuit_succeeded-check :
    (now : ℕ) (e : EndpointRow)
    → check_endpoint e ≡ true
    → check_endpoint (circuit_succeeded now e) ≡ true
unfolding check_endpoint circuit_succeeded
circuit_succeeded-check now e h = ground arith

update_endpoints_total :
    (p : EndpointRow → Bool) (f : EndpointRow → EndpointRow) (db : Database)
    → ((e : EndpointRow)
        → (check_endpoint e ≡ true) × (e.consecutive_failures < int32_max)
        → check_endpoint (f e) ≡ true)
    → All (λ e. (check_endpoint e ≡ true) × (e.consecutive_failures < int32_max)) db.endpoints
    → update_endpoints p f db ≡ ok (record db { endpoints = update p f db.endpoints })
unfolding update_endpoints
update_endpoints_total p f db fine h = rw (all_of-All _ db.endpoints (go db.endpoints h)) refl
  where
    go :
        (es : List EndpointRow)
        → All (λ e. (check_endpoint e ≡ true) × (e.consecutive_failures < int32_max)) es
        → All (λ e. (if p e then check_endpoint (f e) else true) ≡ true) es
    go [] h = tt
    go (e ∷ es) h = (ground (arith, fine e h.0), go es h.1)

-- The switch on the circuit outcome succeeds, and writes to the endpoints only.
update_circuit_total :
    (now : ℕ) (outcome : CircuitOutcome) (threshold : ℕ) (cooldown : ℤ) (id : Text) (db : Database)
    → All (λ e. (check_endpoint e ≡ true) × (e.consecutive_failures < int32_max)) db.endpoints
    → (es : List EndpointRow) × (update_circuit now outcome threshold cooldown id db
        ≡ ok (record db { endpoints = es }))
unfolding update_circuit
update_circuit_total now unchanged threshold cooldown id db h = (db.endpoints, refl)
update_circuit_total now failure threshold cooldown id db h = (
  _,
  update_endpoints_total _ _ db (λ e k. circuit_failed-check now threshold cooldown e k.0 k.1) h,
)
update_circuit_total now success threshold cooldown id db h =
    (_, update_endpoints_total _ _ db (λ e k. circuit_succeeded-check now e k.0) h)

holds_lease_id :
    (r : AttemptResult) (d : DeliveryRow)
    → holds_lease r d ≡ true
    → text_eq d.id r.delivery_id ≡ true
unfolding holds_lease
holds_lease_id r d h = ground arith

same_holder :
    (r : AttemptResult) (c d : DeliveryRow)
    → holds_lease r c ≡ true
    → holds_lease r d ≡ true
    → text_eq c.id d.id ≡ true
same_holder r c d h k =
    let e = (text_eq_iff _ _).0 (holds_lease_id r c h) in
    let f = (text_eq_iff _ _).0 (holds_lease_id r d k) in (text_eq_iff c.id d.id).1 (e ∙ sym f)

-- The row that FinishAttempt finds is the one that holds the lease.
find_holder :
    (r : AttemptResult) (rows : List DeliveryRow) (d : DeliveryRow)
    → UniqueIds rows
    → Memᴰ d rows
    → holds_lease r d ≡ true
    → find? (holds_lease r) rows ≡ some d
find_holder r rows d u i h = elim (Option-cases (find? (holds_lease r) rows)) [
  | inl e ↦ absurd (find?-none-mem (holds_lease r) rows e i h)
  | inr (c, e) ↦
      let id = same_holder r c d (find?-sound (holds_lease r) rows e) h in
      e ∙ ap some (UniqueIds-mem rows c d u (find?-mem (holds_lease r) rows e) i id)
]

finished_id : (now : ℕ) (r : AttemptResult) (d : DeliveryRow) → (finished now r d).id ≡ d.id
unfolding finished
finished_id now r d = refl

abbrev pub finished_rows : ℕ → AttemptResult → List DeliveryRow → List DeliveryRow
finished_rows now r = update (holds_lease r) (finished now r)

-- Finishing the rows that hold the lease of an acceptable result keeps the table sound.
pub finished_rows-IsSoundDb :
    (now : ℕ) (r : AttemptResult) (db db' : Database)
    → IsSoundDb db
    → IsAcceptable r
    → db'.deliveries ≡ finished_rows now r db.deliveries
    → IsSoundDb db'
finished_rows-IsSoundDb now r db db' v a e = record {
  rows = rw e (
      All-update_each IsSound (holds_lease r) (finished now r) db.deliveries
        (All-mono (λ x s k. finished-IsSound now r x a k s) db.deliveries v.rows) v.rows);
  unique = rw e (
      UniqueIds-update (holds_lease r) (finished now r) (finished_id now r) db.deliveries v.unique);
}

-- On a sound database, FinishAttempt with an acceptable result whose texts can be stored, for a row
-- that holds the result's lease, and an attempt that has no row yet, returns the row's next status;
-- that row alone is finished, the attempt is recorded, and the database stays sound.
pub finish_attempt_total :
    (now : ℕ) (id : Text) (r : AttemptResult) (db : Database) (d : DeliveryRow)
    → IsSoundDb db
    → IsAcceptable r
    → storable r.response_body ≡ true
    → storable r.error_message ≡ true
    → IsRoomy db r
    → Memᴰ d db.deliveries
    → holds_lease r d ≡ true
    → (db' : Database) × (finish_attempt now id r db ≡ ok (db', (finished now r d).status))
      × (db'.deliveries ≡ finished_rows now r db.deliveries)
      × (db'.attempts ≡ db.attempts ++ attempt_row id r ∷ [])
      × IsSoundDb db'
      × Evolves db.deliveries db'.deliveries
unfolding finish_attempt insert_attempt
finish_attempt_total now id r db d v a body message room i h =
    let valid = validate_attempt_result_complete r a in
    let name = holder-storable r d (All-mem IsSound db.deliveries v.rows i) h in
    let found = find_holder r db.deliveries d v.unique i h in
    let updated =
      update_deliveries_total (holds_lease r) (finished now r) db
        (All-mono (λ e s k. (finished-IsSound now r e a k s).checked) db.deliveries v.rows) in
    let fits = attempt_row-check id r a body message in
    let recorded : Database = record db {
      deliveries = finished_rows now r db.deliveries;
      attempts = db.attempts ++ attempt_row id r ∷ [];
    } in
    let (es, done) =
      update_circuit_total now r.circuit_outcome r.circuit_threshold r.circuit_cooldown
        d.endpoint_id recorded room.endpoints in
    (
      record recorded { endpoints = es },
      rw (valid, name, message, found, updated, fits, room.unrecorded, done) refl,
      refl,
      refl,
      finished_rows-IsSoundDb now r db (record recorded { endpoints = es }) v a refl,
      Evolves-update (holds_lease r) (finished now r) db.deliveries
          (All-of-mem _ db.deliveries (λ e j k. finished-Grows now r e k)),
    )
