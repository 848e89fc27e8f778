-- ===== src/Store/History/Preservation/Finish.antt =====
-- FinishAttempt keeps a database whole.
use relayforge.Store.Queue.Rows.{finished-Grows}
use relayforge.Store.Evolution.{Evolves-update, Evolves}
use relayforge.Store.History.Ties.{
  Tied-endpoints, Tied-attempt, Tied-update, Moves, Logged, has_endpoint,
}
use relayforge.Store.Queue.Finishing.{finished_rows-IsSoundDb, finished_rows}
use relayforge.Prelude.{
  All-of-mem, find?-sound, find?-mem, Bool-cases, all_of, Option-cases, Result-cases, mem-update,
  find?, All, update, any_of-update, Memᴰ, ok, if◌then◌else◌, arith, ◌++◌, ◌∷◌, [], List, some,
  true, Bool, inr, inl, ◌≢◌, ◌∙◌, subst, refl, ◌≡◌, ℕ,
}
use relayforge.Store.Queue.Validation.{validate_attempt_result_sound}
use relayforge.Store.History.{IsWhole}
use relayforge.Store.Queue.Finish.{
  attempt_row, validate_attempt_result, circuit_succeeded, next_status, circuit_failed,
  update_circuit, finish_attempt, holds_lease, finished,
}
use relayforge.Store.Tables.{
  check_endpoint, insert_attempt, update_deliveries, update_endpoints, Database, DeliveryRow,
  EndpointRow,
}
use relayforge.Prelude.Int.{ℤ}
use relayforge.Prelude.Text.{text_eq, Text}
use relayforge.Store.Queue.{unchanged, failure, success, CircuitOutcome, AttemptResult}
use relayforge.Delivery.Model.{Status}

finished-Moves :
    (now : ℕ) (r : AttemptResult) (d : DeliveryRow)
    → holds_lease r d ≡ true
    → Moves d (finished now r d)
unfolding finished next_status
finished-Moves now r d h = record {
  same_id = refl;
  same_event = refl;
  same_endpoint = refl;
  counts = omega arith;
  begins = λ e. absurd (ground arith);
}

holder_facts :
    (r : AttemptResult) (d : DeliveryRow)
    → holds_lease r d ≡ true
    → (text_eq d.id r.delivery_id ≡ true) × (d.attempt_count ≡ r.attempt_number)
unfolding holds_lease
holder_facts r d h = (ground arith, ground arith)

finished_facts :
    (now : ℕ) (r : AttemptResult) (d : DeliveryRow)
    → ((finished now r d).id ≡ d.id)
      × ((finished now r d).attempt_count ≡ d.attempt_count)
      × ((finished now r d).status ≢ Status.processing)
unfolding finished next_status
finished_facts now r d = (refl, refl, λ e. ground arith)

-- The finished row has counted the attempt that is recorded.
finished-Logged :
    (now : ℕ) (r : AttemptResult) (rows : List DeliveryRow) (d : DeliveryRow)
    → Memᴰ d rows
    → holds_lease r d ≡ true
    → Logged (finished_rows now r rows) r.delivery_id r.attempt_number
finished-Logged now r rows d i h =
    let f = finished_facts now r d in
    let g = holder_facts r d h in
    record {
      row = finished now r d;
      present =
          subst (λ b. Memᴰ (if b then finished now r d else d) (finished_rows now r rows)) h
            (mem-update (holds_lease r) (finished now r) rows d i);
      same_id = rw f.0 g.0;
      counted = omega (arith, f.1, g.1);
      later = λ e. absurd (f.2 e);
    }

-- An update of the endpoints that is not refused.
pub update_endpoints_parts :
    (p : EndpointRow → Bool) (f : EndpointRow → EndpointRow) (db db' : Database)
    → update_endpoints p f db ≡ ok db'
    → (db' ≡ record db { endpoints = update p f db.endpoints })
      × (All (λ e. check_endpoint e ≡ true) db.endpoints
          → All (λ e. check_endpoint e ≡ true) (update p f db.endpoints))
unfolding update_endpoints
update_endpoints_parts p f db db' h = (ground arith, go db.endpoints (ground arith))
  where
    go :
        (es : List EndpointRow)
        → all_of (λ e. if p e then check_endpoint (f e) else true) es ≡ true
        → All (λ e. check_endpoint e ≡ true) es
        → All (λ e. check_endpoint e ≡ true) (update p f es)
    go [] h k = tt
    go (e ∷ es) h k = elim (Bool-cases (p e)) [
      | inl hit ↦ rw hit (ground arith, go es (ground arith) k.1)
      | inr miss ↦ rw miss (k.0, go es (ground arith) k.1)
    ]

-- What a transaction that writes to the endpoints only keeps.
pub record Untouched (db db' : Database) : Type 0 where
  pub events : db'.events ≡ db.events
  pub deliveries : db'.deliveries ≡ db.deliveries
  pub attempts : db'.attempts ≡ db.attempts
  pub present : (id : Text) → has_endpoint id db'.endpoints ≡ has_endpoint id db.endpoints
  pub fits :
      All (λ e. check_endpoint e ≡ true) db.endpoints
      → All (λ e. check_endpoint e ≡ true) db'.endpoints

pub update_endpoints-Untouched :
    (p : EndpointRow → Bool) (f : EndpointRow → EndpointRow) (db db' : Database)
    → ((e : EndpointRow) → (f e).id ≡ e.id)
    → update_endpoints p f db ≡ ok db'
    → Untouched db db'
update_endpoints-Untouched p f db db' same h =
    let (e, fine) = update_endpoints_parts p f db db' h in
    rw e (record {
      events = refl;
      deliveries = refl;
      attempts = refl;
      present = λ id. any_of-update p (λ x. text_eq x.id id) f (λ x. rw (same x) refl) db.endpoints;
      fits = fine;
    })

circuit_ids :
    (now threshold : ℕ) (cooldown : ℤ) (e : EndpointRow)
    → ((circuit_failed now threshold cooldown e).id ≡ e.id) × ((circuit_succeeded now e).id ≡ e.id)
unfolding circuit_failed circuit_succeeded
circuit_ids now threshold cooldown e = (refl, refl)

update_circuit-Untouched :
    (now : ℕ) (outcome : CircuitOutcome) (threshold : ℕ) (cooldown : ℤ) (id : Text)
    (db db' : Database)
    → update_circuit now outcome threshold cooldown id db ≡ ok db'
    → Untouched db db'
unfolding update_circuit
update_circuit-Untouched now unchanged threshold cooldown id db db' h =
    let same : db ≡ db' = ground arith in
    subst (Untouched db) same (record {
      events = refl;
      deliveries = refl;
      attempts = refl;
      present = λ x. refl;
      fits = λ x. x;
    })
update_circuit-Untouched now failure threshold cooldown id db db' h =
    update_endpoints-Untouched _ _ db db' (λ e. (circuit_ids now threshold cooldown e).0) h
update_circuit-Untouched now success threshold cooldown id db db' h =
    update_endpoints-Untouched _ _ db db' (λ e. (circuit_ids now threshold cooldown e).1) h

-- What a call of FinishAttempt that returns a status has done, up to the circuit.
record Recorded (now : ℕ) (id : Text) (r : AttemptResult) (db db' : Database) : Type 0 where
  valid : validate_attempt_result r ≡ ok tt
  holder : DeliveryRow
  found : find? (holds_lease r) db.deliveries ≡ some holder
  circuit :
      update_circuit now r.circuit_outcome r.circuit_threshold r.circuit_cooldown holder.endpoint_id
        (record db {
          deliveries = finished_rows now r db.deliveries;
          attempts = db.attempts ++ attempt_row id r ∷ [];
        })
      ≡ ok db'

finish_attempt_parts :
    (now : ℕ) (id : Text) (r : AttemptResult) (db db' : Database) (status : Status)
    → finish_attempt now id r db ≡ ok (db', status)
    → Recorded now id r db db'
unfolding finish_attempt update_deliveries insert_attempt
finish_attempt_parts now id r db db' status h = elim (Result-cases (validate_attempt_result r)) [
  | inr (x, e) ↦ absurd (ground (arith, e))
  | inl (tt, e) ↦ elim (Option-cases (find? (holds_lease r) db.deliveries)) [
    | inl f ↦ absurd (ground (arith, e, f))
    | inr (d, f) ↦ record { valid = e; holder = d; found = f; circuit = ground (arith, e, f) }
  ]
]

attempt_row-names :
    (id : Text) (r : AttemptResult)
    → ((attempt_row id r).delivery_id ≡ r.delivery_id)
      × ((attempt_row id r).attempt_number ≡ r.attempt_number)
unfolding attempt_row
attempt_row-names id r = (refl, refl)

pub finish_attempt-IsWhole :
    (now : ℕ) (id : Text) (r : AttemptResult) (db db' : Database) (status : Status)
    → IsWhole db
    → finish_attempt now id r db ≡ ok (db', status)
    → IsWhole db' × Evolves db.deliveries db'.deliveries
finish_attempt-IsWhole now id r db db' status w h =
    let p = finish_attempt_parts now id r db db' status h in
    let rows = db.deliveries in
    let u = update_circuit-Untouched now _ _ _ _ _ db' p.circuit in
    let a = validate_attempt_result_sound r p.valid in
    let i = find?-mem (holds_lease r) rows p.found in
    let k = find?-sound (holds_lease r) rows p.found in
    let moved =
      Tied-update db.events db.endpoints (holds_lease r) (finished now r) rows db.attempts
        (All-of-mem _ rows (λ d j held. finished-Moves now r d held)) w.tied in
    let names = attempt_row-names id r in
    let logged =
      Tied-attempt db.events db.endpoints (finished_rows now r rows) db.attempts (attempt_row id r)
        (rw (names.0, names.1) (finished-Logged now r rows p.holder i k)) moved in
    (
      record {
        sound = finished_rows-IsSoundDb now r db db' w.sound a u.deliveries;
        tied =
            rw (u.events, u.deliveries, u.attempts)
              (Tied-endpoints db.events db.endpoints db'.endpoints (finished_rows now r rows)
                (db.attempts ++ attempt_row id r ∷ []) (λ x has. u.present x ∙ has) logged);
        fits = u.fits w.fits;
      },
      rw u.deliveries (
          Evolves-update (holds_lease r) (finished now r) rows
            (All-of-mem _ rows (λ e j held. finished-Grows now r e held))),
    )
