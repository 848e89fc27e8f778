-- ===== src/Store/Queue.antt =====
-- internal/store/queue.go: claiming a delivery, recovering expired leases, and finishing an attempt.
-- The invalid decisions and circuit outcomes that validateAttemptResult refuses are no values here.
pub mod Finish
pub mod Validation
pub mod Rows
pub mod Recording
pub mod Recovery
pub mod Choice
pub mod Claims
pub mod Exclusion
pub mod Finishing
pub mod Fencing
pub mod Circuit
use relayforge.Prelude.{
  ◌>>◌, ◌>>=◌, ok, if◌then◌else◌, ◌==◌, ◌∷◌, [], List, some, none, Option, ◌||◌, ◌&&◌, not, false,
  true, Bool, ◌+◌, suc, ℕ, ltb, leb, Result, guard, refuse, or_fail, is_none, test_option, select,
  find?, any_of, take,
}
use relayforge.Prelude.Int.{
  ℤ, pos, sub_ℕ, ltz, whole_ms, from_ms, to_int32, int32_max, add_duration,
}
use relayforge.Prelude.Text.{Text, codes, text_eq, is_empty, trim_space}
use relayforge.Prelude.Utf8.{storable}
use relayforge.Prelude.Sorting.{sort_by}
use relayforge.Delivery.Model.{Status, status_eq, Endpoint, Event, Delivery}
use relayforge.Delivery.Policy.{Decision}
use relayforge.Store.Tables.{
  EndpointRow, DeliveryRow, AttemptRow, Database, StoreError, constraint_violated, scan_failed,
  worker_id_required, lease_too_short, update_deliveries, insert_attempt_once, scan_delivery,
  scan_endpoint,
}

pub record Job : Type 0 where
  pub delivery : Delivery
  pub event : Event
  pub endpoint : Endpoint

pub data CircuitOutcome : Type 0 where
  unchanged failure success : CircuitOutcome

pub record AttemptResult : Type 0 where
  pub delivery_id : Text
  pub worker_id : Text
  pub lease_token : Text
  pub attempt_number : ℕ
  pub decision : Decision
  pub status_code : Option ℕ
  pub response_body : Text
  pub error_message : Text
  pub duration : ℤ
  pub started_at : ℕ
  pub completed_at : ℕ
  pub next_attempt_at : ℕ
  pub circuit_outcome : CircuitOutcome
  pub circuit_threshold : ℕ
  pub circuit_cooldown : ℤ

pub record RecoveredLease : Type 0 where
  pub delivery_id : Text
  pub attempt : ℕ
  pub started_at : ℕ
  pub completed_at : ℕ

-- What the surroundings give to a call of ClaimDelivery: the time, the rows that other transactions
-- hold locked while each of the two queries runs (SKIP LOCKED), and the fresh identifiers.
pub record Session : Type 0 where
  pub now : ℕ
  pub held_at_recovery : Text → Bool
  pub held_at_claim : Text → Bool
  pub lease_token : Text
  pub attempt_ids : ℕ → Text

unfoldable pub duration_milliseconds : ℤ → ℤ
duration_milliseconds d =
    let ms = whole_ms d in if ltz (pos int32_max) ms then pos int32_max else to_int32 ms

abbrev pub lease_expired_message : Text
lease_expired_message = codes "delivery lease expired"

-- The WHERE of recoverExpiredQuery.
unfoldable pub is_expired : ℕ → DeliveryRow → Bool
unfolding status_eq
is_expired now d =
    status_eq d.status Status.processing
    && test_option false (λ until. leb until now) d.locked_until

abbrev until_or_zero : DeliveryRow → ℕ
until_or_zero d = elim d.locked_until [ none ↦ 0 | some until ↦ until ]

-- The common table expression `expired`.
unfoldable pub expired_leases : ℕ → (Text → Bool) → List DeliveryRow → List DeliveryRow
expired_leases now held rows =
    take 32 (sort_by until_or_zero (select (λ d. is_expired now d && not (held d.id)) rows))

-- The SET of recoverExpiredQuery.
unfoldable pub released : ℕ → DeliveryRow → DeliveryRow
released now d =
    let again = ltb d.attempt_count d.max_attempts in
    record d {
      status = if again then Status.retrying else Status.dead;
      next_attempt_at = if again then now else d.next_attempt_at;
      locked_by = none;
      lease_token = none;
      locked_at = none;
      locked_until = none;
      last_error = lease_expired_message;
      last_completed_at = some now;
      updated_at = now;
    }

-- The rows that the query returns, scanned.
unfoldable pub scan_leases : ℕ → List DeliveryRow → Result StoreError (List RecoveredLease)
scan_leases now [] = ok []
scan_leases now (d ∷ ds) = or_fail d.locked_at scan_failed >>= λ at. scan_leases now ds >>= λ rest.
    ok (
      record { delivery_id = d.id; attempt = d.attempt_count; started_at = at; completed_at = now }
      ∷ rest)

unfoldable pub lease_attempt : Text → RecoveredLease → AttemptRow
unfolding duration_milliseconds
lease_attempt id item = record {
  id = id;
  delivery_id = item.delivery_id;
  attempt_number = item.attempt;
  status_code = none;
  response_body = [];
  error_message = lease_expired_message;
  duration_ms = duration_milliseconds (sub_ℕ item.completed_at item.started_at);
  started_at = item.started_at;
  completed_at = item.completed_at;
}

-- The loop that records an attempt for each recovered lease.
unfoldable pub record_leases :
    (ℕ → Text) → List RecoveredLease → Database → Result StoreError Database
unfolding lease_attempt
record_leases ids [] db = ok db
record_leases ids (item ∷ items) db =
    insert_attempt_once (lease_attempt (ids 0) item) db >>= record_leases (λ n. ids (suc n)) items

unfoldable pub recover_expired_leases : Session → Database → Result StoreError Database
recover_expired_leases s db =
    let expired = expired_leases s.now s.held_at_recovery db.deliveries in
    update_deliveries (λ d. any_of (λ e. text_eq d.id e.id) expired) (released s.now) db >>= λ db'.
    scan_leases s.now expired >>= λ leases. record_leases s.attempt_ids leases db'

-- The endpoint's part of the WHERE of claimDeliveryQuery.
unfoldable pub endpoint_open : ℕ → EndpointRow → Bool
endpoint_open now e =
    is_none e.disabled_at && test_option true (λ until. leb until now) e.circuit_open_until

-- Its WHERE as a whole.
unfoldable pub is_claimable : ℕ → List EndpointRow → DeliveryRow → Bool
unfolding status_eq
is_claimable now endpoints d =
    (status_eq d.status Status.pending || status_eq d.status Status.retrying)
    && leb d.next_attempt_at now
    && ltb d.attempt_count d.max_attempts
    && any_of (λ e. text_eq e.id d.endpoint_id && endpoint_open now e) endpoints

-- The ORDER BY of claimDeliveryQuery: whether the first row comes before the second.
unfoldable pub sooner : DeliveryRow → DeliveryRow → Bool
sooner d e =
    ltb d.next_attempt_at e.next_attempt_at
    || (d.next_attempt_at == e.next_attempt_at && ltb d.created_at e.created_at)

-- ORDER BY … LIMIT 1, of the rows that pass.
unfoldable pub earliest : (DeliveryRow → Bool) → List DeliveryRow → Option DeliveryRow
unfolding sooner
earliest p [] = none
earliest p (d ∷ ds) =
    let later = earliest p ds in
    if p d then some (elim later [ none ↦ d | some e ↦ if sooner e d then e else d ]) else later

-- The SET of claimDeliveryQuery.
unfoldable pub claimed : ℕ → Text → Text → ℤ → DeliveryRow → DeliveryRow
claimed now worker_id lease_token lease d = record d {
  status = Status.processing;
  attempt_count = d.attempt_count + 1;
  locked_by = some worker_id;
  lease_token = some lease_token;
  locked_at = some now;
  locked_until = some (add_duration now (from_ms (whole_ms lease)));
  updated_at = now;
}

-- The last SELECT of claimDeliveryQuery, and scanJob; `none` is pgx.ErrNoRows.
unfoldable pub scan_job : Database → DeliveryRow → Option Job
scan_job db d = elim (find? (λ ev. text_eq ev.id d.event_id) db.events) [
  | none ↦ none
  | some ev ↦ elim (find? (λ ep. text_eq ep.id d.endpoint_id) db.endpoints) [
    | none ↦ none
    | some ep ↦
        some (record { delivery = scan_delivery d; event = ev; endpoint = scan_endpoint ep })
  ]
]

-- claimDeliveryQuery with its scan. PostgreSQL refuses a name that it cannot store before it looks at
-- a row.
unfoldable pub claim_next :
    Session → Text → ℤ → Database → Result StoreError (Database × Option Job)
unfolding scan_job
claim_next s worker_id lease db =
    guard (storable worker_id) constraint_violated
    >> elim (earliest (λ d. is_claimable s.now db.endpoints d && not (s.held_at_claim d.id))
        db.deliveries) [
          | none ↦ ok (db, none)
          | some d ↦
              update_deliveries (λ e. text_eq e.id d.id)
                (claimed s.now worker_id s.lease_token lease) db
              >>= λ db'. ok (db', scan_job db' (claimed s.now worker_id s.lease_token lease d))
        ]

unfoldable pub claim_delivery :
    Session → Text → ℤ → Database → Result StoreError (Database × Option Job)
claim_delivery s worker_id lease db = do
  let worker = trim_space worker_id
  refuse (is_empty worker) worker_id_required
  refuse (ltz lease (pos 1000000)) lease_too_short
  recovered ← recover_expired_leases s db
  claim_next s worker lease recovered
