-- ===== src/Store/Queue/Recording.antt =====
-- Recording the attempts of expired leases, as recoverExpiredLeases does.
use relayforge.Store.Tables.{
  same_attempt, AttemptRow, DeliveryRow, check_attempt, Database, check_delivery,
  insert_attempt_once,
}
use relayforge.Store.Queue.{is_expired, lease_attempt, record_leases, scan_leases, RecoveredLease}
use relayforge.Prelude.{
  ok, arith, ◌++◌, ◌∷◌, [], List, some, false, true, inr, inl, ◌∙◌, refl, ◌≡◌, ◌≤◌, suc, ℕ, le→leb,
  Option-cases, any_of, Bool-cases, All,
}
use relayforge.Store.Queue.Rows.{IsSound}
use relayforge.Prelude.Int.{pos, sub_ℕ, ltz}
use relayforge.Store.Queue.Validation.{duration_milliseconds_range}
use relayforge.Prelude.Text.{Text}
use relayforge.Prelude.Utf8.{storable}

-- A lease whose attempt can be recorded.
abbrev pub IsRecordable : RecoveredLease → Type 0
IsRecordable l = (id : Text) → check_attempt (lease_attempt id l) ≡ true

elapsed : (now at : ℕ) → at ≤ now → ltz (sub_ℕ now at) (pos 0) ≡ false
elapsed now at h = ground arith

lease_began :
    (now at : ℕ) (d : DeliveryRow)
    → IsSound d
    → is_expired now d ≡ true
    → d.locked_at ≡ some at
    → at ≤ now
unfolding check_delivery is_expired
lease_began now at d s x e = ground (arith, s.checked)

lease_attempt-check :
    (now at : ℕ) (d : DeliveryRow)
    → IsSound d
    → is_expired now d ≡ true
    → d.locked_at ≡ some at
    → IsRecordable (record {
      delivery_id = d.id;
      attempt = d.attempt_count;
      started_at = at;
      completed_at = now;
    })
unfolding lease_attempt check_attempt check_delivery is_expired storable
lease_attempt-check now at d s x e id =
    let began = lease_began now at d s x e in
    let fits = duration_milliseconds_range (sub_ℕ now at) (elapsed now at began) in
    ground (arith, s.checked, s.attempted, le→leb at now began)

locked_at_of :
    (now : ℕ) (d : DeliveryRow)
    → IsSound d
    → is_expired now d ≡ true
    → (at : ℕ) × (d.locked_at ≡ some at)
unfolding check_delivery is_expired
locked_at_of now d s x = elim (Option-cases d.locked_at) [
  | inl e ↦ absurd (ground (arith, s.checked))
  | inr (at, e) ↦ (at, e)
]

-- The expired leases of sound rows can be read, and their attempts recorded.
pub scan_leases_total :
    (now : ℕ) (ds : List DeliveryRow)
    → All (λ d. IsSound d × (is_expired now d ≡ true)) ds
    → (leases : List RecoveredLease) × (scan_leases now ds ≡ ok leases) × All IsRecordable leases
unfolding scan_leases
scan_leases_total now [] h = ([], refl, tt)
scan_leases_total now (d ∷ ds) h =
    let (at, e) = locked_at_of now d h.0.0 h.0.1 in
    let (rest, f, g) = scan_leases_total now ds h.1 in
    (
      record { delivery_id = d.id; attempt = d.attempt_count; started_at = at; completed_at = now }
          ∷ rest,
      rw e (rw f refl),
      (lease_attempt-check now at d h.0.0 h.0.1 e, g),
    )

-- Only the table of attempts differs.
abbrev pub SameButAttempts : Database → Database → Type 0
SameButAttempts db db' =
    (db'.endpoints ≡ db.endpoints) × (db'.events ≡ db.events) × (db'.deliveries ≡ db.deliveries)

insert_attempt_once_total :
    (a : AttemptRow) (db : Database)
    → check_attempt a ≡ true
    → (db' : Database) × (insert_attempt_once a db ≡ ok db') × SameButAttempts db db'
unfolding insert_attempt_once
insert_attempt_once_total a db h =
    elim (Bool-cases (any_of (same_attempt a.delivery_id a.attempt_number) db.attempts)) [
      | inl old ↦ (db, rw (h, old) refl, (refl, refl, refl))
      | inr new ↦
          (record db { attempts = db.attempts ++ a ∷ [] }, rw (h, new) refl, (refl, refl, refl))
    ]

pub record_leases_total :
    (ids : ℕ → Text) (leases : List RecoveredLease) (db : Database)
    → All IsRecordable leases
    → (db' : Database) × (record_leases ids leases db ≡ ok db') × SameButAttempts db db'
unfolding record_leases
record_leases_total ids [] db h = (db, refl, (refl, refl, refl))
record_leases_total ids (l ∷ ls) db h =
    let (d1, e1, (a1, b1, c1)) =
      insert_attempt_once_total (lease_attempt (ids 0) l) db (h.0 (ids 0)) in
    let (d2, e2, (a2, b2, c2)) = record_leases_total (λ n. ids (suc n)) ls d1 h.1 in
    (d2, rw e1 e2, (a2 ∙ a1, b2 ∙ b1, c2 ∙ c1))
