-- ===== src/Store/History/Recording.antt =====
-- Recovery records attempts of deliveries that have counted them.
use relayforge.Prelude.{
  any_of-mem, All-mem, All-of-mem, mem-update, Result-cases, any_of, Option-cases, All-append, All,
  Bool-cases, Memᴰ, ok, if◌then◌else◌, arith, ◌++◌, ◌∷◌, [], List, true, inr, inl, ◌⊎◌, ◌≢◌, subst,
  refl, ◌≡◌, suc, ℕ,
}
use relayforge.Store.Queue.Recovery.{
  expired_leases-All, recovered, IsSoundDb, touched, recovery_updates,
}
use relayforge.Store.History.Ties.{Tied-update, Tied, Logged, Moves}
use relayforge.Prelude.Text.{text_eq_refl, Text}
use relayforge.Store.Queue.{
  expired_leases, RecoveredLease, record_leases, scan_leases, released, Session, lease_attempt,
  recover_expired_leases,
}
use relayforge.Store.Tables.{same_attempt, Database, AttemptRow, DeliveryRow, insert_attempt_once}
use relayforge.Delivery.Model.{Status}

abbrev LoggedRow : List DeliveryRow → AttemptRow → Type 0
LoggedRow rows a = Logged rows a.delivery_id a.attempt_number

insert_attempt_once_cases :
    (a : AttemptRow) (db db' : Database)
    → insert_attempt_once a db ≡ ok db'
    → (db'.attempts ≡ db.attempts) ⊎ (db'.attempts ≡ db.attempts ++ a ∷ [])
unfolding insert_attempt_once
insert_attempt_once_cases a db db' h =
    elim (Bool-cases (any_of (same_attempt a.delivery_id a.attempt_number) db.attempts)) [
      | inl old ↦ inl (ground arith)
      | inr new ↦ inr (ground arith)
    ]

lease_attempt-names :
    (id : Text) (l : RecoveredLease)
    → ((lease_attempt id l).delivery_id ≡ l.delivery_id)
      × ((lease_attempt id l).attempt_number ≡ l.attempt)
unfolding lease_attempt
lease_attempt-names id l = (refl, refl)

module _ (rows : List DeliveryRow) where
  insert_attempt_once-Logged :
      (a : AttemptRow) (db db' : Database)
      → insert_attempt_once a db ≡ ok db'
      → LoggedRow rows a
      → All (LoggedRow rows) db.attempts
      → All (LoggedRow rows) db'.attempts
  insert_attempt_once-Logged a db db' h l ls = elim (insert_attempt_once_cases a db db' h) [
    | inl e ↦ rw e ls
    | inr e ↦ rw e (All-append (LoggedRow rows) db.attempts (a ∷ []) ls (l, tt))
  ]

  record_leases-Logged :
      (ids : ℕ → Text) (leases : List RecoveredLease) (db db' : Database)
      → record_leases ids leases db ≡ ok db'
      → All (λ l. Logged rows l.delivery_id l.attempt) leases
      → All (LoggedRow rows) db.attempts
      → All (LoggedRow rows) db'.attempts
  unfolding record_leases
  record_leases-Logged ids [] db db' h l ls =
      let same : db ≡ db' = ground arith in subst (λ x. All (LoggedRow rows) x.attempts) same ls
  record_leases-Logged ids (item ∷ items) db db' h l ls =
      elim (Result-cases (insert_attempt_once (lease_attempt (ids 0) item) db)) [
        | inr (x, e) ↦ absurd (ground (arith, e))
        | inl (mid, e) ↦
            let names = lease_attempt-names (ids 0) item in
            record_leases-Logged (λ n. ids (suc n)) items mid db' (rw e at h) l.1
              (insert_attempt_once-Logged (lease_attempt (ids 0) item) db mid e
                (rw (names.0, names.1) l.0) ls)
      ]

  scan_leases-Logged :
      (now : ℕ) (ds : List DeliveryRow) (leases : List RecoveredLease)
      → scan_leases now ds ≡ ok leases
      → All (λ d. Logged rows d.id d.attempt_count) ds
      → All (λ l. Logged rows l.delivery_id l.attempt) leases
  unfolding scan_leases
  scan_leases-Logged now [] leases h l =
      let same : [] ≡ leases = ground arith in
      subst (All (λ l. Logged rows l.delivery_id l.attempt)) same tt
  scan_leases-Logged now (d ∷ ds) leases h l = elim (Option-cases d.locked_at) [
    | inl e ↦ absurd (ground (arith, e))
    | inr (at, e) ↦ elim (Result-cases (scan_leases now ds)) [
      | inr (x, f) ↦ absurd (ground (arith, e, f))
      | inl (rest, f) ↦
          let lease : RecoveredLease = record {
            delivery_id = d.id;
            attempt = d.attempt_count;
            started_at = at;
            completed_at = now;
          } in
          let same : lease ∷ rest ≡ leases = ground (arith, e, f) in
          subst (All (λ l. Logged rows l.delivery_id l.attempt)) same
            (l.0, scan_leases-Logged now ds rest f l.1)
    ]
  ]

released-facts :
    (now : ℕ) (d : DeliveryRow)
    → ((released now d).id ≡ d.id)
      × ((released now d).event_id ≡ d.event_id)
      × ((released now d).endpoint_id ≡ d.endpoint_id)
      × ((released now d).attempt_count ≡ d.attempt_count)
      × ((released now d).status ≢ Status.processing)
unfolding released
released-facts now d = (refl, refl, refl, refl, λ e. ground arith)

pub released-Moves : (now : ℕ) (d : DeliveryRow) → Moves d (released now d)
released-Moves now d =
    let f = released-facts now d in
    record {
      same_id = f.0;
      same_event = f.1;
      same_endpoint = f.2;
      counts = omega (arith, f.3);
      begins = λ e. absurd (f.4 e);
    }

released-Logged :
    (s : Session) (rows : List DeliveryRow) (d : DeliveryRow)
    → Memᴰ d rows
    → touched s rows d ≡ true
    → Logged (recovered s rows) d.id d.attempt_count
released-Logged s rows d i hit =
    let f = released-facts s.now d in
    record {
      row = released s.now d;
      present =
          subst (λ b. Memᴰ (if b then released s.now d else d) (recovered s rows)) hit
            (mem-update (touched s rows) (released s.now) rows d i);
      same_id = rw f.0 (text_eq_refl d.id);
      counted = omega (arith, f.3);
      later = λ e. absurd (f.4 e);
    }

-- After recovery, the recorded attempts are still those of deliveries that have counted them.
pub recover-Tied :
    (s : Session) (db db' : Database)
    → IsSoundDb db
    → recover_expired_leases s db ≡ ok db'
    → Tied db.events db.endpoints db.deliveries db.attempts
    → Tied db.events db.endpoints (recovered s db.deliveries) db'.attempts
unfolding recover_expired_leases
recover-Tied s db db' v h t =
    let rows = db.deliveries in
    let expired = expired_leases s.now s.held_at_recovery rows in
    let mid : Database = record db { deliveries = recovered s rows } in
    let moved =
      Tied-update db.events db.endpoints (touched s rows) (released s.now) rows db.attempts
        (All-of-mem _ rows (λ d i k. released-Moves s.now d)) t in
    let updated = recovery_updates s db v in
    elim (Result-cases (scan_leases s.now expired)) [
      | inr (x, e) ↦ absurd (ground (arith, e, updated))
      | inl (leases, e) ↦
          let recorded : record_leases s.attempt_ids leases mid ≡ ok db' = rw (updated, e) at h in
          record {
            linked = moved.linked;
            logged =
                record_leases-Logged (recovered s rows) s.attempt_ids leases mid db' recorded
                  (scan_leases-Logged (recovered s rows) s.now expired leases e (
                    All-of-mem _ expired λ d j.
                      let i =
                        (All-mem _ expired (expired_leases-All s.now s.held_at_recovery rows)
                          j).0 in
                      released-Logged s rows d i (any_of-mem _ expired j (text_eq_refl d.id))))
                  moved.logged;
          }
    ]
