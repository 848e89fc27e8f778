-- ===== src/Store/Queue/Recovery.antt =====
-- Recovery of expired leases: it cannot fail on a sound database, and touches expired rows only.
use relayforge.Store.Queue.Recording.{scan_leases_total, record_leases_total}
use relayforge.Store.Tables.{update_deliveries, DeliveryRow, Database}
use relayforge.Store.Queue.{released, recover_expired_leases, Session, is_expired, expired_leases}
use relayforge.Prelude.{
  ok, arith, List, ◌&&◌, not, false, true, Bool, inr, inl, subst, refl, ◌≡◌, ◌≤◌, ℕ, All-mem,
  All-update, mem-update, update, All-of-mem, All-select, select, any_of-find, All-mono,
  length-take-le, All-take, any_of, length, Memᴰ, Bool-cases, All,
}
use relayforge.Store.Tables.Keys.{
  UniqueIds-update, update_deliveries_total, UniqueIds-mem, UniqueIds,
}
use relayforge.Store.Queue.Rows.{released-Grows, released-IsSound, IsSound}
use relayforge.Store.Evolution.{Evolves-update, Evolves}
use relayforge.Prelude.Sorting.{All-sort_by}
use relayforge.Prelude.Text.{text_eq, Text}

-- The invariant of the table of deliveries.
pub record IsSoundDb (db : Database) : Type 0 where
  pub rows : All IsSound db.deliveries
  pub unique : UniqueIds db.deliveries

-- The chosen leases are rows of the table, and have expired.
pub expired_leases-All :
    (now : ℕ) (held : Text → Bool) (rows : List DeliveryRow)
    → All
        (λ e. Memᴰ e rows × (is_expired now e ≡ true) × (held e.id ≡ false))
        (expired_leases now held rows)
unfolding expired_leases
expired_leases-All now held rows = All-take _ 32 _ (
    All-sort_by _ _ _ (
      All-mono (λ e h. (h.0, ground arith, ground arith))
        (select (λ d. is_expired now d && not (held d.id)) rows)
        (All-select (λ e. Memᴰ e rows) _ rows (All-of-mem (λ e. Memᴰ e rows) rows (λ a i. i)))))

pub length-expired_leases-le :
    (now : ℕ) (held : Text → Bool) (rows : List DeliveryRow)
    → length (expired_leases now held rows) ≤ 32
unfolding expired_leases
length-expired_leases-le now held rows = length-take-le 32 _

-- The rows that the update touches are the chosen ones.
pub touched-is_expired :
    (now : ℕ) (held : Text → Bool) (rows : List DeliveryRow)
    → UniqueIds rows
    → (d : DeliveryRow) → Memᴰ d rows
    → any_of (λ e. text_eq d.id e.id) (expired_leases now held rows) ≡ true
    → (is_expired now d ≡ true) × (held d.id ≡ false)
touched-is_expired now held rows unique d i h =
    let (e, (j, x, f), t) =
      any_of-find _ (λ e. text_eq d.id e.id) (expired_leases now held rows)
        (expired_leases-All now held rows) h in
    let same = UniqueIds-mem rows d e unique i j t in (rw same x, rw same f)

abbrev pub touched : Session → List DeliveryRow → DeliveryRow → Bool
touched s rows d = any_of (λ e. text_eq d.id e.id) (expired_leases s.now s.held_at_recovery rows)

-- What a table of deliveries looks like once its expired leases have been recovered.
abbrev pub recovered : Session → List DeliveryRow → List DeliveryRow
recovered s rows = update (touched s rows) (released s.now) rows

touched-All {κ} :
    (s : Session) (rows : List DeliveryRow) (P : DeliveryRow → Type κ)
    → UniqueIds rows
    → ((d : DeliveryRow) → Memᴰ d rows → is_expired s.now d ≡ true → P d)
    → All (λ d. touched s rows d ≡ true → P d) rows
touched-All s rows P unique f =
    All-of-mem _ rows
      λ d i h. f d i (touched-is_expired s.now s.held_at_recovery rows unique d i h).0

-- The update of recovery meets the constraints.
pub recovery_updates :
    (s : Session) (db : Database)
    → IsSoundDb db
    → update_deliveries (touched s db.deliveries) (released s.now) db
      ≡ ok (record db { deliveries = recovered s db.deliveries })
recovery_updates s db v = update_deliveries_total (touched s db.deliveries) (released s.now) db (
    touched-All s db.deliveries _ v.unique
      (λ d i x. (released-IsSound s.now d (All-mem IsSound db.deliveries v.rows i)).checked))

-- Recovery of a sound database succeeds: it releases chosen rows and records their attempts.
pub recover_total :
    (s : Session) (db : Database)
    → IsSoundDb db
    → (db' : Database) × (recover_expired_leases s db ≡ ok db')
      × (db'.deliveries ≡ recovered s db.deliveries)
      × (db'.endpoints ≡ db.endpoints)
      × (db'.events ≡ db.events)
unfolding recover_expired_leases
recover_total s db v =
    let rows = db.deliveries in
    let updated = recovery_updates s db v in
    let (leases, scanned, fit) =
      scan_leases_total s.now (expired_leases s.now s.held_at_recovery rows) (
        All-mono (λ e h. (All-mem IsSound rows v.rows h.0, h.1)) _
          (expired_leases-All s.now s.held_at_recovery rows)) in
    let (db', e, (a, b, c)) =
      record_leases_total s.attempt_ids leases (record db { deliveries = recovered s rows }) fit in
    (db', rw (updated, scanned) e, c, a, b)

pub recovered-Evolves :
    (s : Session) (rows : List DeliveryRow) → UniqueIds rows → Evolves rows (recovered s rows)
recovered-Evolves s rows unique =
    Evolves-update (touched s rows) (released s.now) rows
      (touched-All s rows _ unique (λ d i x. released-Grows s.now d x))

released_id : (now : ℕ) (d : DeliveryRow) → (released now d).id ≡ d.id
unfolding released
released_id now d = refl

pub recovered-IsSoundDb :
    (s : Session) (db db' : Database)
    → IsSoundDb db
    → db'.deliveries ≡ recovered s db.deliveries
    → IsSoundDb db'
recovered-IsSoundDb s db db' v e = record {
  rows = rw e (
      All-update IsSound (touched s db.deliveries) (released s.now)
        (λ d h x. released-IsSound s.now d x) db.deliveries v.rows);
  unique = rw e (
      UniqueIds-update (touched s db.deliveries) (released s.now) (released_id s.now) db.deliveries
        v.unique);
}

-- A row whose lease has not expired stays as it is.
pub recovered_live :
    (s : Session) (rows : List DeliveryRow) (d : DeliveryRow)
    → UniqueIds rows
    → Memᴰ d rows
    → is_expired s.now d ≡ false
    → Memᴰ d (recovered s rows)
recovered_live s rows d unique i live = elim (Bool-cases (touched s rows d)) [
  | inl hit ↦
      absurd (ground (arith, touched-is_expired s.now s.held_at_recovery rows unique d i hit))
  | inr miss ↦
      subst (λ e. Memᴰ e (recovered s rows)) (ground arith)
        (mem-update (touched s rows) (released s.now) rows d i)
]
