-- ===== src/Store/Queue/Claims.antt =====
-- ClaimDelivery: what it may do to the tables, which row it takes, and what it must leave alone.
use relayforge.Store.Queue.{
  recover_expired_leases, sooner, claim_delivery, claim_next, scan_job, earliest, Job, is_claimable,
  claimed, Session,
}
use relayforge.Prelude.{
  ok, err, Bool-cases, List, some, none, Option, ◌&&◌, not, false, true, Bool, inr, inl, subst, sym,
  refl, ◌≡◌, ℕ, All, All-mem, All-of-mem, &&-eq-true, All-update_each, Option-cases, Memᴰ, update,
}
use relayforge.Store.Tables.{constraint_violated, EndpointRow, scan_delivery, DeliveryRow, Database}
use relayforge.Store.Queue.Recovery.{
  recovered-Evolves, recovered-IsSoundDb, recover_total, recovered, IsSoundDb,
}
use relayforge.Store.Tables.Keys.{UniqueIds-update, update_deliveries_total, UniqueIds-mem}
use relayforge.Store.Evolution.{Evolves-trans, Evolves-update, Evolves-refl, Evolves}
use relayforge.Store.Queue.Rows.{claimed-IsSound, claimed-Grows, IsSound}
use relayforge.Prelude.Text.{trim_space, is_empty, text_eq, Text}
use relayforge.Prelude.Utf8.{storable}
use relayforge.Store.Queue.Choice.{earliest-some}
use relayforge.Prelude.Int.{pos, ltz, ℤ}

-- The rows that the claiming query may take.
abbrev pub may_claim : Session → Database → DeliveryRow → Bool
may_claim s db d = is_claimable s.now db.endpoints d && not (s.held_at_claim d.id)

claimed_id :
    (now : ℕ) (worker token : Text) (lease : ℤ) (d : DeliveryRow)
    → (claimed now worker token lease d).id ≡ d.id
unfolding claimed
claimed_id now worker token lease d = refl

module _ (s : Session) (worker : Text) (lease : ℤ) (db : Database) (v : IsSoundDb db) where
  -- A claim writes to the row that it chose and to no other.
  pub written :
      (d : DeliveryRow)
      → earliest (may_claim s db) db.deliveries ≡ some d
      → (e : DeliveryRow) → Memᴰ e db.deliveries
      → text_eq e.id d.id ≡ true
      → (e ≡ d) × (is_claimable s.now db.endpoints e ≡ true)
  written d chosen e i h =
      let (j, q, _) = earliest-some (may_claim s db) db.deliveries d chosen in
      let same = UniqueIds-mem db.deliveries e d v.unique i j h in
      (same, rw same (&&-eq-true _ _ q).0)

  abbrev pub after_claim : DeliveryRow → Database
  after_claim d = record db {
    deliveries =
        update (λ e. text_eq e.id d.id) (claimed s.now worker s.lease_token lease) db.deliveries;
  }

  -- The outcome of the claiming query: nothing, or a claim of the chosen row.
  pub data Outcome : Database → Option Job → Type 0 where
    idle : earliest (may_claim s db) db.deliveries ≡ none → Outcome db none
    taken :
        (d : DeliveryRow)
        → earliest (may_claim s db) db.deliveries ≡ some d
        → Outcome
            (after_claim d)
            (scan_job (after_claim d) (claimed s.now worker s.lease_token lease d))

  module _ (l : ltz lease (pos 1000000) ≡ false) (fits : storable worker ≡ true) where
    claim_next_total :
        (db' : Database) × (job : Option Job) × (claim_next s worker lease db ≡ ok (db', job))
        × Outcome db' job
    unfolding claim_next
    claim_next_total = elim (Option-cases (earliest (may_claim s db) db.deliveries)) [
      | inl e ↦ (db, none, rw (fits, e, claim_next) refl, idle e)
      | inr (d, e) ↦
          let fine =
            update_deliveries_total (λ e. text_eq e.id d.id)
              (claimed s.now worker s.lease_token lease) db
              (All-of-mem _ db.deliveries λ x i h.
                (claimed-IsSound s.now db.endpoints worker s.lease_token lease x l fits
                  (written d e x i h).1 (All-mem IsSound db.deliveries v.rows i)).checked) in
          (
            after_claim d,
            scan_job (after_claim d) (claimed s.now worker s.lease_token lease d),
            rw (fits, e, claim_next) (rw fine refl),
            taken d e,
          )
    ]

    Outcome-Evolves :
        {db' : Database} {job : Option Job} → Outcome db' job → Evolves db.deliveries db'.deliveries
    Outcome-Evolves (idle e) = Evolves-refl db.deliveries
    Outcome-Evolves (taken d e) = Evolves-update _ _ db.deliveries (
        All-of-mem _ db.deliveries λ x i h.
          claimed-Grows s.now db.endpoints worker s.lease_token lease x (written d e x i h).1)

    pub Outcome-IsSoundDb : {db' : Database} {job : Option Job} → Outcome db' job → IsSoundDb db'
    Outcome-IsSoundDb (idle e) = v
    Outcome-IsSoundDb (taken d e) = record {
      rows =
          All-update_each IsSound (λ x. text_eq x.id d.id)
            (claimed s.now worker s.lease_token lease) db.deliveries
            (All-of-mem _ db.deliveries λ x i h.
              claimed-IsSound s.now db.endpoints worker s.lease_token lease x l fits
                (written d e x i h).1 (All-mem IsSound db.deliveries v.rows i))
            v.rows;
      unique =
          UniqueIds-update (λ x. text_eq x.id d.id) (claimed s.now worker s.lease_token lease)
            (claimed_id s.now worker s.lease_token lease) db.deliveries v.unique;
    }

module _ (s : Session) (worker_id : Text) (lease : ℤ) (db : Database) (v : IsSoundDb db)
    (named : is_empty (trim_space worker_id) ≡ false) (long : ltz lease (pos 1000000) ≡ false) where
  -- The two halves of a claim: recovery gives `mid`, and the query runs on it.
  pub record Halves (db' : Database) (job : Option Job) : Type 0 where
    pub mid : Database
    pub recovers : recover_expired_leases s db ≡ ok mid
    pub mid_rows : mid.deliveries ≡ recovered s db.deliveries
    pub mid_endpoints : mid.endpoints ≡ db.endpoints
    pub mid_events : mid.events ≡ db.events
    pub sound : IsSoundDb mid
    pub fits : storable (trim_space worker_id) ≡ true
    pub outcome : Outcome s (trim_space worker_id) lease mid sound db' job

  pub halves :
      storable (trim_space worker_id) ≡ true
      → (db' : Database) × (job : Option Job) × (claim_delivery s worker_id lease db
          ≡ ok (db', job))
        × Halves db' job
  unfolding claim_delivery
  halves fits =
      let (mid, e, rows, endpoints, events) = recover_total s db v in
      let sound = recovered-IsSoundDb s db mid v rows in
      let (db', job, f, o) = claim_next_total s (trim_space worker_id) lease mid sound long fits in
      (
        db',
        job,
        rw (named, long, e) f,
        record {
          mid = mid;
          recovers = e;
          mid_rows = rows;
          mid_endpoints = endpoints;
          mid_events = events;
          sound = sound;
          fits = fits;
          outcome = o;
        },
      )

  -- A claim that returns no error had a name that can be stored.
  pub returned-storable :
      (result : Database × Option Job)
      → claim_delivery s worker_id lease db ≡ ok result
      → storable (trim_space worker_id) ≡ true
  unfolding claim_delivery claim_next
  returned-storable result h =
      let (mid, e, _, _, _) = recover_total s db v in
      elim (Bool-cases (storable (trim_space worker_id))) [
        | inl fits ↦ fits
        | inr unfit ↦
            let fails : claim_delivery s worker_id lease db ≡ err constraint_violated =
              rw (named, long, e) (rw unfit refl) in
            absurd (cc (fails, h))
      ]

  -- On a sound database ClaimDelivery, called with a worker's name that PostgreSQL can store and a
  -- lease of a millisecond at least, returns no error; the database stays sound, and each delivery moves along its life.
  pub claim_delivery_total :
      storable (trim_space worker_id) ≡ true
      → (db' : Database) × (job : Option Job) × (claim_delivery s worker_id lease db
          ≡ ok (db', job))
        × IsSoundDb db'
        × Evolves db.deliveries db'.deliveries
  claim_delivery_total fits =
      let (db', job, e, h) = halves fits in
      (
        db',
        job,
        e,
        Outcome-IsSoundDb s (trim_space worker_id) lease h.mid h.sound long h.fits h.outcome,
        Evolves-trans db.deliveries h.mid.deliveries db'.deliveries
            (subst (Evolves db.deliveries) (sym h.mid_rows)
              (recovered-Evolves s db.deliveries v.unique))
            (Outcome-Evolves s (trim_space worker_id) lease h.mid h.sound long h.fits h.outcome),
      )

-- What a claim that returns a job has done: it took the row `d` of the table `rows`, where no other
-- row that it might have taken comes before it, stored its claimed version, and returned that.
pub record Took (s : Session) (worker : Text) (lease : ℤ) (rows : List DeliveryRow)
    (endpoints : List EndpointRow) (db' : Database) (job : Job) (d : DeliveryRow) : Type 0 where
  pub present : Memᴰ d rows
  pub claimable : is_claimable s.now endpoints d ≡ true
  pub free : s.held_at_claim d.id ≡ false
  pub first :
      All
        (λ e.
          is_claimable s.now endpoints e ≡ true → s.held_at_claim e.id ≡ false → sooner e d ≡ false)
        rows
  pub stored : Memᴰ (claimed s.now worker s.lease_token lease d) db'.deliveries
  pub returned : job.delivery ≡ scan_delivery (claimed s.now worker s.lease_token lease d)
