-- ===== src/Store/History/Preservation.antt =====
-- Each transaction keeps a database whole.
pub mod Finish
use relayforge.Prelude.{
  All-of-mem, Option-cases, update, find?, ok, arith, some, Option, false, inr, inl, subst, refl,
  ◌≡◌, ◌-◌, ◌+◌, ℕ,
}
use relayforge.Store.History.Recording.{recover-Tied}
use relayforge.Prelude.Int.{pos, ltz, ℤ}
use relayforge.Store.History.Ties.{Tied-update, Tied, Moves}
use relayforge.Store.Queue.Recovery.{IsSoundDb}
use relayforge.Store.Queue.Claims.{claim_delivery_total, Outcome}
use relayforge.Store.Deliveries.Replay.{replay_delivery_dead, replay_delivery_refused}
use relayforge.Store.History.{IsWhole}
use relayforge.Prelude.Text.{text_eq, trim_space, is_empty, Text}
use relayforge.Store.Queue.Exclusion.{Halves-of}
use relayforge.Store.Evolution.{Evolves}
use relayforge.Store.Tables.{update_deliveries, Database, DeliveryRow, EndpointRow}
use relayforge.Store.Deliveries.{replayed, replay_delivery}
use relayforge.Store.Queue.{claim_delivery, claimed, Job, Session}
use relayforge.Delivery.Model.{Delivery}

claimed-Moves :
    (now : ℕ) (worker token : Text) (lease : ℤ) (d : DeliveryRow)
    → Moves d (claimed now worker token lease d)
unfolding claimed
claimed-Moves now worker token lease d = record {
  same_id = refl;
  same_event = refl;
  same_endpoint = refl;
  counts = omega arith;
  begins = λ e. omega arith;
}

Outcome-Tied :
    (s : Session) (worker : Text) (lease : ℤ) (mid : Database) (sound : IsSoundDb mid)
    {db' : Database} {job : Option Job}
    → Outcome s worker lease mid sound db' job
    → Tied mid.events mid.endpoints mid.deliveries mid.attempts
    → Tied db'.events db'.endpoints db'.deliveries db'.attempts × (db'.endpoints ≡ mid.endpoints)
Outcome-Tied s worker lease mid sound (Outcome.idle e) t = (t, refl)
Outcome-Tied s worker lease mid sound (Outcome.taken d e) t = (
  Tied-update mid.events mid.endpoints (λ x. text_eq x.id d.id)
      (claimed s.now worker s.lease_token lease) mid.deliveries mid.attempts
      (All-of-mem _ mid.deliveries (λ x i h. claimed-Moves s.now worker s.lease_token lease x)) t,
  refl,
)

claim_called :
    (s : Session) (worker : Text) (lease : ℤ) (db db' : Database) (job : Option Job)
    → claim_delivery s worker lease db ≡ ok (db', job)
    → (is_empty (trim_space worker) ≡ false) × (ltz lease (pos 1000000) ≡ false)
unfolding claim_delivery
claim_called s worker lease db db' job h = (ground arith, ground arith)

pub claim_delivery-IsWhole :
    (s : Session) (worker : Text) (lease : ℤ) (db db' : Database) (job : Option Job)
    → IsWhole db
    → claim_delivery s worker lease db ≡ ok (db', job)
    → IsWhole db' × Evolves db.deliveries db'.deliveries
claim_delivery-IsWhole s worker lease db db' job w h =
    let (named, long) = claim_called s worker lease db db' job h in
    let k = Halves-of s worker lease db w.sound named long db' job h in
    let (x, y, e, sound, evolves) =
      claim_delivery_total s worker lease db w.sound named long k.fits in
    let same : x ≡ db' = cc (e, h) in
    let rows = recover-Tied s db k.mid w.sound k.recovers w.tied in
    let (tied, endpoints) =
      Outcome-Tied s (trim_space worker) lease k.mid k.sound k.outcome
        (rw (k.mid_events, k.mid_endpoints, k.mid_rows) rows) in
    (
      record {
        sound = subst IsSoundDb same sound;
        tied = tied;
        fits = rw (endpoints, k.mid_endpoints) w.fits;
      },
      subst (λ z. Evolves db.deliveries z.deliveries) same evolves,
    )

replayed-Moves : (now limit : ℕ) (d : DeliveryRow) → Moves d (replayed now limit d)
unfolding replayed
replayed-Moves now limit d = record {
  same_id = refl;
  same_event = refl;
  same_endpoint = refl;
  counts = omega arith;
  begins = λ e. absurd (ground arith);
}

-- What a replay that succeeds writes.
replay_parts :
    (now : ℕ) (id : Text) (db db' : Database) (r : Delivery)
    → replay_delivery now id db ≡ ok (db', r)
    → (d : DeliveryRow) × (e : EndpointRow) × (find? (λ d. text_eq d.id id) db.deliveries ≡ some d)
      × (find? (λ e. text_eq e.id d.endpoint_id) db.endpoints ≡ some e)
      × (db' ≡ record db {
        deliveries =
            update
              (λ x. text_eq x.id id)
              (replayed now (d.max_attempts + e.max_attempts))
              db.deliveries;
      })
unfolding replay_delivery update_deliveries
replay_parts now id db db' r h = elim (Option-cases (find? (λ d. text_eq d.id id) db.deliveries)) [
  | inl e ↦ absurd (ground (arith, e))
  | inr (d, e) ↦ elim (Option-cases (find? (λ e. text_eq e.id d.endpoint_id) db.endpoints)) [
    | inl f ↦ absurd (ground (arith, e, f))
    | inr (ep, f) ↦ (d, ep, e, f, ground (arith, e, f))
  ]
]

pub replay_delivery-IsWhole :
    (now : ℕ) (id : Text) (db db' : Database) (r : Delivery)
    → IsWhole db
    → replay_delivery now id db ≡ ok (db', r)
    → IsWhole db' × Evolves db.deliveries db'.deliveries
replay_delivery-IsWhole now id db db' r w h =
    let (d, e, found, owner, tables) = replay_parts now id db db' r h in
    elim (replay_delivery_refused now id db w.sound d e found owner) [
      | inl (_, refused) ↦ absurd (cc (refused, h))
      | inr (inl (_, _, refused)) ↦ absurd (cc (refused, h))
      | inr (inr (on, dead, fits)) ↦
          let (x, done, _, sound, evolves) =
            replay_delivery_dead now id db w.sound d e found owner dead on fits in
          let same : x ≡ db' = cc (done, h) in
          (
            record {
              sound = subst IsSoundDb same sound;
              tied = rw tables (
                  Tied-update db.events db.endpoints _ _ db.deliveries db.attempts
                    (All-of-mem _ db.deliveries
                      (λ y i k. replayed-Moves now (d.max_attempts + e.max_attempts) y))
                    w.tied);
              fits = rw tables w.fits;
            },
            subst (λ z. Evolves db.deliveries z.deliveries) same evolves,
          )
    ]
