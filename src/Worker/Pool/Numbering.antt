-- ===== src/Worker/Pool/Numbering.antt =====
-- The number of the attempt that a claim begins is a new one.
use relayforge.Prelude.{arith, List, some, false, refl, ◌≡◌, ◌≤◌, ℕ, ok, ap, sym, ◌∙◌, Memᴰ}
use relayforge.Prelude.Int.{ℤ, pos, ltz}
use relayforge.Prelude.Text.{Text, text_eq_iff, trim_space, is_empty}
use relayforge.Delivery.Model.{Delivery}
use relayforge.Store.Tables.{Database, DeliveryRow, scan_delivery}
use relayforge.Store.Tables.Keys.{UniqueIds-mem}
use relayforge.Store.Evolution.{Evolves, Evolves-mem}
use relayforge.Store.Queue.{Job, Session, claim_delivery, claimed}
use relayforge.Store.Queue.Recovery.{IsSoundDb, recovered, recovered-Evolves, recovered-IsSoundDb}
use relayforge.Store.Queue.Exclusion.{claim_delivery-Took}

-- The delivery is stored, and has counted the attempt.
pub record HasCounted (rows : List DeliveryRow) (id : Text) (n : ℕ) : Type 0 where
  pub row : DeliveryRow
  pub present : Memᴰ row rows
  pub same_id : row.id ≡ id
  pub counted : n ≤ row.attempt_count

pub HasCounted-Evolves :
    (ds es : List DeliveryRow) (id : Text) (n : ℕ)
    → Evolves ds es
    → HasCounted ds id n
    → HasCounted es id n
HasCounted-Evolves ds es id n evolves h =
    let (e, j, g) = Evolves-mem ds es evolves h.present in
    record {
      row = e;
      present = j;
      same_id = g.same_id ∙ h.same_id;
      counted = omega (arith, g.counts, h.counted);
    }

module _ (s : Session) (worker : Text) (lease : ℤ) (db db' : Database) (job : Job)
    (v : IsSoundDb db) (named : is_empty (trim_space worker) ≡ false)
    (long : ltz lease (pos 1000000) ≡ false)
    (returns : claim_delivery s worker lease db ≡ ok (db', some job)) where
  -- The attempt that a claim begins has been counted, and had not been counted before.
  pub claim-begins :
      HasCounted db'.deliveries job.delivery.id job.delivery.attempt_count
      × (HasCounted db.deliveries job.delivery.id job.delivery.attempt_count → ⊥)
  unfolding claimed scan_delivery
  claim-begins =
      let (d, k) =
        claim_delivery-Took s worker lease db v named long db' (some job) returns job refl in
      let same = ap (λ (x : Delivery). x.id) k.returned in
      let number = ap (λ (x : Delivery). x.attempt_count) k.returned in
      let mid = record db { deliveries = recovered s db.deliveries } in
      let unique = (recovered-IsSoundDb s db mid v refl).unique in
      (
        record {
          row = claimed s.now (trim_space worker) s.lease_token lease d;
          present = k.stored;
          same_id = sym same;
          counted = omega (arith, number);
        },
        λ h.
            let (e, j, g) =
              Evolves-mem db.deliveries (recovered s db.deliveries)
                (recovered-Evolves s db.deliveries v.unique) h.present in
            let one =
              UniqueIds-mem (recovered s db.deliveries) e d unique j k.present
                ((text_eq_iff e.id d.id).1 (g.same_id ∙ h.same_id ∙ same)) in
            let level = ap (λ (x : DeliveryRow). x.attempt_count) one in
            absurd (omega (arith, level, g.counts, h.counted, number)),
      )
