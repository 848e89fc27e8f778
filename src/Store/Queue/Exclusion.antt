-- ===== src/Store/Queue/Exclusion.antt =====
-- Which delivery a claim hands out, and that no claim disturbs a delivery under a live lease.
use relayforge.Prelude.{
  test_option, none, not, refl, ok, if◌then◌else◌, arith, List, some, Option, false, true, inr, inl,
  ◌≢◌, subst, ap, ◌≡◌, ◌<◌, ℕ, Bool-cases, All-mono, mem-update, update, Memᴰ,
}
use relayforge.Prelude.Text.{text_eq_iff, text_eq_refl, text_eq, trim_space, is_empty, Text}
use relayforge.Store.Queue.Recovery.{recovered_live, recovered, IsSoundDb}
use relayforge.Store.Tables.Keys.{UniqueIds-mem}
use mathlib.Core.Path.{subst₂}
use relayforge.Store.Queue.Claims.{
  halves, returned-storable, written, after_claim, Halves, may_claim, taken, idle, Took, Outcome,
}
use relayforge.Store.Tables.{EndpointRow, scan_delivery, DeliveryRow, Database}
use relayforge.Delivery.Model.{Status}
use relayforge.Store.Queue.{
  is_expired, is_claimable, claim_delivery, claimed, Job, scan_job, Session,
}
use relayforge.Store.Queue.Choice.{earliest-some}
use relayforge.Prelude.Int.{pos, ltz, ℤ}

scan_job-delivery :
    (db : Database) (d : DeliveryRow) (job : Job)
    → scan_job db d ≡ some job
    → job.delivery ≡ scan_delivery d
unfolding scan_job
scan_job-delivery db d job h = ground arith

claimed_same :
    (now : ℕ) (worker token : Text) (lease : ℤ) (d : DeliveryRow) (ds : List DeliveryRow)
    → Memᴰ d ds
    → Memᴰ
        (claimed now worker token lease d)
        (update (λ e. text_eq e.id d.id) (claimed now worker token lease) ds)
claimed_same now worker token lease d ds i =
    subst (λ e. Memᴰ e (update (λ e. text_eq e.id d.id) (claimed now worker token lease) ds))
      (ap (λ b. if b then claimed now worker token lease d else d) (text_eq_refl d.id))
      (mem-update (λ e. text_eq e.id d.id) (claimed now worker token lease) ds d i)

another_job :
    (result : Option Job) (id : Text)
    → ((job : Job) → result ≡ some job → job.delivery.id ≢ id)
    → test_option true (λ (job : Job). not (text_eq job.delivery.id id)) result ≡ true
another_job none id h = refl
another_job (some job) id h = elim (Bool-cases (text_eq job.delivery.id id)) [
  | inl same ↦ absurd (h job refl ((text_eq_iff job.delivery.id id).0 same))
  | inr other ↦ rw other refl
]

may_claim_parts :
    (s : Session) (db : Database) (d : DeliveryRow)
    → may_claim s db d ≡ true
    → (is_claimable s.now db.endpoints d ≡ true) × (s.held_at_claim d.id ≡ false)
may_claim_parts s db d h = ground arith

may_claim_of_parts :
    (s : Session) (db : Database) (d : DeliveryRow)
    → is_claimable s.now db.endpoints d ≡ true
    → s.held_at_claim d.id ≡ false
    → may_claim s db d ≡ true
may_claim_of_parts s db d h k = ground arith

-- A row under a lease that has not expired is neither recovered nor claimable.
live_row :
    (now until : ℕ) (endpoints : List EndpointRow) (d : DeliveryRow)
    → d.status ≡ Status.processing
    → d.locked_until ≡ some until
    → now < until
    → (is_expired now d ≡ false) × (is_claimable now endpoints d ≡ false)
unfolding is_expired is_claimable
live_row now until endpoints d p u h = ground arith

module _ (s : Session) (worker : Text) (lease : ℤ) (mid : Database) (sound : IsSoundDb mid) where
  Outcome-Took :
      {db' : Database} {result : Option Job} (job : Job)
      → Outcome s worker lease mid sound db' result
      → result ≡ some job
      → (d : DeliveryRow) × Took s worker lease mid.deliveries mid.endpoints db' job d
  Outcome-Took job (idle e) h = absurd (cc)
  Outcome-Took job (taken d e) h =
      let (i, q, f) = earliest-some (may_claim s mid) mid.deliveries d e in
      let (c, n) = may_claim_parts s mid d q in
      (
        d,
        record {
          present = i;
          claimable = c;
          free = n;
          first = All-mono (λ x g k m. g (may_claim_of_parts s mid x k m)) mid.deliveries f;
          stored = claimed_same s.now worker s.lease_token lease d mid.deliveries i;
          returned =
              scan_job-delivery (after_claim s worker lease mid sound d)
                (claimed s.now worker s.lease_token lease d) job h;
        },
      )

  Outcome_live :
      {db' : Database} {result : Option Job} (d : DeliveryRow)
      → Memᴰ d mid.deliveries
      → is_claimable s.now mid.endpoints d ≡ false
      → Outcome s worker lease mid sound db' result
      → Memᴰ d db'.deliveries
  Outcome_live d i h (idle e) = i
  Outcome_live d i h (taken c e) = elim (Bool-cases (text_eq d.id c.id)) [
    | inl hit ↦ let (_, k) = written s worker lease mid sound c e d i hit in absurd (ground arith)
    | inr miss ↦
        subst (λ x. Memᴰ x (after_claim s worker lease mid sound c).deliveries)
          (ap (λ b. if b then claimed s.now worker s.lease_token lease d else d) miss)
          (mem-update (λ x. text_eq x.id c.id) (claimed s.now worker s.lease_token lease)
            mid.deliveries d i)
  ]

Took-other :
    (s : Session) (worker : Text) (lease : ℤ) (mid : Database) (sound : IsSoundDb mid)
    (db' : Database) (job : Job) (c d : DeliveryRow)
    → Took s worker lease mid.deliveries mid.endpoints db' job c
    → Memᴰ d mid.deliveries
    → is_claimable s.now mid.endpoints d ≡ false
    → job.delivery.id ≢ d.id
unfolding scan_delivery claimed
Took-other s worker lease mid sound db' job c d t j shut same =
    let id : c.id ≡ d.id = cc (t.returned, same) in
    let row =
      UniqueIds-mem mid.deliveries c d sound.unique t.present j ((text_eq_iff c.id d.id).1 id) in
    let open_row = t.claimable in cc (row, open_row, shut)

module _ (s : Session) (worker_id : Text) (lease : ℤ) (db : Database) (v : IsSoundDb db)
    (named : is_empty (trim_space worker_id) ≡ false) (long : ltz lease (pos 1000000) ≡ false)
    (db' : Database) (result : Option Job)
    (returns : claim_delivery s worker_id lease db ≡ ok (db', result)) where
  -- The halves of a claim that is known to have returned this.
  pub Halves-of : Halves s worker_id lease db v named long db' result
  Halves-of =
      let (x, y, e, h) =
        halves s worker_id lease db v named long
          (returned-storable s worker_id lease db v named long (db', result) returns) in
      let same : x ≡ db' = cc (e, returns) in
      let same' : y ≡ result = cc (e, returns) in
      subst₂ (λ a b. Halves s worker_id lease db v named long a b) same same' h

  -- On a sound database, a job that ClaimDelivery returns is a row of the table that recovery left:
  -- pending or retrying, due, with attempts left, its endpoint enabled with its circuit closed, held
  -- by no other transaction; no other such row was due earlier; and the row is stored as claimed.
  pub claim_delivery-Took :
      (job : Job)
      → result ≡ some job
      → (d : DeliveryRow) × Took s
          (trim_space worker_id)
          lease
          (recovered s db.deliveries)
          db.endpoints
          db'
          job
          d
  claim_delivery-Took job h =
      let k = Halves-of in
      let (d, t) = Outcome-Took s (trim_space worker_id) lease k.mid k.sound job k.outcome h in
      (d, rw (← k.mid_rows, ← k.mid_endpoints) t)

  -- While a lease lasts, ClaimDelivery neither hands out its delivery nor changes its row, whoever
  -- calls: on a sound database, a row that is being processed until later than now is in the table
  -- afterwards as it was, and is not the one that the returned job is about.
  pub claim_delivery-exclusive :
      (d : DeliveryRow) (until : ℕ)
      → Memᴰ d db.deliveries
      → d.status ≡ Status.processing
      → d.locked_until ≡ some until
      → s.now < until
      → Memᴰ d db'.deliveries
        × (test_option true (λ (job : Job). not (text_eq job.delivery.id d.id)) result ≡ true)
  claim_delivery-exclusive d until i p u h =
      let k = Halves-of in
      let (kept, shut) = live_row s.now until k.mid.endpoints d p u h in
      let j : Memᴰ d k.mid.deliveries =
        rw k.mid_rows (recovered_live s db.deliveries d v.unique i kept) in
      (
        Outcome_live s (trim_space worker_id) lease k.mid k.sound d j shut k.outcome,
        another_job result d.id λ job e same.
            let (c, t) =
              Outcome-Took s (trim_space worker_id) lease k.mid k.sound job k.outcome e in
            Took-other s (trim_space worker_id) lease k.mid k.sound db' job c d t j shut same,
      )
