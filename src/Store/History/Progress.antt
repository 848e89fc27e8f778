-- ===== src/Store/History/Progress.antt =====
-- What a reachable database lets the workers do.
use relayforge.Store.Events.{Jsonb}
use relayforge.Store.Tables.{scan_endpoint, scan_delivery, Database, DeliveryRow, EndpointRow}
use relayforge.Prelude.{
  All-mem, find?-of-any_of, Memᴰ, ok, arith, List, some, none, Option, false, true, Bool, ◌≢◌, ◌∙◌,
  subst, ap, sym, refl, ◌≡◌, ℕ,
}
use relayforge.Prelude.Text.{trim_space, text_eq, is_empty, Text}
use relayforge.Store.History.Recording.{recover-Tied}
use relayforge.Store.History.Ties.{Tied, has_endpoint, has_event}
use relayforge.Store.Queue.Recovery.{recovered_live, IsSoundDb}
use relayforge.Store.Queue.Claims.{halves, after_claim, Outcome, may_claim}
use relayforge.Store.History.Invariant.{reachable-IsWhole}
use relayforge.Store.History.{no_rows, History}
use relayforge.Prelude.Int.{pos, ltz, ℤ}
use relayforge.Store.Queue.{
  claim_delivery, earliest, is_expired, claimed, scan_job, is_claimable, Job, Session,
}
use relayforge.Store.Queue.Choice.{earliest-some, earliest-none}
use relayforge.Prelude.Utf8.{storable}

-- A claimable row is not under a lease.
claimable_unexpired :
    (now : ℕ) (endpoints : List EndpointRow) (d : DeliveryRow)
    → is_claimable now endpoints d ≡ true
    → is_expired now d ≡ false
unfolding is_claimable is_expired
claimable_unexpired now endpoints d h = ground arith

earliest_found :
    (p : DeliveryRow → Bool) (ds : List DeliveryRow) (d : DeliveryRow)
    → Memᴰ d ds
    → p d ≡ true
    → earliest p ds ≢ none
earliest_found p ds d i h e =
    let misses = earliest-none p ds e in
    let miss = All-mem (λ x. p x ≡ false) ds misses i in ground arith

claimed-names :
    (now : ℕ) (worker token : Text) (lease : ℤ) (d : DeliveryRow)
    → ((claimed now worker token lease d).event_id ≡ d.event_id)
      × ((claimed now worker token lease d).endpoint_id ≡ d.endpoint_id)
unfolding claimed
claimed-names now worker token lease d = (refl, refl)

-- A row whose event and endpoint are stored scans to a job.
scan_job_total :
    (db : Database) (d : DeliveryRow)
    → has_event d.event_id db.events ≡ true
    → has_endpoint d.endpoint_id db.endpoints ≡ true
    → (job : Job) × (scan_job db d ≡ some job)
unfolding scan_job
scan_job_total db d event endpoint =
    let (ev, e) = find?-of-any_of (λ x. text_eq x.id d.event_id) db.events event in
    let (ep, f) = find?-of-any_of (λ x. text_eq x.id d.endpoint_id) db.endpoints endpoint in
    (
      record { delivery = scan_delivery d; event = ev; endpoint = scan_endpoint ep },
      rw (e, scan_job) (rw f refl),
    )

Outcome-some :
    (s : Session) (worker : Text) (lease : ℤ) (mid : Database) (sound : IsSoundDb mid)
    {db' : Database} {result : Option Job} (d : DeliveryRow)
    → Tied mid.events mid.endpoints mid.deliveries mid.attempts
    → Memᴰ d mid.deliveries
    → may_claim s mid d ≡ true
    → Outcome s worker lease mid sound db' result
    → (job : Job) × (result ≡ some job)
Outcome-some s worker lease mid sound d t i h (Outcome.idle e) =
    absurd (earliest_found (may_claim s mid) mid.deliveries d i h e)
Outcome-some s worker lease mid sound d t i h (Outcome.taken c e) =
    let (j, _, _) = earliest-some (may_claim s mid) mid.deliveries c e in
    let l = All-mem _ mid.deliveries t.linked j in
    let names = claimed-names s.now worker s.lease_token lease c in
    scan_job_total (after_claim s worker lease mid sound c)
      (claimed s.now worker s.lease_token lease c)
      (subst (λ x. has_event x mid.events ≡ true) (sym names.0) l.0)
      (subst (λ x. has_endpoint x mid.endpoints ≡ true) (sym names.1) l.1)

module _ (jsonb : Jsonb) (db : Database) (past : History jsonb no_rows db) where
  -- The queue makes progress: on a reachable database with a claimable delivery that no other
  -- transaction holds, ClaimDelivery, called with a worker's name that PostgreSQL can store and a
  -- lease of a millisecond at least, returns a job and no error.
  pub claim_delivery-progress :
      (s : Session) (worker : Text) (lease : ℤ) (d : DeliveryRow)
      → is_empty (trim_space worker) ≡ false
      → storable (trim_space worker) ≡ true
      → ltz lease (pos 1000000) ≡ false
      → Memᴰ d db.deliveries
      → is_claimable s.now db.endpoints d ≡ true
      → s.held_at_claim d.id ≡ false
      → (db' : Database) × (job : Job) × (claim_delivery s worker lease db ≡ ok (db', some job))
  claim_delivery-progress s worker lease d named fits long i open_row free =
      let w = reachable-IsWhole jsonb db past in
      let (db', result, e, k) = halves s worker lease db w.sound named long fits in
      let kept : Memᴰ d k.mid.deliveries = rw k.mid_rows (
        recovered_live s db.deliveries d w.sound.unique i
          (claimable_unexpired s.now db.endpoints d open_row)) in
      let tied : Tied k.mid.events k.mid.endpoints k.mid.deliveries k.mid.attempts =
        rw (k.mid_events, k.mid_endpoints, k.mid_rows)
          (recover-Tied s db k.mid w.sound k.recovers w.tied) in
      let test : may_claim s k.mid d ≡ true = rw (k.mid_endpoints, open_row, free) refl in
      let (job, f) =
        Outcome-some s (trim_space worker) lease k.mid k.sound d tied kept test k.outcome in
      (db', job, e ∙ ap (λ (o : Option Job). ok (db', o)) f)
