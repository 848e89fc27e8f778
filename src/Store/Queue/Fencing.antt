-- ===== src/Store/Queue/Fencing.antt =====
-- Lease tokens: a worker that has lost its lease cannot finish the attempt, the one that holds it can.
use relayforge.Delivery.Model.{Delivery}
use relayforge.Store.Queue.{claim_delivery, Job, claimed, AttemptResult, Session}
use relayforge.Store.Queue.Rows.{IsSound}
use relayforge.Prelude.{
  All-mem, err, ok, arith, some, false, true, inr, inl, ◌≢◌, ◌∙◌, subst, ap, sym, refl, ◌≡◌, ◌≤◌,
  ◌+◌, ℕ, All-of-mem, find?-eq-none, Memᴰ, Bool-cases,
}
use relayforge.Prelude.Int.{int32_max, pos, ltz, ℤ}
use relayforge.Store.Tables.{check_delivery, scan_delivery, lease_lost, DeliveryRow, Database}
use relayforge.Store.Queue.Claims.{Outcome-IsSoundDb}
use relayforge.Store.Queue.Exclusion.{claim_delivery-Took, Halves-of}
use relayforge.Store.Tables.Keys.{UniqueIds-mem}
use relayforge.Store.Queue.Validation.{validate_attempt_result_complete, IsAcceptable}
use relayforge.Prelude.Text.{trim_space, is_empty, text_eq_iff, text_eq, text_eq_refl, Text}
use relayforge.Prelude.Utf8.{storable}
use relayforge.Store.Queue.Recovery.{IsSoundDb}
use relayforge.Store.Queue.Finish.{finish_attempt, holds_lease}

other_id :
    (r : AttemptResult) (d e : DeliveryRow)
    → d.id ≡ r.delivery_id
    → text_eq d.id e.id ≡ false
    → holds_lease r e ≡ false
unfolding holds_lease
other_id r d e h k = elim (Bool-cases (text_eq e.id r.delivery_id)) [
  | inl hit ↦
      let same = (text_eq_iff e.id r.delivery_id).0 hit in
      let both : d.id ≡ e.id = h ∙ sym same in
      let no = (text_eq_iff d.id e.id).1 both in absurd (cc)
  | inr miss ↦ rw miss refl
]

-- On a sound database, an acceptable result with texts that can be stored, for a row that does not hold its lease is refused as
-- lost: the row is not being processed, or by another worker, or under another lease token, or in
-- another attempt.
pub finish_attempt-fenced :
    (now : ℕ) (id : Text) (r : AttemptResult) (db : Database) (d : DeliveryRow)
    → IsSoundDb db
    → IsAcceptable r
    → Memᴰ d db.deliveries
    → d.id ≡ r.delivery_id
    → storable r.worker_id ≡ true
    → storable r.error_message ≡ true
    → holds_lease r d ≡ false
    → finish_attempt now id r db ≡ err lease_lost
unfolding finish_attempt
finish_attempt-fenced now id r db d v a i same name message h =
    let valid = validate_attempt_result_complete r a in
    let nobody = find?-eq-none (holds_lease r) db.deliveries (
      All-of-mem _ db.deliveries λ e j. elim (Bool-cases (text_eq d.id e.id)) [
        | inl hit ↦
            subst (λ x. holds_lease r x ≡ false) (UniqueIds-mem db.deliveries d e v.unique i j hit)
              h
        | inr miss ↦ other_id r d e same miss
      ]) in
    rw (valid, name, message, nobody) refl

other_token :
    (now : ℕ) (worker token : Text) (lease : ℤ) (d : DeliveryRow) (r : AttemptResult)
    → r.lease_token ≢ token
    → holds_lease r (claimed now worker token lease d) ≡ false
unfolding holds_lease claimed
other_token now worker token lease d r h = elim (Bool-cases (text_eq token r.lease_token)) [
  | inl hit ↦ absurd (h (sym ((text_eq_iff token r.lease_token).0 hit)))
  | inr miss ↦ ground arith
]

own_token :
    (now : ℕ) (worker token : Text) (lease : ℤ) (d : DeliveryRow) (r : AttemptResult)
    → r.delivery_id ≡ d.id
    → r.worker_id ≡ worker
    → r.lease_token ≡ token
    → r.attempt_number ≡ d.attempt_count + 1
    → holds_lease r (claimed now worker token lease d) ≡ true
unfolding holds_lease claimed
own_token now worker token lease d r a b c e =
    rw (a, b, c, e) (rw (text_eq_refl d.id, text_eq_refl worker, text_eq_refl token) (ground arith))

module _ (s : Session) (worker_id : Text) (lease : ℤ) (db : Database) (v : IsSoundDb db)
    (named : is_empty (trim_space worker_id) ≡ false) (long : ltz lease (pos 1000000) ≡ false)
    (db' : Database) (job : Job)
    (returns : claim_delivery s worker_id lease db ≡ ok (db', some job)) where
  -- The tables that a claim leaves are sound.
  pub sound_after : IsSoundDb db'
  sound_after =
      let k = Halves-of s worker_id lease db v named long db' (some job) returns in
      Outcome-IsSoundDb s (trim_space worker_id) lease k.mid k.sound long k.fits k.outcome

  -- Once a claim on a sound database has handed out a delivery, an acceptable result for it under any
  -- other lease token, such as one of the worker whose lease had expired, is refused because the lease
  -- was lost; provided that PostgreSQL can store the result's message and the name of its worker.
  -- Tokens, like identifiers, are texts of UUIDs.
  pub claimed_fences_others :
      (now : ℕ) (id : Text) (r : AttemptResult)
      → IsAcceptable r
      → storable r.worker_id ≡ true
      → storable r.error_message ≡ true
      → r.delivery_id ≡ job.delivery.id
      → r.lease_token ≢ s.lease_token
      → finish_attempt now id r db' ≡ err lease_lost
  unfolding scan_delivery
  claimed_fences_others now id r a name message e h =
      let (d, t) =
        claim_delivery-Took s worker_id lease db v named long db' (some job) returns job refl in
      let c = claimed s.now (trim_space worker_id) s.lease_token lease d in
      finish_attempt-fenced now id r db' c sound_after a t.stored
        (sym (e ∙ ap (λ x. x.id) t.returned)) name message
        (other_token s.now (trim_space worker_id) s.lease_token lease d r h)

  -- The worker that claimed it holds the lease: a result under the trimmed name of the worker with the
  -- job's identifier, token and attempt number fits a row of the table.
  pub claimed_holds :
      (r : AttemptResult)
      → r.delivery_id ≡ job.delivery.id
      → r.worker_id ≡ trim_space worker_id
      → r.lease_token ≡ job.delivery.lease_token
      → r.attempt_number ≡ job.delivery.attempt_count
      → (d : DeliveryRow) × Memᴰ d db'.deliveries × (holds_lease r d ≡ true)
  unfolding scan_delivery claimed
  claimed_holds r e w t n =
      let (d, k) =
        claim_delivery-Took s worker_id lease db v named long db' (some job) returns job refl in
      (
        claimed s.now (trim_space worker_id) s.lease_token lease d,
        k.stored,
        own_token s.now (trim_space worker_id) s.lease_token lease d r
            (e ∙ ap (λ x. x.id) k.returned) w (t ∙ ap (λ x. x.lease_token) k.returned)
            (n ∙ ap (λ x. x.attempt_count) k.returned),
      )

  -- The attempt that a claim starts has a number in the range of PostgreSQL's integers.
  pub claimed_number : (1 ≤ job.delivery.attempt_count) × (job.delivery.attempt_count ≤ int32_max)
  unfolding scan_delivery claimed check_delivery
  claimed_number =
      let (d, k) =
        claim_delivery-Took s worker_id lease db v named long db' (some job) returns job refl in
      let sound = All-mem IsSound db'.deliveries sound_after.rows k.stored in
      let counted = ap (λ (x : Delivery). x.attempt_count) k.returned in
      let checked = sound.checked in ground arith
