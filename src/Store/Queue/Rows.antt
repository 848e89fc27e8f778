-- ===== src/Store/Queue/Rows.antt =====
-- What the updates of the queue do to one row.
use relayforge.Prelude.Int.{negsuc, whole_ms, from_ms, add_duration, pos, ltz, ℤ}
use relayforge.Prelude.{Option-cases, ltb, arith, List, false, true, inr, inl, refl, ◌≡◌, ◌≤◌, ℕ}
use relayforge.Store.Queue.Validation.{IsAcceptable}
use relayforge.Store.Evolution.{Grows-of_change, Grows}
use relayforge.Store.Queue.{AttemptResult, is_claimable, is_expired, claimed, released}
use relayforge.Prelude.Text.{Text, text_eq_iff}
use relayforge.Prelude.Utf8.{storable}
use relayforge.Delivery.Model.{Status, can_transition}
use relayforge.Store.Tables.{EndpointRow, check_delivery, DeliveryRow}
use relayforge.Store.Queue.Finish.{next_status, holds_lease, finished}

-- A row of a table that the transactions keep: the table's constraints hold of it, and an attempt
-- under way has been counted.
pub record IsSound (d : DeliveryRow) : Type 0 where
  pub checked : check_delivery d ≡ true
  pub attempted : d.status ≡ Status.processing → 1 ≤ d.attempt_count

pub released-Grows :
    (now : ℕ) (d : DeliveryRow) → is_expired now d ≡ true → Grows d (released now d)
unfolding released is_expired can_transition
released-Grows now d h =
    Grows-of_change d (released now d) refl refl refl (ground arith) (omega arith) (omega arith)

pub released-IsSound : (now : ℕ) (d : DeliveryRow) → IsSound d → IsSound (released now d)
unfolding released check_delivery
released-IsSound now d s = record { checked = ground arith; attempted = λ e. ground arith }

pub claimed-Grows :
    (now : ℕ) (endpoints : List EndpointRow) (worker token : Text) (lease : ℤ) (d : DeliveryRow)
    → is_claimable now endpoints d ≡ true
    → Grows d (claimed now worker token lease d)
unfolding claimed is_claimable can_transition
claimed-Grows now endpoints worker token lease d h =
    Grows-of_change d (claimed now worker token lease d) refl refl refl (ground arith) (omega arith)
      (omega arith)

-- A lease of at least a millisecond ends after it began.
lease_ends :
    (now : ℕ) (lease : ℤ)
    → ltz lease (pos 1000000) ≡ false
    → ltb now (add_duration now (from_ms (whole_ms lease))) ≡ true
lease_ends now (pos n) h = ground arith
lease_ends now (negsuc n) h = absurd (ground arith)

pub claimed-IsSound :
    (now : ℕ) (endpoints : List EndpointRow) (worker token : Text) (lease : ℤ) (d : DeliveryRow)
    → ltz lease (pos 1000000) ≡ false
    → storable worker ≡ true
    → is_claimable now endpoints d ≡ true
    → IsSound d
    → IsSound (claimed now worker token lease d)
unfolding claimed is_claimable check_delivery
claimed-IsSound now endpoints worker token lease d l fits h s = record {
  checked = ground (arith, lease_ends now lease l);
  attempted = λ e. omega arith;
}

pub finished-Grows :
    (now : ℕ) (r : AttemptResult) (d : DeliveryRow)
    → holds_lease r d ≡ true
    → Grows d (finished now r d)
unfolding finished holds_lease can_transition next_status
finished-Grows now r d h =
    Grows-of_change d (finished now r d) refl refl refl (ground arith) (omega arith) (omega arith)

pub finished-IsSound :
    (now : ℕ) (r : AttemptResult) (d : DeliveryRow)
    → IsAcceptable r
    → holds_lease r d ≡ true
    → IsSound d
    → IsSound (finished now r d)
unfolding finished holds_lease check_delivery next_status
finished-IsSound now r d a h s = elim (Option-cases r.status_code) [
  | inl e ↦ record { checked = ground (arith, e); attempted = λ f. ground arith }
  | inr (code, e) ↦ record {
    checked = ground (arith, e, a.answered code e);
    attempted = λ f. ground arith;
  }
]

-- The name that a row holds a lease under can be stored.
pub holder-storable :
    (r : AttemptResult) (d : DeliveryRow)
    → IsSound d
    → holds_lease r d ≡ true
    → storable r.worker_id ≡ true
unfolding holds_lease check_delivery
holder-storable r d s h = elim (Option-cases d.locked_by) [
  | inl e ↦ absurd (ground (arith, e))
  | inr (worker, e) ↦
      let same : worker ≡ r.worker_id = (text_eq_iff worker r.worker_id).0 (ground (arith, e)) in
      let fits : storable worker ≡ true = ground (arith, e, s.checked) in rw (← same) fits
]
