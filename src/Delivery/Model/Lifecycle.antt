-- ===== src/Delivery/Model/Lifecycle.antt =====
-- The life of a delivery as a walk along `CanTransition`.
use relayforge.Prelude.{◌≡◌, refl, ◌≢◌, ◌⊎◌, true, false, arith}
use relayforge.Delivery.Model.{Status, status_eq, final, can_transition}

pub status_eq_iff : (s t : Status) → status_eq s t ≡ true → s ≡ t
unfolding status_eq
status_eq_iff s t h = ground arith

-- A life of zero or more changes of status.
pub data Life (s : Status) : Status → Type 0 where
  start : Life s s
  change : {t u : Status} → Life s t → can_transition t u ≡ true → Life s u

change_source : (t u : Status) → can_transition t u ≡ true → t ≢ Status.succeeded
unfolding can_transition
change_source t u h e = ground arith

-- A delivery that has succeeded keeps that status for ever.
pub succeeded_absorbs : {t : Status} → Life Status.succeeded t → t ≡ Status.succeeded
succeeded_absorbs start = refl
succeeded_absorbs (change {t} {u} life h) = absurd (change_source t u h (succeeded_absorbs life))

-- A final status is left only from `dead`, by a replay to `pending`; every other status may change,
-- and never to `pending`.
pub final_changes :
    (s t : Status)
    → can_transition s t ≡ true
    → ((final s ≡ true) × (s ≡ Status.dead) × (t ≡ Status.pending))
      ⊎ ((final s ≡ false) × (t ≢ Status.pending))
unfolding final can_transition
final_changes s t h = ground arith
