-- ===== src/Store/Stats.antt =====
-- internal/store/stats.go: the counts that the metrics show.
use relayforge.Prelude.{
  ltb, test_option, select, length, arith, ◌∷◌, [], List, false, refl, ◌≡◌, ◌+◌, ℕ,
}
use relayforge.Store.Tables.{DeliveryRow, Database}
use relayforge.Delivery.Model.{Status, status_eq}

pub record OperationalStats : Type 0 where
  pub pending : ℕ
  pub processing : ℕ
  pub retrying : ℕ
  pub succeeded : ℕ
  pub dead : ℕ
  pub open_circuits : ℕ

unfoldable pub count_status : Status → List DeliveryRow → ℕ
unfolding status_eq
count_status s rows = length (select (λ d. status_eq d.status s) rows)

-- GetOperationalStats
unfoldable pub operational_stats : ℕ → Database → OperationalStats
unfolding count_status
operational_stats now db = record {
  pending = count_status Status.pending db.deliveries;
  processing = count_status Status.processing db.deliveries;
  retrying = count_status Status.retrying db.deliveries;
  succeeded = count_status Status.succeeded db.deliveries;
  dead = count_status Status.dead db.deliveries;
  open_circuits =
      length (
        select (λ e. test_option false (λ until. ltb now until) e.circuit_open_until) db.endpoints);
}

-- Each delivery is counted once: the five counts add up to the size of the table.
pub operational_stats-total :
    (now : ℕ) (db : Database)
    → let s = operational_stats now db in
      s.pending + s.processing + s.retrying + s.succeeded + s.dead ≡ length db.deliveries
unfolding operational_stats
operational_stats-total now db = counts db.deliveries
  where
    counts :
        (rows : List DeliveryRow)
        → count_status Status.pending rows
            + count_status Status.processing rows
            + count_status Status.retrying rows
            + count_status Status.succeeded rows
            + count_status Status.dead rows
          ≡ length rows
    counts [] = refl
    counts (d ∷ ds) = ground (arith, counts ds)
