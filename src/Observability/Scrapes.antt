-- ===== src/Observability/Scrapes.antt =====
-- What a scrape shows, and that the client accepts what it is handed.
use relayforge.Prelude.{
  if◌then◌else◌, arith, ◌∷◌, [], List, true, false, Bool, refl, ◌≡◌, some, none, Option, ℕ, Result,
  ok, err, length, All, All-append, Memᴰ, any_of, not, ◌&&◌,
}
use relayforge.Prelude.Weights.{weigh, count}
use relayforge.Prelude.Int.{pos_part, pos, ℤ}
use relayforge.Prelude.Text.{Text, text_eq}
use relayforge.Delivery.Policy.{Decision}
use relayforge.Delivery.Model.{Status, status_text}
use relayforge.Store.Stats.{
  OperationalStats, operational_stats, count_status, operational_stats-total,
}
use relayforge.Store.Tables.{Database, StoreError}
use relayforge.Observability.{
  opts_of, Call, instrument_of, labels_of, observe_http_request, metrics_observer, PoolStats,
  Series, describe, collect, collect_pool, open_circuits, database_connections, deliveries,
  stats_scrape_success,
}

unfoldable pub texts_eq : List Text → List Text → Bool
unfolding text_eq
texts_eq [] [] = true
texts_eq [] (y ∷ ys) = false
texts_eq (x ∷ xs) [] = false
texts_eq (x ∷ xs) (y ∷ ys) = text_eq x y && texts_eq xs ys

abbrev pub same_series : Series → Series → Bool
same_series a b = texts_eq (opts_of a.desc).name (opts_of b.desc).name && texts_eq a.labels b.labels

-- No series is sent twice.
abbrev pub all_apart : List Series → Bool
all_apart [] = true
all_apart (x ∷ xs) = not (any_of (same_series x) xs) && all_apart xs

-- A call gives each label of its instrument a value.
abbrev pub HasLabels : Call → Type 0
HasLabels c = length (labels_of c) ≡ length (opts_of (instrument_of c)).labels

-- A metric of a described family, with a value for each of its labels.
abbrev pub IsDescribed : Series → Type 0
IsDescribed m = Memᴰ m.desc describe × (length m.labels ≡ length (opts_of m.desc).labels)

abbrev pub is_delivery_count : Series → Bool
is_delivery_count m = texts_eq (opts_of m.desc).name (opts_of deliveries).name

abbrev pub delivered : Series → ℕ
delivered m = if is_delivery_count m then pos_part m.value else 0

-- The values of the gauge that says whether the stats were read.
unfoldable pub success_values : List Series → List ℤ
unfolding texts_eq
success_values [] = []
success_values (m ∷ ms) =
    let later = success_values ms in
    if texts_eq (opts_of m.desc).name (opts_of stats_scrape_success).name
    then m.value ∷ later
    else later

-- The gauge of the deliveries under a label.
unfoldable pub shown_under : Text → List Series → Option ℤ
unfolding texts_eq
shown_under label [] = none
shown_under label (m ∷ ms) =
    let later = shown_under label ms in
    if is_delivery_count m && texts_eq m.labels (label ∷ []) then some m.value else later

conn : Memᴰ database_connections describe
unfolding describe
conn = Memᴰ.tail (Memᴰ.tail (Memᴰ.tail (Memᴰ.head refl)))

gauge : Memᴰ deliveries describe
unfolding describe
gauge = Memᴰ.head refl

success : Memᴰ stats_scrape_success describe
unfolding describe
success = Memᴰ.tail (Memᴰ.tail (Memᴰ.head refl))

circuits : Memᴰ open_circuits describe
unfolding describe
circuits = Memᴰ.tail (Memᴰ.head refl)

connections : (pool : PoolStats) → All IsDescribed (collect_pool pool)
unfolding collect_pool opts_of
connections pool = ((conn, refl), ((conn, refl), ((conn, refl), ((conn, refl), tt))))

collect-IsDescribed :
    (stats : Result StoreError OperationalStats) (pool : PoolStats)
    → All IsDescribed (collect stats pool)
unfolding collect opts_of
collect-IsDescribed (err e) pool = ((success, refl), connections pool)
collect-IsDescribed (ok stats) pool = (
  (success, refl),
  (
    (gauge, refl),
    (
      (gauge, refl),
      ((gauge, refl), ((gauge, refl), ((gauge, refl), ((circuits, refl), connections pool)))),
    ),
  ),
)

-- Whatever the stats of the store are, a scrape sends series that are described, that have a value for
-- each label, and that are apart from one another, as the client demands.
pub collect-IsConsistent :
    (stats : Result StoreError OperationalStats) (pool : PoolStats)
    → All IsDescribed (collect stats pool) × (all_apart (collect stats pool) ≡ true)
unfolding collect opts_of texts_eq
collect-IsConsistent (err e) pool = (collect-IsDescribed (err e) pool, refl)
collect-IsConsistent (ok stats) pool = (collect-IsDescribed (ok stats) pool, refl)

shown_each :
    (now : ℕ) (db : Database) (pool : PoolStats) (s : Status)
    → shown_under (status_text s) (collect (ok (operational_stats now db)) pool)
      ≡ some (pos (count_status s db.deliveries))
unfolding shown_under collect opts_of status_text texts_eq operational_stats
shown_each now db pool Status.pending = refl
shown_each now db pool Status.processing = refl
shown_each now db pool Status.retrying = refl
shown_each now db pool Status.succeeded = refl
shown_each now db pool Status.dead = refl

-- A scrape that has read the stats of the store sends the gauge of its success once, with 1, shows
-- under each status the number of its deliveries, and shows each delivery once; one that has not sends
-- that gauge once, with 0, and shows no deliveries.
pub collect_lem :
    (now : ℕ) (db : Database) (e : StoreError) (pool : PoolStats)
    → let shown = collect (ok (operational_stats now db)) pool in
      let failed = collect (err e) pool in
      (success_values shown ≡ pos 1 ∷ [])
      × ((s : Status)
          → shown_under (status_text s) shown ≡ some (pos (count_status s db.deliveries)))
      × (weigh delivered shown ≡ length db.deliveries)
      × (success_values failed ≡ pos 0 ∷ [])
      × (count is_delivery_count failed ≡ 0)
unfolding collect opts_of texts_eq success_values
collect_lem now db e pool =
    (refl, shown_each now db pool, omega (arith, operational_stats-total now db), refl, refl)

-- Every method of the observers hands the client calls that give each label of their instrument a
-- value.
pub observers-HaveLabels :
    (itoa : ℕ → Text) (method route result : Text) (status : ℕ) (decision : Decision)
    (duration delta : ℤ) (calls : List Call)
    → All HasLabels calls
    → All HasLabels (observe_http_request itoa method route status duration calls)
      × All HasLabels (metrics_observer.observe_claim result calls)
      × All HasLabels (metrics_observer.observe_attempt decision duration calls)
      × All HasLabels (metrics_observer.observe_finish_error calls)
      × All HasLabels (metrics_observer.add_in_flight delta calls)
unfolding observe_http_request metrics_observer opts_of
observers-HaveLabels itoa method route result status decision duration delta calls h = (
  All-append HasLabels calls _ h (refl, (refl, tt)),
  All-append HasLabels calls _ h (refl, tt),
  All-append HasLabels calls _ h (refl, (refl, tt)),
  All-append HasLabels calls _ h (refl, tt),
  All-append HasLabels calls _ h (refl, tt),
)
