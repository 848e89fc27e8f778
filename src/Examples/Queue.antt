-- ===== src/Examples/Queue.antt =====
-- Claims and finished attempts on the sample database.
use relayforge.Prelude.{
  test_option, not, err, ok, arith, ◌∷◌, [], some, Option, false, true, ◌↔◌, ◌≢◌, refl, ◌≡◌, ◌<◌,
  Memᴰ,
}
use relayforge.Prelude.Text.{text_apart, codes, text_eq, trim_space}
use relayforge.Store.Queue.Finishing.{IsRoomy}
use relayforge.Store.Queue.Claims.{claim_delivery_total, Took}
use relayforge.Examples.Data.{
  claim_returns, name-storable, named, tables-IsSoundDb, lease, job, tables, session, owner,
  claimed_tables, answer, leased,
}
use relayforge.Store.Queue.Validation.{
  validate_attempt_result_sound, validate_attempt_result_iff, IsAcceptable,
}
use relayforge.Store.Queue.Exclusion.{claim_delivery-Took, claim_delivery-exclusive}
use relayforge.Store.Evolution.{Evolves}
use relayforge.Store.Queue.Fencing.{claimed_fences_others}
use relayforge.Store.Queue.Recovery.{IsSoundDb, recovered}
use relayforge.Store.Tables.{lease_lost, DeliveryRow, check_endpoint, Database}
use relayforge.Store.Queue.Circuit.{failures-shut, failures, cooldown_end}
use relayforge.Store.Queue.Finish.{validate_attempt_result, finish_attempt, holds_lease}
use relayforge.Prelude.{◌≤◌}
use relayforge.Store.Queue.{endpoint_open, claim_delivery, Job, AttemptResult}
use relayforge.Prelude.Int.{pos}
use relayforge.Delivery.Policy.{evaluate}
use relayforge.Prelude.Utf8.{storable}

claim_delivery_total_example :
    (db' : Database) × (result : Option Job) × (claim_delivery session (codes "w2") lease tables
      ≡ ok (db', result))
    × IsSoundDb db'
    × Evolves tables.deliveries db'.deliveries
claim_delivery_total_example =
    claim_delivery_total session (codes "w2") lease tables tables-IsSoundDb named refl name-storable

claim_delivery-exclusive_example :
    Memᴰ leased claimed_tables.deliveries
    × (test_option true (λ (j : Job). not (text_eq j.delivery.id (codes "d1"))) (some job) ≡ true)
claim_delivery-exclusive_example =
    claim_delivery-exclusive session (codes "w2") lease tables tables-IsSoundDb named refl
      claimed_tables (some job) claim_returns leased 5000000400 (Memᴰ.head refl) refl refl
      (omega arith)

claim_delivery-Took_example :
    (d : DeliveryRow) × Took session
      (trim_space (codes "w2"))
      lease
      (recovered session tables.deliveries)
      tables.endpoints
      claimed_tables
      job
      d
claim_delivery-Took_example =
    claim_delivery-Took session (codes "w2") lease tables tables-IsSoundDb named refl claimed_tables
      (some job) claim_returns job refl

abbrev late : AttemptResult
late = record answer { delivery_id = codes "d2"; lease_token = codes "t0" }

late-valid : validate_attempt_result late ≡ ok tt
unfolding validate_attempt_result trim_space evaluate
late-valid = refl

tokens_apart : codes "t0" ≢ codes "t2"
unfolding text_eq
tokens_apart = text_apart (codes "t0") (codes "t2") refl

late_name-storable : storable late.worker_id ≡ true
unfolding storable
late_name-storable = refl

late_message-storable : storable late.error_message ≡ true
unfolding storable
late_message-storable = refl

claimed_fences_others_example :
    finish_attempt 2500000000 (codes "a1") late claimed_tables ≡ err lease_lost
claimed_fences_others_example =
    claimed_fences_others session (codes "w2") lease tables tables-IsSoundDb named refl
      claimed_tables job claim_returns 2500000000 (codes "a1") late
      (validate_attempt_result_sound late late-valid) late_name-storable late_message-storable refl
      tokens_apart

abbrev prompt : AttemptResult
prompt = record answer {
  delivery_id = codes "d2";
  worker_id = codes "w2";
  lease_token = codes "t2";
}

trimmed : codes "w2" ≡ trim_space (codes "w2")
unfolding trim_space
trimmed = refl

abbrev forged : AttemptResult
forged = record answer { worker_id = codes "w9" }

forged-valid : validate_attempt_result forged ≡ ok tt
unfolding validate_attempt_result trim_space evaluate
forged-valid = refl

forged-holds : holds_lease forged leased ≡ false
unfolding holds_lease text_eq
forged-holds = refl

answer-storable : storable (codes "ok") ≡ true
unfolding storable
answer-storable = refl

nothing-storable : storable [] ≡ true
unfolding storable
nothing-storable = refl

answer-holds : holds_lease answer leased ≡ true
unfolding holds_lease text_eq
answer-holds = refl

tables-IsRoomy : IsRoomy tables answer
unfolding check_endpoint storable
tables-IsRoomy = record { unrecorded = refl; endpoints = ((refl, omega arith), tt) }

validate_attempt_result_iff_example : (validate_attempt_result answer ≡ ok tt) ↔ IsAcceptable answer
validate_attempt_result_iff_example = validate_attempt_result_iff answer

failures-shut_example :
    let f = failures 3 (pos 30000000000) (500 ∷ 600 ∷ []) owner in
    (3 < 3 → endpoint_open 700 f ≡ true)
    × (3 ≤ 3 → 700 < cooldown_end 600 (pos 30000000000) → endpoint_open 700 f ≡ false)
failures-shut_example =
    failures-shut 3 (pos 30000000000) (500 ∷ []) 600 700 owner refl (omega arith)
