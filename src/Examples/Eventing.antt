-- ===== src/Examples/Eventing.antt =====
-- Publishing a sample event twice.
use relayforge.Prelude.Utf8.{storable}
use relayforge.Prelude.{not, true, ◌≡◌, ok, refl}
use relayforge.Prelude.Text.{codes, text_eq, trim_space}
use relayforge.Prelude.Utf8.{utf8_valid}
use relayforge.Store.Tables.{check_delivery, scan_delivery}
use relayforge.Store.Events.{Enqueued, enqueue_event}
use relayforge.Eventing.{PublishInput, publish, matches_event_type, valid_idempotency_key}
use relayforge.Eventing.Publishing.{publish-again}
use relayforge.Examples.Data.{tables}
use relayforge.Examples.Tables.{plain, request, enqueued_tables, enqueued}

abbrev input : PublishInput
input = record {
  endpoint_id = request.endpoint_id;
  event_type = request.event_type;
  payload = request.payload;
  idempotency_key = request.idempotency_key;
}

publish_returns :
    publish (λ _. true) (λ _. true) plain 900 request.event_id request.delivery_id input tables
    ≡ ok (enqueued_tables, enqueued)
unfolding publish enqueue_event text_eq check_delivery scan_delivery trim_space utf8_valid
    matches_event_type valid_idempotency_key storable
publish_returns = refl

publish-again_example :
    (r : Enqueued) × (publish
        (λ _. true)
        (λ _. true)
        plain
        950
        (codes "e5")
        (codes "d5")
        input
        enqueued_tables
      ≡ ok (enqueued_tables, r))
    × (r.event ≡ enqueued.event)
    × (r.delivery ≡ enqueued.delivery)
    × (r.duplicate ≡ not (text_eq enqueued.event.id (codes "e5")))
publish-again_example =
    publish-again (λ _. true) (λ _. true) plain 900 950 request.event_id request.delivery_id
      (codes "e5") (codes "d5") input tables enqueued_tables enqueued publish_returns
