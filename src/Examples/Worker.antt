-- ===== src/Examples/Worker.antt =====
-- A round of a worker on the sample database.
use relayforge.Prelude.{[], some, ℕ}
use relayforge.Prelude.Int.{pos}
use relayforge.Prelude.Text.{codes}
use relayforge.Delivery.Policy.{Decision}
use relayforge.Webhook.Dispatcher.{WebhookResult, circuit_success}
use relayforge.Worker.{Config}

abbrev pub config : Config ℕ
config = record {
  concurrency = pos 1;
  poll_interval = pos 1000000;
  lease_duration = pos 1000000000;
  finish_timeout = pos 1000000;
  retry_policy = record { base = 1000; max = 8000; jitter = 0 };
  circuit_threshold = pos 5;
  circuit_cooldown = pos 30000000000;
}

abbrev pub reply : WebhookResult
reply = record {
  decision = Decision.succeed;
  status_code = some 200;
  response_body = codes "ok";
  error_message = [];
  circuit_signal = circuit_success;
  duration = pos 7;
  started_at = 2000000010;
  completed_at = 2000000017;
}
