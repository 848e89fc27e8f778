-- ===== src/Examples/Runs.antt =====
-- A run of the benchmark with one event and one worker, and a request in the access log.
use relayforge.Prelude.{
  arith, ◌∷◌, [], List, false, true, refl, ◌≡◌, ◌≤◌, ◌+◌, ◌*◌, ◌⊎◌, ◌↔◌, ℕ, ok, All,
}
use relayforge.Prelude.Int.{pos}
use relayforge.Prelude.Text.{Text, codes, text_eq}
use relayforge.Bench.{BenchConfig, BenchRequest, Exchange, answered_with, Sample, publish}
use relayforge.Bench.Run.{
  BenchState, BenchStep, BenchRuns, begin, go, hand, call, send, close_done, leave, receive,
  requested, workers, run_started, is_over, report_of, exit_status, gone,
}
use relayforge.Bench.Run.Accounting.{exit_status_iff}
use relayforge.Bench.Run.Ending.{run-ends, steps_of}
use relayforge.Api.Recorder.{Call, call_header, call_write}
use relayforge.Webhook.Dispatcher.{deliver}
use relayforge.Webhook.Dispatcher.Setup.{Options, new_dispatcher, deliver-IsBounded, IsBounded}
use relayforge.Examples.Webhook.{wire, request}
use relayforge.Examples.Pool.{itoa}

abbrev bench : BenchConfig
bench = record {
  base_url = codes "http://localhost:8080";
  api_key = codes "key";
  endpoint_id = codes "ep";
  event_type = codes "relaybench.event";
  requests = pos 1;
  concurrency = pos 1;
  request_timeout = pos 1000000000;
}

abbrev status_text : ℕ → Text
status_text code = itoa code

abbrev client : BenchRequest → Exchange
client r = answered_with 30 202 []

abbrev accepted : Sample
accepted = record { duration = 30; status = 202; error = [] }

abbrev finished : BenchState
finished = record {
  taken = 1;
  handed = 1 ∷ [];
  closed = true;
  cancelled = false;
  phases = gone ∷ [];
  results = [];
  collected = accepted ∷ [];
}

whole_run : BenchRuns itoa status_text bench (codes "run") (run_started bench) finished
unfolding publish
whole_run =
    go
      (go
        (go
          (go (go (go begin (hand [] [] refl refl (omega arith))) (call [] [] 1 client refl))
            (send [] [] accepted refl (omega arith)))
          (close_done refl (omega arith)))
        (leave [] [] refl refl))
      (receive accepted [] refl)

unnamed : All (λ (x : Sample). text_eq x.error (codes "not started") ≡ false) finished.collected
unfolding text_eq
unnamed = (refl, tt)

exit_status_iff_example :
    (exit_status (ok bench) false (report_of itoa bench finished) true ≡ 0) ↔ (
      (true ≡ true) × (finished.cancelled ≡ false) × ((report_of itoa bench finished).accepted ≡ 1))
exit_status_iff_example =
    exit_status_iff itoa status_text bench (codes "run") finished (omega arith) whole_run refl
      unnamed true

run-ends_example :
    (steps_of itoa status_text bench (codes "run") whole_run
      ≤ 4 * requested bench + workers bench + 1)
    × ((is_over finished ≡ true)
        ⊎ ((t : BenchState) × BenchStep itoa status_text bench (codes "run") finished t))
run-ends_example =
    run-ends itoa status_text bench (codes "run") client finished whole_run (omega arith)

abbrev made : List Call
made = call_header 202 ∷ call_write 5 ∷ call_header 500 ∷ call_write 7 ∷ []

abbrev options : Options
options = record { allow_http = false; allow_private_targets = false; response_limit = pos 0 }

deliver-IsBounded_example :
    let d = new_dispatcher options in
    (1 ≤ d.response_limit)
    × IsBounded d.response_limit (deliver wire d.allow_http d.response_limit 410 417 request)
deliver-IsBounded_example = deliver-IsBounded wire options 410 417 request
