-- ===== src/Api/AccessLog.antt =====
-- internal/api/server.go: accessLog around the handlers, which report to the metrics.
use relayforge.Observability
use relayforge.Prelude.{if◌then◌else◌, ◌∷◌, [], List, Bool, ◌+◌, ℕ}
use relayforge.Prelude.Int.{ℤ}
use relayforge.Prelude.Text.{Text, codes, is_empty}
use relayforge.Observability.{observe_http_request}
use relayforge.Api.Recorder.{
  Recorder, new_recorder, Call, call_header, call_write, perform_all, is_informational,
}

-- The line of the log.
pub record LogEntry : Type 0 where
  pub method : Text
  pub path : Text
  pub status : ℕ
  pub bytes : ℕ
  pub duration : ℤ

unfoldable pub route_of : Text → Text
route_of pattern = if is_empty pattern then codes "unmatched" else pattern

-- What accessLog does once the handler has made its calls of the writer; `pattern` is the one that the
-- multiplexers have left in the request.
unfoldable pub access_log :
    (ℕ → Text)
    → Bool
    → Text
    → Text
    → Text
    → List Call
    → ℤ
    → List Observability.Call
    → List Observability.Call × LogEntry
unfolding route_of new_recorder
access_log itoa has_observer method path pattern made duration seen =
    let response = perform_all made new_recorder in
    (
      if has_observer
          then observe_http_request itoa method (route_of pattern) response.status duration seen
          else seen,
      record {
        method = method;
        path = path;
        status = response.status;
        bytes = response.bytes;
        duration = duration;
      },
    )

-- The status that the client gets in the end from net/http, for some calls of a handler: the first
-- that is set and is not informational, or 200 once something is written, or at the end.
abbrev pub first_status : List Call → ℕ
first_status [] = 200
first_status (call_header status ∷ cs) =
    let later = first_status cs in if is_informational status then later else status
first_status (call_write written ∷ cs) = 200

abbrev pub written_by : List Call → ℕ
written_by [] = 0
written_by (call_header status ∷ cs) = written_by cs
written_by (call_write written ∷ cs) = written + written_by cs
