-- ===== src/Bench.antt =====
-- cmd/relaybench/main.go: the settings, what becomes of one event, and the report. Package flag, net/url,
-- uuid.Parse, the HTTP client and the arithmetic of float64 are parameters. A duration is one that the
-- monotonic clock measured.
pub mod Settings
pub mod Report
pub mod Totals
pub mod Latency
pub mod Run
use relayforge.Prelude.{
  guard, or_fail, refuse, Result, ◌>>◌, ◌>>=◌, err, ok, if◌then◌else◌, ◌==◌, ◌++◌, ◌∷◌, [], List,
  Option, ◌||◌, ◌&&◌, not, Bool, ◌+◌, ℕ,
}
use relayforge.Prelude.Text.{Text, codes, is_empty, text_eq, trim_space}
use relayforge.Prelude.Int.{ℤ, pos, ltz, lez}
use relayforge.Eventing.{matches_event_type}

pub record BenchConfig : Type 0 where
  pub base_url : Text
  pub api_key : Text
  pub endpoint_id : Text
  pub event_type : Text
  pub requests : ℤ
  pub concurrency : ℤ
  pub request_timeout : ℤ

-- The fields of url.URL that parseConfig reads, and its String.
pub record BaseUrl : Type 0 where
  pub scheme : Text
  pub host : Text
  pub raw_query : Text
  pub fragment : Text
  pub printed : Text

-- Package flag fills the settings and counts the arguments that are left; it is given the default of
-- the token.
pub record CommandLine : Type 0 where
  pub parse_flags : List Text → Text → Result Text (BenchConfig × ℕ)
  pub parse_url : Text → Option BaseUrl
  pub is_uuid : Text → Bool

pub data BenchError : Type 0 where
  bad_flags : Text → BenchError
  positional_arguments not_http_url query_or_fragment key_missing not_uuid : BenchError
  unsafe_type requests_out_of_range bench_concurrency_out_of_range timeout_not_positive : BenchError

-- strings.TrimRight of one byte.
unfoldable pub trim_right : ℕ → Text → Text
trim_right b [] = []
trim_right b (x ∷ xs) = elim (trim_right b xs) [
  | [] ↦ if x == b then [] else x ∷ []
  | y ∷ ys ↦ x ∷ y ∷ ys
]

abbrev pub from_flags : Result Text (BenchConfig × ℕ) → Result BenchError (BenchConfig × ℕ)
from_flags (ok parsed) = ok parsed
from_flags (err e) = err (bad_flags e)

-- The scheme and the host that parseConfig asks for.
abbrev pub is_http : BaseUrl → Bool
is_http u =
    (text_eq u.scheme (codes "http") || text_eq u.scheme (codes "https")) && not (is_empty u.host)

unfoldable pub parse_config :
    CommandLine → List Text → (Text → Text) → Result BenchError BenchConfig
unfolding trim_right
parse_config line args getenv = do
  flags ← from_flags (line.parse_flags args (getenv (codes "RELAYFORGE_API_KEY")))
  refuse (not (flags.1 == 0)) positional_arguments
  let given = flags.0
  url ← or_fail (line.parse_url (trim_space given.base_url)) not_http_url
  guard (is_http url) not_http_url
  guard (is_empty url.raw_query && is_empty url.fragment) query_or_fragment
  let api_key = trim_space given.api_key
  refuse (is_empty api_key) key_missing
  guard (line.is_uuid given.endpoint_id) not_uuid
  let event_type = trim_space given.event_type
  guard (matches_event_type event_type) unsafe_type
  refuse (ltz given.requests (pos 1) || ltz (pos 1000000) given.requests) requests_out_of_range
  refuse (ltz given.concurrency (pos 1) || ltz (pos 1000) given.concurrency)
      bench_concurrency_out_of_range
  let concurrency =
      if ltz given.requests given.concurrency then given.requests else given.concurrency
  refuse (lez given.request_timeout (pos 0)) timeout_not_positive
  ok (record {
    base_url = trim_right 47 url.printed;
    api_key = api_key;
    endpoint_id = given.endpoint_id;
    event_type = event_type;
    requests = given.requests;
    concurrency = concurrency;
    request_timeout = given.request_timeout;
  })

-- What publish gives to json.Marshal, with the run and the number in the payload.
pub record BenchBody : Type 0 where
  pub endpoint_id : Text
  pub event_type : Text
  pub run_id : Text
  pub sequence : ℕ

pub record BenchRequest : Type 0 where
  pub url : Text
  pub authorization : Text
  pub content_type : Text
  pub idempotency_key : Text
  pub body : BenchBody
  pub timeout : ℤ

-- The request that publish builds.
unfoldable pub bench_request : (ℕ → Text) → BenchConfig → Text → ℕ → BenchRequest
bench_request itoa c run_id sequence = record {
  url = c.base_url ++ codes "/v1/events";
  authorization = codes "Bearer " ++ c.api_key;
  content_type = codes "application/json";
  idempotency_key = run_id ++ codes ":" ++ itoa sequence;
  body = record {
    endpoint_id = c.endpoint_id;
    event_type = c.event_type;
    run_id = run_id;
    sequence = sequence;
  };
  timeout = c.request_timeout;
}

-- `error` is empty for an event that was accepted.
pub record Sample : Type 0 where
  pub duration : ℕ
  pub status : ℕ
  pub error : Text

-- What the client met with: an error before the request was sent, one of the request, one of reading
-- the answer, or an answer whose body was cut at 4096 bytes.
pub data Exchange : Type 0 where
  not_sent : Text → Exchange
  not_answered : ℕ → Text → Exchange
  not_read : ℕ → ℕ → Text → Exchange
  answered_with : ℕ → ℕ → Text → Exchange

module _ (itoa : ℕ → Text) (status_text : ℕ → Text) where
  -- The part of publish that makes a sample of what the client met with.
  unfoldable pub sample_of : Exchange → Sample
  sample_of (not_sent e) = record { duration = 0; status = 0; error = e }
  sample_of (not_answered d e) = record { duration = d; status = 0; error = e }
  sample_of (not_read d code e) = record { duration = d; status = code; error = e }
  sample_of (answered_with d code body) =
      let trimmed = trim_space body in
      let message = if is_empty trimmed then status_text code else trimmed in
      record {
        duration = d;
        status = code;
        error =
            if not (code == 202) then codes "http " ++ itoa code ++ codes ": " ++ message else [];
      }

  -- publish; the client makes an exchange of a request.
  unfoldable pub publish : (BenchRequest → Exchange) → BenchConfig → Text → ℕ → Sample
  unfolding sample_of bench_request
  publish client c run_id sequence = sample_of (client (bench_request itoa c run_id sequence))
