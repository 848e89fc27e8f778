-- ===== src/Api/Handlers.antt =====
-- internal/api/endpoints.go, events.go and deliveries.go: the handlers. Each maps the tables to the
-- tables after it and a reply.
use relayforge.Store.Events.{Jsonb}
use relayforge.Endpoint
use relayforge.Management
use relayforge.Api.Replies.{
  location, published_body, details_body, delivery_body, write_delivery_error, endpoints_body,
  write_event_error, no_body, endpoint_body, fixed, write_endpoint_error, write_decode_error,
  Request, Reply, Decoding, decode_json, write_error, write_json,
}
use relayforge.Prelude.{err, ok, if◌then◌else◌, map, some, none, Option, ◌||◌, Bool, ◌+◌, ℕ, Result}
use relayforge.Api.Views.{published_view, delivery_view, details_view, endpoint_view}
use relayforge.Prelude.Text.{Text, codes, is_empty}
use relayforge.Prelude.Int.{ℤ, pos, ltz, from_ms}
use relayforge.Store.Tables.{Database}
use relayforge.Endpoint.{Net, Options}
use relayforge.Eventing.{publish, maximum_payload_bytes}

pub record CreateEndpointRequest : Type 0 where
  pub name : Text
  pub url : Text
  pub timeout_ms : ℤ
  pub max_attempts : ℤ

pub record PublishEventRequest : Type 0 where
  pub endpoint_id : Text
  pub event_type : Text
  pub payload : Text

abbrev pub maximum_endpoint_body : ℕ
maximum_endpoint_body = 65536

unfoldable pub maximum_event_body : ℕ
unfolding maximum_payload_bytes
maximum_event_body = maximum_payload_bytes + 4096

-- The services as cmd/relayforge/main.go wires them, and what they use of libraries: net/url and
-- uuid.Parse in `net`, base64, the box, json.Valid, PostgreSQL's jsonb, strconv.Atoi, and the decoders
-- of the two kinds of body.
pub record Server : Type 0 where
  pub api_key : Text
  pub net : Net
  pub options : Options
  pub encode : Text → Text
  pub encrypt : Text → Text → Result Text Text
  pub is_json : Text → Bool
  pub jsonb : Jsonb
  pub atoi : Text → Option ℤ
  pub endpoint_decoding : Decoding CreateEndpointRequest
  pub event_decoding : Decoding PublishEventRequest

-- What the surroundings give to a request: the time of its transaction, and the fresh identifiers and
-- random bytes that it may use.
pub record Moment : Type 0 where
  pub now : ℕ
  pub id : Text
  pub other_id : Text
  pub random : Result Text Text

module _ (server : Server) where
  -- createEndpoint once the body has been decoded and its two ranges checked.
  unfoldable pub create_decoded : Moment → CreateEndpointRequest → Database → Database × Reply
  unfolding endpoint_view write_endpoint_error
  create_decoded m request db =
      elim (Endpoint.create server.net server.encode server.encrypt m.random m.now m.id
        (record {
          name = request.name;
          url = request.url;
          timeout = from_ms request.timeout_ms;
          max_attempts = request.max_attempts;
        })
        server.options db) [
          | err e ↦ (db, write_endpoint_error e)
          | ok (db', created) ↦ (
            db',
            record {
              status = 201;
              header = location (codes "/v1/endpoints/") created.endpoint.id;
              body =
                  endpoint_body
                    (record (endpoint_view created.endpoint) { secret = created.secret });
            },
          )
        ]

  unfoldable pub create_endpoint : Moment → Request → Database → Database × Reply
  unfolding create_decoded write_decode_error
  create_endpoint m r db = elim (decode_json server.endpoint_decoding r maximum_endpoint_body) [
    | err e ↦ (db, write_decode_error e)
    | ok request ↦
        if ltz request.timeout_ms (pos 0) || ltz (pos 30000) request.timeout_ms
        then (
          db,
          write_error 400 "invalid_request"
              (fixed (codes "timeout_ms must be between 0 and 30000")),
        )
        else if ltz request.max_attempts (pos 0) || ltz (pos 100) request.max_attempts
        then (
          db,
          write_error 400 "invalid_request"
              (fixed (codes "max_attempts must be between 0 and 100")),
        )
        else create_decoded m request db
  ]

  unfoldable pub list_with : ℤ → Database → Database × Reply
  unfolding endpoint_view write_endpoint_error
  list_with limit db = elim (Endpoint.list server.net limit db) [
    | err e ↦ (db, write_endpoint_error e)
    | ok items ↦ (db, write_json 200 (endpoints_body (map endpoint_view items)))
  ]

  unfoldable pub list_endpoints : Request → Database → Database × Reply
  unfolding list_with
  list_endpoints r db =
      if is_empty r.limit then list_with (pos 50) db else elim (server.atoi r.limit) [
        | none ↦ (db, write_error 400 "invalid_request" (fixed (codes "limit must be an integer")))
        | some parsed ↦ list_with parsed db
      ]

  unfoldable pub get_endpoint : Text → Database → Database × Reply
  unfolding endpoint_view write_endpoint_error
  get_endpoint id db = elim (Endpoint.get server.net id db) [
    | err e ↦ (db, write_endpoint_error e)
    | ok item ↦ (db, write_json 200 (endpoint_body (endpoint_view item)))
  ]

  unfoldable pub disable_endpoint : Moment → Text → Database → Database × Reply
  unfolding write_endpoint_error
  disable_endpoint m id db = elim (Endpoint.disable server.net m.now id db) [
    | err e ↦ (db, write_endpoint_error e)
    | ok (db', _) ↦ (db', write_json 204 no_body)
  ]

  unfoldable pub publish_event : Moment → Request → Database → Database × Reply
  unfolding write_decode_error write_event_error published_view maximum_event_body
  publish_event m r db = elim (decode_json server.event_decoding r maximum_event_body) [
    | err e ↦ (db, write_decode_error e)
    | ok request ↦
        elim (publish server.net.is_uuid server.is_json server.jsonb m.now m.id m.other_id
          (record {
            endpoint_id = request.endpoint_id;
            event_type = request.event_type;
            payload = request.payload;
            idempotency_key = r.idempotency_key;
          })
          db) [
            | err e ↦ (db, write_event_error e)
            | ok (db', result) ↦ (
              db',
              record {
                status = 202;
                header = location (codes "/v1/deliveries/") result.delivery.id;
                body = published_body (published_view result);
              },
            )
          ]
  ]

  unfoldable pub get_delivery : Text → Database → Database × Reply
  unfolding details_view write_delivery_error
  get_delivery id db = elim (Management.get server.net.is_uuid id db) [
    | err e ↦ (db, write_delivery_error e)
    | ok details ↦ (db, write_json 200 (details_body (details_view details)))
  ]

  unfoldable pub replay_delivery : Moment → Text → Database → Database × Reply
  unfolding delivery_view write_delivery_error
  replay_delivery m id db = elim (Management.replay server.net.is_uuid m.now id db) [
    | err e ↦ (db, write_delivery_error e)
    | ok (db', result) ↦ (
      db',
      record {
        status = 202;
        header = location (codes "/v1/deliveries/") result.id;
        body = delivery_body (delivery_view result);
      },
    )
  ]
