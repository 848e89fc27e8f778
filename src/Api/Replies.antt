-- ===== src/Api/Replies.antt =====
-- internal/api: requests, replies, and which status an error has. The texts of wrapped errors are not
-- modelled: a message is the error itself where the code prints one.
use relayforge.Prelude.{
  ◌++◌, some, test_option, guard, Result, ◌>>◌, ◌>>=◌, err, ok, List, none, Option, false, Bool, ℕ,
}
use Prim.Native.String.{String}
use relayforge.Prelude.Text.{Text, codes, text_eq}
use relayforge.Api.Views.{
  EndpointResponse, DeliveryResponse, DeliveryDetailsResponse, PublishEventResponse,
}
use relayforge.Store.Tables.{
  endpoint_not_found, event_endpoint_disabled, idempotency_conflict, delivery_not_found,
  not_replayable, delivery_endpoint_disabled,
}
use relayforge.Endpoint.{Invalid, EndpointError, invalid_endpoint, store_failed}
use relayforge.Eventing.{PublishError, enqueue_failed}
use relayforge.Management.{ManagementError, malformed_delivery_id, repository_failed}

-- What the handlers read of a request: the headers, the body, and the parameter `limit` of the query.
pub record Request : Type 0 where
  pub method : Text
  pub path : Text
  pub authorization : Text
  pub content_type : Text
  pub idempotency_key : Text
  pub limit : Text
  pub body : Text

-- The errors of decodeJSON.
pub data DecodeError : Type 0 where
  unsupported_media_type not_one_object : DecodeError
  invalid_json : Text → DecodeError

pub data Message : Type 0 where
  fixed : Text → Message
  of_decoding : DecodeError → Message
  of_endpoint : Invalid → Message
  of_event : PublishError → Message
  of_delivery : ManagementError → Message

-- The bodies of the public answers are only named.
pub data Body : Type 0 where
  no_body live_body ready_body not_ready_body version_body metrics_body : Body
  error_body : Text → Message → Body
  endpoint_body : EndpointResponse → Body
  endpoints_body : List EndpointResponse → Body
  published_body : PublishEventResponse → Body
  details_body : DeliveryDetailsResponse → Body
  delivery_body : DeliveryResponse → Body

-- A reply with the header that it sets besides its content type, by name and value.
pub record Reply : Type 0 where
  pub status : ℕ
  pub header : Option (Text × Text)
  pub body : Body

abbrev pub location : Text → Text → Option (Text × Text)
location prefix id = some (codes "Location", prefix ++ id)

-- writeJSON without a further header.
abbrev pub write_json : ℕ → Body → Reply
write_json status body = record { status = status; header = none; body = body }

abbrev pub write_error : ℕ → String → Message → Reply
write_error status code message = write_json status (error_body (codes code) message)

-- The answers for a body that decodeJSON refuses.
unfoldable pub write_decode_error : DecodeError → Reply
write_decode_error unsupported_media_type =
    write_error 415 "unsupported_media_type" (of_decoding unsupported_media_type)
write_decode_error e = write_error 400 "invalid_request" (of_decoding e)

abbrev pub internal_error : Reply
internal_error = write_error 500 "internal_error" (fixed (codes "internal server error"))

unfoldable pub write_endpoint_error : EndpointError → Reply
write_endpoint_error (invalid_endpoint e) = write_error 400 "invalid_request" (of_endpoint e)
write_endpoint_error (store_failed endpoint_not_found) =
    write_error 404 "not_found" (fixed (codes "endpoint not found"))
write_endpoint_error _ = internal_error

unfoldable pub write_event_error : PublishError → Reply
write_event_error (enqueue_failed endpoint_not_found) =
    write_error 404 "not_found" (fixed (codes "endpoint not found"))
write_event_error (enqueue_failed event_endpoint_disabled) =
    write_error 409 "endpoint_disabled" (fixed (codes "endpoint is disabled"))
write_event_error (enqueue_failed idempotency_conflict) =
    write_error 409 "idempotency_conflict"
      (fixed (codes "idempotency key was already used with a different event"))
write_event_error (enqueue_failed _) = internal_error
write_event_error e = write_error 400 "invalid_request" (of_event e)

unfoldable pub write_delivery_error : ManagementError → Reply
write_delivery_error malformed_delivery_id =
    write_error 400 "invalid_request" (of_delivery malformed_delivery_id)
write_delivery_error (repository_failed delivery_not_found) =
    write_error 404 "not_found" (fixed (codes "delivery not found"))
write_delivery_error (repository_failed not_replayable) =
    write_error 409 "not_replayable" (fixed (codes "only dead deliveries can be replayed"))
write_delivery_error (repository_failed delivery_endpoint_disabled) =
    write_error 409 "endpoint_disabled" (fixed (codes "delivery endpoint is disabled"))
write_delivery_error (repository_failed _) = internal_error

-- What the handlers use of the standard library: mime.ParseMediaType, and json.Decoder, which gives the
-- value that it read and what follows it, or an error, once the body has been cut at a limit.
pub record Decoding (A : Type 0) : Type 0 where
  pub media_type : Text → Option Text
  pub first_value : ℕ → Text → Result Text (A × Text)
  pub at_end : Text → Bool

unfoldable pub decode_json : {A : Type 0} → Decoding A → Request → ℕ → Result DecodeError A
decode_json decoding r maximum_bytes = do
  guard
      (test_option false (text_eq (codes "application/json")) (decoding.media_type r.content_type))
      unsupported_media_type
  value ← (elim (decoding.first_value maximum_bytes r.body) [
    | ok v ↦ ok v
    | err e ↦ err (invalid_json e)
  ])
  guard (decoding.at_end value.1) not_one_object
  ok value.0
