-- ===== src/Examples/Http.antt =====
-- The HTTP interface on small inputs.
use relayforge.Prelude.{◌≤◌}
use relayforge.Examples.Tables.{plain}
use relayforge.Examples.Services.{net, strict}
use relayforge.Endpoint
use relayforge.Api.Handlers
use relayforge.Prelude.{
  length, ◌↔◌, Memᴰ, ◌⊎◌, ◌≢◌, ◌<◌, All, find?, err, ok, ◌++◌, [], some, none, false, true, inr,
  refl, ◌≡◌,
}
use relayforge.Examples.Worker.{config}
use relayforge.Server.Operation.{Act, Runs, Runs-IsWhole}
use relayforge.Examples.Policies.{whole}
use relayforge.Store.Evolution.{Evolves}
use relayforge.Store.Tables.{check_endpoint, scan_delivery, Database}
use relayforge.Store.History.{no_rows, IsWhole}
use relayforge.Api.Handlers.{CreateEndpointRequest, Server, Moment}
use relayforge.Api.Replies.{decode_json, fixed, write_error, Decoding, Request}
use relayforge.Api.Token.{authorized_iff}
use relayforge.Api.Routing.{authorized, PrivateRoute, handle, PublicRoute, Mux}
use relayforge.Examples.Data.{tables-IsSoundDb, tables, given_up, owner}
use relayforge.Api.Statuses.{replay_delivery_replies, accepted}
use relayforge.Store.Deliveries.{replayed}
use relayforge.Prelude.Int.{int32_max, pos}
use relayforge.Delivery.Model.{Status}
use relayforge.Delivery.Policy.{validate_max_attempts}
use relayforge.Prelude.Utf8.{rune_count, storable}
use relayforge.Api.Safety.{handle-IsPermitted, IsPermitted}
use relayforge.Prelude.Text.{trim_last, has_suffix, codes, text_eq, trim_space}
use relayforge.Endpoint.{checked_input, normalize_target, Net, Url, Options, CreateInput, Created}

abbrev nothing : {A : Type 0} → Decoding A
nothing = record { media_type = λ s. none; first_value = λ n s. err []; at_end = λ s. true }

abbrev server : Server
server = record {
  api_key = codes "k";
  net = net;
  options = strict;
  encode = λ s. s;
  encrypt = λ secret context. ok secret;
  is_json = λ s. true;
  jsonb = plain;
  atoi = λ s. none;
  endpoint_decoding = nothing;
  event_decoding = nothing;
}

abbrev mux : Mux
mux = record {
  match_public = λ routes r. inr PublicRoute.private_routes;
  match_private = λ routes r. inr (PrivateRoute.replay_delivery, codes "d3");
}

abbrev replay_request : Request
replay_request = record {
  method = codes "POST";
  path = codes "/v1/deliveries/d3/replay";
  authorization = codes "Bearer k";
  content_type = [];
  idempotency_key = [];
  limit = [];
  body = [];
}

abbrev moment : Moment
moment = record { now = 900; id = codes "x1"; other_id = codes "x2"; random = ok [] }

fresh_delivery : All (λ d. text_eq d.id (codes "x2") ≡ false) tables.deliveries
unfolding text_eq
fresh_delivery = (refl, (refl, (refl, tt)))

handle-IsPermitted_example :
    IsPermitted server tables replay_request
      (handle server mux true true moment replay_request tables)
handle-IsPermitted_example =
    handle-IsPermitted server moment tables fresh_delivery mux true true replay_request

found_dead : find? (λ d. text_eq d.id (codes "d3")) tables.deliveries ≡ some given_up
unfolding text_eq
found_dead = refl

found_owner : find? (λ e. text_eq e.id (codes "ep")) tables.endpoints ≡ some owner
unfolding text_eq
found_owner = refl

replay_delivery_replies_example :
    let result = Handlers.replay_delivery server moment (codes "d3") tables in
    ((true ≡ false) × (result.0 ≡ tables) × (result.1.status ≡ 400))
    ⊎ ((true ≡ true)
        × (owner.disabled_at ≢ none)
        × (result ≡ (
          tables,
          write_error 409 "endpoint_disabled" (fixed (codes "delivery endpoint is disabled")),
        )))
    ⊎ ((true ≡ true)
        × (owner.disabled_at ≡ none)
        × ((given_up.status ≢ Status.dead) ⊎ (int32_max < 6))
        × (result ≡ (
          tables,
          write_error 409 "not_replayable" (fixed (codes "only dead deliveries can be replayed")),
        )))
    ⊎ ((true ≡ true)
        × (owner.disabled_at ≡ none)
        × (given_up.status ≡ Status.dead)
        × (6 ≤ int32_max)
        × (result.1 ≡ accepted (scan_delivery (replayed 900 6 given_up)))
        × Memᴰ (replayed 900 6 given_up) result.0.deliveries)
replay_delivery_replies_example =
    replay_delivery_replies server moment (codes "d3") tables given_up owner tables-IsSoundDb
      found_dead found_owner

authorized_iff_example :
    (authorized (codes "k") replay_request ≡ true)
    ↔ (codes "Bearer k" ≡ codes "Bearer " ++ codes "k")
authorized_iff_example = authorized_iff (codes "k") replay_request

-- A server that decodes every body to one endpoint, and takes every request for its creation.
abbrev shop_request : CreateEndpointRequest
shop_request = record {
  name = codes "shop";
  url = codes "x";
  timeout_ms = pos 5000;
  max_attempts = pos 3;
}

abbrev creating : Server
creating = record server {
  endpoint_decoding = record {
    media_type = λ s. some (codes "application/json");
    first_value = λ n s. ok (shop_request, []);
    at_end = λ s. true;
  };
}

abbrev create_mux : Mux
create_mux = record {
  match_public = λ routes r. inr PublicRoute.private_routes;
  match_private = λ routes r. inr (PrivateRoute.create_endpoint, []);
}

abbrev created_tables : Database
created_tables = (handle creating create_mux true true moment replay_request no_rows).0

created_one : length created_tables.endpoints ≡ 1
unfolding handle decode_json text_eq trim_space has_suffix trim_last rune_count
    validate_max_attempts Endpoint.create check_endpoint storable Handlers.create_endpoint
    relayforge.Store.Endpoints.create_endpoint
created_one = refl

Runs-IsWhole_example :
    IsWhole created_tables
    × IsWhole created_tables
    × Evolves created_tables.deliveries created_tables.deliveries
Runs-IsWhole_example =
    Runs-IsWhole whole config creating create_mux true created_tables created_tables
      (Runs.act Runs.rest (Act.request moment true replay_request tt)) Runs.rest
