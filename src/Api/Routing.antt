-- ===== src/Api/Routing.antt =====
-- internal/api/server.go: the routes, the check of the token, and the public answers. http.ServeMux is
-- a parameter: it picks a pattern of those registered, with the value of its wildcard, or answers
-- itself.
use relayforge.Api.Handlers
use relayforge.Prelude.{
  if◌then◌else◌, ◌==◌, ◌∷◌, [], List, some, none, Option, ◌&&◌, not, false, Bool, inr, inl, ◌⊎◌,
}
use relayforge.Api.Replies.{
  metrics_body, version_body, not_ready_body, ready_body, live_body, fixed, Request, Reply,
  write_error, write_json,
}
use relayforge.Prelude.Text.{Text, codes, text_eq}
use relayforge.Store.Tables.{Database}
use relayforge.Api.Handlers.{Server, Moment}

pub data PublicRoute : Type 0 where
  live ready version metrics private_routes : PublicRoute

pub data PrivateRoute : Type 0 where
  create_endpoint list_endpoints get_endpoint disable_endpoint : PrivateRoute
  publish_event get_delivery replay_delivery : PrivateRoute

unfoldable pub public_routes : Bool → List (Text × PublicRoute)
public_routes has_metrics =
    (codes "GET /health/live", PublicRoute.live)
    ∷ (codes "GET /health/ready", PublicRoute.ready)
    ∷ (codes "GET /version", PublicRoute.version)
    ∷ (if has_metrics
        then (codes "GET /metrics", PublicRoute.metrics)
          ∷ (codes "/v1/", PublicRoute.private_routes)
          ∷ []
        else (codes "/v1/", PublicRoute.private_routes) ∷ [])

unfoldable pub private_patterns : List (Text × PrivateRoute)
private_patterns =
    (codes "POST /v1/endpoints", PrivateRoute.create_endpoint)
    ∷ (codes "GET /v1/endpoints", PrivateRoute.list_endpoints)
    ∷ (codes "GET /v1/endpoints/{endpoint_id}", PrivateRoute.get_endpoint)
    ∷ (codes "DELETE /v1/endpoints/{endpoint_id}", PrivateRoute.disable_endpoint)
    ∷ (codes "POST /v1/events", PrivateRoute.publish_event)
    ∷ (codes "GET /v1/deliveries/{delivery_id}", PrivateRoute.get_delivery)
    ∷ (codes "POST /v1/deliveries/{delivery_id}/replay", PrivateRoute.replay_delivery)
    ∷ []

-- The two multiplexers; on the left, the reply of one itself.
pub record Mux : Type 0 where
  pub match_public : List (Text × PublicRoute) → Request → Reply ⊎ PublicRoute
  pub match_private : List (Text × PrivateRoute) → Request → Reply ⊎ (PrivateRoute × Text)

-- strings.Cut at the first space.
unfoldable pub cut : Text → Option (Text × Text)
cut [] = none
cut (b ∷ s) =
    let rest = cut s in
    if b == 32 then some ([], s) else elim rest [ none ↦ none | some (h, t) ↦ some (b ∷ h, t) ]

-- The test of authenticate; subtle.ConstantTimeCompare compares texts.
unfoldable pub authorized : Text → Request → Bool
unfolding cut
authorized api_key r = elim (cut r.authorization) [
  | none ↦ false
  | some (scheme, token) ↦ text_eq scheme (codes "Bearer") && text_eq token api_key
]

abbrev pub unauthorized : Reply
unauthorized =
    record (write_error 401 "unauthorized" (fixed (codes "valid bearer token is required"))) {
      header = some (codes "WWW-Authenticate", codes "Bearer");
    }

module _ (server : Server) where
  -- The handler that a private pattern is registered with; `value` is the path value.
  unfoldable pub dispatch : PrivateRoute → Moment → Request → Text → Database → Database × Reply
  dispatch PrivateRoute.create_endpoint m r value db = Handlers.create_endpoint server m r db
  dispatch PrivateRoute.list_endpoints m r value db = Handlers.list_endpoints server r db
  dispatch PrivateRoute.get_endpoint m r value db = Handlers.get_endpoint server value db
  dispatch PrivateRoute.disable_endpoint m r value db = Handlers.disable_endpoint server m value db
  dispatch PrivateRoute.publish_event m r value db = Handlers.publish_event server m r db
  dispatch PrivateRoute.get_delivery m r value db = Handlers.get_delivery server value db
  dispatch PrivateRoute.replay_delivery m r value db = Handlers.replay_delivery server m value db

  -- What the private multiplexer does with a request that it has matched.
  unfoldable pub serve_private :
      Moment → Request → Database → Reply ⊎ (PrivateRoute × Text) → Database × Reply
  unfolding dispatch
  serve_private m r db (inl reply) = (db, reply)
  serve_private m r db (inr (route, value)) = dispatch route m r value db

  -- authenticate around the private multiplexer.
  unfoldable pub authenticate : Mux → Moment → Request → Database → Database × Reply
  unfolding serve_private authorized
  authenticate mux m r db =
      if not (authorized server.api_key r)
      then (db, unauthorized)
      else serve_private m r db (mux.match_private private_patterns r)

  -- What the outer multiplexer does with a request that it has matched; `is_ready` is the answer of
  -- the readiness check.
  unfoldable pub serve_public :
      Mux → Bool → Moment → Request → Database → Reply ⊎ PublicRoute → Database × Reply
  unfolding authenticate
  serve_public mux is_ready m r db (inl reply) = (db, reply)
  serve_public mux is_ready m r db (inr PublicRoute.live) = (db, write_json 200 live_body)
  serve_public mux is_ready m r db (inr PublicRoute.ready) =
      (db, if is_ready then write_json 200 ready_body else write_json 503 not_ready_body)
  serve_public mux is_ready m r db (inr PublicRoute.version) = (db, write_json 200 version_body)
  serve_public mux is_ready m r db (inr PublicRoute.metrics) = (db, write_json 200 metrics_body)
  serve_public mux is_ready m r db (inr PublicRoute.private_routes) = authenticate mux m r db

  -- Handler, less the access log.
  unfoldable pub handle : Mux → Bool → Bool → Moment → Request → Database → Database × Reply
  unfolding serve_public
  handle mux has_metrics is_ready m r db =
      serve_public mux is_ready m r db (mux.match_public (public_routes has_metrics) r)
