-- ===== src/Api/Safety.antt =====
-- What requests may do to the tables.
use relayforge.Api.Effects.{IsDone, IsEffect, serve_private-IsEffect}
use relayforge.Prelude.{
  if◌then◌else◌, not, false, true, Bool, inr, inl, ◌⊎◌, subst, sym, refl, ◌≡◌, Bool-cases, All,
}
use relayforge.Api.Routing.{
  unauthorized, private_patterns, serve_public, public_routes, serve_private, authorized, Mux,
  PublicRoute, authenticate, handle,
}
use relayforge.Prelude.Text.{text_eq}
use relayforge.Store.Tables.{Database}
use relayforge.Store.History.{Step}
use relayforge.Api.Replies.{Request, Reply}
use relayforge.Api.Handlers.{Server, Moment}

-- What a request may do: nothing, or what an authorized one does.
abbrev pub IsPermitted : Server → Database → Request → Database × Reply → Type 0
IsPermitted server db r result =
    (result.0 ≡ db)
    ⊎ (Step server.jsonb db result.0
        × IsDone result.1.status
        × (authorized server.api_key r ≡ true))

module _ (server : Server) (m : Moment) (db : Database)
    (fresh : All (λ d. text_eq d.id m.other_id ≡ false) db.deliveries) where
  permitted :
      (r : Request) (result : Database × Reply)
      → authorized server.api_key r ≡ true
      → IsEffect server db result
      → IsPermitted server db r result
  permitted r result known (inl same) = inl same
  permitted r result known (inr (committed, done)) = inr (committed, done, known)

  authenticate-IsPermitted :
      (mux : Mux) (r : Request) → IsPermitted server db r (authenticate server mux m r db)
  unfolding authenticate
  authenticate-IsPermitted mux r = elim (Bool-cases (authorized server.api_key r)) [
    | inr stranger ↦ inl (rw (stranger, authenticate) refl)
    | inl known ↦
        let matched = mux.match_private private_patterns r in
        let effect =
          permitted r (serve_private server m r db matched) known
            (serve_private-IsEffect server m db fresh r matched) in
        subst
          (λ b.
            IsPermitted server db r
              (if not b then (db, unauthorized) else serve_private server m r db matched))
          (sym known) effect
  ]

  serve_public-IsPermitted :
      (mux : Mux) (is_ready : Bool) (r : Request) (matched : Reply ⊎ PublicRoute)
      → IsPermitted server db r (serve_public server mux is_ready m r db matched)
  unfolding serve_public
  serve_public-IsPermitted mux is_ready r (inl reply) = inl refl
  serve_public-IsPermitted mux is_ready r (inr PublicRoute.live) = inl refl
  serve_public-IsPermitted mux is_ready r (inr PublicRoute.ready) = inl refl
  serve_public-IsPermitted mux is_ready r (inr PublicRoute.version) = inl refl
  serve_public-IsPermitted mux is_ready r (inr PublicRoute.metrics) = inl refl
  serve_public-IsPermitted mux is_ready r (inr PublicRoute.private_routes) =
      authenticate-IsPermitted mux r

  -- A request, whatever it asks for, either leaves the tables as they were, or commits one transaction
  -- of the store, was authorized, and is answered with 201, 202 or 204; provided that the identifier
  -- for a new delivery is a fresh one.
  pub handle-IsPermitted :
      (mux : Mux) (has_metrics is_ready : Bool) (r : Request)
      → IsPermitted server db r (handle server mux has_metrics is_ready m r db)
  unfolding handle
  handle-IsPermitted mux has_metrics is_ready r =
      serve_public-IsPermitted mux is_ready r (mux.match_public (public_routes has_metrics) r)
