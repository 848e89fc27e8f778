-- ===== src/Api/Effects.antt =====
-- What the handlers of internal/api do to the tables.
use relayforge.Endpoint
use relayforge.Management
use relayforge.Api.Handlers
use relayforge.Prelude.{
  ◌||◌, false, inr, inl, ◌⊎◌, refl, ◌≡◌, ℕ, Option-cases, Bool-cases, Result-cases, All,
}
use relayforge.Api.Routing.{serve_private, PrivateRoute, dispatch}
use relayforge.Eventing.{params_of, PublishInput, publish}
use relayforge.Api.Commits.{
  params_of-delivery_id, publish_commits, create_commits, replay_commits, disable_commits,
}
use relayforge.Prelude.Text.{is_empty, Text, text_eq}
use relayforge.Prelude.Int.{from_ms, ℤ, pos, ltz}
use relayforge.Store.Tables.{Database}
use relayforge.Store.History.{Step}
use relayforge.Api.Replies.{Request, Reply, decode_json}
use relayforge.Api.Handlers.{
  Server, Moment, CreateEndpointRequest, maximum_endpoint_body, maximum_event_body,
}

-- A status that says that the request has been carried out.
abbrev pub IsDone : ℕ → Type 0
IsDone status = (status ≡ 201) ⊎ (status ≡ 202) ⊎ (status ≡ 204)

-- A request leaves the tables as they are, or commits one transaction and says that it was done.
abbrev pub IsEffect : Server → Database → Database × Reply → Type 0
IsEffect server db result =
    (result.0 ≡ db) ⊎ (Step server.jsonb db result.0 × IsDone result.1.status)

module _ (server : Server) (m : Moment) (db : Database)
    (fresh : All (λ d. text_eq d.id m.other_id ≡ false) db.deliveries) where
  create_decoded-IsEffect :
      (request : CreateEndpointRequest)
      → IsEffect server db (Handlers.create_decoded server m request db)
  unfolding Handlers.create_decoded
  create_decoded-IsEffect request =
      let input : Endpoint.CreateInput = record {
        name = request.name;
        url = request.url;
        timeout = from_ms request.timeout_ms;
        max_attempts = request.max_attempts;
      } in
      elim (Result-cases (
        Endpoint.create server.net server.encode server.encrypt m.random m.now m.id input
          server.options db)) [
            | inr (x, e) ↦ inl (rw (e, Handlers.create_decoded) refl)
            | inl ((db', created), e) ↦
                let (value, stored, committed) =
                  create_commits server.net server.encode server.encrypt m.random m.now m.id input
                    server.options db db' created e in
                inr (
                  rw (e, Handlers.create_decoded)
                    (Step.create m.now value db' stored committed, inl refl))
          ]

  create_endpoint-IsEffect :
      (r : Request) → IsEffect server db (Handlers.create_endpoint server m r db)
  unfolding Handlers.create_endpoint
  create_endpoint-IsEffect r =
      elim (Result-cases (decode_json server.endpoint_decoding r maximum_endpoint_body)) [
        | inr (x, e) ↦ inl (rw (e, Handlers.create_endpoint) refl)
        | inl (q, e) ↦
            elim (Bool-cases (ltz q.timeout_ms (pos 0) || ltz (pos 30000) q.timeout_ms)) [
              | inl bad ↦ inl (rw (e, bad, Handlers.create_endpoint) refl)
              | inr good ↦
                  elim (Bool-cases (ltz q.max_attempts (pos 0) || ltz (pos 100) q.max_attempts)) [
                    | inl bad ↦ inl (rw (e, good, bad, Handlers.create_endpoint) refl)
                    | inr fine ↦
                        rw (e, good, fine, Handlers.create_endpoint) (create_decoded-IsEffect q)
                  ]
            ]
      ]

  list_with_reads : (limit : ℤ) → (Handlers.list_with server limit db).0 ≡ db
  unfolding Handlers.list_with
  list_with_reads limit = elim (Result-cases (Endpoint.list server.net limit db)) [
    | inr (x, e) ↦ rw (e, Handlers.list_with) refl
    | inl (items, e) ↦ rw (e, Handlers.list_with) refl
  ]

  list_endpoints_reads : (r : Request) → (Handlers.list_endpoints server r db).0 ≡ db
  unfolding Handlers.list_endpoints
  list_endpoints_reads r = elim (Bool-cases (is_empty r.limit)) [
    | inl none_given ↦ rw (none_given, Handlers.list_endpoints) (list_with_reads (pos 50))
    | inr given ↦ elim (Option-cases (server.atoi r.limit)) [
      | inl e ↦ rw (given, e, Handlers.list_endpoints) refl
      | inr (n, e) ↦ rw (given, e, Handlers.list_endpoints) (list_with_reads n)
    ]
  ]

  get_endpoint_reads : (id : Text) → (Handlers.get_endpoint server id db).0 ≡ db
  unfolding Handlers.get_endpoint
  get_endpoint_reads id = elim (Result-cases (Endpoint.get server.net id db)) [
    | inr (x, e) ↦ rw (e, Handlers.get_endpoint) refl
    | inl (item, e) ↦ rw (e, Handlers.get_endpoint) refl
  ]

  get_delivery_reads : (id : Text) → (Handlers.get_delivery server id db).0 ≡ db
  unfolding Handlers.get_delivery
  get_delivery_reads id = elim (Result-cases (Management.get server.net.is_uuid id db)) [
    | inr (x, e) ↦ rw (e, Handlers.get_delivery) refl
    | inl (item, e) ↦ rw (e, Handlers.get_delivery) refl
  ]

  disable_endpoint-IsEffect :
      (id : Text) → IsEffect server db (Handlers.disable_endpoint server m id db)
  unfolding Handlers.disable_endpoint
  disable_endpoint-IsEffect id = elim (Result-cases (Endpoint.disable server.net m.now id db)) [
    | inr (x, e) ↦ inl (rw (e, Handlers.disable_endpoint) refl)
    | inl ((db', shown), e) ↦ inr (
        rw (e, Handlers.disable_endpoint)
          (
            Step.disable m.now id db' shown (disable_commits server.net m.now id db db' shown e),
            inr (inr refl),
          ))
  ]

  replay_delivery-IsEffect :
      (id : Text) → IsEffect server db (Handlers.replay_delivery server m id db)
  unfolding Handlers.replay_delivery
  replay_delivery-IsEffect id =
      elim (Result-cases (Management.replay server.net.is_uuid m.now id db)) [
        | inr (x, e) ↦ inl (rw (e, Handlers.replay_delivery) refl)
        | inl ((db', d), e) ↦ inr (
            rw (e, Handlers.replay_delivery)
              (
                Step.replay m.now id db' d (replay_commits server.net.is_uuid m.now id db db' d e),
                inr (inl refl),
              ))
      ]

  publish_event-IsEffect : (r : Request) → IsEffect server db (Handlers.publish_event server m r db)
  unfolding Handlers.publish_event
  publish_event-IsEffect r =
      elim (Result-cases (decode_json server.event_decoding r maximum_event_body)) [
        | inr (x, e) ↦ inl (rw (e, Handlers.publish_event) refl)
        | inl (q, e) ↦
            let input : PublishInput = record {
              endpoint_id = q.endpoint_id;
              event_type = q.event_type;
              payload = q.payload;
              idempotency_key = r.idempotency_key;
            } in
            elim (Result-cases (
              publish server.net.is_uuid server.is_json server.jsonb m.now m.id m.other_id input
                db)) [
                  | inr (x, f) ↦ inl (rw (e, f, Handlers.publish_event) refl)
                  | inl ((db', done), f) ↦
                      let committed =
                        publish_commits server.net.is_uuid server.is_json server.jsonb m.now m.id
                          m.other_id input db db' done f in
                      let id = params_of-delivery_id input m.id m.other_id in
                      inr (
                        rw (e, f, Handlers.publish_event)
                          (
                            Step.enqueue m.now (params_of input m.id m.other_id) db' done
                                (rw id fresh) committed,
                            inr (inl refl),
                          ))
                ]
      ]

  dispatch-IsEffect :
      (route : PrivateRoute) (r : Request) (value : Text)
      → IsEffect server db (dispatch server route m r value db)
  unfolding dispatch
  dispatch-IsEffect PrivateRoute.create_endpoint r value = create_endpoint-IsEffect r
  dispatch-IsEffect PrivateRoute.list_endpoints r value = inl (list_endpoints_reads r)
  dispatch-IsEffect PrivateRoute.get_endpoint r value = inl (get_endpoint_reads value)
  dispatch-IsEffect PrivateRoute.disable_endpoint r value = disable_endpoint-IsEffect value
  dispatch-IsEffect PrivateRoute.publish_event r value = publish_event-IsEffect r
  dispatch-IsEffect PrivateRoute.get_delivery r value = inl (get_delivery_reads value)
  dispatch-IsEffect PrivateRoute.replay_delivery r value = replay_delivery-IsEffect value

  pub serve_private-IsEffect :
      (r : Request) (matched : Reply ⊎ (PrivateRoute × Text))
      → IsEffect server db (serve_private server m r db matched)
  unfolding serve_private
  serve_private-IsEffect r (inl reply) = inl refl
  serve_private-IsEffect r (inr (route, value)) = dispatch-IsEffect route r value
