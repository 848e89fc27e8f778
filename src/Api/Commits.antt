-- ===== src/Api/Commits.antt =====
-- The services that change the tables do so by one transaction of the store.
use relayforge.Store.Events.{Jsonb}
use relayforge.Store.Deliveries
use relayforge.Store.Endpoints
use relayforge.Endpoint
use relayforge.Management
use relayforge.Prelude.{
  Result-cases, Result, ok, arith, none, Bool, inr, inl, ◌∙◌, ap, refl, ◌≡◌, ℕ,
}
use relayforge.Webhook.Dispatcher.{secret_context}
use relayforge.Eventing.{params_of, PublishInput, publish}
use relayforge.Prelude.Text.{Text}
use relayforge.Delivery.Model.{Delivery, Endpoint}
use relayforge.Store.Tables.{Database}
use relayforge.Store.Events.{Enqueued, enqueue_event}
use relayforge.Endpoint.{CreateInput, Created, Options, Net}

module _ (net : Net) (encode : Text → Text) (encrypt : Text → Text → Result Text Text) where
  pub create_commits :
      (random : Result Text Text) (now : ℕ) (id : Text) (input : CreateInput) (options : Options)
      (db db' : Database) (created : Created)
      → Endpoint.create net encode encrypt random now id input options db ≡ ok (db', created)
      → (value : Endpoint) × (e : Endpoint) × (Endpoints.create_endpoint now value db ≡ ok (db', e))
  unfolding Endpoint.create
  create_commits random now id input options db db' created h =
      elim (Result-cases (Endpoint.checked_input net input options)) [
        | inr (x, e) ↦ absurd (ground (arith, e))
        | inl (fields, e) ↦ elim (Result-cases random) [
          | inr (x, f) ↦ absurd (ground (arith, e, f))
          | inl (bytes, f) ↦ elim (Result-cases (encrypt (encode bytes) (secret_context id))) [
            | inr (x, g) ↦ absurd (ground (arith, e, f, g))
            | inl (ciphertext, g) ↦
                let value : Endpoint = record {
                  id = id;
                  name = fields.0;
                  url = fields.1;
                  secret_ciphertext = ciphertext;
                  timeout = fields.2;
                  max_attempts = fields.3;
                  consecutive_failures = 0;
                  disabled_at = none;
                  circuit_open_until = none;
                  created_at = 0;
                  updated_at = 0;
                } in
                elim (Result-cases (Endpoints.create_endpoint now value db)) [
                  | inr (x, k) ↦ absurd (ground (arith, e, f, g, k))
                  | inl ((after, stored), k) ↦
                      let same : after ≡ db' = ground (arith, e, f, g, k) in
                      (value, stored, rw (← same) k)
                ]
          ]
        ]
      ]

pub disable_commits :
    (net : Net) (now : ℕ) (id : Text) (db db' : Database) (e : Endpoint)
    → Endpoint.disable net now id db ≡ ok (db', e)
    → Endpoints.disable_endpoint now id db ≡ ok (db', e)
unfolding Endpoint.disable
disable_commits net now id db db' e h = elim (Result-cases (Endpoints.disable_endpoint now id db)) [
  | inr (x, k) ↦ absurd (ground (arith, k))
  | inl (done, k) ↦ k ∙ ap ok (ground (arith, k))
]

pub replay_commits :
    (is_uuid : Text → Bool) (now : ℕ) (id : Text) (db db' : Database) (d : Delivery)
    → Management.replay is_uuid now id db ≡ ok (db', d)
    → Deliveries.replay_delivery now id db ≡ ok (db', d)
unfolding Management.replay
replay_commits is_uuid now id db db' d h =
    elim (Result-cases (Deliveries.replay_delivery now id db)) [
      | inr (x, k) ↦ absurd (ground (arith, k))
      | inl (done, k) ↦ k ∙ ap ok (ground (arith, k))
    ]

pub publish_commits :
    (is_uuid is_json : Text → Bool) (jsonb : Jsonb) (now : ℕ) (id other : Text)
    (input : PublishInput) (db db' : Database) (e : Enqueued)
    → publish is_uuid is_json jsonb now id other input db ≡ ok (db', e)
    → enqueue_event jsonb now (params_of input id other) db ≡ ok (db', e)
unfolding publish
publish_commits is_uuid is_json jsonb now id other input db db' e h =
    elim (Result-cases (enqueue_event jsonb now (params_of input id other) db)) [
      | inr (x, k) ↦ absurd (ground (arith, k))
      | inl (done, k) ↦ k ∙ ap ok (ground (arith, k))
    ]

pub params_of-delivery_id :
    (input : PublishInput) (id other : Text) → (params_of input id other).delivery_id ≡ other
unfolding params_of
params_of-delivery_id input id other = refl
