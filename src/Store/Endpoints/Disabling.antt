-- ===== src/Store/Endpoints/Disabling.antt =====
-- What a disabled endpoint receives.
use relayforge.Prelude.{
  Option-cases, Bool-cases, arith, ◌∷◌, [], List, ◌&&◌, false, inr, inl, refl, ◌≡◌, ℕ, ok, update,
  any_of,
}
use relayforge.Prelude.Text.{Text, text_eq}
use relayforge.Delivery.Model.{Endpoint}
use relayforge.Store.Tables.{Database, EndpointRow, DeliveryRow, update_endpoints}
use relayforge.Store.Queue.{endpoint_open, is_claimable}
use relayforge.Store.Endpoints.{disable_endpoint, disabled}

disabled-endpoint_open :
    (now later : ℕ) (e : EndpointRow)
    → (endpoint_open later (disabled now e) ≡ false) × ((disabled now e).id ≡ e.id)
unfolding endpoint_open disabled
disabled-endpoint_open now later e = elim (Option-cases e.disabled_at) [
  | inl on ↦ rw on (refl, refl)
  | inr (at, off) ↦ rw off (refl, refl)
]

none_open :
    (now later : ℕ) (id : Text) (es : List EndpointRow)
    → any_of
        (λ e. text_eq e.id id && endpoint_open later e)
        (update (λ e. text_eq e.id id) (disabled now) es)
      ≡ false
none_open now later id [] = refl
none_open now later id (e ∷ es) = elim (Bool-cases (text_eq e.id id)) [
  | inl hit ↦ rw hit (ground (arith, disabled-endpoint_open now later e, none_open now later id es))
  | inr miss ↦ rw miss (rw miss (none_open now later id es))
]

disable_parts :
    (now : ℕ) (id : Text) (db db' : Database) (e : Endpoint)
    → disable_endpoint now id db ≡ ok (db', e)
    → db'.endpoints ≡ update (λ x. text_eq x.id id) (disabled now) db.endpoints
unfolding disable_endpoint update_endpoints
disable_parts now id db db' e h = ground arith

-- Once an endpoint has been disabled, no delivery to it may be claimed, at any time and with any table
-- of deliveries.
pub disable_endpoint-is_claimable :
    (now later : ℕ) (id : Text) (db db' : Database) (e : Endpoint) (d : DeliveryRow)
    → disable_endpoint now id db ≡ ok (db', e)
    → d.endpoint_id ≡ id
    → is_claimable later db'.endpoints d ≡ false
unfolding is_claimable
disable_endpoint-is_claimable now later id db db' e d h same =
    let shut : any_of (λ x. text_eq x.id d.endpoint_id && endpoint_open later x) db'.endpoints
        ≡ false =
      rw (same, disable_parts now id db db' e h) (none_open now later id db.endpoints) in
    rw shut (ground arith)
