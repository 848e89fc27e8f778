-- ===== src/Store/Endpoints.antt =====
-- internal/store/endpoints.go: creating, listing, reading and disabling an endpoint.
pub mod Disabling
use relayforge.Prelude.Text.{text_lt, text_eq, Text}
use relayforge.Prelude.{
  take, ltb, ◌>>◌, ◌>>=◌, ok, ◌==◌, map, ◌++◌, ◌∷◌, [], List, some, none, ◌||◌, ◌&&◌, Bool, ◌+◌, ℕ,
  find?, or_fail, guard, Result, ◌/◌,
}
use relayforge.Store.Tables.{
  update_endpoints, endpoint_not_found, scan_endpoint, constraint_violated, check_endpoint,
  StoreError, Database, EndpointRow,
}
use relayforge.Prelude.Sorting.{sort_with}
use relayforge.Delivery.Model.{Endpoint}

-- The row that CreateEndpoint inserts, with the table's defaults.
unfoldable pub new_endpoint : ℕ → Endpoint → EndpointRow
new_endpoint now value = record {
  id = value.id;
  name = value.name;
  url = value.url;
  secret_ciphertext = value.secret_ciphertext;
  timeout_ms = value.timeout / 1000000;
  max_attempts = value.max_attempts;
  consecutive_failures = 0;
  circuit_open_until = none;
  disabled_at = none;
  created_at = now;
  updated_at = now;
}

unfoldable pub create_endpoint : ℕ → Endpoint → Database → Result StoreError (Database × Endpoint)
unfolding new_endpoint
create_endpoint now value db = do
  let row = new_endpoint now value
  guard (check_endpoint row) constraint_violated
  ok (record db { endpoints = db.endpoints ++ row ∷ [] }, scan_endpoint row)

unfoldable pub get_endpoint : Text → Database → Result StoreError Endpoint
get_endpoint id db = do
  e ← or_fail (find? (λ e. text_eq e.id id) db.endpoints) endpoint_not_found
  ok (scan_endpoint e)

-- The ORDER BY of ListEndpoints: created_at DESC, id DESC.
unfoldable pub newer : EndpointRow → EndpointRow → Bool
newer e f = ltb f.created_at e.created_at || (f.created_at == e.created_at && text_lt f.id e.id)

unfoldable pub list_endpoints : ℕ → Database → List Endpoint
unfolding newer
list_endpoints limit db = map scan_endpoint (take limit (sort_with newer db.endpoints))

-- The SET of DisableEndpoint.
unfoldable pub disabled : ℕ → EndpointRow → EndpointRow
disabled now e = elim e.disabled_at [
  | none ↦ record e { disabled_at = some now; updated_at = now }
  | some at ↦ e
]

unfoldable pub disable_endpoint : ℕ → Text → Database → Result StoreError (Database × Endpoint)
unfolding disabled
disable_endpoint now id db = do
  e ← or_fail (find? (λ e. text_eq e.id id) db.endpoints) endpoint_not_found
  updated ← update_endpoints (λ x. text_eq x.id id) (disabled now) db
  ok (updated, scan_endpoint (disabled now e))
