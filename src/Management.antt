-- ===== src/Management.antt =====
-- internal/delivery/management.go: the service that shows and replays deliveries. uuid.Parse is a
-- parameter, as a test.
use relayforge.Prelude.{guard, Result, ◌>>◌, err, ok, Bool, ℕ}
use relayforge.Prelude.Text.{Text}
use relayforge.Delivery.Model.{Delivery}
use relayforge.Store.Tables.{Database, StoreError}
use relayforge.Store.Deliveries.{Details, get_delivery, replay_delivery}

-- `malformed_delivery_id` wraps ErrInvalid.
pub data ManagementError : Type 0 where
  malformed_delivery_id : ManagementError
  repository_failed : StoreError → ManagementError

abbrev pub from_repository {ℓ} : {A : Type ℓ} → Result StoreError A → Result ManagementError A
from_repository (ok a) = ok a
from_repository (err e) = err (repository_failed e)

module _ (is_uuid : Text → Bool) where
  unfoldable pub get : Text → Database → Result ManagementError Details
  get id db = do guard (is_uuid id) malformed_delivery_id; from_repository (get_delivery id db)

  unfoldable pub replay : ℕ → Text → Database → Result ManagementError (Database × Delivery)
  replay now id db = do
    guard (is_uuid id) malformed_delivery_id
    from_repository (replay_delivery now id db)
