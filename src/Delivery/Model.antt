-- ===== src/Delivery/Model.antt =====
-- internal/delivery/model.go. A time is the number of nanoseconds since Go's zero time, a duration
-- that is never negative a number of nanoseconds.
pub mod Lifecycle
use relayforge.Prelude.{ℕ, Bool, true, false, ◌||◌, Option}
use relayforge.Prelude.Text.{Text, codes}
use relayforge.Prelude.Int.{ℤ}

pub data Status : Type 0 where
  pending processing retrying succeeded dead : Status

-- `==` of two statuses.
unfoldable pub status_eq : Status → Status → Bool
status_eq Status.pending Status.pending = true
status_eq Status.processing Status.processing = true
status_eq Status.retrying Status.retrying = true
status_eq Status.succeeded Status.succeeded = true
status_eq Status.dead Status.dead = true
status_eq _ _ = false

-- string(status)
unfoldable pub status_text : Status → Text
status_text Status.pending = codes "pending"
status_text Status.processing = codes "processing"
status_text Status.retrying = codes "retrying"
status_text Status.succeeded = codes "succeeded"
status_text Status.dead = codes "dead"

pub record Endpoint : Type 0 where
  pub id : Text
  pub name : Text
  pub url : Text
  pub secret_ciphertext : Text
  pub timeout : ℕ
  pub max_attempts : ℕ
  pub consecutive_failures : ℕ
  pub disabled_at : Option ℕ
  pub circuit_open_until : Option ℕ
  pub created_at : ℕ
  pub updated_at : ℕ

pub record Event : Type 0 where
  pub id : Text
  pub endpoint_id : Text
  pub event_type : Text
  pub payload : Text
  pub idempotency_key : Text
  pub created_at : ℕ

pub record Delivery : Type 0 where
  pub id : Text
  pub event_id : Text
  pub endpoint_id : Text
  pub status : Status
  pub attempt_count : ℕ
  pub max_attempts : ℕ
  pub next_attempt_at : ℕ
  pub locked_by : Text
  pub lease_token : Text
  pub locked_at : Option ℕ
  pub locked_until : Option ℕ
  pub last_status_code : Option ℕ
  pub last_error : Text
  pub last_completed_at : Option ℕ
  pub created_at : ℕ
  pub updated_at : ℕ

pub record Attempt : Type 0 where
  pub id : Text
  pub delivery_id : Text
  pub number : ℕ
  pub status_code : Option ℕ
  pub response_body : Text
  pub error_message : Text
  pub duration : ℤ
  pub started_at : ℕ
  pub completed_at : ℕ

unfoldable pub final : Status → Bool
unfolding status_eq
final s = status_eq s Status.succeeded || status_eq s Status.dead

unfoldable pub can_transition : Status → Status → Bool
unfolding status_eq
can_transition Status.pending next = status_eq next Status.processing
can_transition Status.retrying next = status_eq next Status.processing
can_transition Status.processing next =
    status_eq next Status.succeeded || status_eq next Status.retrying || status_eq next Status.dead
can_transition Status.dead next = status_eq next Status.pending
can_transition Status.succeeded next = false
