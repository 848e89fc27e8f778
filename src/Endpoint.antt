-- ===== src/Endpoint.antt =====
-- internal/endpoint/service.go: the checks of a new endpoint, and the service over the store. Parsing
-- and printing of URLs and addresses, lower case, uuid.Parse, base64 and the random source are
-- parameters; encryption is a function of the secret and its context.
pub mod Targets
pub mod Creation
use relayforge.Prelude.Int.{eqz, ℤ, pos, ltz, pos_part}
use relayforge.Prelude.{
  ltb, Result, ◌>>◌, ◌>>=◌, if◌then◌else◌, ◌==◌, ◌++◌, List, some, none, Option, ◌||◌, ◌&&◌, not,
  false, true, Bool, ◌+◌, ℕ, ok, err, any_of, refuse, guard, or_fail,
}
use relayforge.Prelude.Text.{Text, codes, text_eq, is_empty, trim_space, has_suffix, trim_last}
use relayforge.Prelude.Utf8.{rune_count}
use relayforge.Delivery.Model.{Endpoint}
use relayforge.Delivery.Policy.{validate_max_attempts}
use relayforge.Store.Tables.{Database, StoreError}
use relayforge.Store.Endpoints.{create_endpoint, list_endpoints, get_endpoint, disable_endpoint}
use relayforge.Webhook.Netip.{
  Addr, is_global_unicast, is_private, is_loopback, is_link_local_unicast, is_link_local_multicast,
}
use relayforge.Webhook.Dispatcher.{secret_context}

-- url.URL. What a printed URL shows besides is `rest`.
pub record Url : Type 0 where
  pub scheme : Text
  pub opaque : Text
  pub has_user : Bool
  pub host : Text
  pub path : Text
  pub fragment : Text
  pub rest : Text

-- net/url with its methods Hostname, Port and String, net.JoinHostPort, net.ParseIP, whose addresses
-- have no zone and are never mapped, strings.ToLower, and uuid.Parse as a test.
pub record Net : Type 0 where
  pub parse_url : Text → Option Url
  pub print_url : Url → Text
  pub hostname : Url → Text
  pub port : Url → Text
  pub join_host_port : Text → Text → Text
  pub parse_ip : Text → Option Addr
  pub to_lower : Text → Text
  pub is_uuid : Text → Bool

pub record Options : Type 0 where
  pub allow_http : Bool
  pub allow_private_targets : Bool

pub record CreateInput : Type 0 where
  pub name : Text
  pub url : Text
  pub timeout : ℤ
  pub max_attempts : ℤ

pub record Created : Type 0 where
  pub endpoint : Endpoint
  pub secret : Text

-- What wraps ErrInvalid.
pub data Invalid : Type 0 where
  bad_name malformed_url not_https not_absolute bad_host private_target : Invalid
  bad_timeout bad_max_attempts bad_limit malformed_id : Invalid

pub data EndpointError : Type 0 where
  invalid_endpoint : Invalid → EndpointError
  secret_failed encrypt_failed : Text → EndpointError
  store_failed : StoreError → EndpointError

abbrev pub from_store {ℓ} : {A : Type ℓ} → Result StoreError A → Result EndpointError A
from_store (ok a) = ok a
from_store (err e) = err (store_failed e)

abbrev pub or_invalid {ℓ} : {A : Type ℓ} → Result Invalid A → Result EndpointError A
or_invalid (ok a) = ok a
or_invalid (err e) = err (invalid_endpoint e)

-- The brackets of a host that is an IPv6 address.
abbrev pub bracketed : Text → Text
bracketed host = codes "[" ++ (host ++ codes "]")

module _ (net : Net) where
  unfoldable pub is_private_host : Text → Bool
  is_private_host hostname =
      if text_eq hostname (codes "localhost")
        || has_suffix (codes ".localhost") hostname
        || has_suffix (codes ".local") hostname
      then true
      else elim (net.parse_ip hostname) [
        | none ↦ false
        | some ip ↦
            not (is_global_unicast ip)
            || is_private ip
            || is_loopback ip
            || is_link_local_unicast ip
            || is_link_local_multicast ip
      ]

  -- The name of the host as normalizeTarget looks at it.
  unfoldable pub host_of : Url → Text
  host_of target = net.to_lower (trim_last 46 (net.hostname target))

  -- The URL that normalizeTarget prints.
  unfoldable pub normalized : Url → Text → Url
  normalized target hostname = record target {
    host =
        if not (is_empty (net.port target))
        then net.join_host_port hostname (net.port target)
        else if any_of (λ b. b == 58) hostname
        then bracketed hostname
        else hostname;
    path = if is_empty target.path then codes "/" else target.path;
  }

  unfoldable pub normalize_target : Text → Options → Result Invalid Text
  unfolding is_private_host host_of normalized
  normalize_target raw options = do
    parsed ← or_fail (net.parse_url (trim_space raw)) malformed_url
    let target = record parsed { scheme = net.to_lower parsed.scheme }
    refuse
        (not (text_eq target.scheme (codes "https"))
          && (not options.allow_http || not (text_eq target.scheme (codes "http"))))
        not_https
    refuse
        (not (is_empty target.opaque)
          || is_empty target.host
          || target.has_user
          || not (is_empty target.fragment))
        not_absolute
    let hostname = host_of target
    refuse (is_empty hostname || any_of (λ b. b == 37) hostname) bad_host
    refuse (not options.allow_private_targets && is_private_host hostname) private_target
    ok (net.print_url (normalized target hostname))

  -- What Create checks and fills in before it makes a secret: the name, the target, the timeout and
  -- the number of attempts.
  unfoldable pub checked_input : CreateInput → Options → Result Invalid (Text × Text × ℕ × ℕ)
  unfolding normalize_target
  checked_input input options = do
    let name = trim_space input.name
    refuse (is_empty name || ltb 100 (rune_count name)) bad_name
    target ← normalize_target input.url options
    let timeout = if eqz input.timeout (pos 0) then pos 5000000000 else input.timeout
    refuse (ltz timeout (pos 100000000) || ltz (pos 30000000000) timeout) bad_timeout
    let max_attempts = if eqz input.max_attempts (pos 0) then pos 8 else input.max_attempts
    guard (ltz (pos 0) max_attempts && validate_max_attempts (pos_part max_attempts))
        bad_max_attempts
    ok (name, target, pos_part timeout, pos_part max_attempts)

  -- Create; `id` is the fresh identifier, `random` what the random source gives for 32 bytes.
  unfoldable pub create :
      (Text → Text)
      → (Text → Text → Result Text Text)
      → Result Text Text
      → ℕ
      → Text
      → CreateInput
      → Options
      → Database
      → Result EndpointError (Database × Created)
  unfolding checked_input
  create encode encrypt random now id input options db = do
    fields ← or_invalid (checked_input input options)
    secret_bytes ← (elim random as (λ _. Result EndpointError Text) [
      | ok b ↦ ok b
      | err e ↦ err (secret_failed e)
    ])
    let secret = encode secret_bytes
    ciphertext ← (elim (encrypt secret (secret_context id)) as (λ _. Result EndpointError Text) [
      | ok c ↦ ok c
      | err e ↦ err (encrypt_failed e)
    ])
    let value : Endpoint = record {
      id = id;
      name = fields.0;
      url = fields.1;
      secret_ciphertext = ciphertext;
      timeout = fields.2;
      max_attempts = fields.3;
      consecutive_failures = 0;
      disabled_at = none;
      circuit_open_until = none;
      created_at = 0;
      updated_at = 0;
    }
    stored ← from_store (create_endpoint now value db)
    ok (stored.0, record { endpoint = stored.1; secret = secret })

  unfoldable pub list : ℤ → Database → Result EndpointError (List Endpoint)
  list limit db = do
    refuse (ltz limit (pos 1) || ltz (pos 100) limit) (invalid_endpoint bad_limit)
    ok (list_endpoints (pos_part limit) db)

  unfoldable pub get : Text → Database → Result EndpointError Endpoint
  get id db = do
    guard (net.is_uuid id) (invalid_endpoint malformed_id)
    from_store (get_endpoint id db)

  unfoldable pub disable : ℕ → Text → Database → Result EndpointError (Database × Endpoint)
  disable now id db = do
    guard (net.is_uuid id) (invalid_endpoint malformed_id)
    from_store (disable_endpoint now id db)
