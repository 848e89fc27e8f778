-- ===== src/Endpoint/Creation.antt =====
-- Creating an endpoint, and reading it back.
use relayforge.Prelude.{
  find?-eq-none, Bool-cases, find?-append, All, Result, Result-cases, ◌/◌, if◌then◌else◌, arith,
  ◌++◌, ◌∷◌, [], none, ◌||◌, ◌&&◌, false, true, inr, inl, refl, ◌≡◌, ℕ, ok,
}
use relayforge.Prelude.{◌*◌}
use relayforge.Endpoint.{
  normalize_target, Net, Options, CreateInput, Created, checked_input, create, get,
}
use relayforge.Prelude.Int.{ℤ, pos, negsuc, eqz, ltz, pos_part}
use relayforge.Prelude.Text.{Text, text_eq, text_eq_refl, between}
use relayforge.Prelude.Utf8.{storable}
use relayforge.Delivery.Policy.{validate_max_attempts}
use relayforge.Store.Tables.{Database, EndpointRow, check_endpoint, scan_endpoint}
use relayforge.Store.Endpoints.{create_endpoint, get_endpoint}
use relayforge.Webhook.Dispatcher.{secret_context}

timeout_range :
    (given : ℤ)
    → let timeout = if eqz given (pos 0) then pos 5000000000 else given in
      (ltz timeout (pos 100000000) || ltz (pos 30000000000) timeout) ≡ false
      → between 100 30000 (pos_part timeout / 1000000) ≡ true
timeout_range (pos n) h = ground arith
timeout_range (negsuc n) h = absurd (ground arith)

attempts_range :
    (given : ℤ)
    → (ltz (pos 0) given && validate_max_attempts (pos_part given)) ≡ true
    → between 1 100 (pos_part given) ≡ true
unfolding validate_max_attempts
attempts_range given h = ground arith

module _ (net : Net) where
  -- What the checks let through fits the constraints of the table.
  checked_input_range :
      (input : CreateInput) (options : Options) (name target : Text) (timeout max_attempts : ℕ)
      → checked_input net input options ≡ ok (name, target, timeout, max_attempts)
      → (between 100 30000 (timeout / 1000000) ≡ true) × (between 1 100 max_attempts ≡ true)
  unfolding checked_input
  checked_input_range input options name target timeout max_attempts h =
      let given = if eqz input.timeout (pos 0) then pos 5000000000 else input.timeout in
      let allowed = if eqz input.max_attempts (pos 0) then pos 8 else input.max_attempts in
      elim (Result-cases (normalize_target net input.url options)) [
        | inr (x, e) ↦ absurd (ground (arith, e))
        | inl (u, e) ↦
            elim (Bool-cases (ltz given (pos 100000000) || ltz (pos 30000000000) given)) [
              | inl bad ↦ absurd (ground (arith, e))
              | inr good ↦
                  elim (Bool-cases
                    (ltz (pos 0) allowed && validate_max_attempts (pos_part allowed))) [
                      | inr bad ↦ absurd (ground (arith, e))
                      | inl fits ↦
                          let t : timeout ≡ pos_part given = ground (arith, e) in
                          let m : max_attempts ≡ pos_part allowed = ground (arith, e) in
                          (
                            rw t (timeout_range input.timeout good),
                            rw m (attempts_range allowed fits),
                          )
                    ]
            ]
      ]

  -- The row that Create stores.
  abbrev pub row_of : ℕ → Text → Text → Text → Text → ℕ → ℕ → EndpointRow
  row_of now id ciphertext name target timeout max_attempts = record {
    id = id;
    name = name;
    url = target;
    secret_ciphertext = ciphertext;
    timeout_ms = timeout / 1000000;
    max_attempts = max_attempts;
    consecutive_failures = 0;
    circuit_open_until = none;
    disabled_at = none;
    created_at = now;
    updated_at = now;
  }

  module _ (encode : Text → Text) (encrypt : Text → Text → Result Text Text) (now : ℕ) (id : Text)
      (input : CreateInput) (options : Options) (db : Database)
      (secret_bytes ciphertext name target : Text) (timeout max_attempts : ℕ)
      (checked : checked_input net input options ≡ ok (name, target, timeout, max_attempts))
      (encrypted : encrypt (encode secret_bytes) (secret_context id) ≡ ok ciphertext)
      (name_fits : storable name ≡ true) (target_fits : storable target ≡ true) where
    abbrev row : EndpointRow
    row = row_of now id ciphertext name target timeout max_attempts

    row-check : check_endpoint row ≡ true
    unfolding check_endpoint
    row-check =
        let r = checked_input_range input options name target timeout max_attempts checked in
        ground arith

    -- An input that passes the checks, with texts that PostgreSQL can store, is stored: none of the
    -- table's constraints can refuse it. The new row is the last, and the answer has the secret.
    pub create_total :
        create net encode encrypt (ok secret_bytes) now id input options db
        ≡ ok (
          record db { endpoints = db.endpoints ++ row ∷ [] },
          record { endpoint = scan_endpoint row; secret = encode secret_bytes },
        )
    unfolding create create_endpoint
    create_total = rw (checked, create) (rw encrypted (rw row-check refl))

    -- For an input that passes the checks, with texts that PostgreSQL can store, with random bytes for
    -- the secret, which is encrypted, and under a fresh identifier that is a UUID: Create returns the
    -- secret and the endpoint with the checked name, target, timeout in whole milliseconds and number of
    -- attempts, enabled and with its circuit closed; and Get reads this endpoint back.
    pub get-create :
        net.is_uuid id ≡ true
        → All (λ e. text_eq e.id id ≡ false) db.endpoints
        → (db' : Database) × (created : Created) × (create net encode encrypt
              (ok secret_bytes)
              now
              id
              input
              options
              db
            ≡ ok (db', created))
          × (created ≡ record {
            endpoint = record {
              id = id;
              name = name;
              url = target;
              secret_ciphertext = ciphertext;
              timeout = timeout / 1000000 * 1000000;
              max_attempts = max_attempts;
              consecutive_failures = 0;
              disabled_at = none;
              circuit_open_until = none;
              created_at = now;
              updated_at = now;
            };
            secret = encode secret_bytes;
          })
          × (get net id db' ≡ ok created.endpoint)
    unfolding get get_endpoint scan_endpoint
    get-create uuid fresh = (
      _,
      _,
      create_total,
      refl,
      rw (uuid, get)
          (rw
            (find?-append (λ e. text_eq e.id id) db.endpoints row
              (find?-eq-none (λ e. text_eq e.id id) db.endpoints fresh) (text_eq_refl id))
            refl),
    )
