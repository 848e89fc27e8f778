-- ===== src/Server/Start.antt =====
-- Which starts succeed.
use relayforge.Worker
use relayforge.Prelude.{
  Result-cases, length, Result, err, ok, ◌==◌, arith, false, true, inr, inl, ◌⊎◌, refl, ◌≡◌,
}
use relayforge.Secure.{cipher_failed, Aead, new_box}
use relayforge.Server.{
  box_failed, open_failed, StartError, DatabaseConfig, Parts, set_up, database_config, pool_config,
}
use relayforge.Config.Loading.{load-IsUsable, IsUsable}
use relayforge.Prelude.Int.{pos, pos_part, ltz}
use relayforge.Prelude.Text.{Text}
use relayforge.Config.{Environment, Config, load}
use relayforge.Delivery.Policy.{Floats, RetryPolicy, new_retry_policy}

module _ {F Level : Type 0} (float : Floats F) (c : Config F Level) where
  abbrev pub policy_of : RetryPolicy F
  policy_of = record {
    base = pos_part c.retry_base_delay;
    max = pos_part c.retry_max_delay;
    jitter = c.retry_jitter;
  }

  new_retry_policy-usable :
      (env : Environment F Level)
      → IsUsable float env c
      → new_retry_policy float c.retry_base_delay c.retry_max_delay c.retry_jitter ≡ ok policy_of
  unfolding new_retry_policy
  new_retry_policy-usable env u =
      let ordered : ltz c.retry_max_delay c.retry_base_delay ≡ false = ground (arith, u.delays) in
      rw (u.delays.0, ordered, u.jitter) refl

  new-usable :
      (env : Environment F Level)
      → IsUsable float env c
      → Worker.new (pool_config c policy_of) ≡ ok (pool_config c policy_of)
  unfolding Worker.new pool_config
  new-usable env u =
      let some_workers : ltz c.worker_concurrency (pos 1) ≡ false = ground (arith, u.concurrency) in
      let a_threshold : ltz c.circuit_failure_threshold (pos 1) ≡ false =
        ground (arith, u.threshold) in
      let (poll, lease, finish) = u.intervals in
      rw (some_workers, poll, lease, finish, a_threshold, u.cooldown) refl

  -- What `run` sets up from settings that it has loaded.
  abbrev pub parts_of : Aead → Parts F Level
  parts_of box = record {
    config = c;
    box = box;
    targets = record { allow_http = c.allow_http; allow_private_targets = c.allow_private_targets };
    pool = pool_config c policy_of;
  }

module _ {F Level : Type 0} (float : Floats F) (env : Environment F Level)
    (open_database : DatabaseConfig → Result Text (Unit {0})) (new_gcm : Text → Result Text Aead)
    (c : Config F Level) where
  -- Once Load has returned settings, and the database and the cipher can be opened with them, the
  -- server starts: neither the box nor the retry policy nor the worker pool refuses the settings, and
  -- the workers and the endpoint service run with what was loaded.
  pub set_up-load :
      (box : Aead)
      → load float env ≡ ok c
      → open_database (database_config c) ≡ ok tt
      → new_gcm c.master_key ≡ ok box
      → set_up float env open_database new_gcm ≡ ok (parts_of float c box)
  unfolding set_up new_box
  set_up-load box h opened cipher =
      let u = load-IsUsable float env c h in
      let size : (length c.master_key == 32) ≡ true = ground (arith, u.key) in
      rw (h, opened, size, cipher, new_retry_policy-usable float c env u, new-usable float c env u)
        refl

  -- A start that fails has one of three causes: Load refused the environment, the database could not be
  -- opened, or the cipher could not be made.
  pub set_up_refused :
      (e : StartError)
      → set_up float env open_database new_gcm ≡ err e
      → load float env ≡ ok c
      → ((x : Text) × (open_database (database_config c) ≡ err x) × (e ≡ open_failed x))
        ⊎ ((x : Text) × (new_gcm c.master_key ≡ err x) × (e ≡ box_failed (cipher_failed x)))
  unfolding set_up new_box
  set_up_refused e h loaded =
      let u = load-IsUsable float env c loaded in
      let size : (length c.master_key == 32) ≡ true = ground (arith, u.key) in
      elim (Result-cases (open_database (database_config c))) [
        | inr (x, f) ↦ inl (x, f, ground (arith, loaded, f))
        | inl (tt, f) ↦ elim (Result-cases (new_gcm c.master_key)) [
          | inr (x, g) ↦ inr (x, g, ground (arith, loaded, f, size, g))
          | inl (box, g) ↦ absurd (cc (h, set_up-load box loaded f g))
        ]
      ]
