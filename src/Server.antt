-- ===== src/Server.antt =====
-- cmd/relayforge/main.go: how `run` sets the parts up. Opening the database and the cipher are
-- parameters; the logger, the metrics and the serving are left out.
pub mod Start
pub mod Operation
pub mod Serving
use relayforge.Endpoint
use relayforge.Worker
use relayforge.Prelude.{Result, ◌>>◌, ◌>>=◌, err, ok}
use relayforge.Prelude.Text.{Text}
use relayforge.Prelude.Int.{ℤ}
use relayforge.Config.{Environment, Config, ConfigError, load}
use relayforge.Delivery.Policy.{Floats, RetryPolicy, PolicyError, new_retry_policy}
use relayforge.Secure.{Aead, BoxError, new_box}

pub record DatabaseConfig : Type 0 where
  pub url : Text
  pub min_connections : ℤ
  pub max_connections : ℤ

pub data StartError : Type 0 where
  load_failed : ConfigError → StartError
  open_failed : Text → StartError
  box_failed : BoxError → StartError
  policy_failed : PolicyError → StartError
  pool_failed : Worker.ConfigError → StartError

-- What the parts are made of.
pub record Parts (F Level : Type 0) : Type 0 where
  pub config : Config F Level
  pub box : Aead
  pub targets : Endpoint.Options
  pub pool : Worker.Config F

-- The code's `fmt.Errorf` around an error of a part.
abbrev pub wrapped {ℓ κ} :
    {E : Type κ} {A : Type ℓ} → (E → StartError) → Result E A → Result StartError A
wrapped f (ok a) = ok a
wrapped f (err e) = err (f e)

unfoldable pub database_config : {F Level : Type 0} → Config F Level → DatabaseConfig
database_config cfg = record {
  url = cfg.database_url;
  min_connections = cfg.database_min_connections;
  max_connections = cfg.database_max_connections;
}

unfoldable pub pool_config : {F Level : Type 0} → Config F Level → RetryPolicy F → Worker.Config F
pool_config cfg policy = record {
  concurrency = cfg.worker_concurrency;
  poll_interval = cfg.worker_poll_interval;
  lease_duration = cfg.worker_lease_duration;
  finish_timeout = cfg.worker_finish_timeout;
  retry_policy = policy;
  circuit_threshold = cfg.circuit_failure_threshold;
  circuit_cooldown = cfg.circuit_cooldown;
}

module _ {F Level : Type 0} (float : Floats F) where
  -- run, up to the start of the server.
  unfoldable pub set_up :
      Environment F Level
      → (DatabaseConfig → Result Text (Unit {0}))
      → (Text → Result Text Aead)
      → Result StartError (Parts F Level)
  unfolding database_config pool_config
  set_up env open_database new_gcm = do
    cfg ← wrapped load_failed (load float env)
    wrapped open_failed (open_database (database_config cfg))
    box ← wrapped box_failed (new_box new_gcm cfg.master_key)
    policy ←
        wrapped policy_failed
          (new_retry_policy float cfg.retry_base_delay cfg.retry_max_delay cfg.retry_jitter)
    pool ← wrapped pool_failed (Worker.new (pool_config cfg policy))
    ok (record {
      config = cfg;
      box = box;
      targets = record {
        allow_http = cfg.allow_http;
        allow_private_targets = cfg.allow_private_targets;
      };
      pool = pool;
    })
