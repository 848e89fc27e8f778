-- ===== src/DatabasePool.antt =====
-- internal/database/database.go: opening the connection pool. The driver is a parameter: parsing the
-- address, making a pool, and the ping; what the code closes is part of the result.
use relayforge.Prelude.{
  ◌∷◌, [], List, none, some, Option, Result, ok, err, ◌≡◌, ◌⊎◌, inl, inr, Option-cases, arith,
}
use relayforge.Prelude.Int.{ℤ, pos}
use relayforge.Prelude.Text.{Text}
use relayforge.Server.{DatabaseConfig}

-- The fields of pgxpool.Config that Open sets, and the others.
pub record PoolConfig (P : Type 0) : Type 0 where
  pub parsed : P
  pub min_conns : ℤ
  pub max_conns : ℤ
  pub max_conn_lifetime : ℤ
  pub max_conn_idle_time : ℤ
  pub health_check_period : ℤ

pub record Driver (P Pool : Type 0) : Type 0 where
  pub parse_config : Text → Result Text P
  pub new_with_config : PoolConfig P → Result Text Pool
  pub ping : Pool → Option Text

pub data OpenError : Type 0 where
  bad_config : Text → OpenError
  not_created : Text → OpenError
  no_ping : Text → OpenError

unfoldable pub pool_config_of : {P : Type 0} → P → DatabaseConfig → PoolConfig P
pool_config_of parsed cfg = record {
  parsed = parsed;
  min_conns = cfg.min_connections;
  max_conns = cfg.max_connections;
  max_conn_lifetime = pos 1800000000000;
  max_conn_idle_time = pos 300000000000;
  health_check_period = pos 30000000000;
}

module _ {P Pool : Type 0} (driver : Driver P Pool) where
  -- Open, with the pools that it has closed.
  unfoldable pub open_pool : DatabaseConfig → Result OpenError Pool × List Pool
  unfolding pool_config_of
  open_pool cfg = elim (driver.parse_config cfg.url) [
    | err e ↦ (err (bad_config e), [])
    | ok parsed ↦ elim (driver.new_with_config (pool_config_of parsed cfg)) [
      | err e ↦ (err (not_created e), [])
      | ok pool ↦ elim (driver.ping pool) [
        | some e ↦ (err (no_ping e), pool ∷ [])
        | none ↦ (ok pool, [])
      ]
    ]
  ]

  -- Open returns a pool that answered a ping and is not closed, or an error with every pool that it
  -- made closed.
  pub open_pool-leaks_none :
      (cfg : DatabaseConfig) (parsed : P) (pool : Pool)
      → driver.parse_config cfg.url ≡ ok parsed
      → driver.new_with_config (pool_config_of parsed cfg) ≡ ok pool
      → ((driver.ping pool ≡ none) × (open_pool cfg ≡ (ok pool, [])))
        ⊎ ((e : Text) × (driver.ping pool ≡ some e)
            × (open_pool cfg ≡ (err (no_ping e), pool ∷ [])))
  unfolding open_pool
  open_pool-leaks_none cfg parsed pool h k = elim (Option-cases (driver.ping pool)) [
    | inl e ↦ inl (e, ground (arith, h, k, e))
    | inr (x, e) ↦ inr (x, e, ground (arith, h, k, e))
  ]
