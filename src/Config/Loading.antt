-- ===== src/Config/Loading.antt =====
-- What the settings that Load returns are good for.
use relayforge.Config.{
  threshold_out_of_range, decimal, check_worker, boolean, integer, WorkerSettings, level,
  AccessSettings, load_access, load, secret, load_worker, encryption_key, value, load_server,
  duration, Environment, Config, ServerSettings,
}
use relayforge.Prelude.{
  refused-eq-ok, ok, arith, ◌||◌, false, true, inr, inl, subst, refl, ◌≡◌, ◌<◌, ◌≤◌, ◌+◌, ℕ,
  Option-cases, ok-injective, refuse-eq-ok, bind-eq-ok, length,
}
use relayforge.Prelude.Text.{trim_space, Text, codes}
use relayforge.Prelude.Int.{pos_part, add_ℤ, to_int32, to_int64, ◌≤ℤ◌, ℤ, pos, negsuc, ltz, lez}
use relayforge.Delivery.Policy.{Floats}

-- Settings within the bounds that the parts of the server rely on. The bounds of the connections are
-- those of the numbers that are read from the environment, before they become an `int32`.
pub record IsUsable {F Level : Type 0} (float : Floats F) (env : Environment F Level)
    (c : Config F Level) : Type 0 where
  pub timeouts :
      (lez c.read_header_timeout (pos 0) ≡ false)
      × (lez c.shutdown_timeout (pos 0) ≡ false)
      × (lez c.database_connect_timeout (pos 0) ≡ false)
  pub connections :
      (low : ℤ) × (high : ℤ) × (integer float env (codes "DATABASE_MIN_CONNECTIONS") (pos 1)
        ≡ ok low)
      × (integer float env (codes "DATABASE_MAX_CONNECTIONS") (pos 10) ≡ ok high)
      × (c.database_min_connections ≡ to_int32 low)
      × (c.database_max_connections ≡ to_int32 high)
      × (pos 0 ≤ℤ low)
      × (pos 1 ≤ℤ high)
      × (low ≤ℤ high)
  pub key : length c.master_key ≡ 32
  pub token : 32 ≤ length c.api_key
  pub concurrency : (pos 1 ≤ℤ c.worker_concurrency) × (c.worker_concurrency ≤ℤ pos 128)
  pub intervals :
      (lez c.worker_poll_interval (pos 0) ≡ false)
      × (lez c.worker_lease_duration (pos 0) ≡ false)
      × (lez c.worker_finish_timeout (pos 0) ≡ false)
  pub lease :
      pos_part c.worker_finish_timeout < 9223372006854775808
      → ltz (add_ℤ (pos 30000000000) c.worker_finish_timeout) c.worker_lease_duration ≡ true
  pub delays : (lez c.retry_base_delay (pos 0) ≡ false) × (c.retry_base_delay ≤ℤ c.retry_max_delay)
  pub jitter :
      (float.less c.retry_jitter (float.of_ℕ 0) || float.less (float.of_ℕ 1) c.retry_jitter) ≡ false
  pub threshold : (pos 1 ≤ℤ c.circuit_failure_threshold) × (c.circuit_failure_threshold ≤ℤ pos 100)
  pub cooldown : lez c.circuit_cooldown (pos 0) ≡ false

within : (low high x : ℤ) → (ltz x low || ltz high x) ≡ false → (low ≤ℤ x) × (x ≤ℤ high)
within low high x h = (ground arith, ground arith)

not_below : (low x : ℤ) → ltz x low ≡ false → low ≤ℤ x
not_below low x h = ground arith

-- The check of the lease, for a sum that an `int64` holds.
lease_long_enough :
    (lease finish : ℤ)
    → lez lease (to_int64 (add_ℤ (pos 30000000000) finish)) ≡ false
    → lez finish (pos 0) ≡ false
    → pos_part finish < 9223372006854775808
    → ltz (add_ℤ (pos 30000000000) finish) lease ≡ true
lease_long_enough lease (negsuc n) h positive small = absurd (ground arith)
lease_long_enough lease (pos n) h positive small =
    let fits : to_int64 (add_ℤ (pos 30000000000) (pos n)) ≡ pos (30000000000 + n) = ground arith in
    let long = rw fits at h in ground arith

module _ {F Level : Type 0} (float : Floats F) (env : Environment F Level) where
  duration_positive :
      (key : Text) (fallback d : ℤ) → duration float env key fallback ≡ ok d → lez d (pos 0) ≡ false
  unfolding duration
  duration_positive key fallback d h =
      elim (Option-cases (env.parse_duration (value float env key (env.print_duration fallback)))) [
        | inl e ↦ absurd (ground (arith, e))
        | inr (parsed, e) ↦
            let same : parsed ≡ d = ground (arith, e) in rw (← same) (ground (arith, e))
      ]

  abbrev ServerBounds : ServerSettings Level → Type 0
  ServerBounds s =
      (lez s.read_header_timeout (pos 0) ≡ false)
      × (lez s.shutdown_timeout (pos 0) ≡ false)
      × (lez s.connect_timeout (pos 0) ≡ false)
      × (integer float env (codes "DATABASE_MIN_CONNECTIONS") (pos 1) ≡ ok s.min_connections)
      × (integer float env (codes "DATABASE_MAX_CONNECTIONS") (pos 10) ≡ ok s.max_connections)
      × (pos 0 ≤ℤ s.min_connections)
      × (pos 1 ≤ℤ s.max_connections)
      × (s.min_connections ≤ℤ s.max_connections)

  load_server_bounds : (s : ServerSettings Level) → load_server float env ≡ ok s → ServerBounds s
  unfolding load_server
  load_server_bounds s h =
      let (a, ea, h1) =
        bind-eq-ok (duration float env (codes "READ_HEADER_TIMEOUT") (pos 5000000000)) _ h in
      let (b, eb, h2) =
        bind-eq-ok (duration float env (codes "SHUTDOWN_TIMEOUT") (pos 10000000000)) _ h1 in
      let (_, _, h3) =
        bind-eq-ok (level float env (value float env (codes "LOG_LEVEL") (codes "info"))) _ h2 in
      let (d, ed, h4) =
        bind-eq-ok (duration float env (codes "DATABASE_CONNECT_TIMEOUT") (pos 5000000000)) _ h3 in
      let (low, el, h5) =
        bind-eq-ok (integer float env (codes "DATABASE_MIN_CONNECTIONS") (pos 1)) _ h4 in
      let (high, eh, h6) =
        bind-eq-ok (integer float env (codes "DATABASE_MAX_CONNECTIONS") (pos 10)) _ h5 in
      let (r1, h7) = refuse-eq-ok (ltz low (pos 0)) _ _ h6 in
      let (r2, h8) = refuse-eq-ok (ltz high (pos 1)) _ _ h7 in
      let (r3, h9) = refuse-eq-ok (ltz high low) _ _ h8 in
      subst ServerBounds (ok-injective _ refl h9) (
        duration_positive _ _ a ea,
        duration_positive _ _ b eb,
        duration_positive _ _ d ed,
        el,
        eh,
        not_below (pos 0) low r1,
        not_below (pos 1) high r2,
        not_below low high r3,
      )

  abbrev WorkerBounds : WorkerSettings F → Type 0
  WorkerBounds w =
      (lez w.poll_interval (pos 0) ≡ false)
      × (lez w.lease_duration (pos 0) ≡ false)
      × (lez w.finish_timeout (pos 0) ≡ false)
      × (lez w.base_delay (pos 0) ≡ false)
      × (lez w.cooldown (pos 0) ≡ false)

  load_worker_bounds : (w : WorkerSettings F) → load_worker float env ≡ ok w → WorkerBounds w
  unfolding load_worker
  load_worker_bounds w h =
      let (_, _, h1) = bind-eq-ok (integer float env (codes "WORKER_CONCURRENCY") (pos 8)) _ h in
      let (a, ea, h2) =
        bind-eq-ok (duration float env (codes "WORKER_POLL_INTERVAL") (pos 250000000)) _ h1 in
      let (b, eb, h3) =
        bind-eq-ok (duration float env (codes "WORKER_LEASE_DURATION") (pos 45000000000)) _ h2 in
      let (c, ec, h4) =
        bind-eq-ok (duration float env (codes "WORKER_FINISH_TIMEOUT") (pos 5000000000)) _ h3 in
      let (d, ed, h5) =
        bind-eq-ok (duration float env (codes "RETRY_BASE_DELAY") (pos 1000000000)) _ h4 in
      let (_, _, h6) =
        bind-eq-ok (duration float env (codes "RETRY_MAX_DELAY") (pos 300000000000)) _ h5 in
      let (_, _, h7) = bind-eq-ok (decimal float env (codes "RETRY_JITTER") env.two_tenths) _ h6 in
      let (_, _, h8) =
        bind-eq-ok (integer float env (codes "CIRCUIT_FAILURE_THRESHOLD") (pos 5)) _ h7 in
      let (e, ee, h9) =
        bind-eq-ok (duration float env (codes "CIRCUIT_COOLDOWN") (pos 30000000000)) _ h8 in
      subst WorkerBounds (ok-injective _ refl h9) (
        duration_positive _ _ a ea,
        duration_positive _ _ b eb,
        duration_positive _ _ c ec,
        duration_positive _ _ d ed,
        duration_positive _ _ e ee,
      )

  abbrev AccessBounds : AccessSettings → Type 0
  AccessBounds a = (length a.master_key ≡ 32) × (32 ≤ length a.api_key)

  encryption_key-length :
      (name key : Text) → encryption_key float env name ≡ ok key → length key ≡ 32
  unfolding encryption_key
  encryption_key-length name key h =
      elim (Option-cases (env.base64_decode (trim_space (env.getenv name)))) [
        | inl e ↦ absurd (ground (arith, e))
        | inr (k, e) ↦ let same : k ≡ key = ground (arith, e) in rw (← same) (ground (arith, e))
      ]

  secret-length :
      (name : Text) (n : ℕ) (token : Text) → secret float env name n ≡ ok token → n ≤ length token
  unfolding secret
  secret-length name n token h =
      let same : trim_space (env.getenv name) ≡ token = ground arith in rw (← same) (ground arith)

  load_access_bounds : (a : AccessSettings) → load_access float env ≡ ok a → AccessBounds a
  unfolding load_access
  load_access_bounds a h =
      let (key, e, h1) =
        bind-eq-ok (encryption_key float env (codes "RELAYFORGE_MASTER_KEY")) _ h in
      let (token, f, h2) = bind-eq-ok (secret float env (codes "RELAYFORGE_API_KEY") 32) _ h1 in
      let (_, _, h3) = bind-eq-ok (boolean float env (codes "ALLOW_HTTP_TARGETS") false) _ h2 in
      let (_, _, h4) = bind-eq-ok (boolean float env (codes "ALLOW_PRIVATE_TARGETS") false) _ h3 in
      subst AccessBounds (ok-injective _ refl h4)
        (encryption_key-length _ key e, secret-length _ 32 token f)

  -- Every Config that Load returns is usable: its timeouts and intervals are positive, its numbers of
  -- connections are those of the environment as an int32, which are in order, at least 0 and at least
  -- 1, its key has 32 bytes and its token 32 at least, the
  -- concurrency is 1 to 128 and the threshold 1 to 100, the delays are in order, the jitter is
  -- neither below 0 nor above 1 (which is also so of a NaN), and the lease outlasts an attempt of 30 seconds and the finish timeout, if the sum
  -- of these is within the range of an int64.
  pub load-IsUsable : (c : Config F Level) → load float env ≡ ok c → IsUsable float env c
  unfolding load check_worker
  load-IsUsable c h =
      let (s, es, h1) = bind-eq-ok (load_server float env) _ h in
      let (a, ea, h2) = bind-eq-ok (load_access float env) _ h1 in
      let (w, ew, h3) = bind-eq-ok (load_worker float env) _ h2 in
      let (_, checked, h4) = bind-eq-ok (check_worker float env w) _ h3 in
      let (r1, k1) =
        refuse-eq-ok (ltz w.concurrency (pos 1) || ltz (pos 128) w.concurrency) _ _ checked in
      let (r2, k2) =
        refuse-eq-ok (lez w.lease_duration (to_int64 (add_ℤ (pos 30000000000) w.finish_timeout))) _
          _ k1 in
      let (r3, k3) = refuse-eq-ok (ltz w.max_delay w.base_delay) _ _ k2 in
      let (r4, k4) =
        refuse-eq-ok (float.less w.jitter (float.of_ℕ 0) || float.less (float.of_ℕ 1) w.jitter) _ _
          k3 in
      let r5 : (ltz w.failure_threshold (pos 1) || ltz (pos 100) w.failure_threshold) ≡ false =
        refused-eq-ok _ threshold_out_of_range k4 in
      let bs = load_server_bounds s es in
      let ba = load_access_bounds a ea in
      let bw = load_worker_bounds w ew in
      subst (IsUsable float env) (ok-injective _ refl h4) (record {
        timeouts = (bs.0, bs.1, bs.2);
        connections =
            (s.min_connections, s.max_connections, bs.3, bs.4, refl, refl, bs.5, bs.6, bs.7);
        key = ba.0;
        token = ba.1;
        concurrency = within (pos 1) (pos 128) w.concurrency r1;
        intervals = (bw.0, bw.1, bw.2);
        lease = lease_long_enough w.lease_duration w.finish_timeout r2 bw.2;
        delays = (bw.3, not_below w.base_delay w.max_delay r3);
        jitter = r4;
        threshold = within (pos 1) (pos 100) w.failure_threshold r5;
        cooldown = bw.4;
      })
