-- ===== src/Config/Pool.antt =====
-- NewPool of internal/storage/pool.go: the settings of the pool, and that none of them is a zero that pgx
-- would take at its word.
use flowhand.Base.{◌≡◌, refl, ltb, Bool-cases, inl, inr, Bool, true, false, String, if◌then◌else◌}
use flowhand.Failure.{Result, ok, map_err, wrap, ◌>>=◌}
use flowhand.Config.{ℤ, pos, negsuc, Db}

-- The fields of `pgxpool.Config` that NewPool sets; the tracer is not modelled.
pub record PoolConfig : Type 0 where
  pub max_conns : ℤ
  pub min_conns : ℤ
  pub max_conn_lifetime : ℤ

-- `v > 0`
abbrev pub is_positive : ℤ → Bool
is_positive (pos n) = ltb 0 n
is_positive (negsuc n) = false

abbrev override : ℤ → ℤ → ℤ
override value parsed = if is_positive value then value else parsed

abbrev overridden : Db → PoolConfig → PoolConfig
overridden cfg pcfg = record {
  max_conns = override cfg.max_conns pcfg.max_conns;
  min_conns = override cfg.min_conns pcfg.min_conns;
  max_conn_lifetime = override cfg.max_conn_lifetime pcfg.max_conn_lifetime;
}

-- What `NewPool` hands to `pgxpool.NewWithConfig`.
unfoldable pub pool_config : (String → Result PoolConfig) → Db → Result PoolConfig
pool_config parse_config cfg = do
  pcfg ← map_err (wrap "parse dsn") (parse_config cfg.dsn)
  ok (overridden cfg pcfg)

override-is_positive :
    (value parsed : ℤ) → is_positive parsed ≡ true → is_positive (override value parsed) ≡ true
override-is_positive value parsed h = elim (Bool-cases (is_positive value)) [
  | inl set ↦ rw set set
  | inr unset ↦ rw unset h
]

override_set : (value parsed : ℤ) → is_positive value ≡ true → override value parsed ≡ value
override_set value parsed h = rw h refl

-- If the parsed settings of a data source name have a positive lifetime and a positive maximum, so have
-- those of the pool, whatever the configuration says (0 is "unset"); and each of the configuration's
-- settings that is positive is the pool's.
pub pool_config-is_positive :
    (parse_config : String → Result PoolConfig) (cfg : Db) (parsed out : PoolConfig)
    → parse_config cfg.dsn ≡ ok parsed
    → is_positive parsed.max_conns ≡ true
    → is_positive parsed.max_conn_lifetime ≡ true
    → pool_config parse_config cfg ≡ ok out
    → (is_positive out.max_conns ≡ true)
      × (is_positive out.max_conn_lifetime ≡ true)
      × (is_positive cfg.max_conns ≡ true → out.max_conns ≡ cfg.max_conns)
      × (is_positive cfg.min_conns ≡ true → out.min_conns ≡ cfg.min_conns)
      × (is_positive cfg.max_conn_lifetime ≡ true → out.max_conn_lifetime ≡ cfg.max_conn_lifetime)
unfolding pool_config
pool_config-is_positive parse_config cfg parsed out h max life made =
    let done : ok (overridden cfg parsed) ≡ ok out = rw h at made in
    let k : overridden cfg parsed ≡ out = cc done in
    rw (← k) (
      override-is_positive cfg.max_conns parsed.max_conns max,
      override-is_positive cfg.max_conn_lifetime parsed.max_conn_lifetime life,
      override_set cfg.max_conns parsed.max_conns,
      override_set cfg.min_conns parsed.min_conns,
      override_set cfg.max_conn_lifetime parsed.max_conn_lifetime,
    )
