-- ===== src/Config.antt =====
-- internal/config/config.go, and NewPool of internal/storage/pool.go, which reads its result. koanf with
-- its providers and pgx's parser are parameters. Keys and names are lists of bytes, and those of
-- environment variables are ASCII.
pub mod Laws
pub mod Pool
use flowhand.Base.{
  ◌≡◌, ℕ, ◌+◌, ◌-◌, ◌%◌, Bool, true, false, ◌&&◌, ◌||◌, ◌==◌, String, Option, none, some, List, [],
  ◌∷◌, map, codes, nat_eq, leb, ltb, if◌then◌else◌,
}
use flowhand.Failure.{GoError, errorf, wrap, Result, ok, err, map_err, ◌>>=◌, ◌>>◌}

-- A Go integer: `negsuc n` is -(n + 1).
pub data ℤ : Type 0 where
  pos negsuc : ℕ → ℤ

-- The conversion of an `int` to `int32`, which keeps the lowest 32 bits.
abbrev signed : ℕ → ℤ
signed m = if ltb m 2147483648 then pos m else negsuc (4294967295 - m)

abbrev pub int32 : ℤ → ℤ
int32 (pos n) = signed (n % 4294967296)
int32 (negsuc n) = signed (4294967295 - n % 4294967296)

abbrev pub Key : Type 0
Key = List ℕ

-- `strings.ToLower` on ASCII
abbrev pub to_lower : ℕ → ℕ
to_lower c = if leb 65 c && leb c 90 then c + 32 else c

-- `strings.TrimPrefix`
unfoldable pub trim_prefix : Key → Key → Key
trim_prefix prefix s = trimmed prefix s
  where
    trimmed : Key → Key → Key
    trimmed [] rest = rest
    trimmed (p ∷ ps) [] = s
    trimmed (p ∷ ps) (c ∷ cs) = if nat_eq p c then trimmed ps cs else s

-- `key[:i] + "." + key[i+1:]` for the first underscore, if there is one.
unfoldable pub dot_first : Key → Key
dot_first [] = []
dot_first (c ∷ s) = if nat_eq c 95 then 46 ∷ s else c ∷ dot_first s

-- `TransformFunc`, on the name of a variable.
abbrev pub env_key : Key → Key
env_key name = dot_first (map to_lower (trim_prefix (codes "FLOWHAND_") name))

-- `strings.ReplaceAll(key, "-", "_")`
abbrev underscored : Key → Key
underscored name = map (λ c. if nat_eq c 45 then 95 else c) name

abbrev same_key : Key → Key → Bool
same_key [] [] = true
same_key (a ∷ s) (b ∷ t) = nat_eq a b && same_key s t
same_key _ _ = false

-- The table of flags, with the keys that they set.
abbrev pub flag_targets : List (Key × Key)
flag_targets =
    (codes "env", codes "env")
    ∷ (codes "version", codes "version")
    ∷ (codes "addr", codes "http.addr")
    ∷ (codes "shutdown_timeout", codes "http.shutdown_timeout")
    ∷ (codes "dsn", codes "db.dsn")
    ∷ (codes "max_conns", codes "db.max_conns")
    ∷ (codes "min_conns", codes "db.min_conns")
    ∷ (codes "max_conn_lifetime", codes "db.max_conn_lifetime")
    ∷ (codes "log_level", codes "obs.log_level")
    ∷ (codes "log_format", codes "obs.log_format")
    ∷ (codes "otlp_endpoint", codes "obs.otlp_endpoint")
    ∷ (codes "service_name", codes "obs.service_name")
    ∷ []

abbrev target_in : List (Key × Key) → Key → Key
target_in [] name = []
target_in ((flag, dst) ∷ table) name = if same_key flag name then dst else target_in table name

-- The callback for flags, on the flag's name: "" for a flag that is ignored.
unfoldable pub flag_key : Key → Key
flag_key name = target_in flag_targets (underscored name)

-- The defaults, as koanf reads them: numbers as their digits.
abbrev pub defaults : List (Key × String)
defaults =
    (codes "env", "dev")
    ∷ (codes "version", "dev")
    ∷ (codes "http.addr", ":8080")
    ∷ (codes "http.shutdown_timeout", "10s")
    ∷ (codes "db.dsn", "")
    ∷ (codes "db.max_conns", "10")
    ∷ (codes "db.min_conns", "2")
    ∷ (codes "db.max_conn_lifetime", "1h")
    ∷ (codes "obs.log_level", "info")
    ∷ (codes "obs.log_format", "json")
    ∷ (codes "obs.otlp_endpoint", "localhost:4317")
    ∷ (codes "obs.service_name", "flowhand")
    ∷ []

-- koanf with the providers that `Load` uses, each loaded into a store.
pub record Koanf : Type 1 where
  pub Store : Type 0
  pub Flags : Type 0
  pub new : Store
  pub load_confmap : List (Key × String) → Store → Result Store
  pub load_file : String → Store → Result Store
  -- With the prefix of the variables, and the transformation of their names.
  pub load_env : Key → (Key → Key) → Store → Result Store
  pub load_flags : Flags → (Key → Key) → Store → Result Store
  pub string : Store → Key → String
  pub int : Store → Key → ℤ
  pub duration : Store → Key → ℤ

pub record Http : Type 0 where
  pub addr : String
  pub shutdown_timeout : ℤ

pub record Db : Type 0 where
  pub dsn : String
  pub max_conns : ℤ
  pub min_conns : ℤ
  pub max_conn_lifetime : ℤ

pub record Obs : Type 0 where
  pub log_level : String
  pub log_format : String
  pub otlp_endpoint : String
  pub service_name : String

pub record Config : Type 0 where
  pub env : String
  pub version : String
  pub http : Http
  pub db : Db
  pub obs : Obs

-- `v < low || v > math.MaxInt32`, for a bound that is not negative
abbrev out_of_range : ℕ → ℤ → Bool
out_of_range low (pos n) = ltb n low || ltb 2147483647 n
out_of_range low (negsuc n) = true

module _ (K : Koanf) where
  abbrev load_path : String → K.Store → Result K.Store
  load_path path k =
      if path == "" then ok k else map_err (wrap "load config file") (K.load_file path k)

  abbrev load_set : Option K.Flags → K.Store → Result K.Store
  load_set none k = ok k
  load_set (some flags) k = K.load_flags flags flag_key k

  -- The four layers, in ascending order of precedence.
  unfoldable pub layers : String → Option K.Flags → Result K.Store
  layers path flags = do
    k ← K.load_confmap defaults K.new
    k ← load_path path k
    k ← K.load_env (codes "FLOWHAND_") env_key k
    load_set flags k

  abbrev config_of : K.Store → Config
  config_of k = record {
    env = K.string k (codes "env");
    version = K.string k (codes "version");
    http = record {
      addr = K.string k (codes "http.addr");
      shutdown_timeout = K.duration k (codes "http.shutdown_timeout");
    };
    db = record {
      dsn = K.string k (codes "db.dsn");
      max_conns = int32 (K.int k (codes "db.max_conns"));
      min_conns = int32 (K.int k (codes "db.min_conns"));
      max_conn_lifetime = K.duration k (codes "db.max_conn_lifetime");
    };
    obs = record {
      log_level = K.string k (codes "obs.log_level");
      log_format = K.string k (codes "obs.log_format");
      otlp_endpoint = K.string k (codes "obs.otlp_endpoint");
      service_name = K.string k (codes "obs.service_name");
    };
  }

  unfoldable pub materialize : K.Store → Result Config
  materialize k =
      if out_of_range 1 (K.int k (codes "db.max_conns"))
      then err (errorf "db.max_conns out of range")
      else if out_of_range 0 (K.int k (codes "db.min_conns"))
      then err (errorf "db.min_conns out of range")
      else ok (config_of k)

  -- `Load`
  unfoldable pub load : String → Option K.Flags → Result Config
  load path flags = layers path flags >>= materialize
