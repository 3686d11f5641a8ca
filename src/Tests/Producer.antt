-- ===== src/Tests/Producer.antt =====
-- The reference producer and the configuration at concrete inputs.
use flowhand.Base.{
  ◌≡◌, refl, ℕ, true, false, ◌↔◌, ◌≢◌, ◌==◌, none, String, Option, some, List, [], ◌∷◌, ◌++◌, codes,
  nat_eq, if◌then◌else◌,
}
use flowhand.Failure.{GoError, Result, ok, err, errorf}
use flowhand.Demo.{start, run, produce, panicked, Ending, main_status}
use flowhand.Demo.Exit.{produce-panicked_iff}
use flowhand.Demo.Laws.{run-pairs_replayed, run-Replays, Replays, pairs_replayed}
use flowhand.Config.{pos, Key, Koanf, Config, layers, load, materialize}
use flowhand.Config.Laws.{InRange, load-InRange}

-- A pair that is replayed, and a pair whose first submit fails.
abbrev answers : List (Result String)
answers = ok "a" ∷ ok "a" ∷ err (errorf "refused") ∷ ok "b" ∷ []

run-pairs_replayed_example : (run answers start).replayed ≡ pairs_replayed answers
run-pairs_replayed_example = run-pairs_replayed answers

abbrev id_of : ℕ → String
id_of n = if nat_eq n 0 then "a" else "b"

replays : Replays id_of 0 answers
replays = (refl, (refl, (refl, tt)))

run-Replays_example : (run answers start).warnings ≡ 0
run-Replays_example = run-Replays id_of answers replays

-- `DEMO_INTERVAL` is "0s", which `time.ParseDuration` takes.
abbrev zero_interval : String → String
zero_interval name = if name == "DEMO_INTERVAL" then "0s" else ""

abbrev ending : Ending
ending = produce zero_interval (λ s. ok (pos 0)) (λ url path. ok path) (λ endpoint. answers) none

abbrev Joins : Type 0
Joins = (endpoint : String) × (◌≡◌ {A = Result String} (ok "/v1/tasks") (ok endpoint))

produce-panicked_iff_example :
    ((ending ≡ panicked) ↔ (Joins × (false ≡ false)))
    × (◌≡◌ {A = String} "0s" "" → ending ≢ panicked)
    × ((main_status ending ≡ 0) ↔ (Joins × (false ≡ true) × (◌≡◌ {A = Option GoError} none none)))
produce-panicked_iff_example =
    produce-panicked_iff zero_interval (λ s. ok (pos 0)) (λ url path. ok path) (λ endpoint. answers)
      none

-- A koanf whose numbers are all 10 whatever is loaded.
abbrev ten : Koanf
ten = record {
  Store = List (Key × String);
  Flags = Unit;
  new = [];
  load_confmap = λ layer k. ok (layer ++ k);
  load_file = λ path k. ok k;
  load_env = λ prefix transform k. ok ((transform (prefix ++ codes "DB_DSN"), "dsn") ∷ k);
  load_flags = λ flags transform k. ok ((transform (codes "log-level"), "debug") ∷ k);
  string = λ k key. "";
  int = λ k key. pos 10;
  duration = λ k key. pos 10;
}

abbrev loaded : Config
loaded = record {
  env = "";
  version = "";
  http = record { addr = ""; shutdown_timeout = pos 10 };
  db = record { dsn = ""; max_conns = pos 10; min_conns = pos 10; max_conn_lifetime = pos 10 };
  obs = record { log_level = ""; log_format = ""; otlp_endpoint = ""; service_name = "" };
}

ten_loads : load ten "" (some tt) ≡ ok loaded
unfolding load layers materialize
ten_loads = refl

load-InRange_example :
    (k : List (Key × String)) × (layers ten "" (some tt) ≡ ok k)
    × (InRange 1 loaded.db.max_conns × (loaded.db.max_conns ≡ pos 10))
    × (InRange 0 loaded.db.min_conns × (loaded.db.min_conns ≡ pos 10))
load-InRange_example = load-InRange ten "" (some tt) loaded ten_loads
