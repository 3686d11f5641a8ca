-- ===== src/Tests/Startup.antt =====
-- The telemetry and the commands at concrete inputs.
use flowhand.Base.{◌≡◌, refl, ◌↔◌, String, Option, none, some, List, [], ◌∷◌, ◌++◌}
use flowhand.Failure.{GoError, ok, errorf}
use flowhand.Config
use flowhand.Config.{Koanf, Key, pos, load, layers, materialize}
use flowhand.Obs
use flowhand.Obs.{Sdk, Attribute, Environment, Part, Process, init, shutdown}
use flowhand.Obs.Log
use flowhand.Obs.Log.{Slog, Attr, LogRecord, SpanContext, new_logger}
use flowhand.Obs.Log.Laws.{attrs, group, handle, derive, handle-derive}
use flowhand.Obs.Laws.{dev, Starts, shutdown-init}
use flowhand.Cli.{Env, run_e}
use flowhand.Cli.Laws.{begin, Ends, Nested, run_e-Outcome}

-- A handler that keeps its attributes, and an output of the attributes of each record.
abbrev lines : Slog
lines = record {
  H = List Attr;
  Out = List (List Attr);
  new_text_handler = λ level. [];
  new_json_handler = λ level. ("format", "json") ∷ [];
  with_attrs = λ h attrs. h ++ attrs;
  with_group = λ h name. h;
  handle = λ h r out. (none, (h ++ r.attrs) ∷ out);
}

abbrev hello : LogRecord
hello = record { level = Log.info; message = "hello"; attrs = [] }

abbrev span : SpanContext
span = record { trace_id = "t"; span_id = "s" }

handle-derive_example :
    handle lines
      (derive lines (attrs (("a", "1") ∷ []) ∷ group "" ∷ []) (new_logger lines "json" "info"))
      (some span)
      hello
      []
    ≡ (none, (("format", "json") ∷ ("a", "1") ∷ ("trace_id", "t") ∷ ("span_id", "s") ∷ []) ∷ [])
handle-derive_example =
    handle-derive lines "json" "info" (attrs (("a", "1") ∷ []) ∷ group "" ∷ []) (some span) hello []

-- Libraries that start.
abbrev sdk : Sdk
sdk = record {
  Resource = List Attribute;
  slog = lines;
  merge_default = λ attrs. ok attrs;
  new_otlp = λ endpoint. none;
  new_prometheus = none;
  runtime_start = none;
}

abbrev nothing : Process sdk
nothing = record {
  logger = none;
  tracer = none;
  propagators = [];
  meter = none;
  collectors = [];
  started = [];
  stopped = [];
}

-- A koanf in which every text is "dev", and every number 10.
abbrev all_dev : Koanf
all_dev = record {
  Store = Unit;
  Flags = Unit;
  new = tt;
  load_confmap = λ layer k. ok k;
  load_file = λ path k. ok k;
  load_env = λ prefix transform k. ok k;
  load_flags = λ flags transform k. ok k;
  string = λ k key. "dev";
  int = λ k key. pos 10;
  duration = λ k key. pos 10;
}

abbrev in_env : String → Config.Config
in_env env = record {
  env = env;
  version = "dev";
  http = record { addr = "dev"; shutdown_timeout = pos 10 };
  db = record { dsn = "dev"; max_conns = pos 10; min_conns = pos 10; max_conn_lifetime = pos 10 };
  obs = record {
    log_level = "dev";
    log_format = "dev";
    otlp_endpoint = "dev";
    service_name = "dev";
  };
}

-- The tracer's provider fails to shut down.
abbrev half : Part → Option GoError
half Obs.tracer_provider = some (errorf "timeout")
half _ = none

abbrev attributes : List Attribute
attributes =
    Obs.service_name "dev"
    ∷ Obs.service_version "dev"
    ∷ Obs.deployment_environment_name Obs.development
    ∷ []

sdk-Starts : Starts sdk (in_env "dev") Obs.development attributes
sdk-Starts = record { merges = refl; otlp = refl; prometheus = refl; runtime = refl }

shutdown-init_example :
    (funcs : List Part) × (q : Process sdk) × (init sdk (in_env "dev") nothing ≡ (ok funcs, q))
    × ((tp : Obs.TracerProvider sdk) × (q.tracer ≡ some tp) × (tp.resource ≡ attributes))
    × ((mp : Obs.MeterProvider sdk) × (q.meter ≡ some mp) × (mp.resource ≡ attributes))
    × ((shutdown sdk half (funcs, q)).2.stopped
        ≡ Obs.meter_provider ∷ Obs.tracer_provider ∷ q.stopped)
    × (((shutdown sdk half (funcs, q)).0 ≡ none)
        ↔ ((some (errorf "timeout") ≡ none) × (◌≡◌ {A = Option GoError} none none)))
    × (shutdown sdk half ((shutdown sdk half (funcs, q)).1, (shutdown sdk half (funcs, q)).2)
        ≡ (none, [], (shutdown sdk half (funcs, q)).2))
shutdown-init_example =
    shutdown-init sdk (in_env "dev") Obs.development attributes nothing half dev sdk-Starts

-- A database that can be reached, and a server that fails.
abbrev environment : Env all_dev
environment = record {
  config_path = "";
  flags = none;
  stop = half;
  parse_config =
      λ dsn. ok (record { max_conns = pos 4; min_conns = pos 0; max_conn_lifetime = pos 60 });
  connect = λ cfg. none;
  serve = λ cfg. some (errorf "address in use");
}

run_e-Outcome_example :
    Ends all_dev sdk environment nothing
      (run_e all_dev sdk environment (begin all_dev sdk environment nothing)).0
      (run_e all_dev sdk environment (begin all_dev sdk environment nothing)).1.process
    × Nested (run_e all_dev sdk environment (begin all_dev sdk environment nothing)).1.events
run_e-Outcome_example = run_e-Outcome all_dev sdk environment nothing
