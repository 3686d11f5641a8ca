-- ===== src/Obs.antt =====
-- internal/obs: resource.go, tracing.go, metrics.go and shutdown.go. OpenTelemetry, Prometheus and
-- the runtime's metrics are the record `Sdk`; `Process` is what they change outside. The handler of
-- OpenTelemetry's own errors only logs them and is not modelled.
pub mod Log
pub mod Laws
use flowhand.Base.{ℕ, ◌==◌, String, Option, none, some, List, [], ◌∷◌, ◌++◌, if◌then◌else◌}
use flowhand.Failure.{GoError, errorf, wrap, Result, ok, err, map_err, of_error, errors_join}
use flowhand.Action.{Action, ◌>>=◌, ◌>>◌, return, lift}
use flowhand.Config.{Config}
use flowhand.Obs.Log.{Slog, Handler, logger_of}

pub data Environment : Type 0 where
  development staging production : Environment

-- The attributes that the program sets, by semconv's constructors.
pub data Attribute : Type 0 where
  service_name service_version : String → Attribute
  deployment_environment_name : Environment → Attribute

-- `metric.NewView` with explicit buckets, their boundaries in thousandths of the unit.
pub record View : Type 0 where
  pub name : String
  pub unit : String
  pub boundaries : List ℕ

-- What may fail of the libraries.
pub record Sdk : Type 1 where
  pub Resource : Type 0
  pub slog : Slog
  -- `resource.Merge(resource.Default(), resource.NewWithAttributes(semconv.SchemaURL, ...))`
  pub merge_default : List Attribute → Result Resource
  -- `otlptracegrpc.New` of an endpoint, `otelprom.New` of the registry, and `runtime.Start`
  pub new_otlp : String → Option GoError
  pub new_prometheus : Option GoError
  pub runtime_start : Option GoError

-- What runs once it was made.
pub data Part : Type 0 where
  otlp_exporter tracer_provider prometheus_exporter meter_provider runtime_metrics : Part

-- The environment, by the names of the configuration.
abbrev pub environment : String → Result Environment
environment env =
    if env == "dev"
    then ok development
    else if env == "staging"
    then ok staging
    else if env == "prod"
    then ok production
    else err (errorf "unknown env (want dev|staging|prod)")

module _ (S : Sdk) where
  -- A `trace.TracerProvider` and a `metric.MeterProvider`, by what they are made of.
  pub record TracerProvider : Type 0 where
    pub batch_timeout_ms : ℕ
    pub resource : S.Resource

  pub record MeterProvider : Type 0 where
    pub resource : S.Resource
    pub views : List View

  -- The process' globals, and the parts that were started and those that were told to shut down, the
  -- latest first.
  pub record Process : Type 0 where
    pub logger : Option (Handler S.slog)
    pub tracer : Option TracerProvider
    pub propagators : List String
    pub meter : Option MeterProvider
    pub collectors : List String
    pub started : List Part
    pub stopped : List Part

  -- `newResource`
  unfoldable pub new_resource : Config → Result S.Resource
  new_resource cfg = add_env (environment cfg.env)
    where
      add_env : Result Environment → Result S.Resource
      add_env (err e) = err e
      add_env (ok env) = S.merge_default (
          service_name cfg.obs.service_name
          ∷ service_version cfg.version
          ∷ deployment_environment_name env
          ∷ [])

  -- A part that can fail to start.
  abbrev starts : Part → Option GoError → Action Process (Unit {0})
  starts part none p = (ok tt, record p { started = part ∷ p.started })
  starts part (some e) p = (err e, p)

  abbrev wrapped : String → Option GoError → Option GoError
  wrapped text none = none
  wrapped text (some e) = some (wrap text e)

  -- `NewTracerProvider`
  unfoldable pub new_tracer_provider : Config → Action Process TracerProvider
  new_tracer_provider cfg = do
    starts otlp_exporter (S.new_otlp cfg.obs.otlp_endpoint)
    res ← lift (map_err (wrap "merge resource") (new_resource cfg))
    starts tracer_provider none
    return (record { batch_timeout_ms = 1000; resource = res })

  abbrev pub ms_view : View
  ms_view = record {
    name = "*.duration";
    unit = "ms";
    boundaries =
        5000 ∷ 10000 ∷ 20000 ∷ 30000 ∷ 40000 ∷ 50000 ∷ 75000 ∷ 100000 ∷ 250000 ∷ 500000 ∷ 1000000
        ∷ [];
  }

  abbrev pub s_view : View
  s_view = record {
    name = "*.duration";
    unit = "s";
    boundaries = 5 ∷ 10 ∷ 20 ∷ 30 ∷ 40 ∷ 50 ∷ 75 ∷ 100 ∷ 250 ∷ 500 ∷ 1000 ∷ [];
  }

  -- `NewMeterProvider`
  unfoldable pub new_meter_provider : Config → Action Process MeterProvider
  new_meter_provider cfg = do
    starts prometheus_exporter (wrapped "prometheus exporter" S.new_prometheus)
    res ← lift (map_err (wrap "merge resource") (new_resource cfg))
    starts meter_provider none
    starts runtime_metrics (wrapped "runtime metrics" S.runtime_start)
    return (record { resource = res; views = ms_view ∷ s_view ∷ [] })

  abbrev set_logger : Config → Action Process (Unit {0})
  set_logger cfg p = (ok tt, record p { logger = some (logger_of S.slog cfg.obs) })

  abbrev set_tracer_provider : TracerProvider → Action Process (Unit {0})
  set_tracer_provider tp p =
      (ok tt, record p { tracer = some tp; propagators = "tracecontext" ∷ "baggage" ∷ [] })

  abbrev register_collectors : Action Process (Unit {0})
  register_collectors p = (ok tt, record p { collectors = "go" ∷ "process" ∷ [] })

  abbrev set_meter_provider : MeterProvider → Action Process (Unit {0})
  set_meter_provider mp p = (ok tt, record p { meter = some mp })

  -- `Init`: its result is the `shutdownFuncs` that the closure captures.
  unfoldable pub init : Config → Action Process (List Part)
  init cfg = do
    set_logger cfg
    tp ← new_tracer_provider cfg
    set_tracer_provider tp
    register_collectors
    mp ← new_meter_provider cfg
    set_meter_provider mp
    return (tracer_provider ∷ meter_provider ∷ [])

  -- The loop of the closure, with what each `Shutdown` returns.
  abbrev stop_all :
      (Part → Option GoError) → List Part → Option GoError → Process → Option GoError × Process
  stop_all fn [] e p = (e, p)
  stop_all fn (part ∷ parts) e p =
      stop_all fn parts (errors_join e (fn part)) (record p { stopped = part ∷ p.stopped })

  -- `shutdownFunc`, on the captured `shutdownFuncs`, which it leaves empty.
  unfoldable pub shutdown :
      (Part → Option GoError) → List Part × Process → Option GoError × List Part × Process
  shutdown fn (shutdown_funcs, p) = let (e, q) = stop_all fn shutdown_funcs none p in (e, [], q)
