-- ===== src/Obs/Laws.antt =====
-- When telemetry comes up, and that shutting it down stops all of it once.
use flowhand.Base.{
  ◌≡◌, refl, ◌↔◌, inl, inr, ◌==◌, String, Option, none, some, List, [], ◌∷◌, Bool-cases, eq_iff,
}
use flowhand.Failure.{GoError, ok, err, errors_join, errorf, wrap}
use flowhand.Config.{Config}
use flowhand.Obs
use flowhand.Obs.{
  Sdk, Process, Part, Environment, Attribute, environment, init, shutdown, new_resource,
  new_tracer_provider, new_meter_provider, service_name, service_version,
  deployment_environment_name,
}

-- The environments, by the names of the configuration.
pub data Named : String → Environment → Type 0 where
  dev : Named "dev" Obs.development
  staging : Named "staging" Obs.staging
  prod : Named "prod" Obs.production

-- The attributes that identify the process.
abbrev pub identity : Config → Environment → List Attribute
identity cfg env =
    service_name cfg.obs.service_name
    ∷ service_version cfg.version
    ∷ deployment_environment_name env
    ∷ []

module _ (S : Sdk) where
  -- The libraries start, with a resource of the attributes `env`.
  pub record Starts (cfg : Config) (env : Environment) (res : S.Resource) : Type 0 where
    pub merges : S.merge_default (identity cfg env) ≡ ok res
    pub otlp : S.new_otlp cfg.obs.otlp_endpoint ≡ none
    pub prometheus : S.new_prometheus ≡ none
    pub runtime : S.runtime_start ≡ none

  environment-Named : (s : String) (env : Environment) → Named s env → environment s ≡ ok env
  environment-Named s env dev = refl
  environment-Named s env staging = refl
  environment-Named s env prod = refl

  new_resource_ok :
      (cfg : Config) (env : Environment) (res : S.Resource)
      → Named cfg.env env
      → S.merge_default (identity cfg env) ≡ ok res
      → new_resource S cfg ≡ ok res
  unfolding new_resource
  new_resource_ok cfg env res named merges =
      rw (environment-Named cfg.env env named) (rw merges refl)

  module _ (cfg : Config) (env : Environment) (res : S.Resource) (named : Named cfg.env env)
      (starts : Starts cfg env res) where
    abbrev the_tracer : Obs.TracerProvider S
    the_tracer = record { batch_timeout_ms = 1000; resource = res }

    abbrev the_meter : Obs.MeterProvider S
    the_meter = record { resource = res; views = Obs.ms_view S ∷ Obs.s_view S ∷ [] }

    new_tracer_provider_ok :
        (p : Process S)
        → new_tracer_provider S cfg p ≡ (
          ok the_tracer,
          record p { started = Obs.tracer_provider ∷ Obs.otlp_exporter ∷ p.started },
        )
    unfolding new_tracer_provider
    new_tracer_provider_ok p =
        rw starts.otlp (rw (new_resource_ok cfg env res named starts.merges) refl)

    new_meter_provider_ok :
        (p : Process S)
        → new_meter_provider S cfg p ≡ (
          ok the_meter,
          record p {
            started =
                Obs.runtime_metrics ∷ Obs.meter_provider ∷ Obs.prometheus_exporter ∷ p.started;
          },
        )
    unfolding new_meter_provider new_resource
    new_meter_provider_ok p =
        rw starts.prometheus
          (rw (environment-Named cfg.env env named) (rw starts.merges (rw starts.runtime refl)))

    -- The process with telemetry.
    abbrev up : Process S → Process S
    up p = record {
      logger = some (Obs.Log.logger_of S.slog cfg.obs);
      tracer = some the_tracer;
      propagators = "tracecontext" ∷ "baggage" ∷ [];
      meter = some the_meter;
      collectors = "go" ∷ "process" ∷ [];
      started =
          Obs.runtime_metrics ∷ Obs.meter_provider ∷ Obs.prometheus_exporter ∷ Obs.tracer_provider
          ∷ Obs.otlp_exporter ∷ p.started;
      stopped = p.stopped;
    }

    init_ok :
        (p : Process S) → init S cfg p ≡ (ok (Obs.tracer_provider ∷ Obs.meter_provider ∷ []), up p)
    unfolding init
    init_ok p = rw (new_tracer_provider_ok _) (rw (new_meter_provider_ok _) refl)

  errors_join-none :
      (e f : Option GoError)
      → (errors_join (errors_join none e) f ≡ none) ↔ ((e ≡ none) × (f ≡ none))
  errors_join-none none none = ((λ _. (refl, refl)), (λ _. refl))
  errors_join-none none (some f) = ((λ h. cc h), (λ h. cc (h.1)))
  errors_join-none (some e) none = ((λ h. cc h), (λ h. cc (h.0)))
  errors_join-none (some e) (some f) = ((λ h. cc h), (λ h. cc (h.0)))

  -- With libraries that start and the name of a known environment, `Init` succeeds; both global providers
  -- then carry one resource, that of the service, its version and the environment. The function it returns
  -- shuts down the tracer's and the meter's provider, each once, in this order, also if the first one
  -- fails, with an error exactly if one of the two has one; and called again it does nothing.
  pub shutdown-init :
      (cfg : Config) (env : Environment) (res : S.Resource) (p : Process S)
      (fn : Part → Option GoError)
      → Named cfg.env env
      → Starts cfg env res
      → (funcs : List Part) × (q : Process S) × (init S cfg p ≡ (ok funcs, q))
        × ((tp : Obs.TracerProvider S) × (q.tracer ≡ some tp) × (tp.resource ≡ res))
        × ((mp : Obs.MeterProvider S) × (q.meter ≡ some mp) × (mp.resource ≡ res))
        × ((shutdown S fn (funcs, q)).2.stopped
            ≡ Obs.meter_provider ∷ Obs.tracer_provider ∷ q.stopped)
        × (((shutdown S fn (funcs, q)).0 ≡ none)
            ↔ ((fn Obs.tracer_provider ≡ none) × (fn Obs.meter_provider ≡ none)))
        × (shutdown S fn ((shutdown S fn (funcs, q)).1, (shutdown S fn (funcs, q)).2)
            ≡ (none, [], (shutdown S fn (funcs, q)).2))
  unfolding shutdown
  shutdown-init cfg env res p fn named starts = (
    Obs.tracer_provider ∷ Obs.meter_provider ∷ [],
    up cfg env res named starts p,
    init_ok cfg env res named starts p,
    (the_tracer cfg env res named starts, refl, refl),
    (the_meter cfg env res named starts, refl, refl),
    refl,
    errors_join-none (fn Obs.tracer_provider) (fn Obs.meter_provider),
    refl,
  )

  -- The name is not that of an environment.
  environment_unknown :
      (s : String) → ((env : Environment) → ¬ Named s env) → (e : GoError) × (environment s ≡ err e)
  environment_unknown s unknown = elim (Bool-cases (s == "dev")) [
    | inl d ↦
        let named : Named s Obs.development = rw ((eq_iff s "dev").0 d) dev in
        elim (unknown Obs.development named) [ ]
    | inr d ↦ elim (Bool-cases (s == "staging")) [
      | inl t ↦
          let named : Named s Obs.staging = rw ((eq_iff s "staging").0 t) staging in
          elim (unknown Obs.staging named) [ ]
      | inr t ↦ elim (Bool-cases (s == "prod")) [
        | inl r ↦
            let named : Named s Obs.production = rw ((eq_iff s "prod").0 r) prod in
            elim (unknown Obs.production named) [ ]
        | inr r ↦ (errorf "unknown env (want dev|staging|prod)", rw d (rw t (rw r refl)))
      ]
    ]
  ]

  -- With any other name of an environment `Init` fails, whatever the libraries do, and installs
  -- neither a tracer's nor a meter's provider.
  pub init_unknown :
      (cfg : Config) (p : Process S)
      → ((env : Environment) → ¬ Named cfg.env env)
      → ((e : GoError) × ((init S cfg p).0 ≡ err e))
        × ((init S cfg p).1.tracer ≡ p.tracer)
        × ((init S cfg p).1.meter ≡ p.meter)
  unfolding init new_tracer_provider new_resource
  init_unknown cfg p unknown =
      let (e, no_env) = environment_unknown cfg.env unknown in
      tried (S.new_otlp cfg.obs.otlp_endpoint) refl e no_env
    where
      tried :
          (o : Option GoError)
          → S.new_otlp cfg.obs.otlp_endpoint ≡ o
          → (e : GoError) → environment cfg.env ≡ err e
          → ((f : GoError) × ((init S cfg p).0 ≡ err f))
            × ((init S cfg p).1.tracer ≡ p.tracer)
            × ((init S cfg p).1.meter ≡ p.meter)
      tried none made e no_env = (
        (wrap "merge resource" e, rw made (rw no_env refl)),
        rw made (rw no_env refl),
        rw made (rw no_env refl),
      )
      tried (some f) made e no_env = ((f, rw made refl), rw made refl, rw made refl)
