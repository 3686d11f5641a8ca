-- ===== src/Oas/Options/Laws.antt =====
-- Of several options of the generated server, the last that is not nil wins.
use flowhand.Base.{
  ◌≡◌, refl, ◌∙◌, ap, Option, none, some, String, List, [], ◌∷◌, map, inl, inr, Bool-cases,
  if◌then◌else◌,
}
use flowhand.Failure.{GoError, or_else, ok}
use flowhand.Config.{ℤ, pos}
use flowhand.Config.Pool.{is_positive}
use flowhand.Oas.Router.{Bytes}
use flowhand.Oas.Http.{Exchange}
use flowhand.Oas.Server.{Handler, http_not_found}
use flowhand.Oas.Options.{
  Otel, init_otel, non_nil, option_func, otel_option_func, with_tracer_provider,
  with_meter_provider, with_attributes,
}
use flowhand.Oas.Options.Server.{
  ServerConfig, ServerOption, apply_server, apply_all, default_server, new_server_config,
  base_server, new_server, with_not_found, with_method_not_allowed, with_error_handler,
  with_path_prefix, with_middleware, with_max_multipart_memory,
}

-- The choice of the last setting that makes one.
abbrev pub last : {S X : Type 0} → (S → Option X) → List S → Option X
last pick [] = none
last pick (s ∷ ss) = or_else (last pick ss) (pick s)

non_nil-or_else :
    {X : Type 0} (o p : Option X) (x : X) → non_nil o (non_nil p x) ≡ non_nil (or_else o p) x
non_nil-or_else none p x = refl
non_nil-or_else (some o) p x = refl

module _ (O : Otel) (B Middleware : Type 0) (chain : List Middleware → Middleware) where
  -- A call of one of the functions that make options.
  pub data Setting : Type 0 where
    tracer_provider : Option O.TracerProvider → Setting
    meter_provider : Option O.MeterProvider → Setting
    attributes : List O.Attribute → Setting
    not_found : Option (Exchange B → Exchange B) → Setting
    method_not_allowed : Option (String → Exchange B → Exchange B) → Setting
    error_handler : Option (GoError → Exchange B → Exchange B) → Setting
    path_prefix : Bytes → Setting
    middleware : List Middleware → Setting
    max_multipart_memory : ℤ → Setting

  abbrev pub option_of : Setting → ServerOption O B Middleware
  option_of (tracer_provider p) = otel_option_func (with_tracer_provider O p)
  option_of (meter_provider p) = otel_option_func (with_meter_provider O p)
  option_of (attributes a) = otel_option_func (with_attributes O a)
  option_of (not_found h) = option_func (with_not_found O B Middleware h)
  option_of (method_not_allowed h) = option_func (with_method_not_allowed O B Middleware h)
  option_of (error_handler h) = option_func (with_error_handler O B Middleware h)
  option_of (path_prefix p) = option_func (with_path_prefix O B Middleware p)
  option_of (middleware ms) = option_func (with_middleware O B Middleware chain ms)
  option_of (max_multipart_memory n) = option_func (with_max_multipart_memory O B Middleware n)

  -- What a setting chooses for each field.
  abbrev pub its_tracer_provider : Setting → Option O.TracerProvider
  its_tracer_provider (tracer_provider p) = p
  its_tracer_provider _ = none

  abbrev pub its_meter_provider : Setting → Option O.MeterProvider
  its_meter_provider (meter_provider p) = p
  its_meter_provider _ = none

  abbrev pub its_not_found : Setting → Option (Exchange B → Exchange B)
  its_not_found (not_found h) = h
  its_not_found _ = none

  abbrev pub its_method_not_allowed : Setting → Option (Option (String → Exchange B → Exchange B))
  its_method_not_allowed (method_not_allowed (some h)) = some (some h)
  its_method_not_allowed _ = none

  abbrev pub its_error_handler : Setting → Option (GoError → Exchange B → Exchange B)
  its_error_handler (error_handler h) = h
  its_error_handler _ = none

  abbrev pub its_prefix : Setting → Option Bytes
  its_prefix (path_prefix p) = some p
  its_prefix _ = none

  abbrev pub its_max : Setting → Option ℤ
  its_max (max_multipart_memory n) = if is_positive n then some n else none
  its_max _ = none

  abbrev Cfg : Type 0
  Cfg = ServerConfig O B Middleware

  -- One field of the configuration after an option.
  abbrev Chooses : {X : Type 0} → (Setting → Option X) → (Cfg → X) → Setting → Cfg → Type 0
  Chooses pick read s c =
      read (apply_server O B Middleware (option_of s) c) ≡ non_nil (pick s) (read c)

  apply_all-last :
      {X : Type 0} (pick : Setting → Option X) (read : Cfg → X)
      → ((s : Setting) (c : Cfg) → Chooses pick read s c)
      → (ss : List Setting) (c : Cfg)
      → read (apply_all O B Middleware (map option_of ss) c) ≡ non_nil (last pick ss) (read c)
  apply_all-last pick read step [] c = refl
  apply_all-last pick read step (s ∷ ss) c =
      apply_all-last pick read step ss (apply_server O B Middleware (option_of s) c)
      ∙ ap (non_nil (last pick ss)) (step s c)
      ∙ non_nil-or_else (last pick ss) (pick s) (read c)

  abbrev the_tracer_provider : Cfg → O.TracerProvider
  the_tracer_provider c = non_nil c.otel.tracer_provider O.get_tracer_provider

  abbrev the_meter_provider : Cfg → O.MeterProvider
  the_meter_provider c = non_nil c.otel.meter_provider O.get_meter_provider

  choice :
      (s : Setting) (c : Cfg)
      → Chooses its_tracer_provider the_tracer_provider s c
        × Chooses its_meter_provider the_meter_provider s c
        × Chooses its_not_found (λ d. d.config.not_found) s c
        × Chooses its_method_not_allowed (λ d. d.config.method_not_allowed) s c
        × Chooses its_error_handler (λ d. d.config.error_handler) s c
        × Chooses its_prefix (λ d. d.config.prefix) s c
        × Chooses its_max (λ d. d.max_multipart_memory) s c
  choice (tracer_provider none) c = (refl, refl, refl, refl, refl, refl, refl)
  choice (tracer_provider (some p)) c = (refl, refl, refl, refl, refl, refl, refl)
  choice (meter_provider none) c = (refl, refl, refl, refl, refl, refl, refl)
  choice (meter_provider (some p)) c = (refl, refl, refl, refl, refl, refl, refl)
  choice (attributes a) c = (refl, refl, refl, refl, refl, refl, refl)
  choice (not_found none) c = (refl, refl, refl, refl, refl, refl, refl)
  choice (not_found (some h)) c = (refl, refl, refl, refl, refl, refl, refl)
  choice (method_not_allowed none) c = (refl, refl, refl, refl, refl, refl, refl)
  choice (method_not_allowed (some h)) c = (refl, refl, refl, refl, refl, refl, refl)
  choice (error_handler none) c = (refl, refl, refl, refl, refl, refl, refl)
  choice (error_handler (some h)) c = (refl, refl, refl, refl, refl, refl, refl)
  choice (path_prefix p) c = (refl, refl, refl, refl, refl, refl, refl)
  choice (middleware []) c = (refl, refl, refl, refl, refl, refl, refl)
  choice (middleware (m ∷ [])) c = (refl, refl, refl, refl, refl, refl, refl)
  choice (middleware (m ∷ n ∷ ms)) c = (refl, refl, refl, refl, refl, refl, refl)
  choice (max_multipart_memory n) c = elim (Bool-cases (is_positive n)) [
    | inl yes_positive ↦ rw yes_positive (refl, refl, refl, refl, refl, refl, refl)
    | inr not_positive ↦ rw not_positive (refl, refl, refl, refl, refl, refl, refl)
  ]

  -- Whatever options are given, `NewServer` succeeds if the three instruments can be made of the meter of
  -- the chosen provider, and its configuration has, of each of the providers, the handlers for unknown
  -- paths, wrong methods and errors, the prefix and the limit of memory, the last that was given and is not
  -- nil (a limit: positive), or else the default: the global provider, net/http's 404, no handler,
  -- ogen's error handler, no prefix and 32 MB.
  pub new_server-last :
      {State : Type 0} (default_error_handler : GoError → Exchange B → Exchange B)
      (h : Handler State) (ss : List Setting) (q e : O.Counter) (d : O.Histogram)
      → O.server_request_count_counter
          (some (O.meter (non_nil (last its_meter_provider ss) O.get_meter_provider)))
        ≡ ok q
      → O.server_errors_count_counter
          (some (O.meter (non_nil (last its_meter_provider ss) O.get_meter_provider)))
        ≡ ok e
      → O.server_duration_histogram
          (some (O.meter (non_nil (last its_meter_provider ss) O.get_meter_provider)))
        ≡ ok d
      → let cfg = new_server_config O B Middleware default_error_handler (map option_of ss) in
        (new_server O B Middleware default_error_handler h (map option_of ss)
          ≡ ok (record {
            h = h;
            base = record { cfg = cfg; requests = q; errors = e; duration = d };
          }))
        × (cfg.otel.tracer_provider
            ≡ some (non_nil (last its_tracer_provider ss) O.get_tracer_provider))
        × (cfg.otel.meter_provider
            ≡ some (non_nil (last its_meter_provider ss) O.get_meter_provider))
        × (cfg.config.not_found ≡ non_nil (last its_not_found ss) http_not_found)
        × (cfg.config.method_not_allowed ≡ non_nil (last its_method_not_allowed ss) none)
        × (cfg.config.error_handler ≡ non_nil (last its_error_handler ss) default_error_handler)
        × (cfg.config.prefix ≡ non_nil (last its_prefix ss) [])
        × (cfg.max_multipart_memory ≡ non_nil (last its_max ss) (pos 33554432))
  unfolding new_server base_server new_server_config init_otel
  new_server-last default_error_handler h ss q e d requests errors duration =
      let start = default_server O B Middleware default_error_handler in
      let tp =
        apply_all-last its_tracer_provider the_tracer_provider (λ s c. (choice s c).0) ss start in
      let mp =
        apply_all-last its_meter_provider the_meter_provider (λ s c. (choice s c).1) ss start in
      (
        rw mp (rw requests (rw errors (rw duration refl))),
        ap some tp,
        ap some mp,
        apply_all-last its_not_found (λ c. c.config.not_found) (λ s c. (choice s c).2) ss start,
        apply_all-last its_method_not_allowed (λ c. c.config.method_not_allowed)
            (λ s c. (choice s c).3) ss start,
        apply_all-last its_error_handler (λ c. c.config.error_handler) (λ s c. (choice s c).4) ss
            start,
        apply_all-last its_prefix (λ c. c.config.prefix) (λ s c. (choice s c).5) ss start,
        apply_all-last its_max (λ c. c.max_multipart_memory) (λ s c. (choice s c).6) ss start,
      )
