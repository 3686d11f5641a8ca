-- ===== src/Tests/Options.antt =====
-- The options of the generated server and client at concrete inputs.
use flowhand.Base.{◌≡◌, refl, ℕ, Option, none, some, List, [], ◌∷◌, map, codes}
use flowhand.Failure.{GoError, ok}
use flowhand.Config.{pos}
use flowhand.Oas.Jx.{Value}
use flowhand.Oas.Http.{Exchange}
use flowhand.Oas.Server.{http_not_found}
use flowhand.Oas.Options.{Otel}
use flowhand.Oas.Options.Server.{new_server, new_server_config}
use flowhand.Oas.Options.Laws.{
  Setting, option_of, error_handler, path_prefix, max_multipart_memory, meter_provider,
  new_server-last,
}
use flowhand.Api.{handler}
use flowhand.Tests.Server.{first_deps}

-- Options of the generated server, over numbers for what OpenTelemetry makes.
abbrev numbers : Otel
numbers = record {
  TracerProvider = ℕ;
  MeterProvider = ℕ;
  Tracer = ℕ;
  Meter = ℕ;
  Attribute = ℕ;
  Counter = Option ℕ;
  Histogram = Option ℕ;
  get_tracer_provider = 1;
  get_meter_provider = 2;
  tracer = λ p. p;
  meter = λ p. p;
  server_request_count_counter = λ m. ok m;
  server_errors_count_counter = λ m. ok m;
  server_duration_histogram = λ m. ok m;
  client_request_count_counter = λ m. ok m;
  client_errors_count_counter = λ m. ok m;
  client_duration_histogram = λ m. ok m;
}

abbrev chain : List ℕ → ℕ
chain ms = 0

abbrev same : GoError → Exchange Value → Exchange Value
same e x = x

-- The error handler is set, and then left alone by nil.
abbrev settings : List (Setting numbers Value ℕ chain)
settings =
    error_handler (some same)
    ∷ path_prefix (codes "/a")
    ∷ meter_provider (some 3)
    ∷ path_prefix (codes "/b")
    ∷ error_handler none
    ∷ max_multipart_memory (pos 0)
    ∷ []

new_server-last_example :
    let cfg =
      new_server_config numbers Value ℕ
        (λ e x. http_not_found x)
        (map (option_of numbers Value ℕ chain) settings) in
    (new_server numbers Value ℕ
        (λ e x. http_not_found x)
        (handler first_deps)
        (map (option_of numbers Value ℕ chain) settings)
      ≡ ok (record {
        h = handler first_deps;
        base = record { cfg = cfg; requests = some 3; errors = some 3; duration = some 3 };
      }))
    × (cfg.otel.tracer_provider ≡ some 1)
    × (cfg.otel.meter_provider ≡ some 3)
    × (cfg.config.not_found ≡ http_not_found)
    × (cfg.config.method_not_allowed ≡ none)
    × (cfg.config.error_handler ≡ same)
    × (cfg.config.prefix ≡ codes "/b")
    × (cfg.max_multipart_memory ≡ pos 33554432)
new_server-last_example =
    new_server-last numbers Value ℕ chain (λ e x. http_not_found x) (handler first_deps) settings
      (some 3) (some 3) (some 3) refl refl refl
