-- ===== src/Oas/Options/Server.antt =====
-- The server's part of internal/api/oas/oas_cfg_gen.go, and `NewServer` of oas_server_gen.go. The chain of
-- middlewares is ogen's.
use flowhand.Base.{Option, none, some, String, List, [], ◌∷◌, if◌then◌else◌}
use flowhand.Failure.{GoError, Result, ok, ◌>>=◌}
use flowhand.Config.{ℤ, pos}
use flowhand.Config.Pool.{is_positive}
use flowhand.Oas.Router.{Bytes}
use flowhand.Oas.Http.{Exchange}
use flowhand.Oas.Server.{Config, Handler, http_not_found}
use flowhand.Oas.Options.{
  Otel, OtelConfig, zero_otel, init_otel, ConfigOption, option_func, otel_option_func,
}

module _ (O : Otel) (B Middleware : Type 0) where
  -- `serverConfig`: what the handlers read of it, and the rest.
  pub record ServerConfig : Type 0 where
    pub otel : OtelConfig O
    pub config : Config B
    pub middleware : Option Middleware
    pub max_multipart_memory : ℤ

  abbrev pub ServerOption : Type 0
  ServerOption = ConfigOption O ServerConfig

  abbrev pub apply_server : ServerOption → ServerConfig → ServerConfig
  apply_server (option_func f) c = f c
  apply_server (otel_option_func f) c = record c { otel = f c.otel }

  abbrev pub apply_all : List ServerOption → ServerConfig → ServerConfig
  apply_all [] c = c
  apply_all (o ∷ opts) c = apply_all opts (apply_server o c)

  -- The literal of `newServerConfig`, with `ogenerrors.DefaultErrorHandler`: 32 MB are 32 << 20.
  abbrev pub default_server : (GoError → Exchange B → Exchange B) → ServerConfig
  default_server default_error_handler = record {
    otel = zero_otel O;
    config = record {
      prefix = [];
      not_found = http_not_found;
      method_not_allowed = none;
      error_handler = default_error_handler;
    };
    middleware = none;
    max_multipart_memory = pos 33554432;
  }

  -- `newServerConfig`
  unfoldable pub new_server_config :
      (GoError → Exchange B → Exchange B) → List ServerOption → ServerConfig
  new_server_config default_error_handler opts =
      let cfg = apply_all opts (default_server default_error_handler) in
      record cfg { otel = init_otel O cfg.otel }

  -- `WithNotFound`, `WithMethodNotAllowed`, `WithErrorHandler`, `WithPathPrefix`
  abbrev pub with_not_found : Option (Exchange B → Exchange B) → ServerConfig → ServerConfig
  with_not_found none cfg = cfg
  with_not_found (some h) cfg = record cfg { config = record cfg.config { not_found = h } }

  abbrev pub with_method_not_allowed :
      Option (String → Exchange B → Exchange B) → ServerConfig → ServerConfig
  with_method_not_allowed none cfg = cfg
  with_method_not_allowed (some h) cfg = record cfg {
    config = record cfg.config { method_not_allowed = some h };
  }

  abbrev pub with_error_handler :
      Option (GoError → Exchange B → Exchange B) → ServerConfig → ServerConfig
  with_error_handler none cfg = cfg
  with_error_handler (some h) cfg = record cfg { config = record cfg.config { error_handler = h } }

  abbrev pub with_path_prefix : Bytes → ServerConfig → ServerConfig
  with_path_prefix prefix cfg = record cfg { config = record cfg.config { prefix = prefix } }

  -- `WithMiddleware`, with ogen's `ChainMiddlewares`
  abbrev pub with_middleware :
      (List Middleware → Middleware) → List Middleware → ServerConfig → ServerConfig
  with_middleware chain [] cfg = record cfg { middleware = none }
  with_middleware chain (m ∷ []) cfg = record cfg { middleware = some m }
  with_middleware chain (m ∷ n ∷ ms) cfg = record cfg { middleware = some (chain (m ∷ n ∷ ms)) }

  abbrev pub with_max_multipart_memory : ℤ → ServerConfig → ServerConfig
  with_max_multipart_memory max cfg =
      if is_positive max then record cfg { max_multipart_memory = max } else cfg

  -- `baseServer`
  pub record BaseServer : Type 0 where
    pub cfg : ServerConfig
    pub requests : O.Counter
    pub errors : O.Counter
    pub duration : O.Histogram

  unfoldable pub base_server : ServerConfig → Result BaseServer
  base_server cfg = do
    requests ← O.server_request_count_counter cfg.otel.meter
    errors ← O.server_errors_count_counter cfg.otel.meter
    duration ← O.server_duration_histogram cfg.otel.meter
    ok (record { cfg = cfg; requests = requests; errors = errors; duration = duration })

  -- `Server`
  pub record Server (State : Type 0) : Type 0 where
    pub h : Handler State
    pub base : BaseServer

  -- `NewServer`
  unfoldable pub new_server :
      {State : Type 0}
      → (GoError → Exchange B → Exchange B)
      → Handler State
      → List ServerOption
      → Result (Server State)
  new_server default_error_handler h opts = do
    s ← base_server (new_server_config default_error_handler opts)
    ok (record { h = h; base = s })
