-- ===== src/Oas/Options/Client.antt =====
-- The client's part of internal/api/oas/oas_cfg_gen.go, and of oas_client_gen.go `NewClient` with the
-- server's URL. `ht.Client` and url.Parse are parameters.
pub mod Laws
use flowhand.Base.{◌&&◌, Option, none, some, List, [], ◌∷◌, nat_eq, if◌then◌else◌}
use flowhand.Failure.{Result, ok, ◌>>=◌}
use flowhand.Oas.Router.{Bytes, Url, is_empty, slash}
use flowhand.Oas.Options.{
  Otel, OtelConfig, zero_otel, init_otel, ConfigOption, option_func, otel_option_func,
}

-- `strings.TrimRight(s, "/")`
unfoldable pub trim_right : Bytes → Bytes
trim_right [] = []
trim_right (c ∷ s) =
    let rest = trim_right s in if is_empty rest && nat_eq c slash then [] else c ∷ rest

-- `trimTrailingSlashes`
abbrev pub trim_trailing_slashes : Url → Url
trim_trailing_slashes u = record { path = trim_right u.path; raw_path = trim_right u.raw_path }

-- `requestURL`, of the context's override that `WithServerURL` sets.
abbrev pub request_url : Option Url → Url → Url
request_url none server_url = server_url
request_url (some u) server_url = u

module _ (O : Otel) (HttpClient : Type 0) where
  -- `clientConfig`
  pub record ClientConfig : Type 0 where
    pub otel : OtelConfig O
    pub client : HttpClient

  abbrev pub ClientOption : Type 0
  ClientOption = ConfigOption O ClientConfig

  abbrev pub apply_client : ClientOption → ClientConfig → ClientConfig
  apply_client (option_func f) c = f c
  apply_client (otel_option_func f) c = record c { otel = f c.otel }

  abbrev pub apply_all : List ClientOption → ClientConfig → ClientConfig
  apply_all [] c = c
  apply_all (o ∷ opts) c = apply_all opts (apply_client o c)

  -- `newClientConfig`, with `http.DefaultClient`
  unfoldable pub new_client_config : HttpClient → List ClientOption → ClientConfig
  new_client_config default_client opts =
      let cfg = apply_all opts (record { otel = zero_otel O; client = default_client }) in
      record cfg { otel = init_otel O cfg.otel }

  -- `WithClient`
  abbrev pub with_client : Option HttpClient → ClientConfig → ClientConfig
  with_client none cfg = cfg
  with_client (some client) cfg = record cfg { client = client }

  -- `baseClient`
  pub record BaseClient : Type 0 where
    pub cfg : ClientConfig
    pub requests : O.Counter
    pub errors : O.Counter
    pub duration : O.Histogram

  unfoldable pub base_client : ClientConfig → Result BaseClient
  base_client cfg = do
    requests ← O.client_request_count_counter cfg.otel.meter
    errors ← O.client_errors_count_counter cfg.otel.meter
    duration ← O.client_duration_histogram cfg.otel.meter
    ok (record { cfg = cfg; requests = requests; errors = errors; duration = duration })

  -- `Client`
  pub record Client : Type 0 where
    pub server_url : Url
    pub base : BaseClient

  -- `NewClient`, of what `url.Parse` gives of the server's URL
  unfoldable pub new_client : HttpClient → Result Url → List ClientOption → Result Client
  new_client default_client parsed opts = do
    u ← parsed
    c ← base_client (new_client_config default_client opts)
    ok (record { server_url = trim_trailing_slashes u; base = c })
