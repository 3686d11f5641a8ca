-- ===== src/App/Mux.antt =====
-- The set-up of internal/server's `Run`: the generated server and the mux with the endpoints of
-- Prometheus and pprof. The mux is net/http's `ServeMux`: a redirect to the cleaned path if the path is
-- not clean, which is a parameter; otherwise the longest pattern that matches, where a pattern that ends
-- in a slash matches what begins with it, and a redirect to a pattern that is the path and a slash.
pub mod Laws
use flowhand.Base.{
  ◌≡◌, ◌≢◌, refl, ◌∙◌, sym, ap, Bool, true, false, ◌&&◌, ◌||◌, not, Option, none, some, String,
  List, [], ◌∷◌, ◌++◌, codes, ltb, length, nat_eq, if◌then◌else◌, Bool-cases, inl, inr,
}
use flowhand.Failure.{GoError, wrap, Result, ok, err, map_err, ◌>>=◌}
use flowhand.Oas.Jx.{Jx}
use flowhand.Oas.Http.{Exchange}
use flowhand.Oas.Options.{Otel, option_func}
use flowhand.Oas.Options.Server.{Server, new_server, with_error_handler}
use flowhand.Oas.Router.{Bytes, is_empty, slash, strip_prefix}
use flowhand.Oas.Server.{Handler}
use flowhand.Api.{error_handler}

pub data Endpoint : Type 0 where
  api metrics : Endpoint
  pprof_index pprof_cmdline pprof_profile pprof_symbol pprof_trace : Endpoint

-- The patterns of the mux, in the order in which they are registered.
abbrev pub mux : List (Bytes × Endpoint)
mux =
    (codes "/", api)
    ∷ (codes "/metrics", metrics)
    ∷ (codes "/debug/pprof/", pprof_index)
    ∷ (codes "/debug/pprof/cmdline", pprof_cmdline)
    ∷ (codes "/debug/pprof/profile", pprof_profile)
    ∷ (codes "/debug/pprof/symbol", pprof_symbol)
    ∷ (codes "/debug/pprof/trace", pprof_trace)
    ∷ []

-- What the mux does with a request.
pub data Dispatch : Type 0 where
  handled : Endpoint → Dispatch
  redirected missing : Dispatch

abbrev same : Bytes → Bytes → Bool
same [] [] = true
same (a ∷ s) (b ∷ t) = let rest = same s t in if nat_eq a b then rest else false
same _ _ = false

abbrev ends_in_slash : Bytes → Bool
ends_in_slash [] = false
ends_in_slash (c ∷ s) = let rest = ends_in_slash s in if is_empty s then nat_eq c slash else rest

abbrev is_some : {A : Type 0} → Option A → Bool
is_some none = false
is_some (some a) = true

abbrev matches : Bytes → Bytes → Bool
matches pattern path =
    if ends_in_slash pattern then is_some (strip_prefix pattern path) else same pattern path

abbrev longer : Option (Bytes × Endpoint) → Option (Bytes × Endpoint) → Option (Bytes × Endpoint)
longer none o = o
longer (some a) none = some a
longer (some (p, e)) (some (q, f)) = if ltb (length p) (length q) then some (q, f) else some (p, e)

abbrev longest : List (Bytes × Endpoint) → Bytes → Option (Bytes × Endpoint)
longest [] path = none
longest ((p, e) ∷ patterns) path =
    longer (if matches p path then some (p, e) else none) (longest patterns path)

abbrev registered : List (Bytes × Endpoint) → Bytes → Bool
registered [] path = false
registered ((p, e) ∷ patterns) path = same p path || registered patterns path

abbrev dispatched : List (Bytes × Endpoint) → Bytes → Option (Bytes × Endpoint) → Dispatch
dispatched patterns path none = missing
dispatched patterns path (some (p, e)) =
    if registered patterns (path ++ slash ∷ []) && not (same p path || ends_in_slash path)
    then redirected
    else handled e

-- `ServeMux.ServeHTTP` with the patterns of `Run`. `clean` is net/http's test that the path of a
-- request is its own cleaned path, without dot segments and double slashes, or its method CONNECT.
unfoldable pub serve_mux : (String → Bytes → Bool) → String → Bytes → Dispatch
serve_mux clean method path =
    if clean method path then dispatched mux path (longest mux path) else redirected

-- The generated server of `Run`, with its only option.
unfoldable pub new_oas_server :
    (O : Otel) (J : Jx) {State : Type 0} (Middleware : Type 0)
    → (GoError → Exchange J.Bytes → Exchange J.Bytes)
    → (GoError → String)
    → Handler State
    → Result (Server O J.Bytes Middleware State)
new_oas_server O J Middleware default_error_handler text h = map_err (wrap "new oas server") (
    new_server O J.Bytes Middleware default_error_handler h
      (option_func (with_error_handler O J.Bytes Middleware (some (error_handler J text))) ∷ []))
