-- ===== src/App/Mux/Laws.antt =====
-- What reaches the generated server of `Run`, and with which configuration it is served.
use flowhand.Base.{
  ◌≡◌, ◌≢◌, ℕ, refl, true, Option, none, some, String, [], ◌∷◌, ◌++◌, nat_eq, Bool-cases, inl, inr,
  arith, Bool, if◌then◌else◌,
}
use flowhand.Failure.{GoError, ok}
use flowhand.Oas.Jx.{Jx}
use flowhand.Oas.Http.{Exchange}
use flowhand.Oas.Options.{Otel, init_otel, option_func}
use flowhand.Oas.Options.Server.{
  Server, new_server, new_server_config, base_server, with_error_handler,
}
use flowhand.Api.{error_handler}
use flowhand.Oas.Router
use flowhand.Oas.Router.{Bytes, slash, strip_prefix, tasks_path, serve_elem, Routed}
use flowhand.Oas.Server.{Handler}
use flowhand.App.{config}
use flowhand.App.Mux.{serve_mux, handled, redirected, api, new_oas_server}

nat_eq_lem : (a b : ℕ) → nat_eq a b ≡ true → a ≡ b
nat_eq_lem a b h = ground arith

strip_prefix-some : (p s rest : Bytes) → strip_prefix p s ≡ some rest → s ≡ p ++ rest
strip_prefix-some [] s rest h = cc h
strip_prefix-some (a ∷ p) [] rest h = cc h
strip_prefix-some (a ∷ p) (c ∷ s) rest h = elim (Bool-cases (nat_eq a c)) [
  | inl e ↦
      let h' : strip_prefix p s ≡ some rest = rw e at h in
      let k : s ≡ p ++ rest = strip_prefix-some p s rest h' in
      let same : a ≡ c = nat_eq_lem a c e in rw (k, same) refl
  | inr n ↦ let h' : ◌≡◌ {A = Option Bytes} none (some rest) = rw n at h in cc h'
]

-- A path that the router does not refuse as unknown begins with that of the tasks.
under_tasks :
    (method : String) (path : Bytes)
    → serve_elem method path ≢ Router.not_found
    → (rest : Bytes) × (path ≡ tasks_path ++ rest)
unfolding serve_elem
under_tasks method [] known = absurd (known refl)
under_tasks method (c ∷ elem) known = elim (Bool-cases (nat_eq c slash)) [
  | inl e ↦ stripped (strip_prefix tasks_path (c ∷ elem)) refl (rw e at known)
  | inr n ↦ absurd (known (rw n refl))
]
  where
    stripped :
        (o : Option Bytes)
        → strip_prefix tasks_path (c ∷ elem) ≡ o
        → Router.after_tasks method (strip_prefix tasks_path (c ∷ elem)) ≢ Router.not_found
        → (rest : Bytes) × (c ∷ elem ≡ tasks_path ++ rest)
    stripped none e known' = absurd (known' (rw e refl))
    stripped (some rest) e known' = (rest, strip_prefix-some tasks_path (c ∷ elem) rest e)

serve_mux_tasks :
    (clean : String → Bytes → Bool) (method : String) (rest : Bytes)
    → serve_mux clean method (tasks_path ++ rest)
      ≡ (if clean method (tasks_path ++ rest) then handled api else redirected)
unfolding serve_mux
serve_mux_tasks clean method rest = refl

-- Of the requests that the generated server would not answer with 404, those with a clean path reach it,
-- and only those with a path that net/http cleans are redirected: none of its paths, with whatever id, is
-- one of the endpoints for metrics and profiles.
pub serve_mux-serve_elem :
    (clean : String → Bytes → Bool) (method : String) (path : Bytes)
    → serve_elem method path ≢ Router.not_found
    → serve_mux clean method path ≡ (if clean method path then handled api else redirected)
serve_mux-serve_elem clean method path known =
    let (rest, same) = under_tasks method path known in rw same (serve_mux_tasks clean method rest)

-- If the instruments can be made of the global provider's meter, `Run` has its server: the handler is
-- the given one, and the configuration that of `App`.
pub new_oas_server-config :
    (O : Otel) (J : Jx) {State : Type 0} (Middleware : Type 0)
    (default_error_handler : GoError → Exchange J.Bytes → Exchange J.Bytes)
    (text : GoError → String) (h : Handler State) (q e : O.Counter) (d : O.Histogram)
    → O.server_request_count_counter (some (O.meter O.get_meter_provider)) ≡ ok q
    → O.server_errors_count_counter (some (O.meter O.get_meter_provider)) ≡ ok e
    → O.server_duration_histogram (some (O.meter O.get_meter_provider)) ≡ ok d
    → (s : Server O J.Bytes Middleware State) × (new_oas_server O J Middleware default_error_handler
          text h
        ≡ ok s)
      × (s.base.cfg.config ≡ config J text)
      × (s.base.cfg.middleware ≡ none)
unfolding new_oas_server new_server base_server new_server_config init_otel
new_oas_server-config O J Middleware default_error_handler text h q e d requests errors duration =
    let handled_by = with_error_handler O J.Bytes Middleware (some (error_handler J text)) in
    let cfg =
      new_server_config O J.Bytes Middleware default_error_handler (option_func handled_by ∷ []) in
    (
      record { h = h; base = record { cfg = cfg; requests = q; errors = e; duration = d } },
      rw requests (rw errors (rw duration refl)),
      refl,
      refl,
    )
