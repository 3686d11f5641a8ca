-- ===== src/Cli/Laws.antt =====
-- What the server's command returns and leaves behind, on every path.
use mathlib.Core.Path.{subst}
use flowhand.Base.{◌≡◌, refl, ◌∙◌, sym, ap, ◌↔◌, Option, none, some, List, [], ◌∷◌, ◌++◌}
use flowhand.Failure.{GoError, wrap, Result, ok, err}
use flowhand.Config.{Koanf, Config, load}
use flowhand.Obs.{Sdk, Process, Part, init, shutdown}
use flowhand.Cli
use flowhand.Cli.{
  Resource, Event, acquired, released, served, shutdown_failed, Env, Command, World, new_pool,
  run_e, run_command, exit_status,
}

-- What is acquired is released once, the latest first, whatever happens in between; a note may stand
-- after a release.
pub data Nested : List Event → Type 0 where
  quiet : Nested []
  serves : Nested (served ∷ [])
  around :
      (r : Resource) {es : List Event} → Nested es → Nested (acquired r ∷ es ++ released r ∷ [])
  noted : {es : List Event} → Nested es → Nested (es ++ shutdown_failed ∷ [])

module _ (K : Koanf) (S : Sdk) (env : Env K) (p : Process S) where
  abbrev pub begin : World K S env
  begin = record { process = p; events = [] }

  -- How the command ends: the error, whether the server has run, and the telemetry that is left. A
  -- failing `Init` leaves running what it had started; after a successful one its shutdown function
  -- has been called.
  pub data Ends : Option GoError → Process S → Type 0 where
    no_config :
        (e : GoError)
        → load K env.config_path env.flags ≡ err e
        → Ends (some (wrap "load config" e)) p
    no_telemetry :
        (cfg : Config) (e : GoError)
        → load K env.config_path env.flags ≡ ok cfg
        → (init S cfg p).0 ≡ err e
        → Ends (some (wrap "init obs" e)) (init S cfg p).1
    no_pool :
        (cfg : Config) (funcs : List Part) (e : GoError)
        → load K env.config_path env.flags ≡ ok cfg
        → (init S cfg p).0 ≡ ok funcs
        → new_pool K S env cfg.db ≡ err e
        → Ends (some (wrap "pool" e)) (shutdown S env.stop (funcs, (init S cfg p).1)).2
    has_run :
        (cfg : Config) (funcs : List Part)
        → load K env.config_path env.flags ≡ ok cfg
        → (init S cfg p).0 ≡ ok funcs
        → new_pool K S env cfg.db ≡ ok tt
        → Ends (env.serve cfg) (shutdown S env.stop (funcs, (init S cfg p).1)).2

  abbrev Outcome : Option GoError × World K S env → Type 0
  Outcome (e, w) = Ends e w.process × Nested w.events

  -- The deferred shutdown of telemetry, failing or not, leaves the events nested.
  shut-Nested :
      (e : Option GoError) (es : List Event) (q : Process S)
      (o : Option GoError × List Part × Process S)
      → Ends e o.2
      → Nested (es)
      → Outcome (
          Cli.deferred K S env Cli.signals
            (e, Cli.shut K S env o (record { process = q; events = acquired Cli.signals ∷ es })))
  shut-Nested e es q (none, captured, p') ends nested = (ends, around Cli.signals nested)
  shut-Nested e es q (some f, captured, p') ends nested = (ends, around Cli.signals (noted nested))

  -- The command once telemetry is up.
  pool_step :
      (cfg : Config) (funcs : List Part) (q : Process S) (r : Result (Unit {0}))
      → load K env.config_path env.flags ≡ ok cfg
      → init S cfg p ≡ (ok funcs, q)
      → new_pool K S env cfg.db ≡ r
      → Outcome (
          Cli.deferred K S env Cli.signals (
            Cli.deferred_shutdown K S env funcs (
              Cli.with_pool K S env cfg r (record {
                process = q;
                events = acquired Cli.signals ∷ acquired Cli.telemetry ∷ [];
              }))))
  pool_step cfg funcs q (err e) loaded up failed =
      shut-Nested (some (wrap "pool" e)) (acquired Cli.telemetry ∷ released Cli.telemetry ∷ []) q
        (shutdown S env.stop (funcs, q))
        (subst (λ x. Ends (some (wrap "pool" e)) (shutdown S env.stop (funcs, x)).2)
          (ap (λ o. o.1) up) (no_pool cfg funcs e loaded (ap (λ o. o.0) up) failed))
        (around Cli.telemetry quiet)
  pool_step cfg funcs q (ok tt) loaded up opened =
      shut-Nested (env.serve cfg)
        (acquired Cli.telemetry
          ∷ acquired Cli.pool
          ∷ served
          ∷ released Cli.pool
          ∷ released Cli.telemetry
          ∷ [])
        q (shutdown S env.stop (funcs, q))
        (subst (λ x. Ends (env.serve cfg) (shutdown S env.stop (funcs, x)).2) (ap (λ o. o.1) up)
          (has_run cfg funcs loaded (ap (λ o. o.0) up) opened))
        (around Cli.telemetry (around Cli.pool serves))

  -- The command once it has its configuration.
  telemetry_step :
      (cfg : Config) (o : Result (List Part) × Process S)
      → load K env.config_path env.flags ≡ ok cfg
      → init S cfg p ≡ o
      → Outcome (
          Cli.deferred K S env Cli.signals (
            Cli.with_telemetry K S env cfg o
              (record { process = p; events = acquired Cli.signals ∷ [] })))
  telemetry_step cfg (err e, q) loaded failed = (
    subst (Ends (some (wrap "init obs" e))) (ap (λ o. o.1) failed)
        (no_telemetry cfg e loaded (ap (λ o. o.0) failed)),
    around Cli.signals quiet,
  )
  telemetry_step cfg (ok funcs, q) loaded up =
      pool_step cfg funcs q (new_pool K S env cfg.db) loaded up refl

  config_step :
      (r : Result Config)
      → load K env.config_path env.flags ≡ r
      → Outcome (Cli.with_config K S env r begin)
  config_step (err e) failed = (no_config e failed, quiet)
  config_step (ok cfg) loaded = telemetry_step cfg (init S cfg p) loaded refl

  -- The server's command ends with the error of the first step that fails, and with that of the server if
  -- none does, a failure to shut telemetry down notwithstanding. On each path the signals, the shutdown
  -- function that a successful `Init` returned and the pool are released once if they were acquired, in
  -- reverse order, the server running in between. What a failing `Init` had started is not: the process
  -- keeps its parts as `Init` left them.
  pub run_e-Outcome : Outcome (run_e K S env begin)
  unfolding run_e
  run_e-Outcome = config_step (load K env.config_path env.flags) refl

  abbrev Served : Type 0
  Served =
      (cfg : Config) × (funcs : List Part) × (load K env.config_path env.flags ≡ ok cfg)
      × ((init S cfg p).0 ≡ ok funcs)
      × (new_pool K S env cfg.db ≡ ok tt)
      × (env.serve cfg ≡ none)

  Ends-none : {o : Option GoError} {q : Process S} → Ends o q → o ≡ none → Served
  Ends-none (no_config e h) n = cc n
  Ends-none (no_telemetry cfg e h t) n = cc n
  Ends-none (no_pool cfg funcs e h t d) n = cc n
  Ends-none (has_run cfg funcs h t d) n = (cfg, funcs, h, t, d, n)

  exit_status-none : (o : Option GoError) → exit_status o ≡ 0 → o ≡ none
  exit_status-none none h = refl
  exit_status-none (some e) h = cc h

  Served-none : {o : Option GoError} {q : Process S} → Ends o q → Served → o ≡ none
  Served-none (no_config e h) (cfg, funcs, a, b, c, d) = cc (sym h ∙ a)
  Served-none (no_telemetry cfg' e h t) (cfg, funcs, a, b, c, d) =
      let same : ok cfg' ≡ ok cfg = sym h ∙ a in
      let k : cfg' ≡ cfg = cc same in
      let clash : err e ≡ ok funcs = sym t ∙ ap (λ x. (init S x p).0) k ∙ b in cc clash
  Served-none (no_pool cfg' funcs' e h t l) (cfg, funcs, a, b, c, d) =
      let same : ok cfg' ≡ ok cfg = sym h ∙ a in
      let k : cfg' ≡ cfg = cc same in
      let clash : err e ≡ ok tt = sym l ∙ ap (λ x. new_pool K S env x.db) k ∙ c in cc clash
  Served-none (has_run cfg' funcs' h t l) (cfg, funcs, a, b, c, d) =
      let same : ok cfg' ≡ ok cfg = sym h ∙ a in let k : cfg' ≡ cfg = cc same in ap env.serve k ∙ d

  -- The server's command exits with status 0 exactly if its configuration, telemetry and pool came up and
  -- the server ended without an error.
  exit_status-run_command : (exit_status (run_command K S env Cli.server begin).0 ≡ 0) ↔ Served
  exit_status-run_command = (
    (λ h. Ends-none run_e-Outcome.0 (exit_status-none (run_e K S env begin).0 h)),
    (λ ran. ap exit_status (Served-none run_e-Outcome.0 ran)),
  )
