-- ===== src/Cli.antt =====
-- internal/cli: `serverCmd` of server.go with its deferred calls, the commands of root.go and of the
-- stubs, and cmd/flowhand/main.go. Parsing the command line is cobra's.
pub mod Laws
use flowhand.Base.{ℕ, String, Option, none, some, List, [], ◌∷◌, ◌++◌}
use flowhand.Failure.{GoError, errorf, wrap, Result, ok, err, of_error, ◌>>=◌, ◌>>◌}
use flowhand.Config.{Koanf, Config, Db, load}
use flowhand.Config.Pool.{PoolConfig, pool_config}
use flowhand.Obs.{Sdk, Process, Part, init, shutdown}

-- What `serverCmd` acquires and its deferred calls release.
pub data Resource : Type 0 where
  signals telemetry pool : Resource

pub data Event : Type 0 where
  acquired released : Resource → Event
  served : Event
  -- `slog.Error("obs shutdown failed", ...)`
  shutdown_failed : Event

-- The command line, and what the libraries and `server.Run` return.
pub record Env (K : Koanf) : Type 0 where
  pub config_path : String
  pub flags : Option K.Flags
  pub stop : Part → Option GoError
  pub parse_config : String → Result PoolConfig
  -- `pgxpool.NewWithConfig`
  pub connect : PoolConfig → Option GoError
  pub serve : Config → Option GoError

-- The commands: cobra's own (the bare root, help, completion, `--version`, a usage error) come with
-- what they return.
pub data Command : Type 0 where
  server version worker relay ingester ctl : Command
  builtin : Option GoError → Command

abbrev pub err_not_implemented : GoError
err_not_implemented = errorf "not implemented (Phase 1+)"

module _ (K : Koanf) (S : Sdk) (env : Env K) where
  -- The telemetry, and what happened so far.
  pub record World : Type 0 where
    pub process : Process S
    pub events : List Event

  abbrev pub emit : Event → World → World
  emit e w = record w { events = w.events ++ e ∷ [] }

  -- A deferred call that releases `r`.
  abbrev pub deferred : Resource → Option GoError × World → Option GoError × World
  deferred r (e, w) = (e, emit (released r) w)

  abbrev note_failure : Option GoError → World → World
  note_failure none w = w
  note_failure (some e) w = emit shutdown_failed w

  abbrev pub shut : Option GoError × List Part × Process S → World → World
  shut (failure, captured, p) w = note_failure failure (record w { process = p })

  -- The deferred closure of the telemetry: its error is only logged.
  abbrev pub deferred_shutdown : List Part → Option GoError × World → Option GoError × World
  deferred_shutdown funcs (e, w) =
      (e, shut (shutdown S env.stop (funcs, w.process)) (emit (released telemetry) w))

  -- `storage.NewPool`
  abbrev pub new_pool : Db → Result (Unit {0})
  new_pool cfg = pool_config env.parse_config cfg >>= λ pcfg. of_error (env.connect pcfg)

  abbrev run_server : Config → World → Option GoError × World
  run_server cfg w = (env.serve cfg, emit served w)

  abbrev pub with_pool : Config → Result (Unit {0}) → World → Option GoError × World
  with_pool cfg (err e) w = (some (wrap "pool" e), w)
  with_pool cfg (ok opened) w = deferred pool (run_server cfg (emit (acquired pool) w))

  -- `obs.Init` and what follows. If it fails there is no function to defer: what it had started by then
  -- stands among the process' parts, and nothing stops it.
  abbrev pub with_telemetry :
      Config → Result (List Part) × Process S → World → Option GoError × World
  with_telemetry cfg (err e, p) w = (some (wrap "init obs" e), record w { process = p })
  with_telemetry cfg (ok funcs, p) w =
      deferred_shutdown funcs
        (with_pool cfg (new_pool cfg.db) (emit (acquired telemetry) (record w { process = p })))

  abbrev pub with_config : Result Config → World → Option GoError × World
  with_config (err e) w = (some (wrap "load config" e), w)
  with_config (ok cfg) w =
      let u = emit (acquired signals) w in
      deferred signals (with_telemetry cfg (init S cfg u.process) u)

  -- `RunE` of `serverCmd`
  unfoldable pub run_e : World → Option GoError × World
  run_e w = with_config (load K env.config_path env.flags) w

  -- The commands that `rootCmd` has.
  abbrev pub run_command : Command → World → Option GoError × World
  run_command server w = run_e w
  run_command version w = (none, w)
  run_command worker w = (some err_not_implemented, w)
  run_command relay w = (some err_not_implemented, w)
  run_command ingester w = (some err_not_implemented, w)
  run_command ctl w = (some err_not_implemented, w)
  run_command (builtin e) w = (e, w)

-- `main`: the exit status, of what `cli.Execute` returns.
abbrev pub exit_status : Option GoError → ℕ
exit_status none = 0
exit_status (some e) = 1
