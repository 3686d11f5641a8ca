-- ===== src/Tests/Lifecycle.antt =====
-- The server's run and shutdown, its command and its telemetry at concrete inputs.
use flowhand.Base.{◌≡◌, ◌⊎◌, ◌≤◌, true, Option, none}
use flowhand.Failure.{GoError, sentinel, err_server_closed}
use flowhand.App.Lifecycle.{
  called, done, at, ended, returned, begin, Run, here, next, Step, cancels, canceled_first,
  listen_returns, sends, shutdown_done, receives, Process,
}
use flowhand.App.Lifecycle.Laws.{Run-nil, Run-ends, IsOver}

-- The context is cancelled, the server shuts down, and the goroutine's nil is received.
graceful : Run begin 6 (at true done ended none (returned none))
graceful =
    next
      (next
        (next
          (next (next (next here (cancels _ _ _ _)) (canceled_first _ _ _))
            (listen_returns true called none _ (sentinel err_server_closed) (λ _ e. cc e)))
          (sends _ _ none _))
        (shutdown_done _ _ _ _))
      (receives _ _ _ none)

Run-nil_example :
    (true ≡ true) × (done ≡ done) × (ended ≡ ended) × (◌≡◌ {A = Option (Option GoError)} none none)
Run-nil_example = Run-nil graceful

Run-ends_example :
    (6 ≤ 6)
    × (IsOver (at true done ended none (returned none))
        ⊎ ((y : Process) × Step (at true done ended none (returned none)) y))
Run-ends_example = Run-ends graceful
