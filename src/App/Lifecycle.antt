-- ===== src/App/Lifecycle.antt =====
-- How internal/server's `Run` ends: the goroutine that listens, the channel between the two, and the
-- select with its graceful shutdown, as a step relation. Cancelling the context and the returns of
-- net/http's `ListenAndServe` and `Shutdown` are moves of the environment, restricted to what net/http
-- documents: `ListenAndServe` returns a non-nil error, and ErrServerClosed only after `Shutdown` was
-- called.
pub mod Laws
use flowhand.Base.{◌≡◌, ◌≢◌, Bool, true, false, Option, none, some, ℕ, ◌+◌, if◌then◌else◌}
use flowhand.Failure.{GoError, sentinel, errors_is, err_server_closed}

-- The goroutine: in `ListenAndServe`, before its send of a value, ended.
pub data Listener : Type 0 where
  listening ended : Listener
  sending : Option GoError → Listener

-- `Run`: in the select, in `Shutdown`, in the last receive, returned.
pub data Main : Type 0 where
  selecting stopping receiving : Main
  returned : Option GoError → Main

-- What became of `Shutdown`: not called, called, returned an error, returned nil.
pub data Closing : Type 0 where
  not_called called failed done : Closing

-- `at canceled closing listener channel main`: whether the context is cancelled, what became of
-- `Shutdown`, and what the channel of capacity 1 holds.
pub data Process : Type 0 where
  at : Bool → Closing → Listener → Option (Option GoError) → Main → Process

-- What the goroutine sends for the error of `ListenAndServe`.
abbrev pub report : GoError → Option GoError
report e = if errors_is err_server_closed e then none else some e

abbrev pub begin : Process
begin = at false not_called listening none selecting

pub data Step : Process → Process → Type 0 where
  cancels :
      (k : Closing) (l : Listener) (ch : Option (Option GoError)) (m : Main)
      → Step (at false k l ch m) (at true k l ch m)
  listen_returns :
      (c : Bool) (k : Closing) (ch : Option (Option GoError)) (m : Main) (e : GoError)
      → (errors_is err_server_closed e ≡ true → k ≢ not_called)
      → Step (at c k listening ch m) (at c k (sending (report e)) ch m)
  sends :
      (c : Bool) (k : Closing) (v : Option GoError) (m : Main)
      → Step (at c k (sending v) none m) (at c k ended (some v) m)
  -- `case err := <-errCh`
  listener_first :
      (c : Bool) (k : Closing) (l : Listener) (v : Option GoError)
      → Step (at c k l (some v) selecting) (at c k l none (returned v))
  -- `case <-ctx.Done()`, up to the call of `Shutdown`
  canceled_first :
      (k : Closing) (l : Listener) (ch : Option (Option GoError))
      → Step (at true k l ch selecting) (at true called l ch stopping)
  shutdown_fails :
      (c : Bool) (k : Closing) (l : Listener) (ch : Option (Option GoError)) (e : GoError)
      → Step (at c k l ch stopping) (at c failed l ch (returned (some e)))
  shutdown_done :
      (c : Bool) (k : Closing) (l : Listener) (ch : Option (Option GoError))
      → Step (at c k l ch stopping) (at c done l ch receiving)
  -- `return <-errCh`
  receives :
      (c : Bool) (k : Closing) (l : Listener) (v : Option GoError)
      → Step (at c k l (some v) receiving) (at c k l none (returned v))

-- Some steps one after the other, with their number.
pub data Run (x : Process) : ℕ → Process → Type 0 where
  here : Run x 0 x
  next : {n : ℕ} {y z : Process} → Run x n y → Step y z → Run x (n + 1) z
