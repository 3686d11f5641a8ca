-- ===== src/Wiring.antt =====
-- The wiring of internal/cli/server.go: pool, transaction manager, repositories, service. `D` is the
-- pool with the database behind it.
pub mod Submit
pub mod Replay
pub mod Retry
pub mod Read
pub mod Total
pub mod Concurrent
pub mod Spec
pub mod Refines
use flowhand.Storage.{Database}
use flowhand.Repository
use flowhand.Repository.{append, within_tx}
use flowhand.Service
use flowhand.Service.{Ports, SubmitCommand, Injected, TaskView}
use flowhand.Action.{Action}
use flowhand.Domain.{Task, Uuid}

abbrev pub ports : Database → Ports
ports D = record {
  State = D.State;
  insert = Repository.insert D;
  get = Repository.get D;
  get_by_idempotency_key = Repository.get_by_idempotency_key D;
  append = append;
  within_tx = within_tx;
}

abbrev pub submit_task : (D : Database) → Injected → SubmitCommand → Action D.State Task
submit_task D = Service.submit (ports D)

abbrev pub get_task : (D : Database) → Uuid → Action D.State TaskView
get_task D = Service.get (ports D)
