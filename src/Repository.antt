-- ===== src/Repository.antt =====
-- internal/repository/tasks, internal/repository/outbox and internal/storage/txmgr: the Postgres
-- task repository with its error translation and its row mapper, the no-op outbox, and the stub
-- transaction manager. `Resolve` always hands back the pool, so the repository's queries go to the
-- database `D` itself.
pub mod Laws
use flowhand.Base.{Bool, true, false, ◌==◌, String, Option, none, some, List, if◌then◌else◌}
use flowhand.Failure.{
  GoError, sentinel, err_not_found, err_conflict, err_no_rows, errors_is, as_pg_error, wrap,
  wrap_id, Result, ok, err, map_err,
}
use flowhand.Action.{Action, ◌>>=◌, return}
use flowhand.Domain.{Uuid, Task, Event, from_persistence}
use flowhand.Storage.{Row, CreateTaskParams, Database}

-- SQLSTATE 23505
abbrev pub unique_violation : String
unique_violation = "23505"

abbrev pub to_domain : Row → Task
to_domain row = from_persistence row.id row.status row.handler row.payload row.created_at

abbrev pub to_row : Task → Option String → CreateTaskParams
to_row t idempotency_key = record {
  id = t.id;
  idempotency_key = idempotency_key;
  payload = t.payload;
  handler = t.handler;
}

-- Driver errors become domain sentinels.
unfoldable pub translate : GoError → GoError
translate e = if errors_is err_no_rows e then sentinel err_not_found else e

abbrev code_is : Option String → String → Bool
code_is none code = false
code_is (some c) code = c == code

unfoldable pub is_unique_violation : GoError → Bool
is_unique_violation e = code_is (as_pg_error e) unique_violation

-- The error of `Insert` for an error of the query.
unfoldable pub insert_error : Uuid → GoError → GoError
insert_error id e =
    if is_unique_violation e
    then wrap_id "insert task" id (sentinel err_conflict)
    else wrap_id "insert task" id e

abbrev pub map_result : {A B : Type 0} → (A → B) → (GoError → GoError) → Result A → Result B
map_result f g (ok a) = ok (f a)
map_result f g (err e) = err (g e)

abbrev pub map_action :
    {S A B : Type 0} → (A → B) → (GoError → GoError) → Result A × S → Result B × S
map_action f g (r, s) = (map_result f g r, s)

-- `Append` of the outbox repository, which discards the events.
abbrev pub append : {S : Type 0} → List Event → Action S (Unit {0})
append events s = (ok tt, s)

-- `WithinTx` of the manager, which opens no transaction.
abbrev pub within_tx : {S : Type 0} → Action S (Unit {0}) → Action S (Unit {0})
within_tx fn s = fn s

module _ (D : Database) where
  unfoldable pub insert : Task → Option String → Action D.State (Unit {0})
  insert t idempotency_key s =
      map_action (λ _. tt) (insert_error t.id) (D.create_task (to_row t idempotency_key) s)

  unfoldable pub get : Uuid → Action D.State Task
  get id s = map_action to_domain (λ e. wrap_id "get task" id (translate e)) (D.get_task_by_id id s)

  unfoldable pub get_by_idempotency_key : String → Action D.State Task
  get_by_idempotency_key key s =
      map_action to_domain (λ e. wrap "get task by idempotency key" (translate e))
        (D.get_task_by_idempotency_key (some key) s)
