-- ===== src/Service.antt =====
-- internal/service/task: the ports, the Commander (write side) and the Querier (read side).
use flowhand.Base.{◌==◌, String, Option, none, some, List, [], ◌∷◌, if◌then◌else◌}
use flowhand.Failure.{GoError, err_conflict, errors_is, wrap, Result, ok, err}
use flowhand.Action.{Action, then_do, ◌>>◌, return}
use flowhand.Domain
use flowhand.Domain.{
  Uuid, Time, RawMessage, Status, Task, Event, utc, new_submitted, submitted_event,
}

-- The ports that the service declares, `TasksRepo`, `OutboxRepo` and `TxRunner`, over the state that
-- their implementations change.
pub record Ports : Type 1 where
  pub State : Type 0
  pub insert : Task → Option String → Action State (Unit {0})
  pub get : Uuid → Action State Task
  pub get_by_idempotency_key : String → Action State Task
  pub append : List Event → Action State (Unit {0})
  pub within_tx : Action State (Unit {0}) → Action State (Unit {0})

pub record SubmitCommand : Type 0 where
  pub handler : String
  pub payload : RawMessage
  pub idempotency_key : String

-- What the injected `now` and `newID` answer during one call.
pub record Injected : Type 0 where
  pub now : Time
  pub new_id : Result Uuid

pub record TaskView : Type 0 where
  pub id : Uuid
  pub status : String
  pub handler : String
  pub created_at : Time

-- A nil pointer for "".
abbrev pub key_of : SubmitCommand → Option String
key_of cmd = if cmd.idempotency_key == "" then none else some cmd.idempotency_key

abbrev pub view_of : Task → TaskView
view_of row = record {
  id = row.id;
  status = row.status;
  handler = row.handler;
  created_at = row.created_at;
}

module _ (P : Ports) where
  -- The closure that `Submit` runs inside `WithinTx`.
  unfoldable pub store_task : Task → Option String → Time → Action P.State (Unit {0})
  store_task t key now = do P.insert t key; P.append (submitted_event (new_submitted t now) ∷ [])

  abbrev pub replayed : Result Task × P.State → Result Task × P.State
  replayed (ok existing, s) = (ok existing, s)
  replayed (err rerr, s) = (err (wrap "replay idempotent task" rerr), s)

  -- The branch of `Submit` for a conflict.
  unfoldable pub replay : String → GoError → Action P.State Task
  replay key e s =
      if key == ""
      then (err (wrap "idempotency conflict without a key" e), s)
      else replayed (P.get_by_idempotency_key key s)

  -- The switch of `Submit` on what the transaction returned.
  abbrev pub settle : SubmitCommand → Task → Result (Unit {0}) × P.State → Result Task × P.State
  settle cmd t (ok _, s) = (ok t, s)
  settle cmd t (err e, s) =
      if errors_is err_conflict e
      then replay cmd.idempotency_key e s
      else (err (wrap "submit task" e), s)

  abbrev pub submit_as : Time → SubmitCommand → Uuid → Action P.State Task
  submit_as now cmd id s =
      let t = Domain.submit id cmd.handler cmd.payload now in
      settle cmd t (P.within_tx (store_task t (key_of cmd) now) s)

  abbrev pub minted : Time → SubmitCommand → Result Uuid → Action P.State Task
  minted now cmd (ok id) s = submit_as now cmd id s
  minted now cmd (err e) s = (err (wrap "new id" e), s)

  -- `Commander.Submit`
  unfoldable pub submit : Injected → SubmitCommand → Action P.State Task
  submit env cmd s = minted (utc env.now) cmd env.new_id s

  -- `Querier.Get`
  unfoldable pub get : Uuid → Action P.State TaskView
  get id s = then_do (P.get id s) (λ row. return (view_of row))
