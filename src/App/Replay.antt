-- ===== src/App/Replay.antt =====
-- Idempotent submission, as the generated server's client sees it.
use mathlib.Core.Path.{subst}
use flowhand.Base.{◌≡◌, ◌∙◌, sym, ap, String, ◌≢◌}
use flowhand.Failure.{Result, ok}
use flowhand.Domain.{RawMessage}
use flowhand.Storage.{Database, IsPostgres}
use flowhand.Storage.Table.{Reach}
use flowhand.Service.{Injected}
use flowhand.Wiring.Replay.{submit_twice}
use flowhand.Oas.Schemas.{
  CreateTaskRequest, CreateTaskRequestPayload, CreateTaskRes, Task, get, new_opt,
}
use flowhand.Api
use flowhand.Api.Laws.{create_task-ok, command_of}
use flowhand.Api.Mapper.Laws.{to_oas_task-IsPair}
use flowhand.App.{deps}

same_task : (t u : Task) → CreateTaskRes.task t ≡ CreateTaskRes.task u → t ≡ u
same_task t u e = cc e

-- Over a database that keeps the promises of Postgres, two POSTs that carry the same idempotency
-- key, which is not empty, and that are both answered with a task, are answered with the same task
-- id, whatever else the two say and whatever was inserted in between; and the second inserts
-- nothing.
pub create_task_twice :
    (D : Database)
    → IsPostgres D
    → (env env' : Injected) (marshal : CreateTaskRequestPayload → Result RawMessage)
      (req req' : CreateTaskRequest) (key : String) (s s' : D.State) (dto dto' : Task)
    → key ≢ ""
    → req.idempotency_key ≡ new_opt key
    → req'.idempotency_key ≡ new_opt key
    → (Api.create_task (deps D env marshal) req s).0 ≡ ok (CreateTaskRes.task dto)
    → Reach D.jsonb (D.rows (Api.create_task (deps D env marshal) req s).1) (D.rows s')
    → (Api.create_task (deps D env' marshal) req' s').0 ≡ ok (CreateTaskRes.task dto')
    → (dto'.id ≡ dto.id) × (D.rows (Api.create_task (deps D env' marshal) req' s').1 ≡ D.rows s')
create_task_twice D pg env env' marshal req req' key s s' dto dto' keyed k k' first later second =
    let (json, t, dto1, _, submitted, mapped, same, left) =
      create_task-ok (deps D env marshal) req s (CreateTaskRes.task dto) first in
    let (json', t', dto2, _, submitted', mapped', same', left') =
      create_task-ok (deps D env' marshal) req' s' (CreateTaskRes.task dto') second in
    let key_is : (command_of req json).idempotency_key ≡ key = ap (λ o. (get "" o).0) k in
    let key_is' : (command_of req' json').idempotency_key ≡ key = ap (λ o. (get "" o).0) k' in
    let (id, _, _, unchanged) =
      submit_twice D pg env env' (command_of req json) (command_of req' json') s s' t t'
        (λ e. keyed (sym key_is ∙ e)) (key_is' ∙ sym key_is) submitted
        (subst (λ u. Reach D.jsonb (D.rows u) (D.rows s')) left later) submitted' in
    let (dto-id, _, _, _) = to_oas_task-IsPair t dto1 mapped in
    let (dto-id', _, _, _) = to_oas_task-IsPair t' dto2 mapped' in
    (
      ap (λ u. u.id) (same_task dto' dto2 same')
          ∙ dto-id'
          ∙ id
          ∙ sym dto-id
          ∙ ap (λ u. u.id) (sym (same_task dto dto1 same)),
      ap D.rows left' ∙ unchanged,
    )
