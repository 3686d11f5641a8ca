-- ===== src/App/ReadBack.antt =====
-- What a POST was answered with, read by a GET.
use mathlib.Core.Path.{subst}
use mathlib.Core.Bool.{false≢true}
use flowhand.Base.{◌≡◌, refl, ◌∙◌, sym, ap, false}
use flowhand.Failure.{GoError, Result, ok, err, errors_is, err_not_found}
use flowhand.Domain
use flowhand.Domain.{RawMessage}
use flowhand.Storage.{Database, IsPostgres}
use flowhand.Storage.Table.{Reach, KeysUnique}
use flowhand.Service.{Injected, TaskView}
use flowhand.Wiring
use flowhand.Wiring.Read.{get-submit}
use flowhand.Oas.Schemas.{
  CreateTaskRequest, CreateTaskRequestPayload, CreateTaskRes, GetTaskRes, Task,
}
use flowhand.Api
use flowhand.Api.Laws.{create_task-ok, get_task-GetAnswer, GetAnswer, command_of}
use flowhand.Api.Mapper.{to_oas_status, to_oas_task, to_oas_task_view}
use flowhand.Api.Mapper.Laws.{to_oas_task-IsPair, with_status_lem}
use flowhand.App.{deps}

-- The same task, as far as a read promises it.
abbrev pub SameTask : Task → GetTaskRes → Type 0
SameTask dto res =
    (dto' : Task) × (res ≡ GetTaskRes.task dto') × (dto'.id ≡ dto.id) × (dto'.status ≡ dto.status)

module _ (t : Domain.Task) (dto : Task) (mapped : to_oas_task t ≡ ok dto) where
  answer-SameTask :
      (r : Result TaskView) (res : GetTaskRes)
      → ((v : TaskView)
          → r ≡ ok v
          → (v.id ≡ t.id) × (v.handler ≡ t.handler) × (v.status ≡ t.status))
      → ((e : GoError) → r ≡ err e → errors_is err_not_found e ≡ false)
      → GetAnswer t.id r (ok res)
      → SameTask dto res
  unfolding to_oas_task to_oas_task_view
  answer-SameTask (ok v) res view found (dto', viewed, same) =
      let (id, _, status) = with_status_lem t.id t.created_at (to_oas_status t.status) dto mapped in
      let (id', _, status') =
        with_status_lem v.id v.created_at (to_oas_status v.status) dto' viewed in
      let (v-id, _, v-status) = view v refl in
      let both : ok dto'.status ≡ ok dto.status =
        sym status' ∙ ap to_oas_status v-status ∙ status in
      (dto', same, id' ∙ v-id ∙ sym id, cc both)
  answer-SameTask (err e) res view found (missing, same) =
      absurd (false≢true (sym (found e refl) ∙ missing))

-- Over a database that keeps the promises of Postgres and whose keys were unique, when a POST was
-- answered with a task, a later GET of its id that is answered by the application is answered with a
-- task of the same id and status, never with "task not found", whatever was inserted in between.
pub get_task-create_task :
    (D : Database)
    → IsPostgres D
    → (env env' : Injected) (marshal : CreateTaskRequestPayload → Result RawMessage)
      (req : CreateTaskRequest) (s s' : D.State) (dto : Task) (res : GetTaskRes)
    → KeysUnique (D.rows s)
    → (Api.create_task (deps D env marshal) req s).0 ≡ ok (CreateTaskRes.task dto)
    → Reach D.jsonb (D.rows (Api.create_task (deps D env marshal) req s).1) (D.rows s')
    → (Api.get_task (deps D env' marshal) dto.id s').0 ≡ ok res
    → SameTask dto res
get_task-create_task D pg env env' marshal req s s' dto res unique created later got =
    let (json, t, dto', _, submitted, mapped, same, left) =
      create_task-ok (deps D env marshal) req s (CreateTaskRes.task dto) created in
    let k : dto ≡ dto' = cc same in
    let mapped' : to_oas_task t ≡ ok dto = mapped ∙ ap ok (sym k) in
    let (id, _, _, _) = to_oas_task-IsPair t dto mapped' in
    let (view, found) =
      get-submit D pg env (command_of req json) s s' t unique submitted
        (subst (λ u. Reach D.jsonb (D.rows u) (D.rows s')) left later) in
    let answer = (get_task-GetAnswer (deps D env' marshal) t.id s').0 in
    let got' : (Api.get_task (deps D env' marshal) t.id s').0 ≡ ok res =
      ap (λ i. (Api.get_task (deps D env' marshal) i s').0) (sym id) ∙ got in
    answer-SameTask t dto mapped' (Wiring.get_task D t.id s').0 res view found
      (subst (GetAnswer t.id (Wiring.get_task D t.id s').0) got' answer)
