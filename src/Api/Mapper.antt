-- ===== src/Api/Mapper.antt =====
-- internal/api/mapper.go: the domain's statuses in the words of the API.
pub mod Laws
use flowhand.Base.{
  ◌≡◌, refl, ℕ, Bool, true, false, ◌==◌, String, Option, none, some, List, [], ◌∷◌, if◌then◌else◌,
  ◌⊎◌, inl, inr, eq-cases, eq_iff, arith, ◌↔◌, All, ap, sym, ◌∙◌,
}
use flowhand.Failure.{GoError, errorf, Result, ok, err}
use flowhand.Domain
use flowhand.Domain.{
  Status, statuses, status_pending, status_running, status_complete, status_failed, status_canceled,
}
use flowhand.Service.{TaskView}
use flowhand.Oas.Schemas.{
  Task, TaskStatus, task_status_pending, task_status_running, task_status_succeeded,
  task_status_failed, task_status_cancelled, task_statuses,
}
use flowhand.Oas.Validate.{validate_task}
use flowhand.Oas.Validate.Laws.{IsMember}

unfoldable pub to_oas_status : Status → Result TaskStatus
to_oas_status s =
    if s == status_pending
    then ok task_status_pending
    else if s == status_running
    then ok task_status_running
    else if s == status_complete
    then ok task_status_succeeded
    else if s == status_failed
    then ok task_status_failed
    else if s == status_canceled
    then ok task_status_cancelled
    else err (errorf "unmapped task status")

abbrev with_status : Domain.Uuid → Domain.Time → Result TaskStatus → Result Task
with_status id created_at (ok status) =
    ok (record { id = id; status = status; created_at = created_at })
with_status id created_at (err e) = err e

unfoldable pub to_oas_task : Domain.Task → Result Task
to_oas_task t = with_status t.id t.created_at (to_oas_status t.status)

unfoldable pub to_oas_task_view : TaskView → Result Task
to_oas_task_view v = with_status v.id v.created_at (to_oas_status v.status)
