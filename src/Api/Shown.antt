-- ===== src/Api/Shown.antt =====
-- What the handler shows of the service's answers.
use flowhand.Base.{◌≡◌, refl, [], Bool-cases, inl, inr}
use flowhand.Failure.{GoError, Result, ok, err, errors_is, err_not_found}
use flowhand.Domain
use flowhand.Domain.{Uuid, RawMessage}
use flowhand.Service.{TaskView}
use flowhand.Oas.Schemas.{CreateTaskRequest, CreateTaskRes, GetTaskRes, TaskStatus, get}
use flowhand.Wiring.Spec.{Seen, answered, missing, failed}
use flowhand.Wiring.Refines.{see_task, see_view}
use flowhand.Api.{Deps, create_task, get_task, payload_json, created, viewed}
use flowhand.Api.Laws.{command_of}
use flowhand.Api.Mapper.{to_oas_status, to_oas_task, to_oas_task_view}

-- A task with its status in the words of the API, "not found", or an error.
pub data Shown : Type 0 where
  task : Uuid → TaskStatus → Shown
  not_found error : Shown

-- A status without a word is an error.
abbrev pub show_status : Uuid → Result TaskStatus → Shown
show_status id (ok status) = task id status
show_status id (err e) = error

abbrev pub show : Seen → Shown
show (answered k) = show_status k.id (to_oas_status k.status)
show missing = not_found
show failed = error

abbrev pub see_create : Result CreateTaskRes → Shown
see_create (ok (CreateTaskRes.task dto)) = task dto.id dto.status
see_create (ok (CreateTaskRes.bad_request e)) = error
see_create (ok (CreateTaskRes.internal_server_error e)) = error
see_create (err e) = error

abbrev pub see_get : Result GetTaskRes → Shown
see_get (ok (GetTaskRes.task dto)) = task dto.id dto.status
see_get (ok (GetTaskRes.not_found e)) = not_found
see_get (ok (GetTaskRes.internal_server_error e)) = error
see_get (err e) = error

module _ {State : Type 0} (h : Deps State) where
  created_shown :
      (out : Result Domain.Task × State)
      → (see_create (created h out).0 ≡ show (see_task out.0)) × ((created h out).1 ≡ out.1)
  unfolding to_oas_task
  created_shown (err e, s) = (refl, refl)
  created_shown (ok t, s) = by_status (to_oas_status t.status) refl
    where
      by_status :
          (status : Result TaskStatus)
          → to_oas_status t.status ≡ status
          → (see_create (created h (ok t, s)).0 ≡ show (see_task (ok t)))
            × ((created h (ok t, s)).1 ≡ s)
      by_status (ok status) e = rw e (refl, refl)
      by_status (err cause) e = rw e (refl, refl)

  -- A submission whose payload has a JSON text.
  pub create_task_shown :
      (req : CreateTaskRequest) (json : RawMessage) (s : State)
      → payload_json h (get [] req.payload) ≡ ok json
      → (see_create (create_task h req s).0 ≡ show (see_task (h.submit (command_of req json) s).0))
        × ((create_task h req s).1 ≡ (h.submit (command_of req json) s).1)
  unfolding create_task
  create_task_shown req json s e = rw e (created_shown (h.submit (command_of req json) s))

  -- One whose payload has none.
  pub create_task_failed :
      (req : CreateTaskRequest) (cause : GoError) (s : State)
      → payload_json h (get [] req.payload) ≡ err cause
      → (see_create (create_task h req s).0 ≡ error) × ((create_task h req s).1 ≡ s)
  unfolding create_task
  create_task_failed req cause s e = rw e (refl, refl)

  viewed_shown :
      (id : Uuid) (out : Result TaskView × State)
      → (see_get (viewed h id out).0 ≡ show (see_view out.0)) × ((viewed h id out).1 ≡ out.1)
  unfolding to_oas_task_view
  viewed_shown id (err e, s) = elim (Bool-cases (errors_is err_not_found e)) [
    | inl gone ↦ rw gone (refl, refl)
    | inr other ↦ rw other (refl, refl)
  ]
  viewed_shown id (ok v, s) = by_status (to_oas_status v.status) refl
    where
      by_status :
          (status : Result TaskStatus)
          → to_oas_status v.status ≡ status
          → (see_get (viewed h id (ok v, s)).0 ≡ show (see_view (ok v)))
            × ((viewed h id (ok v, s)).1 ≡ s)
      by_status (ok status) e = rw e (refl, refl)
      by_status (err cause) e = rw e (refl, refl)

  pub get_task_shown :
      (id : Uuid) (s : State)
      → (see_get (get_task h id s).0 ≡ show (see_view (h.get id s).0))
        × ((get_task h id s).1 ≡ (h.get id s).1)
  unfolding get_task
  get_task_shown id s = viewed_shown id (h.get id s)
