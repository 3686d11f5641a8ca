-- ===== src/Api/Laws.antt =====
-- What the handler and the renderer of errors answer, whatever the application behind them does.
use flowhand.Base.{◌≡◌, refl, sym, ◌⊎◌, inl, inr, true, false, ◌||◌, String, none, [], Bool-cases}
use flowhand.Failure.{
  GoError, errors_is, err_not_found, as_decode_request, as_decode_params, wrap_id, Result, ok, err,
}
use flowhand.Domain
use flowhand.Domain.{Uuid, RawMessage}
use flowhand.Service.{SubmitCommand, TaskView}
use flowhand.Oas.Schemas
use flowhand.Oas.Schemas.{
  CreateTaskRequest, CreateTaskRequestPayload, CreateTaskRes, GetTaskRes, Task, Error, get,
  error_code_internal_error,
}
use flowhand.Oas.Validate.{validate_error}
use flowhand.Api.Mapper.{to_oas_task, to_oas_task_view}
use flowhand.Api.{
  render, Deps, create_task, get_task, task_not_found, payload_json, created, answered, create_with,
  viewed,
}

-- Whatever the error, the answer has status 400 or 500 and a valid body. It is 400, with the error's
-- text, exactly if a decoding error of the generated server stands in its chain; otherwise the body is
-- the same for every error, so that nothing of the error is disclosed.
pub render_lem :
    (text : GoError → String) (e : GoError)
    → (validate_error (render text e).1 ≡ none)
      × (((as_decode_request e || as_decode_params e ≡ true)
            × ((render text e).0 ≡ 400)
            × ((render text e).1.message ≡ text e))
          ⊎ ((as_decode_request e || as_decode_params e ≡ false)
              × ((render text e).0 ≡ 500)
              × ((render text e).1 ≡ record {
                code = error_code_internal_error;
                message = "internal server error";
              })))
unfolding render validate_error Schemas.switch
render_lem text e = elim (Bool-cases (as_decode_request e)) [
  | inl body ↦ rw body (refl, inl (refl, refl, refl))
  | inr n ↦ elim (Bool-cases (as_decode_params e)) [
    | inl param ↦ rw (n, param) (refl, inl (refl, refl, refl))
    | inr n' ↦ rw (n, n') (refl, inr (refl, refl, refl))
  ]
]

-- The command that `CreateTask` submits for a request and its payload's JSON.
abbrev pub command_of : CreateTaskRequest → RawMessage → SubmitCommand
command_of req payload = record {
  handler = req.handler;
  payload = payload;
  idempotency_key = (get "" req.idempotency_key).0;
}

module _ {State : Type 0} (h : Deps State) where
  answered-ok :
      {Res : Type 0} (respond : Task → Res) (s : State) (mapped : Result Task) (res : Res)
      → (answered h respond s mapped).0 ≡ ok res
      → (dto : Task) × (mapped ≡ ok dto) × (res ≡ respond dto)
  answered-ok respond s (ok dto) res k = let k' : respond dto ≡ res = cc k in (dto, refl, sym k')
  answered-ok respond s (err e) res k = cc k

  answered-keeps :
      {Res : Type 0} (respond : Task → Res) (s : State) (mapped : Result Task)
      → (answered h respond s mapped).1 ≡ s
  answered-keeps respond s (ok dto) = refl
  answered-keeps respond s (err e) = refl

  created-ok :
      (out : Result Domain.Task × State) (res : CreateTaskRes)
      → (created h out).0 ≡ ok res
      → (t : Domain.Task) × (dto : Task) × (out.0 ≡ ok t)
        × (to_oas_task t ≡ ok dto)
        × (res ≡ CreateTaskRes.task dto)
  created-ok (err e, s) res k = cc k
  created-ok (ok t, s) res k =
      let (dto, mapped, same) = answered-ok CreateTaskRes.task s (to_oas_task t) res k in
      (t, dto, refl, mapped, same)

  created-keeps : (out : Result Domain.Task × State) → (created h out).1 ≡ out.1
  created-keeps (err e, s) = refl
  created-keeps (ok t, s) = answered-keeps CreateTaskRes.task s (to_oas_task t)

  create_with-ok :
      (req : CreateTaskRequest) (payload : Result RawMessage) (s : State) (res : CreateTaskRes)
      → (create_with h req payload s).0 ≡ ok res
      → (json : RawMessage) × (t : Domain.Task) × (dto : Task) × (payload ≡ ok json)
        × ((h.submit (command_of req json) s).0 ≡ ok t)
        × (to_oas_task t ≡ ok dto)
        × (res ≡ CreateTaskRes.task dto)
        × ((create_with h req payload s).1 ≡ (h.submit (command_of req json) s).1)
  create_with-ok req (err e) s res k = cc k
  create_with-ok req (ok json) s res k =
      let (t, dto, submitted, mapped, same) = created-ok (h.submit (command_of req json) s) res k in
      (
        json,
        t,
        dto,
        refl,
        submitted,
        mapped,
        same,
        created-keeps (h.submit (command_of req json) s),
      )

-- When `CreateTask` answers without an error, the answer is a task: the one that a single submission
-- returned, of the request's handler and key and of its payload's JSON, as the mapper renders it; and
-- the state is that which the submission left.
pub create_task-ok :
    {State : Type 0} (h : Deps State) (req : CreateTaskRequest) (s : State) (res : CreateTaskRes)
    → (create_task h req s).0 ≡ ok res
    → (json : RawMessage) × (t : Domain.Task) × (dto : Task) × (payload_json h (get [] req.payload)
        ≡ ok json)
      × ((h.submit (command_of req json) s).0 ≡ ok t)
      × (to_oas_task t ≡ ok dto)
      × (res ≡ CreateTaskRes.task dto)
      × ((create_task h req s).1 ≡ (h.submit (command_of req json) s).1)
unfolding create_task
create_task-ok h req s res k = create_with-ok h req (payload_json h (get [] req.payload)) s res k

create_with-keeps :
    {State : Type 0} (h : Deps State) (req : CreateTaskRequest) (payload : Result RawMessage)
    (s : State)
    → ((create_with h req payload s).1 ≡ s)
      ⊎ ((json : RawMessage) × ((create_with h req payload s).1
            ≡ (h.submit (command_of req json) s).1))
create_with-keeps h req (err e) s = inl refl
create_with-keeps h req (ok json) s = inr (json, created-keeps h (h.submit (command_of req json) s))

-- However `CreateTask` ends, it leaves the state as it was, or as one submission left it.
pub create_task-keeps :
    {State : Type 0} (h : Deps State) (req : CreateTaskRequest) (s : State)
    → ((create_task h req s).1 ≡ s)
      ⊎ ((json : RawMessage) × ((create_task h req s).1 ≡ (h.submit (command_of req json) s).1))
unfolding create_task
create_task-keeps h req s = create_with-keeps h req (payload_json h (get [] req.payload)) s

-- What `GetTask` answers, by what the read gave.
abbrev pub GetAnswer : Uuid → Result TaskView → Result GetTaskRes → Type 0
GetAnswer id (ok v) (ok res) =
    (dto : Task) × (to_oas_task_view v ≡ ok dto) × (res ≡ GetTaskRes.task dto)
GetAnswer id (ok v) (err e) = to_oas_task_view v ≡ err e
GetAnswer id (err e) (ok res) =
    (errors_is err_not_found e ≡ true) × (res ≡ GetTaskRes.not_found task_not_found)
GetAnswer id (err e) (err e') = (errors_is err_not_found e ≡ false) × (e' ≡ wrap_id "get task" id e)

module _ {State : Type 0} (h : Deps State) where
  viewed-GetAnswer :
      (id : Uuid) (out : Result TaskView × State)
      → GetAnswer id out.0 (viewed h id out).0 × ((viewed h id out).1 ≡ out.1)
  viewed-GetAnswer id (err e, s) = elim (Bool-cases (errors_is err_not_found e)) [
    | inl missing ↦ rw missing ((missing, refl), refl)
    | inr other ↦ rw other ((other, refl), refl)
  ]
  viewed-GetAnswer id (ok v, s) = by_dto (to_oas_task_view v) refl
    where
      by_dto :
          (mapped : Result Task)
          → to_oas_task_view v ≡ mapped
          → GetAnswer id (ok v) (answered h GetTaskRes.task s mapped).0
            × ((answered h GetTaskRes.task s mapped).1 ≡ s)
      by_dto (ok dto) e = ((dto, e, refl), refl)
      by_dto (err e') e = (e, refl)

-- `GetTask` answers with the mapped view of a read that succeeds; with "task not found" exactly if the
-- read's error is, or wraps, the domain's not-found; and with the error itself, wrapped, otherwise. It
-- changes nothing that the read did not.
pub get_task-GetAnswer :
    {State : Type 0} (h : Deps State) (id : Uuid) (s : State)
    → GetAnswer id (h.get id s).0 (get_task h id s).0 × ((get_task h id s).1 ≡ (h.get id s).1)
unfolding get_task
get_task-GetAnswer h id s = viewed-GetAnswer h id (h.get id s)
