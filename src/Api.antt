-- ===== src/Api.antt =====
-- internal/api: the mapping of statuses, the implementation of the generated handler, and the renderer
-- of errors. Log records are not modelled.
pub mod Mapper
pub mod Laws
pub mod Shown
use flowhand.Base.{
  ◌≡◌, ℕ, Bool, true, false, ◌==◌, String, Option, none, some, List, [], ◌∷◌, if◌then◌else◌,
}
use flowhand.Failure.{
  GoError, errors_is, err_not_found, as_decode_request, as_decode_params, wrap, wrap_id, Result, ok,
  err,
}
use flowhand.Action.{Action}
use flowhand.Domain
use flowhand.Domain.{Uuid, RawMessage}
use flowhand.Service.{SubmitCommand, TaskView}
use flowhand.Oas.Schemas.{
  CreateTaskRequest, CreateTaskRequestPayload, CreateTaskRes, GetTaskRes, Task, Error, ErrorCode,
  get, error_code_internal_error, error_code_invalid_request_body, error_code_invalid_parameter,
  error_code_task_not_found,
}
use flowhand.Oas.Jx.{Jx}
use flowhand.Oas.Json.{encode_error}
use flowhand.Oas.Http.{Exchange, set_header, write_header, write_to}
use flowhand.Oas.Server.{Handler}
use flowhand.Api.Mapper.{to_oas_task, to_oas_task_view}

-- The switch of `ErrorHandler`: status, code and message, where `text` is `err.Error()`.
unfoldable pub render : (GoError → String) → GoError → ℕ × Error
render text e =
    if as_decode_request e
    then (400, record { code = error_code_invalid_request_body; message = text e })
    else if as_decode_params e
    then (400, record { code = error_code_invalid_parameter; message = text e })
    else (500, record { code = error_code_internal_error; message = "internal server error" })

-- `ErrorHandler`; a failed write is ignored.
unfoldable pub error_handler :
    (J : Jx) → (GoError → String) → GoError → Exchange J.Bytes → Exchange J.Bytes
error_handler J text e x =
    let (status, body) = render text e in
    (write_to J (encode_error body)
      (write_header status (set_header "Content-Type" "application/json; charset=utf-8" x))).1

-- The interfaces `Commander` and `Querier` that the handler consumes, and `json.Marshal` of a payload.
pub record Deps (State : Type 0) : Type 0 where
  pub submit : SubmitCommand → Action State Domain.Task
  pub get : Uuid → Action State TaskView
  pub marshal : CreateTaskRequestPayload → Result RawMessage

-- The body that `GetTask` answers with for a task that is not found.
abbrev pub task_not_found : Error
task_not_found = record { code = error_code_task_not_found; message = "task ID not found" }

module _ {State : Type 0} (h : Deps State) where
  -- The payload: `{}` if there is none.
  abbrev pub payload_json : CreateTaskRequestPayload × Bool → Result RawMessage
  payload_json (p, true) = h.marshal p
  payload_json (p, false) = ok "{}"

  -- The end of both methods: the mapper's result, or its error.
  abbrev answered : {Res : Type 0} → (Task → Res) → State → Result Task → Result Res × State
  answered respond s (ok dto) = (ok (respond dto), s)
  answered respond s (err e) = (err e, s)

  abbrev created : Result Domain.Task × State → Result CreateTaskRes × State
  created (err e, s) = (err (wrap "submit task" e), s)
  created (ok t, s) = answered CreateTaskRes.task s (to_oas_task t)

  abbrev create_with : CreateTaskRequest → Result RawMessage → Action State CreateTaskRes
  create_with req (err e) s = (err (wrap "marshal payload" e), s)
  create_with req (ok payload) s = created (
      h.submit
        (record {
          handler = req.handler;
          payload = payload;
          idempotency_key = (get "" req.idempotency_key).0;
        })
        s)

  -- `Handler.CreateTask`
  unfoldable pub create_task : CreateTaskRequest → Action State CreateTaskRes
  create_task req s = create_with req (payload_json (get [] req.payload)) s

  abbrev viewed : Uuid → Result TaskView × State → Result GetTaskRes × State
  viewed id (err e, s) =
      if errors_is err_not_found e
      then (ok (GetTaskRes.not_found task_not_found), s)
      else (err (wrap_id "get task" id e), s)
  viewed id (ok view, s) = answered GetTaskRes.task s (to_oas_task_view view)

  -- `Handler.GetTask`
  unfoldable pub get_task : Uuid → Action State GetTaskRes
  get_task id s = viewed id (h.get id s)

  abbrev pub handler : Handler State
  handler = record { create_task = create_task; get_task = get_task }
