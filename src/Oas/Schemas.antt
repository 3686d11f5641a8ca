-- ===== src/Oas/Schemas.antt =====
-- internal/api/oas/oas_schemas_gen.go: the types of the API.
pub mod Setters
use flowhand.Base.{Bool, true, false, ◌==◌, String, List, [], ◌∷◌, if◌then◌else◌}
use flowhand.Failure.{errorf, Result, ok, err}
use flowhand.Domain.{Uuid, Time}

-- A generated optional: `OptString` and `OptCreateTaskRequestPayload` are its instances.
pub record Opt (A : Type 0) : Type 0 where
  pub value : A
  pub set : Bool

module _ {A : Type 0} where
  abbrev pub new_opt : A → Opt A
  new_opt v = record { value = v; set = true }

  -- `Reset`, with the zero value of the type.
  abbrev pub reset : A → Opt A
  reset zero_value = record { value = zero_value; set = false }

  -- `Get`: the value and true, or the zero value and false.
  abbrev pub get : A → Opt A → A × Bool
  get zero_value o = if o.set then (o.value, true) else (zero_value, false)

  abbrev pub or_default : A → Opt A → A → A
  or_default zero_value o d = if (get zero_value o).1 then (get zero_value o).0 else d

abbrev pub OptString : Type 0
OptString = Opt String

-- A Go `map[string]jx.Raw`, as an association list with one entry for each key.
abbrev pub CreateTaskRequestPayload : Type 0
CreateTaskRequestPayload = List (String × String)

abbrev pub OptCreateTaskRequestPayload : Type 0
OptCreateTaskRequestPayload = Opt CreateTaskRequestPayload

-- `m[key] = value`
unfoldable pub map_set : String → String → CreateTaskRequestPayload → CreateTaskRequestPayload
map_set key v [] = (key, v) ∷ []
map_set key v ((k, w) ∷ m) = if k == key then (key, v) ∷ m else (k, w) ∷ map_set key v m

pub record CreateTaskRequest : Type 0 where
  pub handler : String
  pub payload : OptCreateTaskRequestPayload
  pub idempotency_key : OptString

-- The zero value, `var request CreateTaskRequest`.
abbrev pub empty_request : CreateTaskRequest
empty_request = record { handler = ""; payload = reset []; idempotency_key = reset "" }

abbrev pub ErrorCode : Type 0
ErrorCode = String

abbrev pub error_code_invalid_request_body : ErrorCode
error_code_invalid_request_body = "invalid_request_body"

abbrev pub error_code_invalid_parameter : ErrorCode
error_code_invalid_parameter = "invalid_parameter"

abbrev pub error_code_task_not_found : ErrorCode
error_code_task_not_found = "task_not_found"

abbrev pub error_code_internal_error : ErrorCode
error_code_internal_error = "internal_error"

-- `AllValues` of `ErrorCode`.
abbrev pub error_codes : List ErrorCode
error_codes =
    error_code_invalid_request_body ∷ error_code_invalid_parameter ∷ error_code_task_not_found
    ∷ error_code_internal_error ∷ []

pub record Error : Type 0 where
  pub code : ErrorCode
  pub message : String

abbrev pub TaskStatus : Type 0
TaskStatus = String

abbrev pub task_status_pending : TaskStatus
task_status_pending = "pending"

abbrev pub task_status_running : TaskStatus
task_status_running = "running"

abbrev pub task_status_succeeded : TaskStatus
task_status_succeeded = "succeeded"

abbrev pub task_status_failed : TaskStatus
task_status_failed = "failed"

abbrev pub task_status_cancelled : TaskStatus
task_status_cancelled = "cancelled"

-- `AllValues` of `TaskStatus`.
abbrev pub task_statuses : List TaskStatus
task_statuses =
    task_status_pending ∷ task_status_running ∷ task_status_succeeded ∷ task_status_failed
    ∷ task_status_cancelled ∷ []

-- The body of a successful answer.
pub record Task : Type 0 where
  pub id : Uuid
  pub status : TaskStatus
  pub created_at : Time

-- The interface `CreateTaskRes`, by the types that implement it.
pub data CreateTaskRes : Type 0 where
  task : Task → CreateTaskRes
  bad_request : Error → CreateTaskRes
  internal_server_error : Error → CreateTaskRes

-- The interface `GetTaskRes`.
pub data GetTaskRes : Type 0 where
  task : Task → GetTaskRes
  not_found : Error → GetTaskRes
  internal_server_error : Error → GetTaskRes

-- The switch of the generated `MarshalText`, `UnmarshalText`, `Validate` and `Decode` of an enum: the
-- text itself if it is one of the cases, and an error if not.
unfoldable pub switch : List String → String → Result String
switch [] s = err (errorf "invalid value")
switch (c ∷ cases) s = if s == c then ok c else switch cases s

-- `MarshalText` and `UnmarshalText` of `ErrorCode` and `TaskStatus`.
abbrev pub error_code_marshal_text : ErrorCode → Result String
error_code_marshal_text = switch error_codes

abbrev pub error_code_unmarshal_text : String → Result ErrorCode
error_code_unmarshal_text = switch error_codes

abbrev pub task_status_marshal_text : TaskStatus → Result String
task_status_marshal_text = switch task_statuses

abbrev pub task_status_unmarshal_text : String → Result TaskStatus
task_status_unmarshal_text = switch task_statuses
