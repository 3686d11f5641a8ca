-- ===== src/Oas/Schemas/Setters.antt =====
-- internal/api/oas/oas_schemas_gen.go: the methods that write to a value of the API. The getters are the
-- fields of the records.
use flowhand.Base.{Bool, String, Option, none, some, []}
use flowhand.Domain.{Uuid, Time}
use flowhand.Oas.Schemas.{
  Opt, OptString, OptCreateTaskRequestPayload, CreateTaskRequestPayload, CreateTaskRequest, Error,
  ErrorCode, Task, TaskStatus,
}

abbrev pub set_handler : String → CreateTaskRequest → CreateTaskRequest
set_handler val s = record s { handler = val }

abbrev pub set_payload : OptCreateTaskRequestPayload → CreateTaskRequest → CreateTaskRequest
set_payload val s = record s { payload = val }

abbrev pub set_idempotency_key : OptString → CreateTaskRequest → CreateTaskRequest
set_idempotency_key val s = record s { idempotency_key = val }

-- `init`: a nil map, which is none, becomes an empty one.
abbrev pub init : Option CreateTaskRequestPayload → CreateTaskRequestPayload
init none = []
init (some m) = m

abbrev pub set_code : ErrorCode → Error → Error
set_code val s = record s { code = val }

abbrev pub set_message : String → Error → Error
set_message val s = record s { message = val }

abbrev pub set_id : Uuid → Task → Task
set_id val s = record s { id = val }

abbrev pub set_status : TaskStatus → Task → Task
set_status val s = record s { status = val }

abbrev pub set_created_at : Time → Task → Task
set_created_at val s = record s { created_at = val }

-- `IsSet` and `SetTo` of the optionals.
abbrev pub is_set : {A : Type 0} → Opt A → Bool
is_set o = o.set

abbrev pub set_to : {A : Type 0} → A → Opt A → Opt A
set_to v o = record o { set = Bool.true; value = v }
