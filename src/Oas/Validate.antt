-- ===== src/Oas/Validate.antt =====
-- internal/api/oas/oas_validators_gen.go. The rules of `validate.String` are ogen's: a parameter.
pub mod Laws
use flowhand.Base.{
  ◌≡◌, ◌↔◌, ℕ, ◌≤◌, Bool, true, false, ◌==◌, String, Option, none, some, List, [], ◌∷◌, ◌++◌,
  if◌then◌else◌,
}
use flowhand.Failure.{GoError, errorf, invalid_fields, wrap, Result, ok, err}
use flowhand.Oas.Schemas.{
  Opt, OptString, get, CreateTaskRequest, ErrorCode, Error, TaskStatus, Task, error_codes,
  task_statuses, switch,
}
use flowhand.Oas.Json.{any_failures}
use Prim.Native.String.{count}

-- The options of a `validate.String` that the generated code sets.
pub record StringRules : Type 0 where
  pub min_length : ℕ
  pub min_length_set : Bool
  pub max_length : ℕ
  pub max_length_set : Bool

-- `validate.String{...}.Validate`
abbrev pub StringValidator : Type 0
StringValidator = StringRules → String → Option GoError

-- What ogen documents of it: lengths are counted in characters.
abbrev pub CountsCharacters : StringValidator → Type 0
CountsCharacters validate_string =
    (r : StringRules) (s : String)
    → (validate_string r s ≡ none) ↔ (
        (r.min_length_set ≡ true → r.min_length ≤ count s)
        × (r.max_length_set ≡ true → count s ≤ r.max_length))

-- The rules of `handler` and `idempotency_key`.
abbrev pub text_rules : StringRules
text_rules = record {
  min_length = 1;
  min_length_set = true;
  max_length = 128;
  max_length_set = true;
}

-- A failure of the field, if there is one.
abbrev pub failure : String → Option GoError → List String
failure name none = []
failure name (some e) = name ∷ []

module _ (validate_string : StringValidator) where
  abbrev pub validate_key : String × Bool → Option GoError
  validate_key (value, true) = validate_string text_rules value
  validate_key (value, false) = none

  -- `CreateTaskRequest.Validate`
  unfoldable pub validate_create_task_request : CreateTaskRequest → Option GoError
  validate_create_task_request s = any_failures (
      failure "handler" (validate_string text_rules s.handler)
      ++ failure "idempotency_key" (validate_key (get "" s.idempotency_key)))

abbrev pub error_of {ℓ} : {A : Type ℓ} → Result A → Option GoError
error_of (ok a) = none
error_of (err e) = some e

-- `ErrorCode.Validate`
abbrev pub validate_error_code : ErrorCode → Option GoError
validate_error_code s = error_of (switch error_codes s)

-- `Error.Validate`
unfoldable pub validate_error : Error → Option GoError
validate_error s = any_failures (failure "code" (validate_error_code s.code))

-- `Validate` of the types that are an `Error` under another name.
abbrev pub validate_create_task_bad_request : Error → Option GoError
validate_create_task_bad_request s = validate_error s

abbrev pub validate_create_task_internal_server_error : Error → Option GoError
validate_create_task_internal_server_error s = validate_error s

abbrev pub validate_get_task_internal_server_error : Error → Option GoError
validate_get_task_internal_server_error s = validate_error s

abbrev pub validate_get_task_not_found : Error → Option GoError
validate_get_task_not_found s = validate_error s

-- `TaskStatus.Validate`
abbrev pub validate_task_status : TaskStatus → Option GoError
validate_task_status s = error_of (switch task_statuses s)

-- `Task.Validate`
unfoldable pub validate_task : Task → Option GoError
validate_task s = any_failures (failure "status" (validate_task_status s.status))
