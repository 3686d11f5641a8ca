-- ===== src/Oas/Json/Standard.antt =====
-- The rest of internal/api/oas/oas_json_gen.go: the four types that are an `Error` under another name,
-- the optionals, and `MarshalJSON` and `UnmarshalJSON`, by which encoding/json uses the encoders and
-- decoders of every type.
pub mod Laws
use flowhand.Base.{Bool, true, false, String, Option, none, some, if◌then◌else◌}
use flowhand.Failure.{GoError, wrap, Result, map_err}
use flowhand.Oas.Schemas.{
  CreateTaskRequest, CreateTaskRequestPayload, Error, ErrorCode, Opt, OptString,
  OptCreateTaskRequestPayload, Task, TaskStatus,
}
use flowhand.Oas.Jx.{Jx, Value, str}
use flowhand.Oas.Json.{
  encode_error, decode_error, encode_task, decode_task, encode_payload, decode_payload,
  encode_create_task_request, decode_create_task_request, decode_error_code, decode_task_status,
  decode_opt_payload, decode_opt_string, decode_alias,
}

-- `Encode` and `Decode` of a type. Of an optional that is not set nothing is written.
pub record Coder (J : Jx) (T : Type 0) : Type 0 where
  pub encode : T → Option Value
  pub decode : J.Doc → Result T

module _ (J : Jx) where
  abbrev written : Option Value → J.Bytes
  written none = J.nothing
  written (some v) = J.write v

  module _ {T : Type 0} (c : Coder J T) where
    unfoldable pub marshal_json : T → J.Bytes
    marshal_json s = written (c.encode s)

    unfoldable pub unmarshal_json : J.Bytes → Result T
    unmarshal_json bytes = c.decode (J.decode_bytes bytes)

  abbrev pub create_task_bad_request : Coder J Error
  create_task_bad_request = record { encode = λ s. some (encode_error s); decode = decode_alias J }

  abbrev pub create_task_internal_server_error : Coder J Error
  create_task_internal_server_error = record {
    encode = λ s. some (encode_error s);
    decode = decode_alias J;
  }

  abbrev pub get_task_internal_server_error : Coder J Error
  get_task_internal_server_error = record {
    encode = λ s. some (encode_error s);
    decode = decode_alias J;
  }

  abbrev pub get_task_not_found : Coder J Error
  get_task_not_found = record { encode = λ s. some (encode_error s); decode = decode_alias J }

  abbrev pub error : Coder J Error
  error = record { encode = λ s. some (encode_error s); decode = decode_error J }

  abbrev pub error_code : Coder J ErrorCode
  error_code = record { encode = λ s. some (str s); decode = decode_error_code J }

  abbrev pub task : Coder J Task
  task = record { encode = λ s. some (encode_task s); decode = decode_task J }

  abbrev pub task_status : Coder J TaskStatus
  task_status = record { encode = λ s. some (str s); decode = decode_task_status J }

  abbrev pub create_task_request : Coder J CreateTaskRequest
  create_task_request = record {
    encode = λ s. some (encode_create_task_request s);
    decode = decode_create_task_request J;
  }

  abbrev pub create_task_request_payload : Coder J CreateTaskRequestPayload
  create_task_request_payload = record {
    encode = λ s. some (encode_payload s);
    decode = decode_payload J;
  }

  -- `if !o.Set { return }`
  abbrev encode_opt : {T : Type 0} → (T → Value) → Opt T → Option Value
  encode_opt encode o = if o.set then some (encode o.value) else none

  abbrev pub opt_create_task_request_payload : Coder J OptCreateTaskRequestPayload
  opt_create_task_request_payload = record {
    encode = encode_opt encode_payload;
    decode = decode_opt_payload J;
  }

  abbrev pub opt_string : Coder J OptString
  opt_string = record { encode = encode_opt str; decode = decode_opt_string J }
