-- ===== src/Oas/Json/Standard/Laws.antt =====
-- What encoding/json writes of a value of the API it reads back.
use flowhand.Base.{◌≡◌, refl, ap, String, Option}
use flowhand.Failure.{ok}
use flowhand.Domain.{IsDated}
use flowhand.Oas.Schemas.{
  CreateTaskRequestPayload, Error, Task, new_opt, error_codes, task_statuses,
}
use flowhand.Oas.Jx.{Jx, IsJx, str}
use flowhand.Oas.Json
use flowhand.Oas.Json.{decode_error_code, decode_task_status, encode_payload, decode_alias}
use flowhand.Oas.Json.RoundTrip.{
  decode_error-encode_error, alias-encode_error, decode_task-encode_task, on_wire,
  constant_or_self_lem,
}
use flowhand.Oas.Json.Payload.{
  decode_request-encode_request, request_of, Writable, IsWritable, payload_complete,
  decode_payload-object,
}
use flowhand.Oas.Json.Standard.{
  Coder, marshal_json, unmarshal_json, create_task_bad_request, create_task_internal_server_error,
  get_task_internal_server_error, get_task_not_found, error, error_code, task, task_status,
  create_task_request, create_task_request_payload, opt_create_task_request_payload, opt_string,
}

-- Written and read again, the value is the same.
abbrev pub Returns : (J : Jx) {T : Type 0} → Coder J T → T → Type 0
Returns J c v = unmarshal_json J c (marshal_json J c v) ≡ ok v

module _ (J : Jx) (jx : IsJx J) where
  string_read : (s : String) → J.str (J.decode_bytes (J.write (str s))) ≡ ok s
  string_read s = jx.reads_str _ s (jx.reads_written (str s) tt)

  payload_read :
      (m : CreateTaskRequestPayload)
      → IsWritable J.valid m
      → Json.decode_payload J (J.decode_bytes (J.write (encode_payload m))) ≡ ok m
  payload_read m w =
      decode_payload-object J jx _ m w
        (jx.reads_written (encode_payload m) (payload_complete J.valid m w))

-- With a JSON library that reads what it writes, encoding/json writes and reads back unchanged: an
-- `Error` under each of its names, an error code, a status, a request and a payload whose raw
-- values are non-empty JSON texts with no white space around them, and an optional that is set; and a
-- `Task` whose time is in UTC and before the year 10000 but for the fraction of a second.
pub unmarshal_json-marshal_json :
    (J : Jx)
    → IsJx J
    → (e : Error) (t : Task) (s : String) (p : Option CreateTaskRequestPayload) (k : Option String)
      (m : CreateTaskRequestPayload)
    → IsDated t.created_at
    → Writable J.valid p
    → IsWritable J.valid m
    → (Returns J (create_task_bad_request J) e
        × Returns J (create_task_internal_server_error J) e
        × Returns J (get_task_internal_server_error J) e
        × Returns J (get_task_not_found J) e
        × Returns J (error J) e)
      × (Returns J (error_code J) s × Returns J (task_status J) s)
      × (unmarshal_json J (task J) (marshal_json J (task J) t) ≡ ok (on_wire t))
      × Returns J (create_task_request J) (request_of s p k)
      × Returns J (create_task_request_payload J) m
      × Returns J (opt_create_task_request_payload J) (new_opt m)
      × Returns J (opt_string J) (new_opt s)
unfolding marshal_json unmarshal_json
unmarshal_json-marshal_json J jx e t s p k m in_utc w w' =
    let alias = alias-encode_error J jx e in
    let text = string_read J jx s in
    let payload = payload_read J jx m w' in
    (
      (alias, alias, alias, alias, decode_error-encode_error J jx e),
      (
        rw text (ap ok (constant_or_self_lem error_codes s)),
        rw text (ap ok (constant_or_self_lem task_statuses s)),
      ),
      decode_task-encode_task J jx t in_utc,
      decode_request-encode_request J jx s p k w,
      payload,
      rw payload refl,
      rw text refl,
    )
