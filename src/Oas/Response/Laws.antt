-- ===== src/Oas/Response/Laws.antt =====
-- The client reads back what the server wrote, for each answer of each operation.
use flowhand.Base.{
  ◌≡◌, refl, ℕ, false, ◌==◌, String, Option, none, some, List, [], ◌∷◌, if◌then◌else◌,
}
use flowhand.Failure.{GoError, Result, ok, err, errorf}
use flowhand.Domain.{IsDated}
use flowhand.Oas.Schemas
use flowhand.Oas.Schemas.{Error, Task, CreateTaskRes, GetTaskRes}
use flowhand.Oas.Jx.{Jx, IsJx, object, Members, CompleteMembers}
use flowhand.Oas.Json.{encode_task_fields, encode_error_fields, decode_alias, decode_task}
use flowhand.Oas.Json.RoundTrip.{alias-encode_error, decode_task-encode_task, on_wire}
use flowhand.Oas.Validate.{validate_error, validate_task}
use flowhand.Oas.Http.{Exchange, Header, Chunk, json}
use flowhand.Oas.Response.{
  encode_create_task_response, encode_get_task_response, HttpResponse, decode_create_task_response,
  decode_get_task_response, decode_case, json_type,
}

abbrev pub content_type_of : Header → String
content_type_of [] = ""
content_type_of ((k, v) ∷ h) = if k == "Content-Type" then v else content_type_of h

module _ {Bytes : Type 0} where
  -- A response before anything is written to it.
  abbrev pub fresh : Exchange Bytes
  fresh = record {
    header = [];
    recorded = 0;
    sent = none;
    body = [];
    broken = none;
    span_error = false;
    stages = [];
    requests = [];
    errors = [];
    durations = [];
  }

  abbrev pub body_of : List (Chunk Bytes) → Result Bytes
  body_of (json b ∷ []) = ok b
  body_of _ = err (errorf "not one document")

  -- What arrives at the client of a response with a body of one document.
  abbrev pub arrives : Exchange Bytes → HttpResponse Bytes
  arrives x = elim x.sent [
    | none ↦ record { status_code = 200; content_type = ""; body = body_of x.body }
    | some (status, header) ↦ record {
      status_code = status;
      content_type = content_type_of header;
      body = body_of x.body;
    }
  ]

-- An answer that the description allows, with its time in UTC and before the year 10000.
abbrev pub TaskFits : Task → Type 0
TaskFits t = (validate_task t ≡ none) × IsDated t.created_at

abbrev pub CreateFits : CreateTaskRes → Type 0
CreateFits (CreateTaskRes.task t) = TaskFits t
CreateFits (CreateTaskRes.bad_request e) = validate_error e ≡ none
CreateFits (CreateTaskRes.internal_server_error e) = validate_error e ≡ none

abbrev pub GetFits : GetTaskRes → Type 0
GetFits (GetTaskRes.task t) = TaskFits t
GetFits (GetTaskRes.not_found e) = validate_error e ≡ none
GetFits (GetTaskRes.internal_server_error e) = validate_error e ≡ none

on_wire-valid : (t : Task) → validate_task t ≡ none → validate_task (on_wire t) ≡ none
unfolding validate_task
on_wire-valid t valid = valid

-- An answer as it comes back.
abbrev pub create_on_wire : CreateTaskRes → CreateTaskRes
create_on_wire (CreateTaskRes.task t) = CreateTaskRes.task (on_wire t)
create_on_wire (CreateTaskRes.bad_request e) = CreateTaskRes.bad_request e
create_on_wire (CreateTaskRes.internal_server_error e) = CreateTaskRes.internal_server_error e

abbrev pub get_on_wire : GetTaskRes → GetTaskRes
get_on_wire (GetTaskRes.task t) = GetTaskRes.task (on_wire t)
get_on_wire (GetTaskRes.not_found e) = GetTaskRes.not_found e
get_on_wire (GetTaskRes.internal_server_error e) = GetTaskRes.internal_server_error e

module _ (J : Jx) (jx : IsJx J) (parse_media_type : String → Result String)
    (parses : parse_media_type json_type ≡ ok "application/json") where
  case_lem :
      {T : Type 0} (decode : J.Doc → Result T) (validate : T → Option GoError) (ms : Members)
      (t : T) (status : ℕ)
      → CompleteMembers J.valid ms
      → decode (J.decode_bytes (J.write (object ms))) ≡ ok t
      → validate t ≡ none
      → decode_case J parse_media_type decode validate (record {
        status_code = status;
        content_type = json_type;
        body = ok (J.write (object ms));
      })
        ≡ ok t
  case_lem decode validate ms t status complete read valid =
      rw parses (rw read (rw (jx.written_alone ms complete) (rw valid refl)))

  -- With a JSON library that reads what it writes, for every answer to a submission that the
  -- description allows, with its time in UTC, the server writes it without an error and the client
  -- decodes the same answer from what arrives, but for the fraction of a second.
  pub decode-encode_create :
      (res : CreateTaskRes)
      → CreateFits res
      → ((encode_create_task_response J res fresh).0 ≡ none)
        × (decode_create_task_response J parse_media_type
              (arrives (encode_create_task_response J res fresh).1)
            ≡ ok (create_on_wire res))
  unfolding encode_create_task_response decode_create_task_response Schemas.map_set
  decode-encode_create (CreateTaskRes.task t) (valid, in_utc) = (
    refl,
    rw
        (case_lem (decode_task J) validate_task (encode_task_fields t) (on_wire t) 201
          (tt, (tt, (tt, tt))) (decode_task-encode_task J jx t in_utc) (on_wire-valid t valid))
        refl,
  )
  decode-encode_create (CreateTaskRes.bad_request e) valid = (
    refl,
    rw
        (case_lem (decode_alias J) validate_error (encode_error_fields e) e 400 (tt, (tt, tt))
          (alias-encode_error J jx e) valid)
        refl,
  )
  decode-encode_create (CreateTaskRes.internal_server_error e) valid = (
    refl,
    rw
        (case_lem (decode_alias J) validate_error (encode_error_fields e) e 500 (tt, (tt, tt))
          (alias-encode_error J jx e) valid)
        refl,
  )

  -- With a JSON library that reads what it writes, for every answer to a read that the description
  -- allows, with its time in UTC, the server writes it without an error and the client decodes the
  -- same answer from what arrives, but for the fraction of a second.
  pub decode-encode_get :
      (res : GetTaskRes)
      → GetFits res
      → ((encode_get_task_response J res fresh).0 ≡ none)
        × (decode_get_task_response J parse_media_type
              (arrives (encode_get_task_response J res fresh).1)
            ≡ ok (get_on_wire res))
  unfolding encode_get_task_response decode_get_task_response Schemas.map_set
  decode-encode_get (GetTaskRes.task t) (valid, in_utc) = (
    refl,
    rw
        (case_lem (decode_task J) validate_task (encode_task_fields t) (on_wire t) 200
          (tt, (tt, (tt, tt))) (decode_task-encode_task J jx t in_utc) (on_wire-valid t valid))
        refl,
  )
  decode-encode_get (GetTaskRes.not_found e) valid = (
    refl,
    rw
        (case_lem (decode_alias J) validate_error (encode_error_fields e) e 404 (tt, (tt, tt))
          (alias-encode_error J jx e) valid)
        refl,
  )
  decode-encode_get (GetTaskRes.internal_server_error e) valid = (
    refl,
    rw
        (case_lem (decode_alias J) validate_error (encode_error_fields e) e 500 (tt, (tt, tt))
          (alias-encode_error J jx e) valid)
        refl,
  )
