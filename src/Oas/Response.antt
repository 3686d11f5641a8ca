-- ===== src/Oas/Response.antt =====
-- internal/api/oas/oas_response_encoders_gen.go and oas_response_decoders_gen.go: the server's
-- answers, and how the client reads them.
pub mod Laws
use flowhand.Base.{
  ◌≡◌, ℕ, Bool, true, false, ◌==◌, String, Option, none, some, List, [], ◌∷◌, nat_eq, if◌then◌else◌,
}
use flowhand.Failure.{
  GoError, errorf, wrap, decode_body, Result, ok, err, map_err, ◌>>=◌, ◌>>◌, of_error,
}
use flowhand.Oas.Schemas
use flowhand.Oas.Schemas.{Error, Task, CreateTaskRes, GetTaskRes}
use flowhand.Oas.Jx.{Jx, Value}
use flowhand.Oas.Json.{encode_error, encode_task, decode_alias, decode_task}
use flowhand.Oas.Validate.{
  validate_task, validate_create_task_bad_request, validate_create_task_internal_server_error,
  validate_get_task_not_found, validate_get_task_internal_server_error,
}
use flowhand.Oas.Http.{Exchange, set_header, write_header, set_span_error, write_to}

abbrev pub json_type : String
json_type = "application/json; charset=utf-8"

abbrev wrapped : {X : Type 0} → Option GoError × X → Option GoError × X
wrapped (none, x) = (none, x)
wrapped (some e, x) = (some (wrap "write" e), x)

module _ (J : Jx) where
  abbrev started : ℕ → Exchange J.Bytes → Exchange J.Bytes
  started status x = write_header status (set_header "Content-Type" json_type x)

  -- `encodeCreateTaskResponse`. Its default case is for a nil response, which has no value in
  -- `CreateTaskRes`.
  unfoldable pub encode_create_task_response :
      CreateTaskRes → Exchange J.Bytes → Option GoError × Exchange J.Bytes
  encode_create_task_response (CreateTaskRes.task t) x =
      wrapped (write_to J (encode_task t) (started 201 x))
  encode_create_task_response (CreateTaskRes.bad_request e) x =
      wrapped (write_to J (encode_error e) (started 400 x))
  encode_create_task_response (CreateTaskRes.internal_server_error e) x =
      wrapped (write_to J (encode_error e) (set_span_error (started 500 x)))

  -- `encodeGetTaskResponse`, without the default case for a nil response.
  unfoldable pub encode_get_task_response :
      GetTaskRes → Exchange J.Bytes → Option GoError × Exchange J.Bytes
  encode_get_task_response (GetTaskRes.task t) x =
      wrapped (write_to J (encode_task t) (started 200 x))
  encode_get_task_response (GetTaskRes.not_found e) x =
      wrapped (write_to J (encode_error e) (started 404 x))
  encode_get_task_response (GetTaskRes.internal_server_error e) x =
      wrapped (write_to J (encode_error e) (set_span_error (started 500 x)))

-- An `http.Response` at the client.
pub record HttpResponse (Bytes : Type 0) : Type 0 where
  pub status_code : ℕ
  pub content_type : String
  pub body : Result Bytes

module _ (J : Jx) (parse_media_type : String → Result String) where
  -- The code that the generated decoders repeat for each status: the content type, the body, the value,
  -- trailing data, validation.
  abbrev pub decode_case :
      {T : Type 0} → (J.Doc → Result T) → (T → Option GoError) → HttpResponse J.Bytes → Result T
  decode_case decode validate resp = do
    ct ← map_err (wrap "parse media type") (parse_media_type resp.content_type)
    if ct == "application/json"
        then (do
          buf ← resp.body
          response ← map_err decode_body (do
            response ← decode (J.decode_bytes buf)
            if J.trailing buf then err (errorf "unexpected trailing data") else ok response)
          map_err (wrap "validate") (of_error (validate response))
          ok response)
        else err (errorf "invalid content type")

  abbrev tagged : {A B : Type 0} → (A → B) → Result A → Result B
  tagged f (ok a) = ok (f a)
  tagged f (err e) = err e

  -- `decodeCreateTaskResponse`
  unfoldable pub decode_create_task_response : HttpResponse J.Bytes → Result CreateTaskRes
  decode_create_task_response resp =
      if nat_eq resp.status_code 201
      then tagged CreateTaskRes.task (decode_case (decode_task J) validate_task resp)
      else if nat_eq resp.status_code 400
      then tagged CreateTaskRes.bad_request
          (decode_case (decode_alias J) validate_create_task_bad_request resp)
      else if nat_eq resp.status_code 500
      then tagged CreateTaskRes.internal_server_error
          (decode_case (decode_alias J) validate_create_task_internal_server_error resp)
      else err (errorf "unexpected status code")

  -- `decodeGetTaskResponse`
  unfoldable pub decode_get_task_response : HttpResponse J.Bytes → Result GetTaskRes
  decode_get_task_response resp =
      if nat_eq resp.status_code 200
      then tagged GetTaskRes.task (decode_case (decode_task J) validate_task resp)
      else if nat_eq resp.status_code 404
      then tagged GetTaskRes.not_found
          (decode_case (decode_alias J) validate_get_task_not_found resp)
      else if nat_eq resp.status_code 500
      then tagged GetTaskRes.internal_server_error
          (decode_case (decode_alias J) validate_get_task_internal_server_error resp)
      else err (errorf "unexpected status code")
