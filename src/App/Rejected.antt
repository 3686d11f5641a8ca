-- ===== src/App/Rejected.antt =====
-- What a client of the server gets for a request that cannot be decoded.
use flowhand.Base.{◌≡◌, refl, inl, inr, Bool, String, some, [], ◌∷◌, Bool-cases}
use flowhand.Failure.{GoError, as_decode_request, decode_request, err}
use flowhand.Oas.Schemas
use flowhand.Oas.Schemas.{
  CreateTaskRequest, CreateTaskRes, GetTaskRes, Error, error_code_invalid_request_body,
  error_code_invalid_parameter,
}
use flowhand.Oas.Jx.{Jx}
use flowhand.Oas.Json.{encode_error}
use flowhand.Oas.Router.{Bytes}
use flowhand.Oas.Http.{Request, json}
use flowhand.Oas.Request.{Libs, decode_request_body, decode_get_task_params}
use flowhand.Oas.Response.Laws.{fresh}
use flowhand.Oas.Server.{Handler, handle_create_task_request, handle_get_task_request}
use flowhand.Api.{error_handler, render}
use flowhand.App.{config}
use flowhand.App.Exchange.{json_header}

-- A POST whose body, and a GET whose parameter cannot be decoded leave the application's state as
-- it was, and the client is told 400. The body of the answer to the POST has the code of an
-- invalid request body and the error's text.
pub rejected_lem :
    (J : Jx) (libs : Libs) (text : GoError → String) {State : Type 0} (h : Handler State)
    (r : Request J.Bytes) (arg : Bytes) (escaped : Bool) (s : State) (e e' : GoError)
    → decode_request_body J libs r ≡ err e
    → decode_get_task_params J libs arg escaped ≡ err e'
    → let (x, s') = handle_create_task_request J libs (config J text) h r fresh s in
      let (x', s'') = handle_get_task_request J libs (config J text) h arg escaped r fresh s in
      (s' ≡ s)
      × (s'' ≡ s)
      × (x.sent ≡ some (400, json_header))
      × (x'.sent ≡ some (400, json_header))
      × (x.body
          ≡ json (
              J.write (
                encode_error (record {
                  code = error_code_invalid_request_body;
                  message = text (decode_request e);
                })))
            ∷ [])
unfolding handle_create_task_request handle_get_task_request error_handler render Schemas.map_set
rejected_lem J libs text h r arg escaped s e e' bad bad' = rw bad (
    rw bad' (elim (Bool-cases (as_decode_request e')) [
      | inl other ↦ rw other (refl, refl, refl, refl, refl)
      | inr n ↦ rw n (refl, refl, refl, refl, refl)
    ]))
