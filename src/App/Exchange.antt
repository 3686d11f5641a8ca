-- ===== src/App/Exchange.antt =====
-- What arrives at a client of the server, request by request.
use flowhand.Base.{
  ◌≡◌, refl, ◌⊎◌, inl, inr, ℕ, ◌≤◌, Bool, String, some, List, [], ◌∷◌, ◌++◌, leb, arith,
}
use flowhand.Failure.{GoError, decode_request, decode_params, Result, ok, err}
use flowhand.Domain.{Uuid}
use flowhand.Oas.Schemas
use flowhand.Oas.Schemas.{
  CreateTaskRequest, CreateTaskRes, GetTaskRes, Error, error_code_invalid_request_body,
  error_code_invalid_parameter,
}
use flowhand.Oas.Jx.{Jx, Value}
use flowhand.Oas.Json.{encode_error, encode_task}
use flowhand.Oas.Router.{Bytes}
use flowhand.Oas.Http.{
  Request, Header, json, count_request, record_error, Attribute, http_response_status_code,
}
use flowhand.Oas.Http
use flowhand.Oas.Request.{Libs, decode_request_body, decode_get_task_params}
use flowhand.Oas.Response.{json_type, encode_create_task_response, encode_get_task_response}
use flowhand.Oas.Response.Laws.{fresh}
use flowhand.Oas.Server.{
  Handler, handle_create_task_request, handle_get_task_request, create_decoded, get_decoded,
  created, got, create_labels, get_labels,
}
use flowhand.Api.{error_handler, render}
use flowhand.Api.Laws.{render_lem}
use flowhand.App.{config}

abbrev pub json_header : Header
json_header = ("Content-Type", json_type) ∷ []

-- One JSON document with its status was sent; the request was counted once, an error at most once and
-- only with a status from 400 on, each with the request's labels and the status that was sent; one
-- duration was recorded like the request, and the span is marked exactly for a status from 500 on.
pub record Served (J : Jx) (labels : List Attribute) (Expected : ℕ → Type 0)
    (x : Http.Exchange J.Bytes) : Type 0 where
  pub status : ℕ
  pub document : Value
  pub expected : Expected status
  pub sent : x.sent ≡ some (status, json_header)
  pub body : x.body ≡ json (J.write document) ∷ []
  pub requests : x.requests ≡ (labels ++ http_response_status_code status ∷ []) ∷ []
  pub errors :
      (x.errors ≡ [])
      ⊎ ((x.errors ≡ (labels ++ http_response_status_code status ∷ []) ∷ []) × (400 ≤ status))
  pub durations : x.durations ≡ x.requests
  pub span : x.span_error ≡ leb 500 status

abbrev pub IsCreateStatus : ℕ → Type 0
IsCreateStatus n = (n ≡ 201) ⊎ (n ≡ 400) ⊎ (n ≡ 500)

abbrev pub IsGetStatus : ℕ → Type 0
IsGetStatus n = (n ≡ 200) ⊎ (n ≡ 404) ⊎ (n ≡ 400) ⊎ (n ≡ 500)

module _ (J : Jx) (libs : Libs) (text : GoError → String) where
  -- What an error that reaches the error handler leaves of a new exchange.
  rejected-Served :
      (labels : List Attribute) (stage : String) (e : GoError) (Expected : ℕ → Type 0)
      → Expected 400
      → Expected 500
      → Served J labels Expected (
          count_request labels
            (record_error labels stage (error_handler J text e (fresh {Bytes = J.Bytes}))))
  unfolding error_handler Schemas.map_set
  rejected-Served labels stage e Expected bad internal =
      let (_, cases) = render_lem text e in
      elim cases [
        | inl (_, is_400, _) ↦ record {
          status = (render text e).0;
          document = encode_error (render text e).1;
          expected = rw is_400 bad;
          sent = refl;
          body = refl;
          requests = rw is_400 refl;
          errors = inr (rw is_400 refl, rw is_400 (omega arith));
          durations = refl;
          span = rw is_400 refl;
        }
        | inr (_, is_500, _) ↦ record {
          status = (render text e).0;
          document = encode_error (render text e).1;
          expected = rw is_500 internal;
          sent = refl;
          body = refl;
          requests = rw is_500 refl;
          errors = inr (rw is_500 refl, rw is_500 (omega arith));
          durations = refl;
          span = rw is_500 refl;
        }
      ]

  module _ {State : Type 0} (h : Handler State) where
    created-Served :
        (out : Result CreateTaskRes × State)
        → Served J (create_labels J libs (config J text)) IsCreateStatus (
            count_request
              (create_labels J libs (config J text))
              (created J libs (config J text) h (fresh {Bytes = J.Bytes}) out).0)
    unfolding encode_create_task_response Schemas.map_set
    created-Served (ok (CreateTaskRes.task t), s) = record {
      status = 201;
      document = encode_task t;
      expected = inl refl;
      sent = refl;
      body = refl;
      requests = refl;
      errors = inl refl;
      durations = refl;
      span = refl;
    }
    created-Served (ok (CreateTaskRes.bad_request e), s) = record {
      status = 400;
      document = encode_error e;
      expected = inr (inl refl);
      sent = refl;
      body = refl;
      requests = refl;
      errors = inl refl;
      durations = refl;
      span = refl;
    }
    created-Served (ok (CreateTaskRes.internal_server_error e), s) = record {
      status = 500;
      document = encode_error e;
      expected = inr (inr refl);
      sent = refl;
      body = refl;
      requests = refl;
      errors = inl refl;
      durations = refl;
      span = refl;
    }
    created-Served (err e, s) =
        rejected-Served (create_labels J libs (config J text)) "Internal" e IsCreateStatus
          (inr (inl refl)) (inr (inr refl))

    got-Served :
        (out : Result GetTaskRes × State)
        → Served J (get_labels J libs (config J text)) IsGetStatus (
            count_request
              (get_labels J libs (config J text))
              (got J libs (config J text) h (fresh {Bytes = J.Bytes}) out).0)
    unfolding encode_get_task_response Schemas.map_set
    got-Served (ok (GetTaskRes.task t), s) = record {
      status = 200;
      document = encode_task t;
      expected = inl refl;
      sent = refl;
      body = refl;
      requests = refl;
      errors = inl refl;
      durations = refl;
      span = refl;
    }
    got-Served (ok (GetTaskRes.not_found e), s) = record {
      status = 404;
      document = encode_error e;
      expected = inr (inl refl);
      sent = refl;
      body = refl;
      requests = refl;
      errors = inl refl;
      durations = refl;
      span = refl;
    }
    got-Served (ok (GetTaskRes.internal_server_error e), s) = record {
      status = 500;
      document = encode_error e;
      expected = inr (inr (inr refl));
      sent = refl;
      body = refl;
      requests = refl;
      errors = inl refl;
      durations = refl;
      span = refl;
    }
    got-Served (err e, s) =
        rejected-Served (get_labels J libs (config J text)) "Internal" e IsGetStatus
          (inr (inr (inl refl))) (inr (inr (inr refl)))

    create_decoded-Served :
        (decoded : Result (CreateTaskRequest × J.Bytes)) (s : State)
        → Served J (create_labels J libs (config J text)) IsCreateStatus (
            count_request
              (create_labels J libs (config J text))
              (create_decoded J libs (config J text) h decoded (fresh {Bytes = J.Bytes}) s).0)
    create_decoded-Served (ok (request, raw_body)) s = created-Served (h.create_task request s)
    create_decoded-Served (err e) s =
        rejected-Served (create_labels J libs (config J text)) "DecodeRequest" (decode_request e)
          IsCreateStatus (inr (inl refl)) (inr (inr refl))

    get_decoded-Served :
        (decoded : Result Uuid) (s : State)
        → Served J (get_labels J libs (config J text)) IsGetStatus (
            count_request
              (get_labels J libs (config J text))
              (get_decoded J libs (config J text) h decoded (fresh {Bytes = J.Bytes}) s).0)
    get_decoded-Served (ok id) s = got-Served (h.get_task id s)
    get_decoded-Served (err e) s =
        rejected-Served (get_labels J libs (config J text)) "DecodeParams" (decode_params e)
          IsGetStatus (inr (inr (inl refl))) (inr (inr (inr refl)))

-- Whatever a POST sends on a working connection and whatever the application does with it, exactly
-- one JSON document is sent, with status 201, 400 or 500; the request is counted once, an error at
-- most once and never with 201, both under the labels of the operation and the status that was sent, one
-- duration is recorded, and the span is marked exactly with 500.
pub create-Served :
    (J : Jx) (libs : Libs) (text : GoError → String) {State : Type 0} (h : Handler State)
    (r : Request J.Bytes) (s : State)
    → Served J
        (create_labels J libs (config J text))
        IsCreateStatus
        (handle_create_task_request J libs (config J text) h r fresh s).0
unfolding handle_create_task_request
create-Served J libs text h r s =
    create_decoded-Served J libs text h (decode_request_body J libs r) s

-- Whatever a GET asks for on a working connection, exactly one JSON document is sent, with status
-- 200, 404, 400 or 500; the request is counted once, an error at most once and only from 400 on,
-- both under the labels of the operation and the status that was sent, one duration is recorded,
-- and the span is marked exactly with 500.
pub get-Served :
    (J : Jx) (libs : Libs) (text : GoError → String) {State : Type 0} (h : Handler State)
    (arg : Bytes) (escaped : Bool) (r : Request J.Bytes) (s : State)
    → Served J
        (get_labels J libs (config J text))
        IsGetStatus
        (handle_get_task_request J libs (config J text) h arg escaped r fresh s).0
unfolding handle_get_task_request
get-Served J libs text h arg escaped r s =
    get_decoded-Served J libs text h (decode_get_task_params J libs arg escaped) s
