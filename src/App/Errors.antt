-- ===== src/App/Errors.antt =====
-- An error of the application, as the generated client reads it.
use flowhand.Base.{
  ◌≡◌, refl, inl, inr, false, nat_eq, String, Option, none, List, [], if◌then◌else◌,
}
use flowhand.Failure.{GoError, ok, err}
use flowhand.Oas.Schemas
use flowhand.Oas.Schemas.{CreateTaskRequest, CreateTaskRequestPayload, CreateTaskRes}
use flowhand.Oas.Jx.{Jx, IsJx}
use flowhand.Oas.Json.{encode_create_task_request, encode_create_task_request_fields}
use flowhand.Oas.Json.Payload.{request_of, Writable}
use flowhand.Oas.Validate.{validate_create_task_request}
use flowhand.Oas.Router
use flowhand.Oas.Router.{serve_route}
use flowhand.Oas.Router.Laws.{post_tasks}
use flowhand.Oas.Http
use flowhand.Oas.Http.{Attribute, Request, count_request, record_error}
use flowhand.Oas.Request.{Libs, decode_request_body}
use flowhand.Oas.Response.{json_type, encode_create_task_response, decode_create_task_response}
use flowhand.Oas.Response.Laws.{fresh, arrives, decode-encode_create}
use flowhand.Oas.Server.{Handler, serve_http, handle_create_task_request, create_labels}
use flowhand.Oas.Client.{Transport, Counters, create_attributes, send_create_task}
use flowhand.Oas.Client.Laws.{Delivers, completed, decodes, routed_as}
use flowhand.Api.{render, error_handler}
use flowhand.Api.Laws.{render_lem}
use flowhand.App.{config}

-- The typed response that stands for an error, by the status with which it is rendered.
abbrev pub error_res : (GoError → String) → GoError → CreateTaskRes
error_res text e =
    let (status, body) = render text e in
    if nat_eq status 400
    then CreateTaskRes.bad_request body
    else CreateTaskRes.internal_server_error body

module _ (J : Jx) (libs : Libs) (text : GoError → String) (e : GoError) where
  abbrev labels : List Attribute
  labels = create_labels J libs (config J text)

  -- What the server sends when the application fails.
  abbrev sent_for : Http.Exchange J.Bytes
  sent_for = count_request labels (record_error labels "Internal" (error_handler J text e fresh))

  fails :
      {State : Type 0} (h : Handler State) (r : Request J.Bytes) (req : CreateTaskRequest)
      (raw : J.Bytes) (s s' : State)
      → serve_route libs.urls [] r.method r.url ≡ (Router.create_task, false)
      → decode_request_body J libs r ≡ ok (req, raw)
      → h.create_task req s ≡ (err e, s')
      → serve_http J libs (config J text) h r fresh s ≡ (sent_for, s')
  unfolding serve_http handle_create_task_request
  fails h r req raw s s' routed decoded answered = rw routed (rw decoded (rw answered refl))

  module _ (jx : IsJx J) (media : libs.parse_media_type json_type ≡ ok "application/json") where
    reads_error :
        decode_create_task_response J libs.parse_media_type (arrives sent_for)
        ≡ ok (error_res text e)
    unfolding error_handler encode_create_task_response Schemas.map_set
    reads_error =
        let (valid, cases) = render_lem text e in
        elim cases [
          | inl (_, is_400, _) ↦
              let res = CreateTaskRes.bad_request (render text e).1 in
              let (_, read) = decode-encode_create J jx libs.parse_media_type media res valid in
              rw is_400 read
          | inr (_, is_500, _) ↦
              let res = CreateTaskRes.internal_server_error (render text e).1 in
              let (_, read) = decode-encode_create J jx libs.parse_media_type media res valid in
              rw is_500 read
        ]

-- An error of the application reaches the caller of the generated client, over a network that delivers
-- and with a JSON library that reads what it writes, as a typed response and not as an error: for a valid
-- submission whose handler fails, the client returns a bad request or an internal error, by the status
-- with which the error is rendered, with the rendered code and message; the state is that which the
-- handler left, and the client counts one request and no error.
pub send_create_task-error_res :
    (J : Jx)
    → IsJx J
    → (libs : Libs) (text : GoError → String) {State : Type 0} (h : Handler State)
      (T : Transport J.Bytes State)
    → Delivers J libs (config J text) h T
    → (name : String) (p : Option CreateTaskRequestPayload) (k : Option String) (c : Counters)
      (e : GoError) (s s' : State)
    → Writable J.valid p
    → validate_create_task_request libs.validate_string (request_of name p k) ≡ none
    → libs.parse_media_type "application/json" ≡ ok "application/json"
    → libs.parse_media_type json_type ≡ ok "application/json"
    → h.create_task (request_of name p k) s ≡ (err e, s')
    → send_create_task J T libs.parse_media_type (request_of name p k) c s
      ≡ ((ok (error_res text e), completed (create_attributes J T libs.parse_media_type) c), s')
unfolding send_create_task
send_create_task-error_res J jx libs text h T net name p k c e s s' w valid media media' answer =
    let cfg = config J text in
    let body = J.write (encode_create_task_request (request_of name p k)) in
    let r = T.set_body net.post body "application/json" in
    let full = jx.written_not_empty (encode_create_task_request_fields (request_of name p k)) in
    let reaches =
      decodes J jx libs cfg r name p k w valid media (net.typed body) (net.carries body)
        (net.announced body full) in
    let routed =
      routed_as libs.urls Router.create_task refl (net.method body) (net.url body)
        (post_tasks refl) in
    let exchange = fails J libs text e h r (request_of name p k) body s s' routed reaches answer in
    rw net.made (rw (net.served r s) (rw exchange (rw (reads_error J libs text e jx media') refl)))
