-- ===== src/Oas/Client/Laws.antt =====
-- The client against the server: a submission through both is a call of the handler.
use flowhand.Base.{◌≡◌, refl, ◌+◌, false, String, Option, none, some, List, [], ◌∷◌, codes}
use flowhand.Failure.{GoError, ok}
use flowhand.Oas.Schemas.{CreateTaskRequest, CreateTaskRequestPayload, CreateTaskRes}
use flowhand.Oas.Jx.{Jx, IsJx}
use flowhand.Oas.Json.{encode_create_task_request, encode_create_task_request_fields}
use flowhand.Oas.Json.Payload.{
  decode_request-encode_request, request_of, Writable, request_complete,
}
use flowhand.Oas.Validate.{validate_create_task_request}
use flowhand.Oas.Router
use flowhand.Oas.Router.{
  serve_route, choose_elem, cut_prefix, UrlCodec, Bytes, Url, Routed, tasks_path,
}
use flowhand.Oas.Router.Laws.{Routes, Routes-serve_elem, post_tasks}
use flowhand.Oas.Http.{Attribute, Request, Exchange, count_request}
use flowhand.Oas.Request.{Libs, decode_request_body, length_is_zero}
use flowhand.Oas.Response.{json_type, encode_create_task_response}
use flowhand.Oas.Response.Laws.{fresh, arrives, CreateFits, create_on_wire, decode-encode_create}
use flowhand.Oas.Server.{
  Handler, Config, serve_http, encoded, create_labels, handle_create_task_request,
}
use flowhand.Oas.Client.{Transport, Counters, create_attributes, send_create_task}

-- What the client's HTTP library and the network do for a submission, if they work: the POST carries the
-- encoded request with its content type to the path that the client gave, and it is served.
pub record Delivers (J : Jx) (libs : Libs) (cfg : Config J.Bytes) {State : Type 0}
    (h : Handler State) (T : Transport J.Bytes State) : Type 0 where
  pub post : Request J.Bytes
  pub made : T.new_request "POST" (T.add_path_parts (codes "/v1/tasks" ∷ [])) ≡ ok post
  pub typed :
      (b : J.Bytes) → (T.set_body post b "application/json").content_type ≡ "application/json"
  pub carries : (b : J.Bytes) → (T.set_body post b "application/json").body ≡ ok b
  pub announced :
      (b : J.Bytes)
      → J.is_empty b ≡ false
      → length_is_zero (T.set_body post b "application/json").content_length ≡ false
  pub method : (b : J.Bytes) → (T.set_body post b "application/json").method ≡ "POST"
  pub url :
      (b : J.Bytes)
      → (T.set_body post b "application/json").url ≡ record { path = tasks_path; raw_path = [] }
  pub served :
      (r : Request J.Bytes) (s : State)
      → T.client_do r s ≡ (
        ok (arrives (serve_http J libs cfg h r fresh s).0),
        (serve_http J libs cfg h r fresh s).1,
      )

-- What a call that succeeds leaves: a request and its duration, and a body that was received and closed.
abbrev pub completed : List Attribute → Counters → Counters
completed attrs c = record c {
  requests = attrs ∷ c.requests;
  durations = attrs ∷ c.durations;
  received_bodies = c.received_bodies + 1;
  closed_bodies = c.closed_bodies + 1;
}

-- A plain URL is routed by its path.
pub routed_as :
    (codec : UrlCodec) {prefix : Bytes} {method method' : String} {u : Url} {path : Bytes}
    (out : Routed)
    → prefix ≡ []
    → method ≡ method'
    → u ≡ record { path = path; raw_path = [] }
    → Routes method' path out
    → serve_route codec prefix method u ≡ (out, false)
unfolding serve_route choose_elem cut_prefix
routed_as codec {prefix} {method} {method'} {u} {path} out unprefixed same plain route =
    rw unprefixed (rw same (rw plain (rw (Routes-serve_elem route) refl)))

module _ (J : Jx) (libs : Libs) (cfg : Config J.Bytes) where
  pub encoded_lem :
      (labels : List Attribute) (out : Option GoError × Exchange J.Bytes)
      → out.0 ≡ none
      → encoded J libs cfg labels out ≡ out.1
  encoded_lem labels (none, x) e = refl
  encoded_lem labels (some e', x) e = cc

module _ (J : Jx) (jx : IsJx J) (libs : Libs) (cfg : Config J.Bytes) where
  -- What the server decodes of the client's request.
  pub decodes :
      (r : Request J.Bytes) (name : String) (p : Option CreateTaskRequestPayload)
      (k : Option String)
      → Writable J.valid p
      → validate_create_task_request libs.validate_string (request_of name p k) ≡ none
      → libs.parse_media_type "application/json" ≡ ok "application/json"
      → r.content_type ≡ "application/json"
      → r.body ≡ ok (J.write (encode_create_task_request (request_of name p k)))
      → length_is_zero r.content_length ≡ false
      → decode_request_body J libs r
        ≡ ok (request_of name p k, J.write (encode_create_task_request (request_of name p k)))
  unfolding decode_request_body
  decodes r name p k w valid media typed carried announced =
      let fields = encode_create_task_request_fields (request_of name p k) in
      rw typed (
        rw media (
          rw announced (
            rw carried (
              rw (jx.written_not_empty fields) (
                rw (decode_request-encode_request J jx name p k w) (
                  rw (jx.written_alone fields (request_complete J.valid name p k w))
                    (rw valid refl)))))))

  module _ {State : Type 0} (h : Handler State) where
    -- What arrives for a request that is decoded and answered.
    serves :
        (r : Request J.Bytes) (req : CreateTaskRequest) (raw : J.Bytes) (res : CreateTaskRes)
        (s s' : State)
        → serve_route libs.urls cfg.prefix r.method r.url ≡ (Router.create_task, false)
        → decode_request_body J libs r ≡ ok (req, raw)
        → h.create_task req s ≡ (ok res, s')
        → (encode_create_task_response J res fresh).0 ≡ none
        → serve_http J libs cfg h r fresh s ≡ (
          count_request (create_labels J libs cfg) (encode_create_task_response J res fresh).1,
          s',
        )
    unfolding serve_http handle_create_task_request
    serves r req raw res s s' routed decoded answered written = rw routed (
        rw decoded (
          rw answered (
            rw
              (encoded_lem J libs cfg (create_labels J libs cfg)
                (encode_create_task_response J res fresh) written)
              refl)))

-- A submission by the generated client to the generated server, over a network that delivers and
-- with a JSON library that reads what it writes, is a call of the handler: a valid request, whose
-- payload if any is a map of JSON texts with no white space around them, reaches it unchanged, its
-- answer, if the description allows it and its time is in UTC and before the year 10000, comes back
-- unchanged but for the fraction of a second in that time, and the client counts one request with its
-- duration and no error, and closes the body that it received.
pub send_create_task-served :
    (J : Jx)
    → IsJx J
    → (libs : Libs) (cfg : Config J.Bytes) {State : Type 0} (h : Handler State)
      (T : Transport J.Bytes State)
    → Delivers J libs cfg h T
    → (name : String) (p : Option CreateTaskRequestPayload) (k : Option String) (c : Counters)
      (res : CreateTaskRes) (s s' : State)
    → cfg.prefix ≡ []
    → Writable J.valid p
    → validate_create_task_request libs.validate_string (request_of name p k) ≡ none
    → libs.parse_media_type "application/json" ≡ ok "application/json"
    → libs.parse_media_type json_type ≡ ok "application/json"
    → CreateFits res
    → h.create_task (request_of name p k) s ≡ (ok res, s')
    → send_create_task J T libs.parse_media_type (request_of name p k) c s
      ≡ ((ok (create_on_wire res), completed (create_attributes J T libs.parse_media_type) c), s')
unfolding send_create_task
send_create_task-served J jx libs cfg h T net name p k c res s s' unprefixed w valid media media'
      fits answer =
    let body = J.write (encode_create_task_request (request_of name p k)) in
    let r = T.set_body net.post body "application/json" in
    let full = jx.written_not_empty (encode_create_task_request_fields (request_of name p k)) in
    let reaches =
      decodes J jx libs cfg r name p k w valid media (net.typed body) (net.carries body)
        (net.announced body full) in
    let (written, read) = decode-encode_create J jx libs.parse_media_type media' res fits in
    let exchange =
      serves J jx libs cfg h r (request_of name p k) body res s s'
        (routed_as libs.urls Router.create_task unprefixed (net.method body) (net.url body)
          (post_tasks refl))
        reaches answer written in
    rw net.made (rw (net.served r s) (rw exchange (rw read refl)))
