-- ===== src/Oas/Server.antt =====
-- internal/api/oas/oas_handlers_gen.go, and `ServeHTTP` and the server's configuration of
-- oas_router_gen.go and oas_cfg_gen.go. The application is a `Handler` over its state; the server is run
-- without middleware, which `server.Run` does not set.
use flowhand.Base.{
  Bool, true, false, ◌==◌, String, Option, none, some, List, [], ◌∷◌, if◌then◌else◌,
}
use flowhand.Failure.{
  GoError, decode_request, decode_params, errors_is, err_internal_response, Result, ok, err,
}
use flowhand.Action.{Action}
use flowhand.Domain.{Uuid}
use flowhand.Oas.Schemas.{CreateTaskRequest, CreateTaskRes, GetTaskRes}
use flowhand.Oas.Jx.{Jx}
use flowhand.Oas.Router
use flowhand.Oas.Router.{Bytes, Routed, serve_route}
use flowhand.Oas.Http.{
  Attribute, operation_id, http_request_method, http_route, Request, Exchange, text, set_header,
  write_header, write_chunk, record_error, count_request,
}
use flowhand.Oas.Request.{Libs, decode_request_body, decode_get_task_params}
use flowhand.Oas.Response.{encode_create_task_response, encode_get_task_response}

-- The generated interface `Handler`, which the application implements over its state.
pub record Handler (State : Type 0) : Type 0 where
  pub create_task : CreateTaskRequest → Action State CreateTaskRes
  pub get_task : Uuid → Action State GetTaskRes

-- `serverConfig`, as far as it is read: an unset `MethodNotAllowed` is none.
pub record Config (B : Type 0) : Type 0 where
  pub prefix : Bytes
  pub not_found : Exchange B → Exchange B
  pub method_not_allowed : Option (String → Exchange B → Exchange B)
  pub error_handler : GoError → Exchange B → Exchange B

-- `http.NotFound`
abbrev pub http_not_found : {B : Type 0} → Exchange B → Exchange B
http_not_found x = write_chunk (text "404 page not found") (
    write_header 404 (
      set_header "X-Content-Type-Options" "nosniff"
        (set_header "Content-Type" "text/plain; charset=utf-8" x)))

-- `newServerConfig` with the error handler that `WithErrorHandler` sets.
abbrev pub server_config : {B : Type 0} → (GoError → Exchange B → Exchange B) → Config B
server_config error_handler = record {
  prefix = [];
  not_found = http_not_found;
  method_not_allowed = none;
  error_handler = error_handler;
}

-- `notAllowedParams`; a header map that is nil or lacks a method gives none.
pub record NotAllowedParams : Type 0 where
  pub allowed_methods : String
  pub allowed_headers : String → Option String
  pub accept_post : String
  pub accept_patch : String

-- `rn1AllowedHeaders`
abbrev pub rn1_allowed_headers : String → Option String
rn1_allowed_headers m = if m == "POST" then some "Content-Type" else none

-- The parameters that `ServeHTTP` writes out at its two refusals.
abbrev pub params_of : String → NotAllowedParams
params_of methods =
    if methods == "POST"
    then record {
      allowed_methods = "POST";
      allowed_headers = rn1_allowed_headers;
      accept_post = "application/json";
      accept_patch = "";
    }
    else record {
      allowed_methods = "GET";
      allowed_headers = λ m. none;
      accept_post = "";
      accept_patch = "";
    }

module _ (J : Jx) (libs : Libs) (cfg : Config J.Bytes) where
  abbrev X : Type 0
  X = Exchange J.Bytes

  abbrev pub set_unless_empty : String → String → X → X
  set_unless_empty key value x = if value == "" then x else set_header key value x

  abbrev pub set_if_some : String → Option String → X → X
  set_if_some key none x = x
  set_if_some key (some value) x = set_header key value x

  -- The headers of an answer to OPTIONS.
  abbrev pub options_headers : NotAllowedParams → String → X → X
  options_headers params requested x = set_unless_empty "Accept-Patch" params.accept_patch (
      set_unless_empty "Accept-Post" params.accept_post (
        set_if_some "Access-Control-Allow-Headers"
          (if requested == "" then none else params.allowed_headers (libs.to_upper requested))
          (set_header "Access-Control-Allow-Methods" params.allowed_methods x)))

  abbrev pub refuse : Bool → NotAllowedParams → Option (String → X → X) → X → X
  refuse is_options params (some handler) x = handler params.allowed_methods x
  refuse true params none x = write_header 204 x
  refuse false params none x = write_header 405 (set_header "Allow" params.allowed_methods x)

  -- `notAllowed`
  unfoldable pub not_allowed : Request J.Bytes → NotAllowedParams → X → X
  not_allowed r params x =
      let is_options = r.method == "OPTIONS" in
      refuse is_options params cfg.method_not_allowed
        (if is_options then options_headers params r.requested_method x else x)

  -- The labeler's attributes in the two handlers.
  abbrev pub create_labels : List Attribute
  create_labels =
      libs.attribute_set
        (operation_id "createTask" ∷ http_request_method "POST" ∷ http_route "/v1/tasks" ∷ [])

  abbrev pub get_labels : List Attribute
  get_labels =
      libs.attribute_set
        (operation_id "getTask" ∷ http_request_method "GET" ∷ http_route "/v1/tasks/{id}" ∷ [])

  -- A failure to encode: it is rendered too, unless it is ogen's own sentinel.
  abbrev pub encoded : List Attribute → Option GoError × X → X
  encoded labels (none, x) = x
  encoded labels (some e, x) =
      record_error labels "EncodeResponse"
        (if errors_is err_internal_response e then x else cfg.error_handler e x)

  module _ {State : Type 0} (h : Handler State) where
    abbrev pub created : X → Result CreateTaskRes × State → X × State
    created x (ok response, s) =
        (encoded create_labels (encode_create_task_response J response x), s)
    created x (err e, s) = (record_error create_labels "Internal" (cfg.error_handler e x), s)

    abbrev pub create_decoded : Result (CreateTaskRequest × J.Bytes) → X → State → X × State
    create_decoded (ok (request, raw_body)) x s = created x (h.create_task request s)
    create_decoded (err e) x s =
        (record_error create_labels "DecodeRequest" (cfg.error_handler (decode_request e) x), s)

    abbrev pub counted : List Attribute → X × State → X × State
    counted labels (x, s) = (count_request labels x, s)

    -- `handleCreateTaskRequest`
    unfoldable pub handle_create_task_request : Request J.Bytes → X → State → X × State
    handle_create_task_request r x s =
        counted create_labels (create_decoded (decode_request_body J libs r) x s)

    abbrev pub got : X → Result GetTaskRes × State → X × State
    got x (ok response, s) = (encoded get_labels (encode_get_task_response J response x), s)
    got x (err e, s) = (record_error get_labels "Internal" (cfg.error_handler e x), s)

    abbrev pub get_decoded : Result Uuid → X → State → X × State
    get_decoded (ok id) x s = got x (h.get_task id s)
    get_decoded (err e) x s =
        (record_error get_labels "DecodeParams" (cfg.error_handler (decode_params e) x), s)

    -- `handleGetTaskRequest`
    unfoldable pub handle_get_task_request : Bytes → Bool → Request J.Bytes → X → State → X × State
    handle_get_task_request arg escaped r x s =
        counted get_labels (get_decoded (decode_get_task_params J libs arg escaped) x s)

    abbrev pub serve_routed : Routed × Bool → Request J.Bytes → X → State → X × State
    serve_routed (Router.create_task, escaped) r x s = handle_create_task_request r x s
    serve_routed (Router.get_task arg, escaped) r x s = handle_get_task_request arg escaped r x s
    serve_routed (Router.not_allowed methods, escaped) r x s =
        (not_allowed r (params_of methods) x, s)
    serve_routed (Router.not_found, escaped) r x s = (cfg.not_found x, s)

    -- `ServeHTTP`
    unfoldable pub serve_http : Request J.Bytes → X → State → X × State
    serve_http r x s = serve_routed (serve_route libs.urls cfg.prefix r.method r.url) r x s
