-- ===== src/Oas/Client.antt =====
-- internal/api/oas/oas_client_gen.go and oas_request_encoders_gen.go: the generated client. The URL
-- helpers, the request's constructor and the HTTP client are a record of functions.
pub mod Laws
pub mod Read
pub mod Account
use flowhand.Base.{ℕ, ◌+◌, Bool, true, false, String, Option, none, some, List, [], ◌∷◌, codes}
use flowhand.Failure.{GoError, wrap, Result, ok, err, map_err, ◌>>=◌}
use flowhand.Action.{Action}
use flowhand.Domain.{Uuid}
use flowhand.Oas.Schemas.{CreateTaskRequest, CreateTaskRes, GetTaskRes}
use flowhand.Oas.Jx.{Jx}
use flowhand.Oas.Json.{encode_create_task_request}
use flowhand.Oas.Router.{Bytes, Url}
use flowhand.Oas.Http.{Attribute, operation_id, http_request_method, url_template, Request}
use flowhand.Oas.Response.{HttpResponse, decode_create_task_response, decode_get_task_response}

-- `world` is what sending a request changes: the network with the server behind it.
pub record Transport (B : Type 0) (World : Type 0) : Type 0 where
  -- `uri.AddPathParts` on a clone of the server's URL
  pub add_path_parts : List Bytes → Url
  -- The path encoder's result for an id
  pub encode_id : Uuid → Result Bytes
  -- `ht.NewRequest`
  pub new_request : String → Url → Result (Request B)
  -- `ht.SetBody`
  pub set_body : Request B → B → String → Request B
  -- The attributes of the configuration
  pub attributes : List Attribute
  -- `c.cfg.Client.Do`
  pub client_do : Request B → Action World (HttpResponse B)

-- The samples of the client's instruments, the last one first, a duration without its value; the stages
-- with which spans were marked as failed; the bodies of responses that were received, and those that were
-- drained and closed.
pub record Counters : Type 0 where
  pub requests : List (List Attribute)
  pub errors : List (List Attribute)
  pub durations : List (List Attribute)
  pub failed_stages : List String
  pub received_bodies : ℕ
  pub closed_bodies : ℕ

-- `c.requests.Add`
abbrev pub count_request : List Attribute → Counters → Counters
count_request attrs c = record c { requests = attrs ∷ c.requests }

abbrev receive_body : Counters → Counters
receive_body c = record c { received_bodies = c.received_bodies + 1 }

-- The deferred closure that drains a body and closes it.
abbrev close_body : Counters → Counters
close_body c = record c { closed_bodies = c.closed_bodies + 1 }

-- The deferred closure of the stopwatch.
abbrev record_duration : List Attribute → Counters → Counters
record_duration attrs c = record c { durations = attrs ∷ c.durations }

-- The deferred closure of the span: an error is counted, and marks the span with the stage.
abbrev record_error : {A : Type 0} → List Attribute → Result A × String → Counters → Counters
record_error attrs (ok a, stage) c = c
record_error attrs (err e, stage) c = record c {
  errors = attrs ∷ c.errors;
  failed_stages = stage ∷ c.failed_stages;
}

-- Both, in the order in which they run.
abbrev pub settle :
    {A World : Type 0}
    → List Attribute
    → (Result A × String) × (Counters × World)
    → (Result A × Counters) × World
settle attrs (out, (c, w)) = ((out.0, record_duration attrs (record_error attrs out c)), w)

module _ (J : Jx) {World : Type 0} (T : Transport J.Bytes World)
    (media_type : String → Result String) where
  -- `encodeCreateTaskRequest`
  abbrev pub encode_request : CreateTaskRequest → Request J.Bytes → Request J.Bytes
  encode_request req r = T.set_body r (J.write (encode_create_task_request req)) "application/json"

  -- From the response on.
  abbrev pub received :
      {A : Type 0}
      → (HttpResponse J.Bytes → Result A)
      → Counters
      → Result (HttpResponse J.Bytes) × World
      → (Result A × String) × (Counters × World)
  received decode c (ok resp, w) = (
    (map_err (wrap "decode response") (decode resp), "DecodeResponse"),
    (close_body (receive_body c), w),
  )
  received decode c (err e, w) = ((err (wrap "do request" e), "SendRequest"), (c, w))

  -- From a request on, or the failure to make one.
  abbrev pub sent :
      {A : Type 0}
      → (HttpResponse J.Bytes → Result A)
      → Result (Request J.Bytes)
      → Counters
      → World
      → (Result A × String) × (Counters × World)
  sent decode (ok r) c w = received decode c (T.client_do r w)
  sent decode (err e) c w = ((err (wrap "create request" e), "EncodeRequest"), (c, w))

  abbrev pub with_body : CreateTaskRequest → Result (Request J.Bytes) → Result (Request J.Bytes)
  with_body request (ok r) = ok (encode_request request r)
  with_body request (err e) = err e

  -- `otelAttrs` of the two operations.
  abbrev pub create_attributes : List Attribute
  create_attributes =
      operation_id "createTask"
      ∷ http_request_method "POST"
      ∷ url_template "/v1/tasks"
      ∷ T.attributes

  abbrev pub get_attributes : List Attribute
  get_attributes =
      operation_id "getTask"
      ∷ http_request_method "GET"
      ∷ url_template "/v1/tasks/{id}"
      ∷ T.attributes

  -- `CreateTask`, which is `sendCreateTask`
  unfoldable pub send_create_task :
      CreateTaskRequest → Counters → World → (Result CreateTaskRes × Counters) × World
  send_create_task request c w = settle create_attributes (
      sent (decode_create_task_response J media_type)
        (with_body request (T.new_request "POST" (T.add_path_parts (codes "/v1/tasks" ∷ []))))
        (count_request create_attributes c) w)

  abbrev pub get_with :
      Result Bytes → Counters → World → (Result GetTaskRes × String) × (Counters × World)
  get_with (ok encoded) c w =
      sent (decode_get_task_response J media_type)
        (T.new_request "GET" (T.add_path_parts (codes "/v1/tasks/" ∷ encoded ∷ []))) c w
  get_with (err e) c w = ((err (wrap "encode path" e), "BuildURL"), (c, w))

  -- `GetTask`, which is `sendGetTask`
  unfoldable pub send_get_task : Uuid → Counters → World → (Result GetTaskRes × Counters) × World
  send_get_task id c w =
      settle get_attributes (get_with (T.encode_id id) (count_request get_attributes c) w)
