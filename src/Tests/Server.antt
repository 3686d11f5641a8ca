-- ===== src/Tests/Server.antt =====
-- The handler and the server at concrete inputs.
use flowhand.Base.{◌≡◌, refl, ◌⊎◌, true, false, ◌||◌, none, some, List, [], ◌∷◌}
use flowhand.Failure.{
  GoError, Result, ok, err, errorf, join_one, decode_body, decode_param, invalid_fields,
  decode_request, as_decode_params, as_decode_request,
}
use flowhand.Storage.{find_id, find_key, Row}
use flowhand.Storage.Memory.{memory, memory-IsPostgres}
use flowhand.Repository
use flowhand.Repository.{translate, insert_error, is_unique_violation}
use flowhand.Service
use flowhand.Service.{store_task, replay}
use flowhand.Storage.Table.{Reach, here}
use flowhand.Oas.Schemas
use flowhand.Oas.Schemas.{
  CreateTaskRes, GetTaskRes, error_code_invalid_request_body, error_code_internal_error,
}
use flowhand.Oas.Json.{encode_create_task_request, encode_error, decode_create_task_request}
use flowhand.Oas.Http.{Exchange, json}
use flowhand.Oas.Jx.{Value, object, end}
use flowhand.Oas.Jx.Tree.{tree}
use flowhand.Oas.Request.{decode_request_body, decode_get_task_params}
use flowhand.Oas.Response.Laws.{fresh}
use flowhand.Oas.Server.{
  handle_create_task_request, handle_get_task_request, serve_http, create_labels,
}
use flowhand.Oas.Validate.{validate_error}
use flowhand.Api
use flowhand.Api.{render, handler, payload_json}
use flowhand.Api.Laws.{render_lem}
use flowhand.Api.Mapper.{to_oas_status, to_oas_task, to_oas_task_view}
use flowhand.App.{deps, config}
use flowhand.App.Routing.{Answered, serve_http-Answered}
use flowhand.Oas.Router.{serve_route}
use flowhand.App.Replay.{create_task_twice}
use flowhand.App.ReadBack.{SameTask, get_task-create_task}
use flowhand.App.Rejected.{rejected_lem}
use flowhand.App.Exchange.{create-Served, Served, IsCreateStatus, json_header}
use flowhand.Domain.{RawMessage}
use flowhand.Tests.Doubles.{
  urls, tasks_url, env, later_env, stored, request, dto, replayed_dto, post, libs, text_of,
}
use flowhand.Tests.Tasks.{key_not_empty}
use flowhand.App.Refines
use flowhand.App.Refines.{Call}

abbrev marshal : Schemas.CreateTaskRequestPayload → Result RawMessage
marshal p = ok "{}"

abbrev pub first_deps : Api.Deps memory.State
first_deps = deps memory env marshal

abbrev second_deps : Api.Deps memory.State
second_deps = deps memory later_env marshal

first : (Api.create_task first_deps request []).0 ≡ ok (CreateTaskRes.task dto)
unfolding Api.create_task Service.submit store_task replay Repository.insert insert_error
    is_unique_violation find_id find_key to_oas_task to_oas_status
first = refl

first_rows : memory.rows (Api.create_task first_deps request []).1 ≡ stored ∷ []
unfolding Api.create_task Service.submit store_task replay Repository.insert insert_error
    is_unique_violation find_id find_key to_oas_task to_oas_status
first_rows = refl

second :
    (Api.create_task second_deps request (stored ∷ [])).0 ≡ ok (CreateTaskRes.task replayed_dto)
unfolding Api.create_task Service.submit store_task replay Repository.insert insert_error
    is_unique_violation find_id find_key to_oas_task to_oas_status translate
    Repository.get_by_idempotency_key
second = refl

unchanged : Reach memory.jsonb (memory.rows (Api.create_task first_deps request []).1) (stored ∷ [])
unchanged = rw first_rows here

create_task_twice_example :
    (replayed_dto.id ≡ dto.id)
    × (memory.rows (Api.create_task second_deps request (stored ∷ [])).1 ≡ stored ∷ [])
create_task_twice_example =
    create_task_twice memory memory-IsPostgres env later_env marshal request request "key" []
      (stored ∷ []) dto replayed_dto key_not_empty refl refl first unchanged second

got : (Api.get_task second_deps 7 (stored ∷ [])).0 ≡ ok (GetTaskRes.task replayed_dto)
unfolding Api.get_task Service.get Repository.get find_id to_oas_task_view to_oas_status
got = refl

get_task-create_task_example : SameTask dto (GetTaskRes.task replayed_dto)
get_task-create_task_example =
    get_task-create_task memory memory-IsPostgres env later_env marshal request [] (stored ∷ []) dto
      (GetTaskRes.task replayed_dto) tt first unchanged got

abbrev broken : GoError
broken = errorf "connection refused"

render_lem_example :
    (validate_error (render text_of broken).1 ≡ none)
    × (((as_decode_request broken || as_decode_params broken ≡ true)
          × ((render text_of broken).0 ≡ 400)
          × ((render text_of broken).1.message ≡ text_of broken))
        ⊎ ((as_decode_request broken || as_decode_params broken ≡ false)
            × ((render text_of broken).0 ≡ 500)
            × ((render text_of broken).1
                ≡ record { code = error_code_internal_error; message = "internal server error" })))
render_lem_example = render_lem text_of broken

create-Served_example :
    Served tree
      (create_labels tree libs (config tree text_of))
      IsCreateStatus
      (handle_create_task_request tree libs
        (config tree text_of)
        (handler first_deps)
        (post (encode_create_task_request request))
        fresh
        []).0
create-Served_example =
    create-Served tree libs text_of (handler first_deps) (post (encode_create_task_request request))
      []

-- A body without a handler, and an empty id.
abbrev no_handler : GoError
no_handler = join_one (decode_body (invalid_fields ("handler" ∷ [])))

abbrev no_id : GoError
no_id = decode_param (errorf "field required")

body_refused : decode_request_body tree libs (post (object end)) ≡ err no_handler
unfolding decode_request_body decode_create_task_request
body_refused = refl

id_refused : decode_get_task_params tree libs [] false ≡ err no_id
unfolding decode_get_task_params
id_refused = refl

abbrev refused_post : Exchange Value × List Row
refused_post =
    handle_create_task_request tree libs (config tree text_of) (handler first_deps)
      (post (object end)) fresh (stored ∷ [])

abbrev refused_get : Exchange Value × List Row
refused_get =
    handle_get_task_request tree libs (config tree text_of) (handler first_deps) [] false
      (post (object end)) fresh (stored ∷ [])

rejected_lem_example :
    (refused_post.1 ≡ stored ∷ [])
    × (refused_get.1 ≡ stored ∷ [])
    × (refused_post.0.sent ≡ some (400, json_header))
    × (refused_get.0.sent ≡ some (400, json_header))
    × (refused_post.0.body
        ≡ json (
            tree.write (
              encode_error (record {
                code = error_code_invalid_request_body;
                message = text_of (decode_request no_handler);
              })))
          ∷ [])
rejected_lem_example =
    rejected_lem tree libs text_of (handler first_deps) (post (object end)) [] false (stored ∷ [])
      no_handler no_id body_refused id_refused

serve_http-Answered_example :
    Answered tree libs text_of
      (post (encode_create_task_request request))
      (serve_route urls [] "POST" tasks_url).0
      (serve_http tree libs
        (config tree text_of)
        (handler first_deps)
        (post (encode_create_task_request request))
        fresh
        [])
      []
serve_http-Answered_example =
    serve_http-Answered tree libs text_of (handler first_deps)
      (post (encode_create_task_request request)) []

abbrev calls : List Call
calls =
    Refines.post env request
    ∷ Refines.post later_env request
    ∷ Refines.fetch env 7
    ∷ Refines.fetch env 9
    ∷ []
