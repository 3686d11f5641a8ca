-- ===== src/Tests/Oas.antt =====
-- The generated code at concrete inputs.
use flowhand.Base.{
  Bool, nat_eq, if◌then◌else◌, false, arith, ◌≡◌, refl, ◌↔◌, true, false, String, none, some, [],
  ◌∷◌, ◌≢◌, codes, not,
}
use flowhand.Failure.{ok}
use flowhand.Oas.Schemas.{Error, switch, new_opt}
use flowhand.Oas.Jx.Tree.{tree, tree-IsJx}
use flowhand.Oas.Json.{
  encode_create_task_request, decode_create_task_request, encode_create_task_request_fields,
}
use flowhand.Oas.Json.Standard.{
  marshal_json, unmarshal_json, create_task_bad_request, create_task_internal_server_error,
  get_task_internal_server_error, get_task_not_found, error, error_code, task_status, task,
  create_task_request, create_task_request_payload, opt_create_task_request_payload, opt_string,
}
use flowhand.Oas.Json.Standard.Laws.{Returns, unmarshal_json-marshal_json}
use flowhand.Oas.Json.Payload.{request_of}
use flowhand.Oas.Json.RoundTrip.{on_wire}
use flowhand.Oas.Validate.{validate_create_task_request, validate_task}
use flowhand.Oas.Validate.Laws.{validate_create_task_request_iff, InRange}
use flowhand.App.Mux.{serve_mux, handled, redirected, api}
use flowhand.App.Mux.Laws.{serve_mux-serve_elem}
use flowhand.Oas.Router
use flowhand.Oas.Router.{serve_elem, serve_route, find_path, find_route, Bytes, is_empty, Url}
use flowhand.Oas.Router.Laws.{Routes, serve_elem-Routes}
use flowhand.Oas.Router.Find.{found_route, find_path-serve_route}
use flowhand.Oas.Request.{decode_request_body}
use flowhand.Oas.Request.Laws.{decode_request_body-Accepted, Accepted}
use flowhand.Tests.Doubles.{counting, counting-CountsCharacters, urls, libs, dto, request, post}

abbrev oops : Error
oops = record { code = "internal_error"; message = "internal server error" }

-- ## Routing

abbrev one_path : Bytes
one_path = codes "/v1/tasks/7"

serve_elem-Routes_example : Routes "GET" one_path (serve_elem "GET" one_path)
serve_elem-Routes_example = serve_elem-Routes "GET" one_path

abbrev raw_url : Url
raw_url = record { path = codes "/v1/tasks/7"; raw_path = codes "/v1/tasks/%37" }

is_known : serve_elem "GET" one_path ≢ Router.not_found
unfolding serve_elem
is_known e = cc e

-- A path without a dot is taken to be clean.
abbrev has_no_dot : String → Bytes → Bool
has_no_dot method [] = true
has_no_dot method (c ∷ path) =
    let rest = has_no_dot method path in if nat_eq c b'.' then false else rest

serve_mux-serve_elem_example :
    serve_mux has_no_dot "GET" one_path
    ≡ (if has_no_dot "GET" one_path then handled api else redirected)
serve_mux-serve_elem_example = serve_mux-serve_elem has_no_dot "GET" one_path is_known

find_path-serve_route_example :
    (find_path urls [] "GET" raw_url
      ≡ found_route urls (not (is_empty raw_url.raw_path)) (serve_route urls [] "GET" raw_url).0)
    × (find_route urls [] "GET" raw_url.path
        ≡ found_route urls false
            (serve_route urls [] "GET" (record { path = raw_url.path; raw_path = [] })).0)
find_path-serve_route_example = find_path-serve_route urls [] "GET" raw_url

-- ## JSON

not_blank : ◌≢◌ {A = String} "1" ""
not_blank e = cc

unmarshal_json-marshal_json_example :
    (Returns tree (create_task_bad_request tree) oops
      × Returns tree (create_task_internal_server_error tree) oops
      × Returns tree (get_task_internal_server_error tree) oops
      × Returns tree (get_task_not_found tree) oops
      × Returns tree (error tree) oops)
    × (Returns tree (error_code tree) "echo" × Returns tree (task_status tree) "echo")
    × (unmarshal_json tree (task tree) (marshal_json tree (task tree) dto) ≡ ok (on_wire dto))
    × Returns tree (create_task_request tree) (request_of "echo" none (some "key"))
    × Returns tree (create_task_request_payload tree) (("n", "1") ∷ [])
    × Returns tree (opt_create_task_request_payload tree) (new_opt (("n", "1") ∷ []))
    × Returns tree (opt_string tree) (new_opt "echo")
unmarshal_json-marshal_json_example =
    unmarshal_json-marshal_json tree tree-IsJx oops dto "echo" none (some "key") (("n", "1") ∷ [])
      (refl, omega arith) tt (tt, not_blank, refl, tt)

-- ## Validation

validate_create_task_request_iff_example :
    (validate_create_task_request counting request ≡ none)
    ↔ (InRange "echo" × (true ≡ true → InRange "key"))
validate_create_task_request_iff_example =
    validate_create_task_request_iff counting counting-CountsCharacters request

dto_valid : validate_task dto ≡ none
unfolding validate_task switch
dto_valid = refl

-- ## Requests and responses

pub body_decoded :
    decode_request_body tree libs (post (encode_create_task_request request))
    ≡ ok (request, encode_create_task_request request)
unfolding decode_request_body decode_create_task_request validate_create_task_request
    encode_create_task_request_fields
body_decoded = refl

decode_request_body-Accepted_example :
    Accepted tree libs
      (post (encode_create_task_request request))
      request
      (encode_create_task_request request)
decode_request_body-Accepted_example =
    decode_request_body-Accepted tree libs counting-CountsCharacters
      (post (encode_create_task_request request)) request (encode_create_task_request request)
      body_decoded
