-- ===== src/Tests/Client.antt =====
-- The client against the server over the database in memory.
use flowhand.Base.{arith, ◌≡◌, refl, none, some, List, [], ◌∷◌, ◌++◌, codes}
use flowhand.Failure.{GoError, errorf, ok}
use flowhand.Storage.{Row, find_id, find_key}
use flowhand.Repository
use flowhand.Repository.{insert_error, is_unique_violation}
use flowhand.Service
use flowhand.Service.{store_task, replay}
use flowhand.Oas.Schemas.{CreateTaskRes, GetTaskRes, switch}
use flowhand.Oas.Jx.{Value, str}
use flowhand.Oas.Jx.Tree.{tree, tree-IsJx}
use flowhand.Oas.Json.Payload.{request_of}
use flowhand.Oas.Validate.{validate_task, validate_create_task_request}
use flowhand.Oas.Router.{serve_route, serve_elem, choose_elem, cut_prefix, Bytes}
use flowhand.Oas.Router.Laws.{task_path}
use flowhand.Oas.Http.{Attribute, operation_id, http_request_method, url_template, other, Request}
use flowhand.Oas.Response.Laws.{fresh, arrives, create_on_wire, get_on_wire}
use flowhand.Oas.Server.{Config, Handler, serve_http}
use flowhand.Oas.Labels.{unimplemented_handler}
use flowhand.App.Errors.{error_res, send_create_task-error_res}
use flowhand.Oas.Client.{Transport, Counters, send_create_task, send_get_task}
use flowhand.Oas.Client.Laws.{Delivers, completed, send_create_task-served}
use flowhand.Oas.Client.Account.{Accounted, send-Accounted}
use flowhand.Oas.Client.Read.{DeliversGet, send_get_task-served}
use flowhand.Api
use flowhand.Api.{handler}
use flowhand.Api.Mapper.{to_oas_status, to_oas_task, to_oas_task_view}
use flowhand.App.{config}
use flowhand.Tests.Doubles.{libs, text_of, tasks_url, request, dto, replayed_dto, stored}
use flowhand.Tests.Server.{first_deps}

abbrev server : Config Value
server = config tree text_of

abbrev unsent : Request Value
unsent = record {
  method = "POST";
  url = tasks_url;
  content_type = "";
  requested_method = "";
  content_length = none;
  body = ok (str "");
}

abbrev joined : List Bytes → Bytes
joined [] = []
joined (part ∷ parts) = part ++ joined parts

-- The id 7 as `libs` reads it: a segment of 7 bytes.
abbrev seven : Bytes
seven = codes "0000007"

-- A network that hands every request to the server and its response back.
abbrev network : Transport Value (List Row)
network = record {
  add_path_parts = λ parts. record { path = joined parts; raw_path = [] };
  encode_id = λ id. ok seven;
  new_request = λ method url. ok (record unsent { method = method; url = url });
  set_body = λ r b content_type. record r { content_type = content_type; body = ok b };
  attributes = other "service" "demo" ∷ [];
  client_do = λ r s. (
    ok (arrives (serve_http tree libs server (handler first_deps) r fresh s).0),
    (serve_http tree libs server (handler first_deps) r fresh s).1,
  );
}

network-Delivers : Delivers tree libs server (handler first_deps) network
unfolding serve_route serve_elem choose_elem cut_prefix
network-Delivers = record {
  post = unsent;
  made = refl;
  typed = λ b. refl;
  carries = λ b. refl;
  announced = λ b full. refl;
  method = λ b. refl;
  url = λ b. refl;
  served = λ r s. refl;
}

answered : Api.create_task first_deps request [] ≡ (ok (CreateTaskRes.task dto), stored ∷ [])
unfolding Api.create_task Service.submit store_task replay Repository.insert insert_error
    is_unique_violation find_id find_key to_oas_task to_oas_status
answered = refl

valid : validate_create_task_request libs.validate_string request ≡ none
unfolding validate_create_task_request
valid = refl

dto_valid : validate_task dto ≡ none
unfolding validate_task switch
dto_valid = refl

abbrev post_attributes : List Attribute
post_attributes =
    operation_id "createTask"
    ∷ http_request_method "POST"
    ∷ url_template "/v1/tasks"
    ∷ other "service" "demo"
    ∷ []

abbrev read_attributes : List Attribute
read_attributes =
    operation_id "getTask"
    ∷ http_request_method "GET"
    ∷ url_template "/v1/tasks/{id}"
    ∷ other "service" "demo"
    ∷ []

abbrev idle : Counters
idle = record {
  requests = [];
  errors = [];
  durations = [];
  failed_stages = [];
  received_bodies = 0;
  closed_bodies = 0;
}

send_create_task-served_example :
    send_create_task tree network libs.parse_media_type
      (request_of "echo" none (some "key"))
      idle
      []
    ≡ ((ok (create_on_wire (CreateTaskRes.task dto)), completed post_attributes idle), stored ∷ [])
send_create_task-served_example =
    send_create_task-served tree tree-IsJx libs server (handler first_deps) network network-Delivers
      "echo" none (some "key") idle (CreateTaskRes.task dto) [] (stored ∷ []) refl tt valid refl
      refl (dto_valid, (refl, omega arith)) answered

network-DeliversGet : DeliversGet tree libs server (handler first_deps) network 7
network-DeliversGet = record {
  c = b'0';
  cs = codes "000007";
  val = seven;
  written = refl;
  segment = refl;
  value = refl;
  read = refl;
  get = record unsent { method = "GET"; url = record { path = task_path seven; raw_path = [] } };
  made = refl;
  method = refl;
  url = refl;
  served = λ r s. refl;
}

read_back :
    Api.get_task first_deps 7 (stored ∷ []) ≡ (ok (GetTaskRes.task replayed_dto), stored ∷ [])
unfolding Api.get_task Service.get Repository.get find_id to_oas_task_view to_oas_status
read_back = refl

replayed_valid : validate_task replayed_dto ≡ none
unfolding validate_task switch
replayed_valid = refl

send_get_task-served_example :
    send_get_task tree network libs.parse_media_type 7 idle (stored ∷ []) ≡ (
      (ok (get_on_wire (GetTaskRes.task replayed_dto)), completed read_attributes idle),
      stored ∷ [],
    )
send_get_task-served_example =
    send_get_task-served tree tree-IsJx libs server (handler first_deps) network 7
      network-DeliversGet idle (GetTaskRes.task replayed_dto) (stored ∷ []) (stored ∷ []) refl refl
      (replayed_valid, (refl, omega arith)) read_back

send-Accounted_example :
    Accounted post_attributes idle
      (send_create_task tree network libs.parse_media_type request idle []).0
    × Accounted read_attributes idle (send_get_task tree network libs.parse_media_type 7 idle []).0
send-Accounted_example = send-Accounted tree network libs.parse_media_type request 7 idle []

-- The handler that implements nothing, behind the same network.
abbrev not_implemented : GoError
not_implemented = errorf "not implemented"

abbrev unimplemented : Handler (List Row)
unimplemented = unimplemented_handler not_implemented

abbrev other_network : Transport Value (List Row)
other_network = record network {
  client_do = λ r s. (
    ok (arrives (serve_http tree libs server unimplemented r fresh s).0),
    (serve_http tree libs server unimplemented r fresh s).1,
  );
}

other_network-Delivers : Delivers tree libs server unimplemented other_network
unfolding serve_route serve_elem choose_elem cut_prefix
other_network-Delivers = record {
  post = unsent;
  made = refl;
  typed = λ b. refl;
  carries = λ b. refl;
  announced = λ b full. refl;
  method = λ b. refl;
  url = λ b. refl;
  served = λ r s. refl;
}

send_create_task-error_res_example :
    send_create_task tree other_network libs.parse_media_type
      (request_of "echo" none (some "key"))
      idle
      []
    ≡ ((ok (error_res text_of not_implemented), completed post_attributes idle), [])
send_create_task-error_res_example =
    send_create_task-error_res tree tree-IsJx libs text_of unimplemented other_network
      other_network-Delivers "echo" none (some "key") idle not_implemented [] [] tt valid refl refl
      refl
