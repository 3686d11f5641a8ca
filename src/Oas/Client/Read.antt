-- ===== src/Oas/Client/Read.antt =====
-- The client against the server: a read through both is a call of the handler.
use flowhand.Base.{◌≡◌, refl, ℕ, false, none, [], ◌∷◌, codes}
use flowhand.Failure.{ok}
use flowhand.Domain.{Uuid}
use flowhand.Oas.Schemas.{GetTaskRes}
use flowhand.Oas.Jx.{Jx, IsJx}
use flowhand.Oas.Router
use flowhand.Oas.Router.{serve_route, Bytes, has_byte, slash}
use flowhand.Oas.Router.Laws.{task_path, get_one}
use flowhand.Oas.Http.{Request, count_request}
use flowhand.Oas.Request.{Libs, decode_get_task_params}
use flowhand.Oas.Response.{json_type, encode_get_task_response}
use flowhand.Oas.Response.Laws.{fresh, arrives, GetFits, get_on_wire, decode-encode_get}
use flowhand.Oas.Server.{Handler, Config, serve_http, get_labels, handle_get_task_request}
use flowhand.Oas.Client.{Transport, Counters, get_attributes, send_get_task}
use flowhand.Oas.Client.Laws.{completed, routed_as, encoded_lem}

-- What the libraries and the network do for a read, if they work: the id is written into one segment of
-- the path, from which it is read again, and the request is served. `c` and `cs` are the written id.
pub record DeliversGet (J : Jx) (libs : Libs) (cfg : Config J.Bytes) {State : Type 0}
    (h : Handler State) (T : Transport J.Bytes State) (id : Uuid) : Type 0 where
  pub c : ℕ
  pub cs : Bytes
  pub val : Bytes
  pub written : T.encode_id id ≡ ok (c ∷ cs)
  pub segment : has_byte slash (c ∷ cs) ≡ false
  pub value : libs.decode_value (c ∷ cs) ≡ ok val
  pub read : libs.to_uuid val ≡ ok id
  pub get : Request J.Bytes
  pub made : T.new_request "GET" (T.add_path_parts (codes "/v1/tasks/" ∷ (c ∷ cs) ∷ [])) ≡ ok get
  pub method : get.method ≡ "GET"
  pub url : get.url ≡ record { path = task_path (c ∷ cs); raw_path = [] }
  pub served :
      (r : Request J.Bytes) (s : State)
      → T.client_do r s ≡ (
        ok (arrives (serve_http J libs cfg h r fresh s).0),
        (serve_http J libs cfg h r fresh s).1,
      )

module _ (J : Jx) (libs : Libs) (cfg : Config J.Bytes) {State : Type 0} (h : Handler State) where
  decodes_id :
      (c : ℕ) (cs val : Bytes) (id : Uuid)
      → libs.decode_value (c ∷ cs) ≡ ok val
      → libs.to_uuid val ≡ ok id
      → decode_get_task_params J libs (c ∷ cs) false ≡ ok id
  unfolding decode_get_task_params
  decodes_id c cs val id value read = rw value (rw read refl)

  -- What arrives for a read that is decoded and answered.
  serves_read :
      (r : Request J.Bytes) (arg : Bytes) (id : Uuid) (res : GetTaskRes) (s s' : State)
      → serve_route libs.urls cfg.prefix r.method r.url ≡ (Router.get_task arg, false)
      → decode_get_task_params J libs arg false ≡ ok id
      → h.get_task id s ≡ (ok res, s')
      → (encode_get_task_response J res fresh).0 ≡ none
      → serve_http J libs cfg h r fresh s
        ≡ (count_request (get_labels J libs cfg) (encode_get_task_response J res fresh).1, s')
  unfolding serve_http handle_get_task_request
  serves_read r arg id res s s' routed decoded answered written = rw routed (
      rw decoded (
        rw answered (
          rw
            (encoded_lem J libs cfg (get_labels J libs cfg) (encode_get_task_response J res fresh)
              written)
            refl)))

-- A read by the generated client from the generated server, over a network that delivers, with libraries
-- that read what they write and a server without a path prefix, is a call of the handler: the id reaches
-- it, its answer, if the description allows it and its time is in UTC and before the year 10000, comes
-- back unchanged but for the fraction of a second in that time, and the client counts one request with
-- its duration and no error, and closes the body that it received.
pub send_get_task-served :
    (J : Jx)
    → IsJx J
    → (libs : Libs) (cfg : Config J.Bytes) {State : Type 0} (h : Handler State)
      (T : Transport J.Bytes State) (id : Uuid)
    → DeliversGet J libs cfg h T id
    → (c : Counters) (res : GetTaskRes) (s s' : State) → cfg.prefix ≡ []
    → libs.parse_media_type json_type ≡ ok "application/json"
    → GetFits res
    → h.get_task id s ≡ (ok res, s')
    → send_get_task J T libs.parse_media_type id c s
      ≡ ((ok (get_on_wire res), completed (get_attributes J T libs.parse_media_type) c), s')
unfolding send_get_task
send_get_task-served J jx libs cfg h T id net c res s s' unprefixed media fits answer =
    let arg = net.c ∷ net.cs in
    let reaches = decodes_id J libs cfg h net.c net.cs net.val id net.value net.read in
    let (written, read) = decode-encode_get J jx libs.parse_media_type media res fits in
    let route =
      routed_as libs.urls (Router.get_task arg) unprefixed net.method net.url
        (get_one arg net.segment refl) in
    let exchange = serves_read J libs cfg h net.get arg id res s s' route reaches answer written in
    rw net.written (rw net.made (rw (net.served net.get s) (rw exchange (rw read refl))))
