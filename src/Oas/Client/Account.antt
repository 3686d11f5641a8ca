-- ===== src/Oas/Client/Account.antt =====
-- What a call of the generated client leaves in its instruments, however it ends.
use flowhand.Base.{◌≡◌, refl, ◌⊎◌, inl, inr, ◌+◌, String, List, [], ◌∷◌, codes, arith}
use flowhand.Failure.{GoError, Result, ok, err, wrap}
use flowhand.Domain.{Uuid}
use flowhand.Oas.Schemas.{CreateTaskRequest}
use flowhand.Oas.Jx.{Jx}
use flowhand.Oas.Http.{Attribute, Request}
use flowhand.Oas.Router.{Bytes}
use flowhand.Oas.Response.{HttpResponse, decode_create_task_response, decode_get_task_response}
use flowhand.Oas.Client.{
  Transport, Counters, create_attributes, get_attributes, send_create_task, send_get_task,
  count_request, received, sent, with_body, get_with, settle,
}

-- A call is counted once and its duration recorded; an error is counted, with a stage, exactly if the call
-- fails; as many bodies are closed as were received, and a call that succeeds has received one.
pub record Accounted {A : Type 0} (attrs : List Attribute) (c : Counters)
    (out : Result A × Counters) : Type 0 where
  pub requests : out.1.requests ≡ attrs ∷ c.requests
  pub durations : out.1.durations ≡ attrs ∷ c.durations
  pub errors :
      ((a : A) × (out.0 ≡ ok a)
        × (out.1.errors ≡ c.errors)
        × (out.1.failed_stages ≡ c.failed_stages)
        × (out.1.received_bodies ≡ c.received_bodies + 1))
      ⊎ ((e : GoError) × (stage : String) × (out.0 ≡ err e)
          × (out.1.errors ≡ attrs ∷ c.errors)
          × (out.1.failed_stages ≡ stage ∷ c.failed_stages))
  pub bodies : out.1.closed_bodies + c.received_bodies ≡ c.closed_bodies + out.1.received_bodies

module _ (J : Jx) {World : Type 0} (T : Transport J.Bytes World)
    (media_type : String → Result String) (attrs : List Attribute) (c : Counters) where
  -- A response that was received and read.
  decoded-Accounted :
      {A : Type 0} (decode : HttpResponse J.Bytes → Result A) (resp : HttpResponse J.Bytes)
      (w : World) (r : Result A)
      → decode resp ≡ r
      → Accounted attrs c
          (settle attrs (received J T media_type decode (count_request attrs c) (ok resp, w))).0
  decoded-Accounted decode resp w (ok a) e = rw e (record {
    requests = refl;
    durations = refl;
    errors = inl (a, refl, refl, refl, refl);
    bodies = omega arith;
  })
  decoded-Accounted decode resp w (err cause) e = rw e (record {
    requests = refl;
    durations = refl;
    errors = inr (wrap "decode response" cause, "DecodeResponse", refl, refl, refl);
    bodies = omega arith;
  })

  failed-Accounted :
      {A : Type 0} (e : GoError) (stage : String) (w : World)
      → Accounted {A = A} attrs c (settle attrs ((err e, stage), (count_request attrs c, w))).0
  failed-Accounted e stage w = record {
    requests = refl;
    durations = refl;
    errors = inr (e, stage, refl, refl, refl);
    bodies = omega arith;
  }

  received-Accounted :
      {A : Type 0} (decode : HttpResponse J.Bytes → Result A)
      (out : Result (HttpResponse J.Bytes) × World)
      → Accounted attrs c
          (settle attrs (received J T media_type decode (count_request attrs c) out)).0
  received-Accounted decode (ok resp, w) = decoded-Accounted decode resp w (decode resp) refl
  received-Accounted decode (err e, w) = failed-Accounted (wrap "do request" e) "SendRequest" w

  sent-Accounted :
      {A : Type 0} (decode : HttpResponse J.Bytes → Result A) (r : Result (Request J.Bytes))
      (w : World)
      → Accounted attrs c (settle attrs (sent J T media_type decode r (count_request attrs c) w)).0
  sent-Accounted decode (ok r) w = received-Accounted decode (T.client_do r w)
  sent-Accounted decode (err e) w = failed-Accounted (wrap "create request" e) "EncodeRequest" w

  get_with-Accounted :
      (encoded : Result Bytes) (w : World)
      → Accounted attrs c
          (settle attrs (get_with J T media_type encoded (count_request attrs c) w)).0
  get_with-Accounted (ok encoded) w =
      sent-Accounted (decode_get_task_response J media_type)
        (T.new_request "GET" (T.add_path_parts (codes "/v1/tasks/" ∷ encoded ∷ []))) w
  get_with-Accounted (err e) w = failed-Accounted (wrap "encode path" e) "BuildURL" w

-- Whatever the libraries and the network do, a call of either operation counts one request and records one
-- duration, counts an error and marks its span with a stage exactly if it fails, and closes the body of a
-- response exactly if it received one.
pub send-Accounted :
    (J : Jx) {World : Type 0} (T : Transport J.Bytes World) (media_type : String → Result String)
    (request : CreateTaskRequest) (id : Uuid) (c : Counters) (w : World)
    → Accounted (create_attributes J T media_type) c (send_create_task J T media_type request c w).0
      × Accounted (get_attributes J T media_type) c (send_get_task J T media_type id c w).0
unfolding send_create_task send_get_task
send-Accounted J T media_type request id c w = (
  sent-Accounted J T media_type (create_attributes J T media_type) c
      (decode_create_task_response J media_type)
      (with_body J T media_type request
        (T.new_request "POST" (T.add_path_parts (codes "/v1/tasks" ∷ []))))
      w,
  get_with-Accounted J T media_type (get_attributes J T media_type) c (T.encode_id id) w,
)
