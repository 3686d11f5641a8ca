-- ===== src/Demo/Served/Post.antt =====
-- One submit of the producer: what it leaves of the table, and what its answer says.
use mathlib.Core.Path.{subst}
use flowhand.Base.{◌≡◌, refl, ◌∙◌, sym, ap, ◌⊎◌, inl, inr, ℕ, false, String, some, [], ◌∷◌, ◌≢◌}
use flowhand.Failure.{GoError, Result, ok, err, decode_request}
use flowhand.Domain.{Uuid, RawMessage, utc}
use flowhand.Storage.{Row, Database, IsPostgres, find_key}
use flowhand.Storage.Table.{Step, stay}
use flowhand.Service.{Injected}
use flowhand.Wiring.Submit.{SubmitOutcome, submit-SubmitOutcome}
use flowhand.Wiring.Replay.{ok-Answers, submit-Step}
use flowhand.Oas.Schemas
use flowhand.Oas.Schemas.{
  CreateTaskRequest, CreateTaskRequestPayload, CreateTaskRes, Task, get, new_opt,
}
use flowhand.Oas.Jx.{Jx}
use flowhand.Oas.Json.{encode_task}
use flowhand.Oas.Router
use flowhand.Oas.Router.{serve_route}
use flowhand.Oas.Http
use flowhand.Oas.Http.{json, count_request, record_error}
use flowhand.Oas.Request.{Libs, decode_request_body}
use flowhand.Oas.Response.{encode_create_task_response}
use flowhand.Oas.Response.Laws.{fresh}
use flowhand.Oas.Server.{serve_http, handle_create_task_request, created, create_labels}
use flowhand.Api
use flowhand.Api.{handler, error_handler, render}
use flowhand.Api.Laws.{create_task-ok, create_task-keeps, command_of, render_lem}
use flowhand.Api.Mapper.Laws.{to_oas_task-IsPair}
use flowhand.App.{config, deps, serve}
use flowhand.Demo.{submit_one}
use flowhand.Demo.Served.{
  Delivery, delivered, request_lost, response_lost, Wire, submitted, submit_key, response,
}

-- What the libraries, the router and the decoder on the way do: a key is not empty, its POST is
-- routed to the operation and is decoded to a request with the key or refused (a key may be too
-- long), and the id of a task that the server wrote is read as a text, which is not empty.
pub record Carries (J : Jx) (libs : Libs) (wire : Wire J.Bytes) : Type 0 where
  pub keyed : (k : String × ℕ) → wire.print k ≢ ""
  pub routed :
      (k : String)
      → serve_route libs.urls [] (wire.post k).method (wire.post k).url
        ≡ (Router.create_task, false)
  pub request : String → CreateTaskRequest
  pub raw : String → J.Bytes
  pub decoded :
      (k : String)
      → (decode_request_body J libs (wire.post k) ≡ ok (request k, raw k))
        ⊎ ((e : GoError) × (decode_request_body J libs (wire.post k) ≡ err e))
  pub key : (k : String) → (request k).idempotency_key ≡ new_opt k
  pub id_text : Uuid → String
  pub not_empty : (id : Uuid) → id_text id ≢ ""
  pub read : (t : Task) → wire.decode_id (json (J.write (encode_task t)) ∷ []) ≡ ok (id_text t.id)

module _ (J : Jx) (libs : Libs) (text : GoError → String) (D : Database) (pg : IsPostgres D)
    (marshal : CreateTaskRequestPayload → Result RawMessage) (wire : Wire J.Bytes)
    (w : Carries J libs wire) where
  -- The handler's part of a POST.
  abbrev answer : Injected → String → D.State → Result CreateTaskRes × D.State
  answer env k s = Api.create_task (deps D env marshal) (w.request k) s

  abbrev exchange : Injected → Result CreateTaskRes × D.State → Http.Exchange J.Bytes × D.State
  exchange env out =
      let (x, s) = created J libs (config J text) (handler (deps D env marshal)) fresh out in
      (count_request (create_labels J libs (config J text)) x, s)

  serve_post :
      (env : Injected) (k : String) (s : D.State)
      → decode_request_body J libs (wire.post k) ≡ ok (w.request k, w.raw k)
      → serve J libs text D env marshal (wire.post k) fresh s ≡ exchange env (answer env k s)
  unfolding serve_http handle_create_task_request
  serve_post env k s decoded = rw (w.routed k) (rw decoded refl)

  -- What is sent if the handler or the decoder fails.
  abbrev failed : String → GoError → Http.Exchange J.Bytes
  failed stage e =
      let labels = create_labels J libs (config J text) in
      count_request labels (record_error labels stage (error_handler J text e fresh))

  serve_refused :
      (env : Injected) (k : String) (s : D.State) (e : GoError)
      → decode_request_body J libs (wire.post k) ≡ err e
      → serve J libs text D env marshal (wire.post k) fresh s
        ≡ (failed "DecodeRequest" (decode_request e), s)
  unfolding serve_http handle_create_task_request
  serve_refused env k s e refused = rw (w.routed k) (rw refused refl)

  read_failed :
      (k id stage : String) (e : GoError)
      → submit_key wire (ok (response wire (failed stage e))) k ≡ ok id
      → ⊥
  unfolding submit_one Schemas.map_set error_handler
  read_failed k id stage e h = elim (render_lem text e).1 [
    | inl (_, is_400, _) ↦ let h' = rw is_400 at h in cc h'
    | inr (_, is_500, _) ↦ let h' = rw is_500 at h in cc h'
  ]

  exchange-keeps :
      (env : Injected) (out : Result CreateTaskRes × D.State) → (exchange env out).1 ≡ out.1
  exchange-keeps env (ok res, s) = refl
  exchange-keeps env (err e, s) = refl

  -- An answer that `submitOne` takes is a task's.
  read_answer :
      (env : Injected) (k id : String) (out : Result CreateTaskRes × D.State)
      → submit_key wire (ok (response wire (exchange env out).0)) k ≡ ok id
      → (t : Task) × (out.0 ≡ ok (CreateTaskRes.task t)) × (id ≡ w.id_text t.id)
  unfolding submit_one encode_create_task_response Schemas.map_set error_handler
  read_answer env k id (ok (CreateTaskRes.task t), s) h =
      let same : ok (w.id_text t.id) ≡ ok id = rw (w.read t) at h in (t, refl, cc same)
  read_answer env k id (ok (CreateTaskRes.bad_request e), s) h = cc h
  read_answer env k id (ok (CreateTaskRes.internal_server_error e), s) h = cc h
  read_answer env k id (err e, s) h = absurd (read_failed k id "Internal" e h)

  -- A POST is one step of the table.
  answer-Step :
      (env : Injected) (k : String) (s : D.State)
      → Step D.jsonb (D.rows s) (D.rows (answer env k s).1)
  answer-Step env k s = elim (create_task-keeps (deps D env marshal) (w.request k) s) [
    | inl same ↦ subst (λ s'. Step D.jsonb (D.rows s) (D.rows s')) (sym same) (stay (D.rows s))
    | inr (payload, same) ↦
        subst (λ s'. Step D.jsonb (D.rows s) (D.rows s')) (sym same)
          (submit-Step D pg env (command_of (w.request k) payload) s)
  ]

  -- After a POST that is answered with a task the table holds it under the key.
  answer-find_key :
      (env : Injected) (k : String) (s : D.State) (t : Task)
      → k ≢ ""
      → (answer env k s).0 ≡ ok (CreateTaskRes.task t)
      → (r : Row) × (find_key k (D.rows (answer env k s).1) ≡ some r) × (r.id ≡ t.id)
  answer-find_key env k s t keyed h =
      let (payload, u, t', _, stored, mapped, same, left) =
        create_task-ok (deps D env marshal) (w.request k) s (CreateTaskRes.task t) h in
      let cmd = command_of (w.request k) payload in
      let its_key : cmd.idempotency_key ≡ k = ap (λ o. (get "" o).0) (w.key k) in
      let outcome =
        subst
          (λ r.
            SubmitOutcome D.jsonb cmd (utc env.now) (D.rows s) r
              (D.rows ((deps D env marshal).submit cmd s).1))
          stored (submit-SubmitOutcome D pg env cmd s) in
      let (r, found, answers) =
        ok-Answers cmd (utc env.now) u _ _ outcome (λ e. keyed (sym its_key ∙ e)) in
      let id = (to_oas_task-IsPair u t' mapped).0 in
      let same' : t ≡ t' = cc same in
      (
        r,
        rw left (
            subst (λ q. find_key q (D.rows ((deps D env marshal).submit cmd s).1) ≡ some r) its_key
              found),
        answers.id ∙ sym id ∙ ap (λ v. v.id) (sym same'),
      )

  -- What `submitOne` leaves of the table, and what an answer says of it.
  abbrev pub Submits : String → Result String × D.State → D.State → Type 0
  Submits k out s =
      Step D.jsonb (D.rows s) (D.rows out.1)
      × ((id : String)
          → out.0 ≡ ok id
          → (r : Row) × (find_key k (D.rows out.1) ≡ some r) × (id ≡ w.id_text r.id))

  lost : (k : String) (e : GoError) (id : String) → submit_key wire (err e) k ≡ ok id → ⊥
  unfolding submit_one
  lost k e id h = cc h

  delivered-Submits :
      (env : Injected) (k : String) (s : D.State)
      → k ≢ ""
      → let (x, s') = exchange env (answer env k s) in
        Submits k (submit_key wire (ok (response wire x)) k, s') s
  delivered-Submits env k s keyed =
      let same = exchange-keeps env (answer env k s) in
      (
        subst (λ s'. Step D.jsonb (D.rows s) (D.rows s')) (sym same) (answer-Step env k s),
        λ id h.
            let (t, answered, text_is) = read_answer env k id (answer env k s) h in
            let (r, found, id_is) = answer-find_key env k s t keyed answered in
            (r, rw same found, text_is ∙ ap w.id_text (sym id_is)),
      )

  refused-Submits :
      (k : String) (s : D.State) (e : GoError)
      → Submits k (submit_key wire (ok (response wire (failed "DecodeRequest" e))) k, s) s
  refused-Submits k s e = (stay (D.rows s), λ id h. absurd (read_failed k id "DecodeRequest" e h))

  served-Submits :
      (env : Injected) (k : String) (s : D.State)
      → k ≢ ""
      → let (x, s') = serve J libs text D env marshal (wire.post k) fresh s in
        Submits k (submit_key wire (ok (response wire x)) k, s') s
  served-Submits env k s keyed = elim (w.decoded k) [
    | inl decoded ↦ rw (serve_post env k s decoded) (delivered-Submits env k s keyed)
    | inr (e, refused) ↦
        rw (serve_refused env k s e refused) (refused-Submits k s (decode_request e))
  ]

  pub submitted-Submits :
      (delivery : Delivery) (env : Injected) (k : String) (s : D.State)
      → k ≢ ""
      → Submits k (submitted J libs text D marshal wire delivery env k s) s
  submitted-Submits delivered env k s keyed = served-Submits env k s keyed
  submitted-Submits (response_lost e) env k s keyed =
      ((served-Submits env k s keyed).0, λ id h. absurd (lost k e id h))
  submitted-Submits (request_lost e) env k s keyed =
      (stay (D.rows s), λ id h. absurd (lost k e id h))
