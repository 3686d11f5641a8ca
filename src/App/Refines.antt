-- ===== src/App/Refines.antt =====
-- The handler over the wired application, against the abstract store of Wiring/Spec.
use flowhand.Base.{◌≡◌, none, List, [], ◌∷◌}
use flowhand.Failure.{Result, ok, err}
use flowhand.Domain.{Uuid, RawMessage}
use flowhand.Storage.{Database}
use flowhand.Service.{Injected}
use flowhand.Wiring.Spec
use flowhand.Wiring.Spec.{Store, found}
use flowhand.Wiring.Refines.{AdmitsAs}
use flowhand.Oas.Schemas.{CreateTaskRequest, CreateTaskRequestPayload, get}
use flowhand.Api
use flowhand.Api.{payload_json}
use flowhand.Api.Laws.{command_of}
use flowhand.Api.Shown.{Shown, error, show, see_create, see_get}
use flowhand.App.{deps}

-- A call of the handler, with what is injected into the service behind it.
pub data Call : Type 0 where
  post : Injected → CreateTaskRequest → Call
  fetch : Injected → Uuid → Call

module _ (D : Database) (marshal : CreateTaskRequestPayload → Result RawMessage) where
  abbrev pub handle : Call → D.State → Shown × D.State
  handle (post env req) s =
      let (r, s') = Api.create_task (deps D env marshal) req s in (see_create r, s')
  handle (fetch env id) s = let (r, s') = Api.get_task (deps D env marshal) id s in (see_get r, s')

  abbrev pub handle_all : List Call → D.State → List Shown × D.State
  handle_all [] s = ([], s)
  handle_all (c ∷ calls) s =
      let (seen, s') = handle c s in let (rest, last) = handle_all calls s' in (seen ∷ rest, last)

  abbrev pub payload_of : Injected → CreateTaskRequest → Result RawMessage
  payload_of env req = payload_json (deps D env marshal) (get [] req.payload)

  -- The store's part of a submission, if its payload has a JSON text.
  abbrev pub expect_post : Result RawMessage → Injected → CreateTaskRequest → Store → Shown × Store
  expect_post (ok json) env req a =
      let (seen, b) = Spec.step (Spec.submit env (command_of req json)) a in (show seen, b)
  expect_post (err e) env req a = (error, a)

  abbrev pub expect : Call → Store → Shown × Store
  expect (post env req) a = expect_post (payload_of env req) env req a
  expect (fetch env id) a = (show (found (a.by_id id)), a)

  abbrev pub expect_all : List Call → Store → List Shown × Store
  expect_all [] a = ([], a)
  expect_all (c ∷ calls) a =
      let (seen, b) = expect c a in let (rest, last) = expect_all calls b in (seen ∷ rest, last)

  -- The id of a submission is not in use.
  abbrev pub FreshIn : Call → Store → Type 0
  FreshIn (post env req) a = (id : Uuid) → env.new_id ≡ ok id → a.by_id id ≡ none
  FreshIn (fetch env id) a = Unit

  abbrev pub AllFresh : List Call → Store → Type 0
  AllFresh [] a = Unit
  AllFresh (c ∷ calls) a = FreshIn c a × AllFresh calls (expect c a).1

  -- The columns admit the values of a submission.
  abbrev pub Admitted : Call → Type 0
  Admitted (post env req) =
      (json : RawMessage) (id : Uuid)
      → payload_of env req ≡ ok json
      → env.new_id ≡ ok id
      → AdmitsAs D id (command_of req json)
  Admitted (fetch env id) = Unit
