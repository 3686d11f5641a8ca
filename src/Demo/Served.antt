-- ===== src/Demo/Served.antt =====
-- cmd/flowhand-demo/main.go against the rest of the program: the producer's loop, each of whose POSTs is
-- served by the generated server over the wired application, with other clients at the same database and
-- a network that loses requests and responses.
pub mod Post
pub mod Laws
use flowhand.Base.{ℕ, ◌/◌, String, Option, none, some, List, [], ◌∷◌}
use flowhand.Failure.{GoError, Result, ok, err}
use flowhand.Action.{Action}
use flowhand.Domain.{RawMessage}
use flowhand.Storage.{Database}
use flowhand.Service.{Injected}
use flowhand.Oas.Schemas.{CreateTaskRequestPayload}
use flowhand.Oas.Jx.{Jx}
use flowhand.Oas.Http.{Request, Exchange, Header, Chunk}
use flowhand.Oas.Request.{Libs}
use flowhand.Oas.Response.Laws.{fresh}
use flowhand.App.{serve}
use flowhand.Demo.{Producer, Response, key, tick, submit_one}

-- What becomes of a request.
pub data Delivery : Type 0 where
  delivered : Delivery
  request_lost response_lost : GoError → Delivery

-- What a tick meets: what other clients have done to the database, the clock and the id that the server
-- injects, and the network.
pub record Round (State : Type 0) : Type 0 where
  pub others : State → State
  pub env : Injected
  pub delivery : Delivery

-- The producer's libraries.
pub record Wire (B : Type 0) : Type 0 where
  -- `fmt.Sprintf("%s-%d", runID, n/2)`
  pub print : String × ℕ → String
  -- `json.Marshal` and `http.NewRequestWithContext` for a key, as the request arrives at the server
  pub post : String → Request B
  -- `json.NewDecoder(resp.Body).Decode`, the id of it
  pub decode_id : List (Chunk B) → Result String

-- net/http answers with 200 where no status was written.
abbrev pub status_of : Option (ℕ × Header) → ℕ
status_of none = 200
status_of (some (status, header)) = status

abbrev pub response : {B : Type 0} → Wire B → Exchange B → Response
response wire x = record { status_code = status_of x.sent; task_id = wire.decode_id x.body }

-- `submitOne` for a key, over what `client.Do` gives.
abbrev pub submit_key : {B : Type 0} → Wire B → Result Response → String → Result String
submit_key wire answer k = submit_one (ok k) (λ body. ok (wire.post body)) (λ req. answer)

module _ (J : Jx) (libs : Libs) (text : GoError → String) (D : Database)
    (marshal : CreateTaskRequestPayload → Result RawMessage) (wire : Wire J.Bytes) where
  abbrev pub submitted : Delivery → Injected → String → Action D.State String
  submitted delivered env k s =
      let (x, s') = serve J libs text D env marshal (wire.post k) fresh s in
      (submit_key wire (ok (response wire x)) k, s')
  submitted (response_lost e) env k s =
      let (x, s') = serve J libs text D env marshal (wire.post k) fresh s in
      (submit_key wire (err e) k, s')
  submitted (request_lost e) env k s = (submit_key wire (err e) k, s)

  -- The loop of `run`, with the database beside it.
  abbrev pub produced : String → List (Round D.State) → Producer → D.State → Producer × D.State
  produced run_id [] p s = (p, s)
  produced run_id (round ∷ rounds) p s =
      let (answer, s') =
        submitted round.delivery round.env (wire.print (key run_id p)) (round.others s) in
      produced run_id rounds (tick answer p) s'
