-- ===== src/Wiring/Spec.antt =====
-- What the task service promises, without rows, errors of the database and representation: a store in
-- which a task is found by its id and, if it was submitted under a key, by its key.
use flowhand.Base.{◌≡◌, nat_eq, ◌==◌, String, Option, none, some, List, [], ◌∷◌, if◌then◌else◌}
use flowhand.Failure.{Result, ok, err}
use flowhand.Domain.{Uuid, Status, status_pending}
use flowhand.Service.{SubmitCommand, Injected}

-- What is known of a task: its payload and the time of its creation are left out.
pub record Known : Type 0 where
  pub id : Uuid
  pub handler : String
  pub status : Status

pub record Store : Type 0 where
  pub by_id : Uuid → Option Known
  pub by_key : String → Option Known

-- A call of the service, with what is injected into it.
pub data Call : Type 0 where
  submit : Injected → SubmitCommand → Call
  get : Uuid → Call

-- What the caller sees.
pub data Seen : Type 0 where
  answered : Known → Seen
  missing failed : Seen

abbrev pub pending : Uuid → SubmitCommand → Known
pending id cmd = record { id = id; handler = cmd.handler; status = status_pending }

abbrev pub add : Known → Store → Store
add k a = record a { by_id = λ id. if nat_eq k.id id then some k else a.by_id id }

abbrev pub add_keyed : String → Known → Store → Store
add_keyed key k a = record {
  by_id = λ id. if nat_eq k.id id then some k else a.by_id id;
  by_key = λ q. if key == q then some k else a.by_key q;
}

-- A key that is taken is answered with its task; a free one is taken.
abbrev pub claim : String → Known → Option Known → Store → Seen × Store
claim key new (some k) a = (answered k, a)
claim key new none a = (answered new, add_keyed key new a)

abbrev pub submit_known : Known → String → Store → Seen × Store
submit_known new key a =
    if key == "" then (answered new, add new a) else claim key new (a.by_key key) a

abbrev pub submit_as : Result Uuid → SubmitCommand → Store → Seen × Store
submit_as (ok id) cmd a = submit_known (pending id cmd) cmd.idempotency_key a
submit_as (err e) cmd a = (failed, a)

abbrev pub found : Option Known → Seen
found (some k) = answered k
found none = missing

abbrev pub step : Call → Store → Seen × Store
step (submit env cmd) a = submit_as env.new_id cmd a
step (get id) a = (found (a.by_id id), a)

-- Some calls, one after the other: what is seen of each, and the store.
abbrev pub run : List Call → Store → List Seen × Store
run [] a = ([], a)
run (c ∷ calls) a =
    let (seen, b) = step c a in let (rest, last) = run calls b in (seen ∷ rest, last)

-- The id of a submission is not in use.
abbrev pub FreshIn : Call → Store → Type 0
FreshIn (submit env cmd) a = (id : Uuid) → env.new_id ≡ ok id → a.by_id id ≡ none
FreshIn (get id) a = Unit

abbrev pub AllFresh : List Call → Store → Type 0
AllFresh [] a = Unit
AllFresh (c ∷ calls) a = FreshIn c a × AllFresh calls (step c a).1
