-- ===== src/Tests/Tasks.antt =====
-- Submitting and reading over the database in memory.
use mathlib.Core.Path.{subst}
use flowhand.Base.{
  ◌↔◌, true, length, All, ◌≤◌, ◌+◌, ◌≡◌, refl, false, none, some, List, [], ◌∷◌, ◌≢◌,
}
use flowhand.Failure.{as_pg_error, err_conflict, GoError, ok, err, err_not_found, errors_is}
use flowhand.Domain.{utc, Uuid}
use flowhand.Storage.{find_id, Row}
use flowhand.Storage.Memory.{memory, memory-IsPostgres, memory-IsReachable}
use flowhand.Storage.Table.{Reach, here}
use flowhand.Storage.{find_key}
use flowhand.Repository
use flowhand.Repository.{insert, to_row, translate, insert_error, is_unique_violation}
use flowhand.Repository.Laws.{insert-InsertOutcome, InsertOutcome}
use flowhand.Service
use flowhand.Service.{view_of, store_task, replay}
use flowhand.Wiring.{submit_task, get_task}
use flowhand.Wiring.Submit.{SubmitOutcome, submit-SubmitOutcome}
use flowhand.Wiring.Retry.{attempts, attempts_lem, FromRow}
use flowhand.Wiring.Replay.{submit_twice}
use flowhand.Wiring.Spec
use flowhand.Wiring.Spec.{Store, Call, Known, answered, missing}
use flowhand.Wiring.Refines.{serve_all, Represents, serve_all-run}
use flowhand.Wiring.Read.{get-submit}
use flowhand.Wiring.Total
use flowhand.Wiring.Total.{submit_total}
use flowhand.Domain
use flowhand.Tests.Doubles.{
  env, later_env, command, other_command, stored, task, replayed_task, noon,
}

pub key_not_empty : command.idempotency_key ≢ ""
key_not_empty e = cc

pub first : (submit_task memory env command []).0 ≡ ok task
unfolding Service.submit store_task replay insert insert_error is_unique_violation find_id find_key
first = refl

first_rows : memory.rows (submit_task memory env command []).1 ≡ stored ∷ []
unfolding Service.submit store_task replay insert insert_error is_unique_violation find_id find_key
first_rows = refl

pub second : (submit_task memory later_env other_command (stored ∷ [])).0 ≡ ok replayed_task
unfolding Service.submit store_task replay insert insert_error is_unique_violation find_id find_key
    Repository.get_by_idempotency_key translate
second = refl

pub unchanged : Reach memory.jsonb (memory.rows (submit_task memory env command []).1) (stored ∷ [])
unchanged = rw first_rows here

submit_twice_example :
    (replayed_task.id ≡ task.id)
    × (replayed_task.handler ≡ task.handler)
    × (replayed_task.status ≡ task.status)
    × (memory.rows (submit_task memory later_env other_command (stored ∷ [])).1 ≡ stored ∷ [])
submit_twice_example =
    submit_twice memory memory-IsPostgres env later_env command other_command [] (stored ∷ []) task
      replayed_task key_not_empty refl first unchanged second

attempts_lem_example :
    (length (attempts memory command (env ∷ later_env ∷ []) []).1 ≤ 0 + 1)
    × ((r : Row)
        → find_key "key" [] ≡ some r
        → (attempts memory command (env ∷ later_env ∷ []) []).1 ≡ [])
    × All
        (FromRow command (attempts memory command (env ∷ later_env ∷ []) []).1)
        (attempts memory command (env ∷ later_env ∷ []) []).0
attempts_lem_example =
    attempts_lem memory memory-IsPostgres command (env ∷ later_env ∷ []) [] key_not_empty

submit-SubmitOutcome_example :
    SubmitOutcome memory.jsonb other_command
      (utc noon)
      (stored ∷ [])
      (submit_task memory later_env other_command (stored ∷ [])).0
      (memory.rows (submit_task memory later_env other_command (stored ∷ [])).1)
submit-SubmitOutcome_example =
    submit-SubmitOutcome memory memory-IsPostgres later_env other_command (stored ∷ [])

free : find_id 8 (stored ∷ []) ≡ none
unfolding find_id
free = refl

submit_total_example :
    (submit_task memory later_env other_command (stored ∷ [])).0
    ≡ ok (Total.answer (Domain.submit 8 "mail" "{}" (utc noon)) (find_key "key" (stored ∷ [])))
submit_total_example =
    submit_total memory memory-IsPostgres memory-IsReachable later_env other_command (stored ∷ []) 8
      refl free (λ e. cc e)

get-submit_example :
    ((v : Service.TaskView)
      → (get_task memory 7 (stored ∷ [])).0 ≡ ok v
      → (v.id ≡ 7) × (v.handler ≡ "echo") × (v.status ≡ "pending"))
    × ((e : GoError)
        → (get_task memory 7 (stored ∷ [])).0 ≡ err e
        → errors_is err_not_found e ≡ false)
get-submit_example =
    get-submit memory memory-IsPostgres env command [] (stored ∷ []) task tt first unchanged

insert-InsertOutcome_example :
    InsertOutcome memory.jsonb
      (to_row task (some "key"))
      (stored ∷ [])
      (insert memory task (some "key") (stored ∷ [])).0
      (memory.rows (insert memory task (some "key") (stored ∷ [])).1)
    × (((e : GoError) × ((insert memory task (some "key") (stored ∷ [])).0 ≡ err e)
          × (errors_is err_conflict e ≡ true))
        ↔ ((e : GoError) × ((memory.create_task (to_row task (some "key")) (stored ∷ [])).0 ≡ err e)
            × (as_pg_error e ≡ some "23505")))
insert-InsertOutcome_example =
    insert-InsertOutcome memory memory-IsPostgres task (some "key") (stored ∷ [])

abbrev pub nothing_known : Store
nothing_known = record { by_id = λ id. none; by_key = λ key. none }

abbrev calls : List Call
calls = Spec.submit env command ∷ Spec.submit later_env other_command ∷ Spec.get 7 ∷ Spec.get 9 ∷ []

abbrev echo : Known
echo = record { id = 7; handler = "echo"; status = "pending" }

pub nothing-Represents : Represents [] nothing_known
unfolding find_id find_key
nothing-Represents = record { ids = λ id. refl; keys = λ key. refl }

unused :
    (id : Uuid)
    → ok 8 ≡ ok id
    → (Spec.step (Spec.submit env command) nothing_known).1.by_id id ≡ none
unused id h =
    let same : 8 ≡ id = cc h in
    subst (λ k. (Spec.step (Spec.submit env command) nothing_known).1.by_id k ≡ none) same refl

serve_all-run_example :
    ((serve_all memory calls []).0 ≡ answered echo ∷ answered echo ∷ answered echo ∷ missing ∷ [])
    × Represents (memory.rows (serve_all memory calls []).1) (Spec.run calls nothing_known).1
serve_all-run_example =
    serve_all-run memory memory-IsPostgres memory-IsReachable calls [] nothing_known
      ((λ id h. refl), (unused, (tt, (tt, tt))))
      ((λ id h e. cc e), ((λ id h e. cc e), (tt, (tt, tt)))) nothing-Represents
