-- ===== src/Tests/Concurrent.antt =====
-- Two submissions under one key that run at the same time, over the database in memory.
use flowhand.Base.{◌≡◌, refl, ℕ, [], ◌++◌}
use flowhand.Failure.{ok}
use flowhand.Domain.{utc, Uuid}
use flowhand.Storage.{find_id, find_key}
use flowhand.Storage.Memory.{memory, memory-IsPostgres, memory-IsReachable}
use flowhand.Storage.Table.{KeysUnique}
use flowhand.Repository
use flowhand.Repository.{insert, translate, insert_error, is_unique_violation}
use flowhand.Service.{SubmitCommand, store_task, replay}
use flowhand.Wiring.Concurrent.{
  idle, starting, finished, System, Reaches, begins, runs, start, later, moved, advance, set_call,
  read_by,
}
use flowhand.Wiring.Concurrent.Laws.{submit_concurrently, Stored}
use flowhand.Wiring.Concurrent.History
use flowhand.Wiring.Concurrent.History.{Execution, History, Explains}
use flowhand.Wiring.Concurrent.Linear.{calls_linearizable}
use flowhand.Tests.Doubles.{command, other_command, task, replayed_task, noon}
use flowhand.Tests.Tasks.{key_not_empty, nothing_known, nothing-Represents}

abbrev quiet : System memory
quiet = record { calls = λ i. idle; state = [] }

abbrev begun : ℕ → SubmitCommand → Uuid → System memory → System memory
begun i cmd id x = record x { calls = set_call memory i (starting (utc noon) cmd (ok id)) x.calls }

abbrev ran : ℕ → System memory → System memory
ran i x = moved memory i x.calls (advance memory (x.calls i) x.state)

-- Both begin and insert, the second in vain; then both return.
abbrev both_begun : System memory
both_begun = begun 1 other_command 8 (begun 0 command 7 quiet)

abbrev both_done : System memory
both_done = ran 1 (ran 0 (ran 1 (ran 0 both_begun)))

interleaved : Reaches memory quiet both_done
interleaved =
    later
      (later
        (later
          (later
            (later (later start (begins 0 (utc noon) command (ok 7) quiet refl))
              (begins 1 (utc noon) other_command (ok 8) (begun 0 command 7 quiet) refl))
            (runs 0 both_begun))
          (runs 1 (ran 0 both_begun)))
        (runs 0 (ran 1 (ran 0 both_begun))))
      (runs 1 (ran 0 (ran 1 (ran 0 both_begun))))

first_done : both_done.calls 0 ≡ finished command (ok task)
unfolding advance store_task replay insert insert_error is_unique_violation find_id find_key
    translate Repository.get_by_idempotency_key
first_done = refl

second_done : both_done.calls 1 ≡ finished other_command (ok replayed_task)
unfolding advance store_task replay insert insert_error is_unique_violation find_id find_key
    translate Repository.get_by_idempotency_key
second_done = refl

submit_concurrently_example :
    (replayed_task.id ≡ task.id)
    × (replayed_task.handler ≡ task.handler)
    × (replayed_task.status ≡ task.status)
    × Stored command task both_done.state
    × KeysUnique both_done.state
submit_concurrently_example =
    submit_concurrently memory memory-IsPostgres quiet both_done tt (λ j. refl) interleaved 0 1
      command other_command task replayed_task key_not_empty refl first_done second_done

first_inserted : Execution memory quiet (ran 0 both_begun)
unfolding find_id
first_inserted =
    History.runs
      (History.begins (History.begins History.start 0 (utc noon) command (ok 7) refl) 1 (utc noon)
        other_command (ok 8) refl)
      0 (refl, λ e. cc e)

rest_run : Execution memory (ran 0 both_begun) both_done
unfolding advance store_task insert insert_error is_unique_violation find_id find_key
rest_run = History.runs (History.runs (History.runs History.start 1 (refl, λ e. cc e)) 0 tt) 1 tt

-- Then a third call reads the task.
read_too : Execution memory (ran 0 both_begun) (read_by memory 2 7 both_done)
read_too = History.reads rest_run 2 7 refl

calls_linearizable_example :
    (h : History) × (new : History) × Explains memory nothing_known h (ran 0 both_begun)
    × Explains memory nothing_known (new ++ h) (read_by memory 2 7 both_done)
calls_linearizable_example =
    calls_linearizable memory memory-IsPostgres memory-IsReachable nothing_known quiet
      (ran 0 both_begun) (read_by memory 2 7 both_done) nothing-Represents (λ j. refl)
      first_inserted read_too
