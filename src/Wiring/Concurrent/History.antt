-- ===== src/Wiring/Concurrent/History.antt =====
-- Submissions and reads that run at the same time, against the abstract store of Wiring/Spec: a
-- history is the calls in an order in which the store could have answered them one after the other,
-- the last one first.
use flowhand.Base.{◌≡◌, ℕ, nat_eq, Option, none, some, List, [], ◌∷◌, if◌then◌else◌}
use flowhand.Failure.{Result, ok, err}
use flowhand.Domain.{Uuid, Time, Task}
use flowhand.Storage.{Row, Database, find_id}
use flowhand.Service.{SubmitCommand, TaskView}
use flowhand.Wiring.Spec
use flowhand.Wiring.Spec.{Store, Call, Seen, step}
use flowhand.Wiring.Refines.{AdmitsAs, Represents, see_task, see_view}
use flowhand.Wiring.Concurrent.{
  Phase, idle, starting, inserted, finished, looked, advance, System, set_call, moved, read_by,
}

abbrev pub History : Type 0
History = List (ℕ × Call)

abbrev pub store_after : History → Store → Store
store_after [] a = a
store_after ((i, c) ∷ h) a = (step c (store_after h a)).1

-- What the store answers to the call with a number, and the call, if it is in the history.
abbrev pub seen_by : ℕ → History → Store → Option Seen
seen_by i [] a = none
seen_by i ((j, c) ∷ h) a =
    let earlier = seen_by i h a in if nat_eq i j then some (step c (store_after h a)).0 else earlier

abbrev pub call_of : ℕ → History → Option Call
call_of i [] = none
call_of i ((j, c) ∷ h) = let earlier = call_of i h in if nat_eq i j then some c else earlier

-- No call stands in a history twice.
abbrev pub Once : History → Type 0
Once [] = Unit
Once ((i, c) ∷ h) = (call_of i h ≡ none) × Once h

-- A read is in the history, and is answered there as the caller sees it.
abbrev pub Looked : History → Store → ℕ → Uuid → Result TaskView → Type 0
Looked h a i id v = (call_of i h ≡ some (Spec.get id)) × (seen_by i h a ≡ some (see_view v))

-- A submission is in the history with its command, and is answered there as the caller sees it.
abbrev pub Answered : History → Store → ℕ → SubmitCommand → Seen → Type 0
Answered h a i cmd seen =
    ((now : Time) × (minted : Result Uuid) × (call_of i h
        ≡ some (Spec.submit (record { now = now; new_id = minted }) cmd)))
    × (seen_by i h a ≡ some seen)

module _ (D : Database) where
  -- The id of a call that is about to insert is not in use, and the columns admit its values.
  abbrev pub Fresh : Phase → List Row → Type 0
  Fresh idle rows = Unit
  Fresh (starting now cmd (ok id)) rows = (find_id id rows ≡ none) × AdmitsAs D id cmd
  Fresh (starting now cmd (err e)) rows = Unit
  Fresh (inserted cmd t r) rows = Unit
  Fresh (finished cmd r) rows = Unit
  Fresh (looked id v) rows = Unit

  -- Any interleaving of reads and of submissions with fresh ids and admitted values.
  pub data Execution (x : System D) : System D → Type 0 where
    start : Execution x x
    begins :
        {y : System D}
        → Execution x y
        → (i : ℕ) (now : Time) (cmd : SubmitCommand) (minted : Result Uuid) → y.calls i ≡ idle
        → Execution x (record y { calls = set_call D i (starting now cmd minted) y.calls })
    reads :
        {y : System D}
        → Execution x y
        → (i : ℕ) (id : Uuid) → y.calls i ≡ idle
        → Execution x (read_by D i id y)
    runs :
        {y : System D}
        → Execution x y
        → (i : ℕ) → Fresh (y.calls i) (D.rows y.state)
        → Execution x (moved D i y.calls (advance D (y.calls i) y.state))

-- A history explains a state: the table holds what the store knows after it, each call stands in it once,
-- a call that has not begun does not, and a call that has returned stands in it with the answer that it
-- returned.
pub record Explains (D : Database) (a : Store) (h : History) (x : System D) : Type 0 where
  pub table : Represents (D.rows x.state) (store_after h a)
  pub once : Once h
  pub absent : (i : ℕ) → x.calls i ≡ idle → call_of i h ≡ none
  pub returned :
      (i : ℕ) (cmd : SubmitCommand) (r : Result Task)
      → x.calls i ≡ finished cmd r
      → Answered h a i cmd (see_task r)
  pub looked_up :
      (i : ℕ) (id : Uuid) (v : Result TaskView) → x.calls i ≡ looked id v → Looked h a i id v
