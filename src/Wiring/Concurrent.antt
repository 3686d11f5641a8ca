-- ===== src/Wiring/Concurrent.antt =====
-- Submissions and reads that run at the same time. The state is only touched by the calls of the
-- ports, so a call of `Commander.Submit` (internal/service/task/commander.go) is cut where it has
-- returned from its transaction: before that it inserts, after that it may read a row to replay,
-- and in between anybody may write to the table. `Querier.Get` is one call of a port.
pub mod Laws
pub mod History
pub mod Moves
pub mod Linear
pub mod Whole
use flowhand.Base.{◌≡◌, ℕ, ◌+◌, nat_eq, if◌then◌else◌, Option, none, some, List}
use flowhand.Failure.{Result, ok, err, wrap}
use flowhand.Domain
use flowhand.Domain.{Uuid, Time, Task}
use flowhand.Storage.{Database}
use flowhand.Storage.Table.{Step}
use flowhand.Service
use flowhand.Service.{SubmitCommand, TaskView, key_of, settle, store_task}
use flowhand.Wiring.{ports, get_task}

-- How far a call has come: not begun; begun, with its time, command and id; returned from the
-- transaction with a result; returned. `looked` is a call of `Querier.Get` that has returned.
pub data Phase : Type 0 where
  idle : Phase
  starting : Time → SubmitCommand → Result Uuid → Phase
  inserted : SubmitCommand → Task → Result (Unit {0}) → Phase
  finished : SubmitCommand → Result Task → Phase
  looked : Uuid → Result TaskView → Phase

module _ (D : Database) where
  abbrev returned : SubmitCommand → Task → Result (Unit {0}) × D.State → Phase × D.State
  returned cmd t (r, s) = (inserted cmd t r, s)

  abbrev settled : SubmitCommand → Result Task × D.State → Phase × D.State
  settled cmd (r, s) = (finished cmd r, s)

  -- The next part of a call: `submit_as` up to the return of `within_tx`, then its switch.
  unfoldable pub advance : Phase → D.State → Phase × D.State
  advance idle s = (idle, s)
  advance (starting now cmd (err e)) s = (finished cmd (err (wrap "new id" e)), s)
  advance (starting now cmd (ok id)) s =
      let t = Domain.submit id cmd.handler cmd.payload now in
      let ports = ports D in
      returned cmd t (ports.within_tx (store_task ports t (key_of cmd) now) s)
  advance (inserted cmd t r) s = settled cmd (settle (ports D) cmd t (r, s))
  advance (finished cmd r) s = (finished cmd r, s)
  advance (looked id v) s = (looked id v, s)

  -- The calls, by number, and the state that they share.
  pub record System : Type 0 where
    pub calls : ℕ → Phase
    pub state : D.State

  abbrev pub set_call : ℕ → Phase → (ℕ → Phase) → ℕ → Phase
  set_call i p calls j = if nat_eq j i then p else calls j

  abbrev pub moved : ℕ → (ℕ → Phase) → Phase × D.State → System
  moved i calls (p, s) = record { calls = set_call i p calls; state = s }

  -- A read by the call `i`.
  abbrev pub read_by : ℕ → Uuid → System → System
  read_by i id x =
      let (v, s) = get_task D id x.state in
      record { calls = set_call i (looked id v) x.calls; state = s }

  -- A call begins; a call runs its next part; a call reads; somebody else reads, or inserts a row.
  pub data Move : Option ℕ → System → System → Type 0 where
    begins :
        (i : ℕ) (now : Time) (cmd : SubmitCommand) (minted : Result Uuid) (x : System)
        → x.calls i ≡ idle
        → Move none x (record x { calls = set_call i (starting now cmd minted) x.calls })
    runs : (i : ℕ) (x : System) → Move (some i) x (moved i x.calls (advance (x.calls i) x.state))
    reads : (i : ℕ) (id : Uuid) (x : System) → x.calls i ≡ idle → Move none x (read_by i id x)
    elsewhere :
        (x : System) (s : D.State)
        → Step D.jsonb (D.rows x.state) (D.rows s)
        → Move none x (record x { state = s })

  -- Any interleaving, whoever moves.
  pub data Reaches (x : System) : System → Type 0 where
    start : Reaches x x
    later : {who : Option ℕ} {y z : System} → Reaches x y → Move who y z → Reaches x z
