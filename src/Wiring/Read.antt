-- ===== src/Wiring/Read.antt =====
-- `Querier.Get` over the Postgres repository, and what a submitter reads back.
use mathlib.Core.Path.{subst}
use mathlib.Core.Bool.{false≢true}
use flowhand.Base.{
  ◌≡◌, refl, ◌∙◌, sym, ap, inl, inr, true, false, Option, none, some, List, ◌∷◌, Bool-cases,
}
use flowhand.Failure.{GoError, Result, ok, err, errors_is, err_not_found, err_no_rows, wrap_id}
use flowhand.Action.{then_do}
use flowhand.Domain.{Uuid, Task, RawMessage, Time, utc}
use flowhand.Storage.{Row, Database, IsPostgres, find_id, ReadOutcome}
use flowhand.Storage.Table.{Reach, Reach-find_id, find_id_self, find_id-find_key, KeysUnique}
use flowhand.Repository
use flowhand.Repository.{to_row, to_domain, map_action, translate}
use flowhand.Service
use flowhand.Service.{SubmitCommand, Injected, TaskView, key_of, view_of}
use flowhand.Wiring.{submit_task, get_task}
use flowhand.Wiring.Replay.{Answers, Answers-to_domain}
use flowhand.Wiring.Submit.{SubmitOutcome, submit-SubmitOutcome}

-- What a read promises: a view is that of the row with the id, and "not found" is said only if there
-- is none.
abbrev pub GetOutcome : Option Row → Result TaskView → Type 0
GetOutcome found (ok v) = (r : Row) × (found ≡ some r) × (v ≡ view_of (to_domain r))
GetOutcome found (err e) = errors_is err_not_found e ≡ true → found ≡ none

module _ (D : Database) (id : Uuid) where
  get_outcome :
      (found : Option Row) (out : Result Row × D.State)
      → ReadOutcome found out.0
      → ((e : GoError) → out.0 ≡ err e → errors_is err_not_found e ≡ false)
      → GetOutcome found
          (then_do {B = TaskView}
            (map_action to_domain (λ e. wrap_id "get task" id (translate e)) out)
            (λ row s. (ok (view_of row), s))).0
  unfolding translate
  get_outcome found (ok r, s) read foreign = (r, read, refl)
  get_outcome found (err e, s) read foreign = elim (Bool-cases (errors_is err_no_rows e)) [
    | inl gone ↦ λ _. read gone
    | inr other ↦ rw (other, translate) (λ h. absurd (false≢true (sym (foreign e refl) ∙ h)))
  ]

module _ {S : Type 0} (f : Row → Task) (g : GoError → GoError) where
  keeps_state :
      (out : Result Row × S) (rows : S → List Row) {before : List Row}
      → rows out.1 ≡ before
      → rows (then_do {B = TaskView} (map_action f g out) (λ row s. (ok (view_of row), s))).1
        ≡ before
  keeps_state (ok r, s) rows same = same
  keeps_state (err e, s) rows same = same

-- Over a database that keeps the promises of Postgres, a read gives the view of the row with the
-- id or an error, and the error is "not found" only if no row has the id. A read changes nothing.
pub get_task-GetOutcome :
    (D : Database)
    → IsPostgres D
    → (id : Uuid) (s : D.State)
    → GetOutcome (find_id id (D.rows s)) (get_task D id s).0
      × (D.rows (get_task D id s).1 ≡ D.rows s)
unfolding Service.get Repository.get
get_task-GetOutcome D pg id s = (
  get_outcome D id (find_id id (D.rows s)) (D.get_task_by_id id s) (pg.by_id id s)
      (pg.foreign_read id s),
  keeps_state to_domain (λ e. wrap_id "get task" id (translate e)) (D.get_task_by_id id s) D.rows
      (pg.by_id_keeps id s),
)

-- Where a row is found by its id, it is found by it for ever.
pub ok-stored :
    {jsonb : RawMessage → RawMessage} (cmd : SubmitCommand) (now : Time) (t : Task)
    (before after : List Row)
    → KeysUnique before
    → SubmitOutcome jsonb cmd now before (ok t) after
    → (r : Row) × (find_id t.id after ≡ some r) × Answers r t
ok-stored cmd now t before after u (inl (r, fresh, fits, i, grown)) = (
  r,
  rw grown (subst (λ id. find_id id (r ∷ before) ≡ some r) i.id (find_id_self r before)),
  record { id = i.id; status = i.status ∙ sym (ap (λ u. u.status) fresh); handler = i.handler },
)
ok-stored cmd now t before after u (inr (r, keyed, found, same, unchanged)) = (
  r,
  rw (unchanged, ap (λ u. u.id) same) (find_id-find_key cmd.idempotency_key before r u found),
  Answers-to_domain r t (sym same),
)

view-Answers :
    (t : Task) (v : TaskView) (r : Row) {found : Option Row}
    → found ≡ some r
    → Answers r t
    → GetOutcome found (ok v)
    → (v.id ≡ t.id) × (v.handler ≡ t.handler) × (v.status ≡ t.status)
view-Answers t v r e a (r', e', same) =
    let both : some r' ≡ some r = sym e' ∙ e in
    let rows : r' ≡ r = cc both in
    let view : v ≡ view_of (to_domain r) = same ∙ ap (λ x. view_of (to_domain x)) rows in
    (
      ap (λ (x : TaskView). x.id) view ∙ a.id,
      ap (λ (x : TaskView). x.handler) view ∙ a.handler,
      ap (λ (x : TaskView). x.status) view ∙ a.status,
    )

found_not_missing :
    (e : GoError) (r : Row) {found : Option Row}
    → found ≡ some r
    → GetOutcome found (err e)
    → errors_is err_not_found e ≡ false
found_not_missing e r found read = elim (Bool-cases (errors_is err_not_found e)) [
  | inl missing ↦
      let clash : ◌≡◌ {A = Option Row} none (some r) = sym (read missing) ∙ found in cc clash
  | inr other ↦ other
]

-- Over a database that keeps the promises of Postgres and whose keys were unique, what a
-- submission was answered with can be read back at any later time: a read of the returned id never
-- says "not found", and if it succeeds it shows the same id, handler and status.
pub get-submit :
    (D : Database)
    → IsPostgres D
    → (env : Injected) (cmd : SubmitCommand) (s s' : D.State) (t : Task) → KeysUnique (D.rows s)
    → (submit_task D env cmd s).0 ≡ ok t
    → Reach D.jsonb (D.rows (submit_task D env cmd s).1) (D.rows s')
    → ((v : TaskView)
        → (get_task D t.id s').0 ≡ ok v
        → (v.id ≡ t.id) × (v.handler ≡ t.handler) × (v.status ≡ t.status))
      × ((e : GoError) → (get_task D t.id s').0 ≡ err e → errors_is err_not_found e ≡ false)
get-submit D pg env cmd s s' t u first later =
    let one =
      subst
        (λ r.
          SubmitOutcome D.jsonb cmd (utc env.now) (D.rows s) r (D.rows (submit_task D env cmd s).1))
        first (submit-SubmitOutcome D pg env cmd s) in
    let (r, stored, answers) = ok-stored cmd (utc env.now) t _ _ u one in
    let found = Reach-find_id later t.id stored in
    let read = (get_task-GetOutcome D pg t.id s').0 in
    (
      λ v e. view-Answers t v r found answers (subst (GetOutcome _) e read),
      λ e h. found_not_missing e r found (subst (GetOutcome _) h read),
    )
