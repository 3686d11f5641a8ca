-- ===== src/Wiring/Submit.antt =====
-- `Commander.Submit` over the Postgres repository, against what it promises of the table.
use mathlib.Core.Path.{subst}
use mathlib.Core.Bool.{true≢false}
use flowhand.Base.{
  ◌≡◌, refl, ◌∙◌, sym, ◌⊎◌, inl, inr, true, false, String, none, some, List, ◌∷◌, ◌≢◌, Bool-cases,
  ◌==◌, eq_iff,
}
use flowhand.Failure.{GoError, errors_is, err_conflict, as_pg_error, Result, ok, err, wrap}
use flowhand.Action.{then_do}
use flowhand.Domain
use flowhand.Domain.{Uuid, Task, RawMessage, Time, utc}
use flowhand.Storage.{Row, Database, IsPostgres, Fits, Inserted, find_key, ReadOutcome}
use flowhand.Repository
use flowhand.Repository.{to_row, to_domain, map_action, translate}
use flowhand.Repository.Laws.{InsertOutcome, insert_lem}
use flowhand.Service
use flowhand.Service.{SubmitCommand, Injected, key_of, replay, settle, submit_as, store_task}
use flowhand.Wiring.{ports, submit_task}

-- What a submission promises of the table. A success either added the row of the returned task, or
-- the command has a key, the table holds a row under it, the task is that row's, and nothing changed.
-- A failure changed nothing, or added the row of the command's task, the answer to whose insert was
-- lost; and nothing if the server answered the insert with an error.
abbrev pub SubmitOutcome :
    (RawMessage → RawMessage) → SubmitCommand → Time → List Row → Result Task → List Row → Type 0
SubmitOutcome jsonb cmd now before (ok u) after =
    ((r : Row) × (u ≡ Domain.submit u.id cmd.handler cmd.payload now)
      × Fits (to_row u (key_of cmd)) before
      × Inserted jsonb (to_row u (key_of cmd)) r
      × (after ≡ r ∷ before))
    ⊎ ((r : Row) × (cmd.idempotency_key ≢ "")
        × (find_key cmd.idempotency_key before ≡ some r)
        × (u ≡ to_domain r)
        × (after ≡ before))
SubmitOutcome jsonb cmd now before (err e) after =
    ((after ≡ before)
      ⊎ ((u : Task) × (r : Row) × (u ≡ Domain.submit u.id cmd.handler cmd.payload now)
          × Fits (to_row u (key_of cmd)) before
          × Inserted jsonb (to_row u (key_of cmd)) r
          × (after ≡ r ∷ before)))
    × ((errors_is err_conflict e ≡ true) ⊎ (as_pg_error e ≢ none) → after ≡ before)

pub keyed_of : {key : String} → (key == "") ≡ false → key ≢ ""
keyed_of {key} h e = true≢false (sym ((eq_iff key "").1 e) ∙ h)

module _ (D : Database) (pg : IsPostgres D) (cmd : SubmitCommand) (now : Time) where
  read_outcome :
      (before : List Row)
      → cmd.idempotency_key ≢ ""
      → (out : Result Row × D.State) → ReadOutcome (find_key cmd.idempotency_key before) out.0
      → D.rows out.1 ≡ before
      → let done =
          Service.replayed
            (ports D)
            (map_action to_domain (λ e. wrap "get task by idempotency key" (translate e)) out) in
        SubmitOutcome D.jsonb cmd now before done.0 (D.rows done.1)
  read_outcome before keyed (ok r, s) found same = inr (r, keyed, found, refl, same)
  read_outcome before keyed (err e, s) found same = (inl same, λ _. same)

  pub replay_outcome :
      (before : List Row) (e : GoError) (s : D.State)
      → D.rows s ≡ before
      → let done = replay (ports D) cmd.idempotency_key e s in
        SubmitOutcome D.jsonb cmd now before done.0 (D.rows done.1)
  unfolding replay Repository.get_by_idempotency_key
  replay_outcome before e s same = elim (Bool-cases (cmd.idempotency_key == "")) [
    | inl keyless ↦ rw (keyless, replay) (inl same, λ _. same)
    | inr keyed ↦
        rw (keyed, replay)
          (read_outcome before (λ e. keyed_of keyed e)
            (D.get_task_by_idempotency_key (some cmd.idempotency_key) s)
            (subst
              (λ rows.
                ReadOutcome (find_key cmd.idempotency_key rows)
                  (D.get_task_by_idempotency_key (some cmd.idempotency_key) s).0)
              same (pg.by_key (some cmd.idempotency_key) s))
            (pg.by_key_keeps (some cmd.idempotency_key) s ∙ same))
  ]

  settle_outcome :
      (t : Task) (out : Result (Unit {0}) × D.State) (before : List Row)
      → t ≡ Domain.submit t.id cmd.handler cmd.payload now
      → InsertOutcome D.jsonb (to_row t (key_of cmd)) before out.0 (D.rows out.1)
      → let done = settle (ports D) cmd t out in
        SubmitOutcome D.jsonb cmd now before done.0 (D.rows done.1)
  settle_outcome t (ok _, s) before fresh o = inl (o.0, fresh, o.1, o.2, o.3)
  settle_outcome t (err e, s) before fresh (inl (clash, misfit, same)) =
      rw (clash, settle) (replay_outcome before e s same)
  settle_outcome t (err e, s) before fresh (inr (other, step, answered)) =
      rw (other, settle)
        (
          elim step [
            | inl same ↦ inl same
            | inr (r, fits, i, grown) ↦ inr (t, r, fresh, fits, i, grown)
          ],
          λ why. elim why [
            | inl clash ↦ absurd (true≢false (sym clash ∙ other))
            | inr code ↦ answered code
          ],
        )

pub then_append : {S : Type 0} (out : Result (Unit {0}) × S) → then_do out (λ _ s. (ok tt, s)) ≡ out
then_append (ok u, s) = refl
then_append (err e, s) = refl

submit_as_lem :
    (D : Database) (pg : IsPostgres D) (cmd : SubmitCommand) (now : Time) (id : Uuid) (s : D.State)
    → let done = submit_as (ports D) now cmd id s in
      SubmitOutcome D.jsonb cmd now (D.rows s) done.0 (D.rows done.1)
unfolding store_task
submit_as_lem D pg cmd now id s =
    let t = Domain.submit id cmd.handler cmd.payload now in
    rw (then_append (Repository.insert D t (key_of cmd) s)) (
      settle_outcome D pg cmd now t (Repository.insert D t (key_of cmd) s) (D.rows s) refl
        (insert_lem D pg t (key_of cmd) s))

-- Over a database that keeps the promises of Postgres, every submission ends as `SubmitOutcome`
-- says, on every branch: a new row, a replay, a conflict without a key, a failed replay, any other
-- failure of the database, and a failure to mint an id. The time of a new task is the injected
-- clock's, in UTC.
pub submit-SubmitOutcome :
    (D : Database)
    → IsPostgres D
    → (env : Injected) (cmd : SubmitCommand) (s : D.State)
    → SubmitOutcome D.jsonb cmd
        (utc env.now)
        (D.rows s)
        (submit_task D env cmd s).0
        (D.rows (submit_task D env cmd s).1)
unfolding Service.submit
submit-SubmitOutcome D pg env cmd s = go env.new_id
  where
    go :
        (minted : Result Uuid)
        → let done = Service.minted (ports D) (utc env.now) cmd minted s in
          SubmitOutcome D.jsonb cmd (utc env.now) (D.rows s) done.0 (D.rows done.1)
    go (ok id) = submit_as_lem D pg cmd (utc env.now) id s
    go (err e) = (inl refl, λ _. refl)
