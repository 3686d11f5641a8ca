-- ===== src/Repository/Laws.antt =====
-- The repository hides the driver: no caller sees `pgx.ErrNoRows`, and none sees SQLSTATE 23505.
use mathlib.Core.Path.{subst}
use flowhand.Base.{
  ◌≡◌, ◌↔◌, ap, refl, ◌∙◌, sym, ◌⊎◌, inl, inr, true, false, String, Option, none, some, List, ◌∷◌,
  arith, ◌≢◌, Bool-cases, Option-cases, eq_iff,
}
use flowhand.Failure.{
  GoError, errors_is, err_not_found, err_conflict, err_no_rows, as_pg_error, Result, ok, err,
}
use flowhand.Domain.{Task, RawMessage}
use flowhand.Storage.{Row, Database, IsPostgres, Fits, Inserted, CreateTaskParams, CreateOutcome}
use flowhand.Storage.Table.{Step, stay, grow}
use flowhand.Repository.{translate, is_unique_violation, insert_error, insert, to_row, map_action}

-- An error with "no rows" in its chain is translated to one that is the domain's not-found, every
-- other error is left as it is, and no translated error has "no rows" in its chain.
pub translate_lem :
    (e : GoError)
    → (errors_is err_no_rows (translate e) ≡ false)
      × (errors_is err_no_rows e ≡ true → errors_is err_not_found (translate e) ≡ true)
      × (errors_is err_no_rows e ≡ false → translate e ≡ e)
unfolding translate
translate_lem e = elim (Bool-cases (errors_is err_no_rows e)) [
  | inl gone ↦ rw gone (refl, λ _. refl, λ h. ground arith)
  | inr other ↦ rw other (other, λ h. ground arith, λ _. refl)
]

-- Nothing, or the row was added all the same: its answer was lost.
abbrev pub Unless : (RawMessage → RawMessage) → CreateTaskParams → List Row → List Row → Type 0
Unless jsonb p before after =
    (after ≡ before) ⊎ ((r : Row) × Fits p before × Inserted jsonb p r × (after ≡ r ∷ before))

-- What an insert by the repository does to the table: it adds the row, or reports a conflict and adds
-- nothing because the row does not fit, or reports another error, and then it has added nothing if
-- the server answered with that error.
abbrev pub InsertOutcome :
    (RawMessage → RawMessage) → CreateTaskParams → List Row → Result (Unit {0}) → List Row → Type 0
InsertOutcome jsonb p before (ok _) after =
    (r : Row) × Fits p before × Inserted jsonb p r × (after ≡ r ∷ before)
InsertOutcome jsonb p before (err e) after =
    ((errors_is err_conflict e ≡ true) × (¬ Fits p before) × (after ≡ before))
    ⊎ ((errors_is err_conflict e ≡ false)
        × Unless jsonb p before after
        × (as_pg_error e ≢ none → after ≡ before))

pub Unless-Step :
    {jsonb : RawMessage → RawMessage} (p : CreateTaskParams) (before after : List Row)
    → Unless jsonb p before after
    → Step jsonb before after
Unless-Step p before after (inl same) = subst (Step _ before) (sym same) (stay before)
Unless-Step p before after (inr (r, fits, i, grown)) =
    subst (Step _ before) (sym grown) (grow p r before fits i)

-- A failed insert either left the table alone or added the row.
CreateOutcome-Unless :
    {jsonb : RawMessage → RawMessage} (p : CreateTaskParams) (before after : List Row) (e : GoError)
    → CreateOutcome jsonb p before (err e) after
    → Unless jsonb p before after × (as_pg_error e ≢ none → after ≡ before)
CreateOutcome-Unless p before after e (inl same) = (inl same, λ _. same)
CreateOutcome-Unless p before after e (inr (r, lost, fits, i, grown)) =
    (inr (r, fits, i, grown), λ answered. absurd (answered lost))

none≢some : {code : String} → ◌≢◌ {A = Option String} none (some code)
none≢some e = cc

-- The SQLSTATE is read off the first `PgError` of the chain.
is_unique_violation→code :
    (e : GoError) → is_unique_violation e ≡ true → as_pg_error e ≡ some "23505"
unfolding is_unique_violation
is_unique_violation→code e h = elim (Option-cases (as_pg_error e)) [
  | inl lost ↦ ground arith
  | inr (code, found) ↦ ground (arith, eq_iff code "23505")
]

code→is_unique_violation :
    (e : GoError) → as_pg_error e ≡ some "23505" → is_unique_violation e ≡ true
unfolding is_unique_violation
code→is_unique_violation e h = rw h refl

module _ (D : Database) (pg : IsPostgres D) (t : Task) (key : Option String) where
  insert_outcome :
      (before : List Row) (out : Result Row × D.State)
      → CreateOutcome D.jsonb (to_row t key) before out.0 (D.rows out.1)
      → ((e : GoError) → out.0 ≡ err e → errors_is err_conflict e ≡ false)
      → ((e : GoError)
          → out.0 ≡ err e
          → as_pg_error e ≡ some "23505"
          → ¬ Fits (to_row t key) before)
      → let done = map_action {B = Unit {0}} (λ _. tt) (insert_error t.id) out in
        InsertOutcome D.jsonb (to_row t key) before done.0 (D.rows done.1)
  unfolding insert_error
  insert_outcome before (ok r, s) c foreign collides = (r, c.0, c.1, c.2)
  insert_outcome before (err e, s) c foreign collides =
      let (step, answered) = CreateOutcome-Unless (to_row t key) before (D.rows s) e c in
      elim (Bool-cases (is_unique_violation e)) [
        | inl clash ↦
            let code = is_unique_violation→code e clash in
            rw (clash, insert_error)
              (inl (refl, collides e refl code, answered (λ lost. none≢some (sym lost ∙ code))))
        | inr other ↦ rw (other, insert_error) (inr (foreign e refl, step, answered))
      ]

  -- Every insert by the repository, over a database with Postgres's promises: a success found the row
  -- fitting and added exactly it; a conflict found it not fitting and added nothing; any other
  -- error took at most one step, and none if the server answered.
  pub insert_lem :
      (s : D.State)
      → InsertOutcome D.jsonb
          (to_row t key)
          (D.rows s)
          (insert D t key s).0
          (D.rows (insert D t key s).1)
  unfolding insert
  insert_lem s =
      insert_outcome (D.rows s) (D.create_task (to_row t key) s) (pg.create (to_row t key) s)
        (pg.foreign (to_row t key) s) (pg.collides (to_row t key) s)

  -- The error that the repository gives for one of the query.
  conflict_iff :
      (e : GoError)
      → errors_is err_conflict e ≡ false
      → (errors_is err_conflict (insert_error t.id e) ≡ true) ↔ (as_pg_error e ≡ some "23505")
  unfolding insert_error
  conflict_iff e foreign = elim (Bool-cases (is_unique_violation e)) [
    | inl clash ↦ rw clash ((λ h. is_unique_violation→code e clash), (λ h. refl))
    | inr other ↦ rw other (
      (λ h. let no : true ≡ false = sym h ∙ foreign in cc no),
      (λ h. let no : true ≡ false = sym (code→is_unique_violation e h) ∙ other in cc no),
    )
  ]

  -- A query ended with an error of this kind.
  abbrev FailsWith : {A : Type 0} → (GoError → Type 0) → Result A → Type 0
  FailsWith P r = (e : GoError) × (r ≡ err e) × P e

  reports_iff :
      (out : Result Row × D.State)
      → ((e : GoError) → out.0 ≡ err e → errors_is err_conflict e ≡ false)
      → FailsWith
          (λ e. errors_is err_conflict e ≡ true)
          (map_action {B = Unit {0}} (λ _. tt) (insert_error t.id) out).0
        ↔ FailsWith (λ e. as_pg_error e ≡ some "23505") out.0
  reports_iff (ok r, s) foreign = ((λ h. cc (h.1)), (λ h. cc (h.1)))
  reports_iff (err e, s) foreign =
      let (there, back) = conflict_iff e (foreign e refl) in
      (
        (λ (f, same, is).
            let k : insert_error t.id e ≡ f = cc same in
            (e, refl, there (ap (errors_is err_conflict) k ∙ is))),
        (λ (f, same, code).
            let k : e ≡ f = cc same in (insert_error t.id e, refl, back (ap as_pg_error k ∙ code))),
      )

  reports_lem :
      (s : D.State)
      → FailsWith (λ e. errors_is err_conflict e ≡ true) (insert D t key s).0
        ↔ FailsWith (λ e. as_pg_error e ≡ some "23505") (D.create_task (to_row t key) s).0
  unfolding insert
  reports_lem s = reports_iff (D.create_task (to_row t key) s) (pg.foreign (to_row t key) s)

  -- Every insert by the repository, over a database with Postgres's promises: a success found the row
  -- fitting and added exactly it; a conflict found it not fitting and added nothing; any other error took
  -- at most one step, and none if the server answered; and a conflict is reported exactly if the query
  -- failed with SQLSTATE 23505.
  pub insert-InsertOutcome :
      (s : D.State)
      → InsertOutcome D.jsonb
          (to_row t key)
          (D.rows s)
          (insert D t key s).0
          (D.rows (insert D t key s).1)
        × (((e : GoError) × ((insert D t key s).0 ≡ err e) × (errors_is err_conflict e ≡ true)) ↔ (
            (e : GoError) × ((D.create_task (to_row t key) s).0 ≡ err e)
            × (as_pg_error e ≡ some "23505")))
  insert-InsertOutcome s = (insert_lem s, reports_lem s)
