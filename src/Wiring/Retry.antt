-- ===== src/Wiring/Retry.antt =====
-- A submission that is tried again and again under one key, as a client does whose connection broke: each
-- attempt may fail, also after its insert was committed.
use mathlib.Core.Path.{subst}
use flowhand.Base.{
  ◌≡◌, refl, ◌∙◌, sym, ◌⊎◌, inl, inr, ◌+◌, ◌≤◌, Option, none, some, List, [], ◌∷◌, ◌≢◌, All, length,
  arith,
}
use flowhand.Failure.{Result, ok, err}
use flowhand.Domain.{Task, RawMessage, Time, utc}
use flowhand.Storage.{Row, Database, IsPostgres, Fits, Inserted, find_key, find_key?}
use flowhand.Storage.Table.{find_key_self}
use flowhand.Repository.{to_row}
use flowhand.Service.{SubmitCommand, Injected, key_of}
use flowhand.Wiring.{submit_task}
use flowhand.Wiring.Submit.{SubmitOutcome, submit-SubmitOutcome}
use flowhand.Wiring.Replay.{Answers, ok-Answers, key_of_keyed}

-- The attempts one after the other, each with its own time and id: their results, and the state.
abbrev pub attempts :
    (D : Database) → SubmitCommand → List Injected → D.State → List (Result Task) × D.State
attempts D cmd [] s = ([], s)
attempts D cmd (env ∷ envs) s =
    let (r, s') = submit_task D env cmd s in let (rs, s'') = attempts D cmd envs s' in (r ∷ rs, s'')

-- A result that is a task is that of the row under the key.
abbrev pub FromRow : SubmitCommand → List Row → Result Task → Type 0
FromRow cmd rows (ok t) = (r : Row) × (find_key cmd.idempotency_key rows ≡ some r) × Answers r t
FromRow cmd rows (err e) = Unit

-- One attempt: nothing, or the key was free and its row is added.
abbrev Claims : SubmitCommand → List Row → List Row → Type 0
Claims cmd before after =
    (after ≡ before)
    ⊎ ((r : Row) × (find_key cmd.idempotency_key before ≡ none)
        × (find_key cmd.idempotency_key after ≡ some r)
        × (after ≡ r ∷ before))

module _ (jsonb : RawMessage → RawMessage) (cmd : SubmitCommand) (now : Time)
    (keyed : cmd.idempotency_key ≢ "") where
  claimed :
      (u : Task) (r : Row) (before after : List Row)
      → Fits (to_row u (key_of cmd)) before
      → Inserted jsonb (to_row u (key_of cmd)) r
      → after ≡ r ∷ before
      → Claims cmd before after
  claimed u r before after fits i grown = inr (
    r,
    subst (λ k. find_key? k before ≡ none) (key_of_keyed cmd keyed) fits.1,
    rw grown (find_key_self cmd.idempotency_key r before (i.key ∙ key_of_keyed cmd keyed)),
    grown,
  )

  SubmitOutcome-Claims :
      (out : Result Task) (before after : List Row)
      → SubmitOutcome jsonb cmd now before out after
      → Claims cmd before after
  SubmitOutcome-Claims (ok u) before after (inl (r, fresh, fits, i, grown)) =
      claimed u r before after fits i grown
  SubmitOutcome-Claims (ok u) before after (inr (r, _, found, same, unchanged)) = inl unchanged
  SubmitOutcome-Claims (err e) before after (inl same, _) = inl same
  SubmitOutcome-Claims (err e) before after (inr (u, r, fresh, fits, i, grown), _) =
      claimed u r before after fits i grown

-- A key that is taken stays as it is.
Claims-taken :
    (cmd : SubmitCommand) {before after : List Row} (r : Row)
    → Claims cmd before after
    → find_key cmd.idempotency_key before ≡ some r
    → after ≡ before
Claims-taken cmd r (inl same) taken = same
Claims-taken cmd r (inr (r', free, _, _)) taken =
    let clash : ◌≡◌ {A = Option Row} none (some r) = sym free ∙ taken in cc clash

module _ (D : Database) (pg : IsPostgres D) (cmd : SubmitCommand)
    (keyed : cmd.idempotency_key ≢ "") where
  submit-Claims :
      (env : Injected) (s : D.State) → Claims cmd (D.rows s) (D.rows (submit_task D env cmd s).1)
  submit-Claims env s =
      SubmitOutcome-Claims D.jsonb cmd (utc env.now) keyed _ _ _
        (submit-SubmitOutcome D pg env cmd s)

  attempts-taken :
      (envs : List Injected) (s : D.State) (r : Row)
      → find_key cmd.idempotency_key (D.rows s) ≡ some r
      → D.rows (attempts D cmd envs s).1 ≡ D.rows s
  attempts-taken [] s r taken = refl
  attempts-taken (env ∷ envs) s r taken =
      let same = Claims-taken cmd r (submit-Claims env s) taken in
      attempts-taken envs (submit_task D env cmd s).1 r (rw same taken) ∙ same

  attempts-length :
      (envs : List Injected) (s : D.State)
      → length (D.rows (attempts D cmd envs s).1) ≤ length (D.rows s) + 1
  attempts-length [] s = omega arith
  attempts-length (env ∷ envs) s =
      after_first (submit_task D env cmd s).1 (submit-Claims env s)
        (attempts-length envs (submit_task D env cmd s).1)
    where
      after_first :
          (s' : D.State)
          → Claims cmd (D.rows s) (D.rows s')
          → length (D.rows (attempts D cmd envs s').1) ≤ length (D.rows s') + 1
          → length (D.rows (attempts D cmd envs s').1) ≤ length (D.rows s) + 1
      after_first s' (inl same) bound = rw (← same) bound
      after_first s' (inr (r, free, taken, grown)) bound =
          rw (attempts-taken envs s' r taken) (rw grown (omega arith))

  head-FromRow :
      (env : Injected) (envs : List Injected) (s : D.State) (out : Result Task)
      → SubmitOutcome D.jsonb cmd (utc env.now) (D.rows s) out (D.rows (submit_task D env cmd s).1)
      → FromRow cmd (D.rows (attempts D cmd envs (submit_task D env cmd s).1).1) out
  head-FromRow env envs s (err e) o = tt
  head-FromRow env envs s (ok t) o =
      let (r, found, answers) = ok-Answers cmd (utc env.now) t _ _ o keyed in
      (r, rw (attempts-taken envs (submit_task D env cmd s).1 r found) found, answers)

  attempts-FromRow :
      (envs : List Injected) (s : D.State)
      → All (FromRow cmd (D.rows (attempts D cmd envs s).1)) (attempts D cmd envs s).0
  attempts-FromRow [] s = tt
  attempts-FromRow (env ∷ envs) s = (
    head-FromRow env envs s (submit_task D env cmd s).0 (submit-SubmitOutcome D pg env cmd s),
    attempts-FromRow envs (submit_task D env cmd s).1,
  )

-- Over a database that keeps the promises of Postgres, a submission under a key that is not empty can be
-- tried any number of times, with whatever clocks and ids and however each attempt fails: all of them
-- together insert at most one row, none if the key was taken, and every attempt that succeeds returns
-- the task of the row that the table holds under the key at the end.
pub attempts_lem :
    (D : Database)
    → IsPostgres D
    → (cmd : SubmitCommand) (envs : List Injected) (s : D.State) → cmd.idempotency_key ≢ ""
    → (length (D.rows (attempts D cmd envs s).1) ≤ length (D.rows s) + 1)
      × ((r : Row)
          → find_key cmd.idempotency_key (D.rows s) ≡ some r
          → D.rows (attempts D cmd envs s).1 ≡ D.rows s)
      × All (FromRow cmd (D.rows (attempts D cmd envs s).1)) (attempts D cmd envs s).0
attempts_lem D pg cmd envs s keyed = (
  attempts-length D pg cmd keyed envs s,
  attempts-taken D pg cmd keyed envs s,
  attempts-FromRow D pg cmd keyed envs s,
)
