-- ===== src/Storage.antt =====
-- internal/storage/queries and the tables of migrations/: the rows, the three queries of
-- tasks.sql.go over a database, and what Postgres promises for them. The driver and Postgres are
-- the record `Database`; its laws are `IsPostgres`.
pub mod Table
pub mod Memory
use flowhand.Base.{
  ◌≡◌, ◌⊎◌, Bool, true, false, ◌==◌, String, Option, none, some, List, [], ◌∷◌, nat_eq,
  if◌then◌else◌,
}
use flowhand.Failure.{
  GoError, errors_is, err_conflict, err_not_found, err_no_rows, as_pg_error, Result, ok, err,
}
use flowhand.Action.{Action}
use flowhand.Domain.{Uuid, Status, Time, RawMessage, status_pending}

-- `queries.Task`, a row of the table `tasks`.
pub record Row : Type 0 where
  pub id : Uuid
  pub idempotency_key : Option String
  pub payload : RawMessage
  pub status : Status
  pub created_at : Time
  pub handler : String

pub record CreateTaskParams : Type 0 where
  pub id : Uuid
  pub idempotency_key : Option String
  pub payload : RawMessage
  pub handler : String

-- `WHERE id = $1`
unfoldable pub find_id : Uuid → List Row → Option Row
find_id id [] = none
find_id id (r ∷ rows) = if nat_eq r.id id then some r else find_id id rows

abbrev key_is : Option String → String → Bool
key_is none key = Bool.false
key_is (some k) key = k == key

-- The rows whose key equals a key that is not NULL.
unfoldable pub find_key : String → List Row → Option Row
find_key key [] = none
find_key key (r ∷ rows) = if key_is r.idempotency_key key then some r else find_key key rows

-- `WHERE idempotency_key = $1`: a comparison with NULL holds of no row. The unique index is on the
-- rows whose key is not NULL, so this is also the row that an insert of the key collides with.
abbrev pub find_key? : Option String → List Row → Option Row
find_key? none rows = none
find_key? (some key) rows = find_key key rows

-- The connection pool with Postgres behind it: each query of tasks.sql.go is sent with its arguments,
-- and gives the scanned row or an error. `rows` is what the table holds in a state.
pub record Database : Type 1 where
  pub State : Type 0
  pub rows : State → List Row
  pub create_task : CreateTaskParams → Action State Row
  pub get_task_by_id : Uuid → Action State Row
  pub get_task_by_idempotency_key : Option String → Action State Row
  -- Whether the columns admit an insert's values, whatever rows there are: JSONB takes no text that is not
  -- JSON and, as it is NOT NULL, no missing payload; TEXT takes no NUL; an index takes no key of some
  -- thousand bytes.
  pub Admits : CreateTaskParams → Type 0
  -- What the column type JSONB makes of a payload.
  pub jsonb : RawMessage → RawMessage

-- The primary key and the partial unique index of the table admit the row.
abbrev pub Fits : CreateTaskParams → List Row → Type 0
Fits p rows = (find_id p.id rows ≡ none) × (find_key? p.idempotency_key rows ≡ none)

-- The row that an insert adds: the status is the column's default.
pub record Inserted (jsonb : RawMessage → RawMessage) (p : CreateTaskParams) (r : Row)
    : Type 0 where
  pub id : r.id ≡ p.id
  pub key : r.idempotency_key ≡ p.idempotency_key
  pub payload : r.payload ≡ jsonb p.payload
  pub status : r.status ≡ status_pending
  pub handler : r.handler ≡ p.handler

-- What an insert does to the table, by its result.
abbrev pub CreateOutcome :
    (RawMessage → RawMessage) → CreateTaskParams → List Row → Result Row → List Row → Type 0
CreateOutcome jsonb p before (ok r) after =
    Fits p before × Inserted jsonb p r × (after ≡ r ∷ before)
CreateOutcome jsonb p before (err e) after =
    (after ≡ before)
    ⊎ ((r : Row) × (as_pg_error e ≡ none)
        × Fits p before
        × Inserted jsonb p r
        × (after ≡ r ∷ before))

-- What a query for at most one row returns, where `found` is the row that its condition selects.
abbrev pub ReadOutcome : Option Row → Result Row → Type 0
ReadOutcome found (ok r) = found ≡ some r
ReadOutcome found (err e) = errors_is err_no_rows e ≡ true → found ≡ none

-- What Postgres and the driver promise. An insert that succeeds fitted; one that fails leaves the
-- table alone if the server answered, and may have been committed if the connection broke (the
-- error is then no `PgError`). A 23505 is a collision, and the driver's errors are
-- never the domain's sentinels. A query changes nothing.
pub record IsPostgres (D : Database) : Type 0 where
  pub create :
      (p : CreateTaskParams) (s : D.State)
      → CreateOutcome D.jsonb p (D.rows s) (D.create_task p s).0 (D.rows (D.create_task p s).1)
  pub foreign :
      (p : CreateTaskParams) (s : D.State) (e : GoError)
      → (D.create_task p s).0 ≡ err e
      → errors_is err_conflict e ≡ false
  pub collides :
      (p : CreateTaskParams) (s : D.State) (e : GoError)
      → (D.create_task p s).0 ≡ err e
      → as_pg_error e ≡ some "23505"
      → ¬ Fits p (D.rows s)
  pub by_id :
      (id : Uuid) (s : D.State) → ReadOutcome (find_id id (D.rows s)) (D.get_task_by_id id s).0
  pub by_key :
      (key : Option String) (s : D.State)
      → ReadOutcome (find_key? key (D.rows s)) (D.get_task_by_idempotency_key key s).0
  pub foreign_read :
      (id : Uuid) (s : D.State) (e : GoError)
      → (D.get_task_by_id id s).0 ≡ err e
      → errors_is err_not_found e ≡ false
  pub by_id_keeps : (id : Uuid) (s : D.State) → D.rows (D.get_task_by_id id s).1 ≡ D.rows s
  pub by_key_keeps :
      (key : Option String) (s : D.State)
      → D.rows (D.get_task_by_idempotency_key key s).1 ≡ D.rows s

-- A database that can be reached: of the inserts whose values the columns admit, one that fits succeeds
-- and one that does not is a 23505; and a query finds the row that its condition selects, or says that
-- there is none.
pub record IsReachable (D : Database) : Type 0 where
  pub accepts :
      (p : CreateTaskParams) (s : D.State)
      → D.Admits p
      → Fits p (D.rows s)
      → (r : Row) × ((D.create_task p s).0 ≡ ok r)
  pub rejects :
      (p : CreateTaskParams) (s : D.State)
      → D.Admits p
      → ¬ Fits p (D.rows s)
      → (e : GoError) × ((D.create_task p s).0 ≡ err e) × (as_pg_error e ≡ some "23505")
  pub finds_id :
      (id : Uuid) (s : D.State) (r : Row)
      → find_id id (D.rows s) ≡ some r
      → (D.get_task_by_id id s).0 ≡ ok r
  pub finds_key :
      (key : String) (s : D.State) (r : Row)
      → find_key key (D.rows s) ≡ some r
      → (D.get_task_by_idempotency_key (some key) s).0 ≡ ok r
  pub misses_id :
      (id : Uuid) (s : D.State)
      → find_id id (D.rows s) ≡ none
      → (e : GoError) × ((D.get_task_by_id id s).0 ≡ err e) × (errors_is err_no_rows e ≡ true)
