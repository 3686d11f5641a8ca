-- ===== src/Storage/Memory.antt =====
-- A database in memory that keeps the promises of `IsPostgres` and can always be reached: the
-- parameter `Database` can be met. It admits every payload but the empty text. Its state is the
-- table, and its clock gives every row one instant.
use flowhand.Base.{◌≡◌, ◌≢◌, refl, ◌∙◌, sym, inl, true, false, Option, none, some, List, ◌∷◌}
use flowhand.Failure.{
  GoError, sentinel, pg_error, errors_is, err_conflict, err_not_found, err_no_rows, as_pg_error,
  Result, ok, err,
}
use flowhand.Domain.{Time, status_pending}
use flowhand.Storage.{
  Row, CreateTaskParams, Database, IsPostgres, IsReachable, Fits, CreateOutcome, ReadOutcome,
  find_id, find_key?,
}

abbrev epoch : Time
epoch = record { instant = 0; monotonic = none; is_utc = true }

abbrev new_row : CreateTaskParams → Row
new_row p = record {
  id = p.id;
  idempotency_key = p.idempotency_key;
  payload = p.payload;
  status = status_pending;
  created_at = epoch;
  handler = p.handler;
}

abbrev insert_unless : CreateTaskParams → List Row → Option Row → Option Row → Result Row × List Row
insert_unless p rows none none = (ok (new_row p), new_row p ∷ rows)
insert_unless p rows none (some _) = (err (pg_error "23505"), rows)
insert_unless p rows (some _) o = (err (pg_error "23505"), rows)

abbrev found_or : List Row → Option Row → Result Row × List Row
found_or rows none = (err (sentinel err_no_rows), rows)
found_or rows (some r) = (ok r, rows)

abbrev pub memory : Database
memory = record {
  State = List Row;
  rows = λ rows. rows;
  create_task =
      λ p rows. insert_unless p rows (find_id p.id rows) (find_key? p.idempotency_key rows);
  get_task_by_id = λ id rows. found_or rows (find_id id rows);
  get_task_by_idempotency_key = λ key rows. found_or rows (find_key? key rows);
  Admits = λ p. p.payload ≢ "";
  jsonb = λ payload. payload;
}

module _ (p : CreateTaskParams) (rows : List Row) where
  create_outcome :
      (o q : Option Row)
      → find_id p.id rows ≡ o
      → find_key? p.idempotency_key rows ≡ q
      → CreateOutcome (λ x. x) p rows (insert_unless p rows o q).0 (insert_unless p rows o q).1
  create_outcome none none a b = (
    (a, b),
    record { id = refl; key = refl; payload = refl; status = refl; handler = refl },
    refl,
  )
  create_outcome none (some r) a b = inl refl
  create_outcome (some r) q a b = inl refl

  create_foreign :
      (o q : Option Row) (e : GoError)
      → (insert_unless p rows o q).0 ≡ err e
      → errors_is err_conflict e ≡ false
  create_foreign none none e h = cc
  create_foreign none (some r) e h = let same : pg_error "23505" ≡ e = cc in rw (← same) refl
  create_foreign (some r) q e h = let same : pg_error "23505" ≡ e = cc in rw (← same) refl

  create_collides :
      (o q : Option Row) (e : GoError)
      → find_id p.id rows ≡ o
      → find_key? p.idempotency_key rows ≡ q
      → (insert_unless p rows o q).0 ≡ err e
      → ¬ Fits p rows
  create_collides none none e a b h fits = cc
  create_collides none (some r) e a b h (_, free) =
      let clash : ◌≡◌ {A = Option Row} none (some r) = sym free ∙ b in cc clash
  create_collides (some r) q e a b h (free, _) =
      let clash : ◌≡◌ {A = Option Row} none (some r) = sym free ∙ a in cc clash

  create_accepts :
      Fits p rows
      → (r : Row) × ((insert_unless p rows (find_id p.id rows) (find_key? p.idempotency_key rows)).0
          ≡ ok r)
  create_accepts (a, b) = (new_row p, rw a (rw b refl))

  create_rejects :
      (o q : Option Row)
      → find_id p.id rows ≡ o
      → find_key? p.idempotency_key rows ≡ q
      → ¬ Fits p rows
      → (e : GoError) × ((insert_unless p rows o q).0 ≡ err e) × (as_pg_error e ≡ some "23505")
  create_rejects none none a b misfit = absurd (misfit (a, b))
  create_rejects none (some r) a b misfit = (pg_error "23505", refl, refl)
  create_rejects (some r) q a b misfit = (pg_error "23505", refl, refl)

read_outcome : (rows : List Row) (o : Option Row) → ReadOutcome o (found_or rows o).0
read_outcome rows none = λ _. refl
read_outcome rows (some r) = refl

read_foreign :
    (rows : List Row) (o : Option Row) (e : GoError)
    → (found_or rows o).0 ≡ err e
    → errors_is err_not_found e ≡ false
read_foreign rows none e h = let same : sentinel err_no_rows ≡ e = cc in rw (← same) refl
read_foreign rows (some r) e h = cc

read_keeps : (rows : List Row) (o : Option Row) → (found_or rows o).1 ≡ rows
read_keeps rows none = refl
read_keeps rows (some r) = refl

pub memory-IsPostgres : IsPostgres memory
memory-IsPostgres = record {
  create = λ p s. create_outcome p s (find_id p.id s) (find_key? p.idempotency_key s) refl refl;
  foreign = λ p s e. create_foreign p s (find_id p.id s) (find_key? p.idempotency_key s) e;
  collides = λ p s e h _.
      create_collides p s (find_id p.id s) (find_key? p.idempotency_key s) e refl refl h;
  by_id = λ id s. read_outcome s (find_id id s);
  by_key = λ key s. read_outcome s (find_key? key s);
  foreign_read = λ id s e. read_foreign s (find_id id s) e;
  by_id_keeps = λ id s. read_keeps s (find_id id s);
  by_key_keeps = λ key s. read_keeps s (find_key? key s);
}

pub memory-IsReachable : IsReachable memory
memory-IsReachable = record {
  accepts = λ p s admitted fits. create_accepts p s fits;
  rejects =
      λ p s admitted. create_rejects p s (find_id p.id s) (find_key? p.idempotency_key s) refl refl;
  finds_id = λ id s r found. rw found refl;
  finds_key = λ key s r found. rw found refl;
  misses_id = λ id s free. (sentinel err_no_rows, rw free refl, refl);
}
