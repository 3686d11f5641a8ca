-- ===== src/Wiring/Concurrent/Laws.antt =====
-- What is kept under every interleaving: the keys of the table stay unique, and every call that has
-- succeeded has its task in the table.
use mathlib.Core.Path.{subst}
use flowhand.Base.{
  ◌≡◌, refl, ◌∙◌, sym, ap, inl, inr, ℕ, nat_eq, Option, some, List, ◌≢◌, String, Bool-cases,
}
use flowhand.Failure.{GoError, Result, ok, err, errors_is, err_conflict}
use flowhand.Domain
use flowhand.Domain.{Uuid, Task, Time, RawMessage}
use flowhand.Storage.{Row, Database, IsPostgres, find_id, find_key}
use flowhand.Storage.Table.{Step, stay, Step-find_key, Step-find_id, Step-KeysUnique, KeysUnique}
use flowhand.Repository
use flowhand.Repository.{to_row}
use flowhand.Repository.Laws.{InsertOutcome, insert_lem, Unless-Step}
use flowhand.Service.{SubmitCommand, key_of, settle, store_task}
use flowhand.Wiring.{ports}
use flowhand.Wiring.Submit.{SubmitOutcome, then_append, replay_outcome}
use flowhand.Wiring.Replay.{Answers, ok-Answers, SubmitOutcome-Step}
use flowhand.Wiring.Read.{ok-stored, get_task-GetOutcome}
use flowhand.Wiring.Concurrent.{
  Phase, idle, starting, inserted, finished, advance, returned, System, set_call, Move, begins,
  looked, runs, reads, elsewhere, Reaches, start, later,
}

-- The task of a call is found by its id, and by the command's key if there is one.
pub record Stored (cmd : SubmitCommand) (t : Task) (rows : List Row) : Type 0 where
  pub by_key :
      cmd.idempotency_key ≢ ""
      → (r : Row) × (find_key cmd.idempotency_key rows ≡ some r) × Answers r t
  pub by_id : (r : Row) × (find_id t.id rows ≡ some r) × Answers r t

abbrev pub Kept : Phase → List Row → Type 0
Kept idle rows = Unit
Kept (starting now cmd minted) rows = Unit
Kept (inserted cmd t (ok _)) rows = Stored cmd t rows
Kept (inserted cmd t (err e)) rows = Unit
Kept (finished cmd (ok t)) rows = Stored cmd t rows
Kept (finished cmd (err e)) rows = Unit
Kept (looked id v) rows = Unit

Stored-Step :
    {jsonb : RawMessage → RawMessage} {a b : List Row} (cmd : SubmitCommand) (t : Task)
    → Step jsonb a b
    → Stored cmd t a
    → Stored cmd t b
Stored-Step cmd t step h =
    let (r, found, answers) = h.by_id in
    record {
      by_key = λ keyed.
          let (k, found', answers') = h.by_key keyed in
          (k, Step-find_key step cmd.idempotency_key found', answers');
      by_id = (r, Step-find_id step t.id found, answers);
    }

Kept-Step :
    {jsonb : RawMessage → RawMessage} {a b : List Row} (p : Phase)
    → Step jsonb a b
    → Kept p a
    → Kept p b
Kept-Step idle step h = tt
Kept-Step (starting now cmd minted) step h = tt
Kept-Step (inserted cmd t (ok _)) step h = Stored-Step cmd t step h
Kept-Step (inserted cmd t (err e)) step h = tt
Kept-Step (finished cmd (ok t)) step h = Stored-Step cmd t step h
Kept-Step (finished cmd (err e)) step h = tt
Kept-Step (looked id v) step h = tt

-- What a submission promises is more than what is kept of it.
SubmitOutcome-Stored :
    {jsonb : RawMessage → RawMessage} (cmd : SubmitCommand) (now : Time) (t : Task)
    (before after : List Row)
    → KeysUnique before
    → SubmitOutcome jsonb cmd now before (ok t) after
    → Stored cmd t after
SubmitOutcome-Stored cmd now t before after u o = record {
  by_key = λ keyed. ok-Answers cmd now t before after o keyed;
  by_id = ok-stored cmd now t before after u o;
}

finished-Kept :
    (jsonb : RawMessage → RawMessage) (cmd : SubmitCommand) (now : Time) (r : Result Task)
    (before after : List Row)
    → KeysUnique before
    → SubmitOutcome jsonb cmd now before r after
    → Kept (finished cmd r) after
finished-Kept jsonb cmd now (ok t) before after u o =
    SubmitOutcome-Stored cmd now t before after u o
finished-Kept jsonb cmd now (err e) before after u o = tt

module _ (D : Database) (pg : IsPostgres D) where
  -- The part up to the return of the transaction.
  returned-Kept :
      (cmd : SubmitCommand) (now : Time) (id : Uuid) (before : List Row)
      (out : Result (Unit {0}) × D.State)
      → let t = Domain.submit id cmd.handler cmd.payload now in
        KeysUnique before
        → InsertOutcome D.jsonb (to_row t (key_of cmd)) before out.0 (D.rows out.1)
        → let (p, s) = returned D cmd t out in Step D.jsonb before (D.rows s) × Kept p (D.rows s)
  returned-Kept cmd now id before (ok _, s) u (r, fits, i, grown) =
      let t = Domain.submit id cmd.handler cmd.payload now in
      let o : SubmitOutcome D.jsonb cmd now before (ok t) (D.rows s) =
        inl (r, refl, fits, i, grown) in
      (
        SubmitOutcome-Step cmd now (ok t) before (D.rows s) o,
        SubmitOutcome-Stored cmd now t before (D.rows s) u o,
      )
  returned-Kept cmd now id before (err e, s) u (inl (clash, misfit, same)) =
      (subst (Step D.jsonb before) (sym same) (stay before), tt)
  returned-Kept cmd now id before (err e, s) u (inr (other, lost, answered)) = (
    Unless-Step (to_row (Domain.submit id cmd.handler cmd.payload now) (key_of cmd)) before
        (D.rows s) lost,
    tt,
  )

  -- The switch, in whatever state the table is by then.
  pub switch-SubmitOutcome :
      (cmd : SubmitCommand) (now : Time) (t : Task) (e : GoError) (s : D.State)
      → let done = settle (ports D) cmd t (err e, s) in
        SubmitOutcome D.jsonb cmd now (D.rows s) done.0 (D.rows done.1)
  switch-SubmitOutcome cmd now t e s = elim (Bool-cases (errors_is err_conflict e)) [
    | inl clash ↦ rw (clash, settle) (replay_outcome D pg cmd now (D.rows s) e s refl)
    | inr other ↦ rw (other, settle) (inl refl, λ _. refl)
  ]

  advance-Kept :
      (p : Phase) (s : D.State)
      → KeysUnique (D.rows s)
      → Kept p (D.rows s)
      → let (p', s') = advance D p s in Step D.jsonb (D.rows s) (D.rows s') × Kept p' (D.rows s')
  unfolding advance store_task
  advance-Kept idle s u h = (stay (D.rows s), tt)
  advance-Kept (starting now cmd (err e)) s u h = (stay (D.rows s), tt)
  advance-Kept (starting now cmd (ok id)) s u h =
      let t = Domain.submit id cmd.handler cmd.payload now in
      rw (then_append (Repository.insert D t (key_of cmd) s)) (
        returned-Kept cmd now id (D.rows s) (Repository.insert D t (key_of cmd) s) u
          (insert_lem D pg t (key_of cmd) s))
  advance-Kept (inserted cmd t (ok _)) s u h = (stay (D.rows s), h)
  advance-Kept (inserted cmd t (err e)) s u h =
      let o = switch-SubmitOutcome cmd t.created_at t e s in
      (
        SubmitOutcome-Step cmd t.created_at _ _ _ o,
        finished-Kept D.jsonb cmd t.created_at _ _ _ u o,
      )
  advance-Kept (finished cmd (ok t)) s u h = (stay (D.rows s), h)
  advance-Kept (finished cmd (err e)) s u h = (stay (D.rows s), tt)
  advance-Kept (looked id v) s u h = (stay (D.rows s), tt)

  pub record AllKept (x : System D) : Type 0 where
    pub unique : KeysUnique (D.rows x.state)
    pub calls : (j : ℕ) → Kept (x.calls j) (D.rows x.state)

  set_call-Kept :
      (i j : ℕ) (p : Phase) (calls : ℕ → Phase) (rows : List Row)
      → Kept p rows
      → Kept (calls j) rows
      → Kept (set_call D i p calls j) rows
  set_call-Kept i j p calls rows h k = elim (Bool-cases (nat_eq j i)) [
    | inl same ↦ rw same h
    | inr other ↦ rw other k
  ]

  Move-AllKept : {who : Option ℕ} {x y : System D} → Move D who x y → AllKept x → AllKept y
  Move-AllKept (begins i now cmd minted x e) h = record {
    unique = h.unique;
    calls =
        λ j. set_call-Kept i j (starting now cmd minted) x.calls (D.rows x.state) tt (h.calls j);
  }
  Move-AllKept (runs i x) h =
      let (step, kept) = advance-Kept (x.calls i) x.state h.unique (h.calls i) in
      record {
        unique = Step-KeysUnique step h.unique;
        calls = λ j. set_call-Kept i j _ x.calls _ kept (Kept-Step (x.calls j) step (h.calls j));
      }
  Move-AllKept (reads i id x e) h =
      let same = (get_task-GetOutcome D pg id x.state).1 in
      record {
        unique = rw same h.unique;
        calls =
            λ j. rw same (set_call-Kept i j (looked id _) x.calls (D.rows x.state) tt (h.calls j));
      }
  Move-AllKept (elsewhere x s step) h = record {
    unique = Step-KeysUnique step h.unique;
    calls = λ j. Kept-Step (x.calls j) step (h.calls j);
  }

  pub Reaches-AllKept : {x y : System D} → Reaches D x y → AllKept x → AllKept y
  Reaches-AllKept start h = h
  Reaches-AllKept (later before move) h = Move-AllKept move (Reaches-AllKept before h)

  Idle-AllKept :
      (x : System D) → KeysUnique (D.rows x.state) → ((j : ℕ) → x.calls j ≡ idle) → AllKept x
  Idle-AllKept x u h = record { unique = u; calls = λ j. rw (h j) tt }

  finished-Stored :
      {x : System D}
      → AllKept x
      → (i : ℕ) (cmd : SubmitCommand) (t : Task) → x.calls i ≡ finished cmd (ok t)
      → Stored cmd t (D.rows x.state)
  finished-Stored {x} h i cmd t e = subst (λ p. Kept p (D.rows x.state)) e (h.calls i)

same_answer :
    (t t' : Task) (r r' : Row) (rows : List Row) (key : String)
    → find_key key rows ≡ some r
    → find_key key rows ≡ some r'
    → Answers r t
    → Answers r' t'
    → (t'.id ≡ t.id) × (t'.handler ≡ t.handler) × (t'.status ≡ t.status)
same_answer t t' r r' rows key found found' a a' =
    let both : some r ≡ some r' = sym found ∙ found' in
    let same : r ≡ r' = cc both in
    (
      sym a'.id ∙ ap (λ x. x.id) (sym same) ∙ a.id,
      sym a'.handler ∙ ap (λ x. x.handler) (sym same) ∙ a.handler,
      sym a'.status ∙ ap (λ x. x.status) (sym same) ∙ a.status,
    )

-- Over a database that keeps the promises of Postgres, with a table of unique keys: however any number
-- of calls of `Submit` are interleaved, with each other, with reads and with inserts by others, all
-- calls under one key that is not empty and that succeed return the same id, handler and status, the
-- row of which is in the table, and the table's keys are still unique.
pub submit_concurrently :
    (D : Database)
    → IsPostgres D
    → (x y : System D) → KeysUnique (D.rows x.state)
    → ((j : ℕ) → x.calls j ≡ idle)
    → Reaches D x y
    → (i j : ℕ) (cmd cmd' : SubmitCommand) (t t' : Task) → cmd.idempotency_key ≢ ""
    → cmd'.idempotency_key ≡ cmd.idempotency_key
    → y.calls i ≡ finished cmd (ok t)
    → y.calls j ≡ finished cmd' (ok t')
    → (t'.id ≡ t.id)
      × (t'.handler ≡ t.handler)
      × (t'.status ≡ t.status)
      × Stored cmd t (D.rows y.state)
      × KeysUnique (D.rows y.state)
submit_concurrently D pg x y u quiet run i j cmd cmd' t t' keyed same one two =
    let kept = Reaches-AllKept D pg run (Idle-AllKept D pg x u quiet) in
    let stored = finished-Stored D pg kept i cmd t one in
    let stored' = finished-Stored D pg kept j cmd' t' two in
    let (r, found, answers) = stored.by_key keyed in
    let (r', found', answers') = stored'.by_key (λ e. keyed (sym same ∙ e)) in
    let (id, handler, status) =
      same_answer t t' r r' (D.rows y.state) cmd.idempotency_key found
        (subst (λ k. find_key k (D.rows y.state) ≡ some r') same found') answers answers' in
    (id, handler, status, stored, kept.unique)
