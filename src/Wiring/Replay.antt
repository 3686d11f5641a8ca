-- ===== src/Wiring/Replay.antt =====
-- Idempotent submission: what a key was first answered with, it is answered with again, whatever is
-- written to the table in between.
use mathlib.Core.Path.{subst}
use flowhand.Base.{◌≡◌, ◌∙◌, sym, ap, inl, inr, Option, none, some, List, ◌≢◌, eq_of_ne}
use flowhand.Failure.{Result, ok, err}
use flowhand.Domain.{Task, RawMessage, Time, utc}
use flowhand.Storage.{Row, Database, IsPostgres, find_key, find_key?}
use flowhand.Storage.Table.{
  Step, stay, grow, Reach, Reach-find_key, find_key_self, KeysUnique, Step-KeysUnique,
}
use flowhand.Repository.{to_row, to_domain}
use flowhand.Service.{SubmitCommand, Injected, key_of}
use flowhand.Wiring.{submit_task}
use flowhand.Wiring.Submit.{SubmitOutcome, submit-SubmitOutcome}

-- A row as the answer to a submission.
pub record Answers (r : Row) (t : Task) : Type 0 where
  pub id : r.id ≡ t.id
  pub status : r.status ≡ t.status
  pub handler : r.handler ≡ t.handler

pub Answers-to_domain : (r : Row) (t : Task) → to_domain r ≡ t → Answers r t
Answers-to_domain r t same = record {
  id = ap (λ u. u.id) same;
  status = ap (λ u. u.status) same;
  handler = ap (λ u. u.handler) same;
}

pub key_of_keyed :
    (cmd : SubmitCommand) → cmd.idempotency_key ≢ "" → key_of cmd ≡ some cmd.idempotency_key
key_of_keyed cmd keyed = rw (eq_of_ne cmd.idempotency_key "" keyed)

module _ {jsonb : RawMessage → RawMessage} (cmd : SubmitCommand) (now : Time) where
  -- After a success the table holds, under the command's key, a row that answers with the task.
  pub ok-Answers :
      (t : Task) (before after : List Row)
      → SubmitOutcome jsonb cmd now before (ok t) after
      → cmd.idempotency_key ≢ ""
      → (r : Row) × (find_key cmd.idempotency_key after ≡ some r) × Answers r t
  ok-Answers t before after (inl (r, fresh, fits, i, grown)) keyed =
      let key : r.idempotency_key ≡ some cmd.idempotency_key = i.key ∙ key_of_keyed cmd keyed in
      (
        r,
        rw grown (find_key_self cmd.idempotency_key r before key),
        record {
          id = i.id;
          status = i.status ∙ sym (ap (λ u. u.status) fresh);
          handler = i.handler;
        },
      )
  ok-Answers t before after (inr (r, keyed', found, same, unchanged)) keyed =
      (r, rw unchanged found, Answers-to_domain r t (sym same))

  -- Where a row has the command's key, a success is that row's task, and adds nothing.
  pub replay_lem :
      (t : Task) (before after : List Row) (r : Row)
      → SubmitOutcome jsonb cmd now before (ok t) after
      → cmd.idempotency_key ≢ ""
      → find_key cmd.idempotency_key before ≡ some r
      → (t ≡ to_domain r) × (after ≡ before)
  replay_lem t before after r (inl (r', fresh, fits, i, grown)) keyed found =
      let free : find_key cmd.idempotency_key before ≡ none =
        subst (λ k. find_key? k before ≡ none) (key_of_keyed cmd keyed) fits.1 in
      let clash : ◌≡◌ {A = Option Row} none (some r) = sym free ∙ found in cc clash
  replay_lem t before after r (inr (r', keyed', found', same, unchanged)) keyed found =
      let e : some r' ≡ some r = sym found' ∙ found in
      let e' : r' ≡ r = cc e in (same ∙ ap to_domain e', unchanged)

pub SubmitOutcome-Step :
    {jsonb : RawMessage → RawMessage} (cmd : SubmitCommand) (now : Time) (out : Result Task)
    (before after : List Row)
    → SubmitOutcome jsonb cmd now before out after
    → Step jsonb before after
SubmitOutcome-Step cmd now (ok u) before after (inl (r, fresh, fits, i, grown)) =
    subst (Step _ before) (sym grown) (grow (to_row u (key_of cmd)) r before fits i)
SubmitOutcome-Step cmd now (ok u) before after (inr (r, keyed, found, same, unchanged)) =
    subst (Step _ before) (sym unchanged) (stay before)
SubmitOutcome-Step cmd now (err e) before after (inl same, _) =
    subst (Step _ before) (sym same) (stay before)
SubmitOutcome-Step cmd now (err e) before after (inr (u, r, fresh, fits, i, grown), _) =
    subst (Step _ before) (sym grown) (grow (to_row u (key_of cmd)) r before fits i)

-- Over a database that keeps the promises of Postgres, a key is answered with one task for ever:
-- after a successful submission under a key that is not empty, and whatever has been inserted into
-- the table since, a further successful submission under the same key (its handler and payload may
-- differ) answers with the same id, handler and status, and inserts nothing.
pub submit_twice :
    (D : Database)
    → IsPostgres D
    → (env env' : Injected) (cmd cmd' : SubmitCommand) (s s' : D.State) (t t' : Task)
    → cmd.idempotency_key ≢ ""
    → cmd'.idempotency_key ≡ cmd.idempotency_key
    → (submit_task D env cmd s).0 ≡ ok t
    → Reach D.jsonb (D.rows (submit_task D env cmd s).1) (D.rows s')
    → (submit_task D env' cmd' s').0 ≡ ok t'
    → (t'.id ≡ t.id)
      × (t'.handler ≡ t.handler)
      × (t'.status ≡ t.status)
      × (D.rows (submit_task D env' cmd' s').1 ≡ D.rows s')
submit_twice D pg env env' cmd cmd' s s' t t' keyed same first later second =
    let one =
      subst
        (λ r.
          SubmitOutcome D.jsonb cmd (utc env.now) (D.rows s) r (D.rows (submit_task D env cmd s).1))
        first (submit-SubmitOutcome D pg env cmd s) in
    let two =
      subst
        (λ r.
          SubmitOutcome D.jsonb cmd' (utc env'.now) (D.rows s') r
            (D.rows (submit_task D env' cmd' s').1))
        second (submit-SubmitOutcome D pg env' cmd' s') in
    let (r, found, answers) = ok-Answers cmd (utc env.now) t _ _ one keyed in
    let found' = Reach-find_key later cmd.idempotency_key found in
    let (answer, unchanged) =
      replay_lem cmd' (utc env'.now) t' _ _ r two (λ e. keyed (sym same ∙ e)) (rw same found') in
    (
      ap (λ u. u.id) answer ∙ answers.id,
      ap (λ u. u.handler) answer ∙ answers.handler,
      ap (λ u. u.status) answer ∙ answers.status,
      unchanged,
    )

-- A submission is one step of the table, on every branch.
pub submit-Step :
    (D : Database)
    → IsPostgres D
    → (env : Injected) (cmd : SubmitCommand) (s : D.State)
    → Step D.jsonb (D.rows s) (D.rows (submit_task D env cmd s).1)
submit-Step D pg env cmd s =
    SubmitOutcome-Step cmd (utc env.now) _ _ _ (submit-SubmitOutcome D pg env cmd s)

-- Over a database that keeps the promises of Postgres, if no two rows share an id or an
-- idempotency key before a submission, none do after it, however it ends.
pub submit-KeysUnique :
    (D : Database)
    → IsPostgres D
    → (env : Injected) (cmd : SubmitCommand) (s : D.State) → KeysUnique (D.rows s)
    → KeysUnique (D.rows (submit_task D env cmd s).1)
submit-KeysUnique D pg env cmd s = Step-KeysUnique (submit-Step D pg env cmd s)
