-- ===== src/Wiring/Total.antt =====
-- On a database that can be reached a submission with a fresh id succeeds.
use flowhand.Base.{
  ◌≡◌, refl, ◌∙◌, sym, inl, inr, true, false, String, Option, none, some, List, arith, Option-cases,
  ◌==◌,
}
use flowhand.Failure.{GoError, sentinel, Result, ok, err, errors_is, err_conflict, wrap_id}
use flowhand.Domain
use flowhand.Domain.{Uuid, Task, RawMessage, Time, utc}
use flowhand.Storage.{
  Row, Database, IsPostgres, IsReachable, Fits, find_id, find_key, find_key?, CreateTaskParams,
}
use flowhand.Repository
use flowhand.Repository.{
  to_row, to_domain, map_action, translate, insert_error, is_unique_violation,
}
use flowhand.Service
use flowhand.Service.{SubmitCommand, Injected, key_of, settle, replay, store_task, submit_as}
use flowhand.Repository.Laws.{insert_lem, InsertOutcome}
use flowhand.Wiring.{ports, submit_task}
use flowhand.Wiring.Submit.{then_append}

module _ (D : Database) (up : IsReachable D) (t : Task) (key : Option String) (s : D.State) where
  pub insert_accepted :
      D.Admits (to_row t key)
      → Fits (to_row t key) (D.rows s)
      → (Repository.insert D t key s).0 ≡ ok tt
  unfolding Repository.insert
  insert_accepted admitted fits =
      let (r, done) = up.accepts (to_row t key) s admitted fits in rw done refl

  pub insert_rejected :
      D.Admits (to_row t key)
      → ¬ Fits (to_row t key) (D.rows s)
      → (Repository.insert D t key s).0 ≡ err (wrap_id "insert task" t.id (sentinel err_conflict))
  unfolding Repository.insert insert_error is_unique_violation
  insert_rejected admitted misfit =
      let (e, done, code) = up.rejects (to_row t key) s admitted misfit in rw done (rw code refl)

-- The answer that a submission is owed: the task under its key, or the new one.
abbrev pub answer : Task → Option Row → Task
answer t none = t
answer t (some r) = to_domain r

module _ (D : Database) (cmd : SubmitCommand) (t : Task) where
  settle_ok :
      (out : Result (Unit {0}) × D.State) → out.0 ≡ ok tt → (settle (ports D) cmd t out).0 ≡ ok t
  settle_ok (ok u, s) h = refl
  settle_ok (err e, s) h = cc

  pub settle_conflict :
      (out : Result (Unit {0}) × D.State) (e : GoError) (r : Row)
      → out.0 ≡ err e
      → errors_is err_conflict e ≡ true
      → (cmd.idempotency_key == "") ≡ false
      → (D.get_task_by_idempotency_key (some cmd.idempotency_key) out.1).0 ≡ ok r
      → (settle (ports D) cmd t out).0 ≡ ok (to_domain r)
  unfolding Repository.get_by_idempotency_key replay
  settle_conflict (ok u, s) e r h clash keyed found = cc
  settle_conflict (err e', s) e r h clash keyed found =
      let same : e' ≡ e = cc h in
      let clash' : errors_is err_conflict e' ≡ true = rw same clash in
      rw (clash', settle) (rw (keyed, replay) (rw found refl))

pub rejected_keeps :
    (jsonb : RawMessage → RawMessage) (p : CreateTaskParams) (before after : List Row)
    (out : Result (Unit {0})) (e : GoError)
    → InsertOutcome jsonb p before out after
    → out ≡ err e
    → errors_is err_conflict e ≡ true
    → after ≡ before
rejected_keeps jsonb p before after (ok u) e o h clash = cc
rejected_keeps jsonb p before after (err e') e (inl (_, _, same)) h clash = same
rejected_keeps jsonb p before after (err e') e (inr (other, _, _)) h clash = cc

pub key_of_taken :
    (cmd : SubmitCommand) (rows : List Row) (r : Row)
    → find_key? (key_of cmd) rows ≡ some r
    → ((cmd.idempotency_key == "") ≡ false) × (find_key cmd.idempotency_key rows ≡ some r)
key_of_taken cmd rows r h = ground arith

pub not-Fits :
    (D : Database) (t : Task) (key : Option String) (s : D.State) (r : Row)
    → find_key? key (D.rows s) ≡ some r
    → ¬ Fits (to_row t key) (D.rows s)
not-Fits D t key s r taken (_, free) =
    let clash : ◌≡◌ {A = Option Row} none (some r) = sym free ∙ taken in cc clash

-- A submission with a fresh id and with values that the columns admit, on a database that keeps the
-- promises of Postgres and can be reached, succeeds: with the task that is stored under its key if
-- there is one, and otherwise with the new task.
pub submit_total :
    (D : Database)
    → IsPostgres D
    → IsReachable D
    → (env : Injected) (cmd : SubmitCommand) (s : D.State) (id : Uuid) → env.new_id ≡ ok id
    → find_id id (D.rows s) ≡ none
    → D.Admits (to_row (Domain.submit id cmd.handler cmd.payload (utc env.now)) (key_of cmd))
    → (submit_task D env cmd s).0
      ≡ ok (
          answer
            (Domain.submit id cmd.handler cmd.payload (utc env.now))
            (find_key? (key_of cmd) (D.rows s)))
unfolding Service.submit store_task
submit_total D pg up env cmd s id minted fresh admitted =
    let t = Domain.submit id cmd.handler cmd.payload (utc env.now) in
    rw minted (
      rw (then_append (Repository.insert D t (key_of cmd) s))
        (elim (Option-cases (find_key? (key_of cmd) (D.rows s))) [
          | inl free ↦ rw free (
              settle_ok D cmd t (Repository.insert D t (key_of cmd) s)
                (insert_accepted D up t (key_of cmd) s admitted (fresh, free)))
          | inr (r, taken) ↦ rw taken (
              let (keyed, found) = key_of_taken cmd (D.rows s) r taken in
              let rejected =
                insert_rejected D up t (key_of cmd) s admitted
                  (not-Fits D t (key_of cmd) s r taken) in
              let same =
                rejected_keeps D.jsonb (to_row t (key_of cmd)) (D.rows s)
                  (D.rows (Repository.insert D t (key_of cmd) s).1) _ _
                  (insert_lem D pg t (key_of cmd) s) rejected refl in
              settle_conflict D cmd t (Repository.insert D t (key_of cmd) s) _ r rejected refl keyed
                (up.finds_key cmd.idempotency_key _ r (rw same found)))
        ]))
