-- ===== src/Wiring/Concurrent/Moves.antt =====
-- What each part of a submission does to the history: the insert is the point at which it happens.
use mathlib.Core.Path.{subst}
use flowhand.Base.{
  ◌≡◌, refl, sym, ap, ◌⊎◌, inl, inr, ℕ, nat_eq, true, false, ◌==◌, none, some, List, ◌∷◌,
  Option-cases, arith,
}
use flowhand.Failure.{GoError, Result, ok, err, errors_is, err_conflict}
use flowhand.Domain
use flowhand.Domain.{Uuid, Task, Time}
use flowhand.Storage.{Row, Database, IsPostgres, IsReachable, find_id, find_key, find_key?}
use flowhand.Storage.Table.{Step, stay, Step-find_key}
use flowhand.Repository
use flowhand.Repository.{to_row, to_domain}
use flowhand.Repository.Laws.{InsertOutcome, insert_lem}
use flowhand.Service.{SubmitCommand, key_of, settle, store_task}
use flowhand.Wiring.{ports, get_task}
use flowhand.Wiring.Read.{get_task-GetOutcome}
use flowhand.Wiring.Submit.{SubmitOutcome, then_append, keyed_of}
use flowhand.Wiring.Replay.{SubmitOutcome-Step, replay_lem}
use flowhand.Wiring.Total.{
  insert_accepted, insert_rejected, settle_conflict, rejected_keeps, not-Fits, key_of_taken,
}
use flowhand.Wiring.Spec
use flowhand.Wiring.Spec.{Store, Call, answered}
use flowhand.Wiring.Refines.{
  AdmitsAs, get_agrees, Represents, see_task, known_row, known_row-Inserted, new_agrees,
  taken_agrees,
}
use flowhand.Wiring.Concurrent.{
  looked, Phase, idle, starting, inserted, finished, advance, returned,
}
use flowhand.Wiring.Concurrent.Laws.{switch-SubmitOutcome}
use flowhand.Wiring.Concurrent.History.{Looked, History, store_after, call_of, Answered, Fresh}

-- What the history owes a call, by how far it has come.
abbrev pub Owes : History → Store → List Row → ℕ → Phase → Type 0
Owes h a rows i idle = call_of i h ≡ none
Owes h a rows i (starting now cmd minted) = call_of i h ≡ none
Owes h a rows i (inserted cmd t (ok _)) = Answered h a i cmd (see_task (ok t))
Owes h a rows i (inserted cmd t (err e)) =
    (r : Row) × Answered h a i cmd (answered (known_row r))
    × (find_key cmd.idempotency_key rows ≡ some r)
    × ((cmd.idempotency_key == "") ≡ false)
    × (errors_is err_conflict e ≡ true)
Owes h a rows i (finished cmd r) = Answered h a i cmd (see_task r)
Owes h a rows i (looked id v) = Looked h a i id v

module _ {jsonb : Domain.RawMessage → Domain.RawMessage} (a : Store) (h : History)
    {before after : List Row} (step : Step jsonb before after) (i : ℕ) where
  -- The table changes.
  pub Owes-Step : (p : Phase) → Owes h a before i p → Owes h a after i p
  Owes-Step idle o = o
  Owes-Step (starting now cmd minted) o = o
  Owes-Step (inserted cmd t (ok _)) o = o
  Owes-Step (inserted cmd t (err e)) (r, is, found, keyed, clash) =
      (r, is, Step-find_key step cmd.idempotency_key found, keyed, clash)
  Owes-Step (finished cmd r) o = o
  Owes-Step (looked id v) o = o

  -- The history gets another call.
  pub Owes-cons :
      (j : ℕ) (c : Call) (p : Phase)
      → nat_eq i j ≡ false
      → Owes h a before i p
      → Owes ((j, c) ∷ h) a after i p
  Owes-cons j c idle apart o = rw apart o
  Owes-cons j c (starting now cmd minted) apart o = rw apart o
  Owes-cons j c (inserted cmd t (ok _)) apart o = rw apart o
  Owes-cons j c (inserted cmd t (err e)) apart (r, is, found, keyed, clash) =
      rw apart (r, is, Step-find_key step cmd.idempotency_key found, keyed, clash)
  Owes-cons j c (finished cmd r) apart o = rw apart o
  Owes-cons j c (looked id v) apart o = rw apart o

same_number : (i : ℕ) → nat_eq i i ≡ true
same_number i = ground arith

module _ (D : Database) (pg : IsPostgres D) (up : IsReachable D) (a : Store) where
  -- What a part of a call does: nothing that the store sees, or the call itself.
  abbrev pub Moves : History → ℕ → List Row → Phase × D.State → Type 0
  Moves h i before (p, s) =
      Step D.jsonb before (D.rows s)
      × ((Represents (D.rows s) (store_after h a) × Owes h a (D.rows s) i p)
          ⊎ ((c : Call) × (call_of i h ≡ none)
              × Represents (D.rows s) (store_after ((i, c) ∷ h) a)
              × Owes ((i, c) ∷ h) a (D.rows s) i p))

  module _ (h : History) (i : ℕ) (before : List Row) (rep : Represents before (store_after h a))
      (first : call_of i h ≡ none) (now : Time) (cmd : SubmitCommand) (id : Uuid) where
    insert-Moves :
        (out : Result (Unit {0}) × D.State)
        → let t = Domain.submit id cmd.handler cmd.payload now in
          out.0 ≡ ok tt
          → find_key? (key_of cmd) before ≡ none
          → InsertOutcome D.jsonb (to_row t (key_of cmd)) before out.0 (D.rows out.1)
          → Moves h i before (returned D cmd t out)
    insert-Moves (err e, s) done free o = cc done
    insert-Moves (ok u, s) done free (r, fits, ins, grown) =
        let t = Domain.submit id cmd.handler cmd.payload now in
        let o : SubmitOutcome D.jsonb cmd now before (ok t) (D.rows s) =
          inl (r, refl, fits, ins, grown) in
        let (seen, rep') =
          new_agrees cmd id rep r free ins.key
            (known_row-Inserted {jsonb = D.jsonb} cmd now id r ins) in
        (
          SubmitOutcome-Step cmd now (ok t) before (D.rows s) o,
          inr (
            Spec.submit (record { now = now; new_id = ok id }) cmd,
            first,
            rw grown rep',
            rw (same_number i) ((now, ok id, refl), ap some (sym seen)),
          ),
        )

    conflict-Moves :
        (out : Result (Unit {0}) × D.State) (e : GoError) (r : Row)
        → let t = Domain.submit id cmd.handler cmd.payload now in
          out.0 ≡ err e
          → errors_is err_conflict e ≡ true
          → find_key? (key_of cmd) before ≡ some r
          → InsertOutcome D.jsonb (to_row t (key_of cmd)) before out.0 (D.rows out.1)
          → Moves h i before (returned D cmd t out)
    conflict-Moves (ok u, s) e r done clash taken o = cc done
    conflict-Moves (err e', s) e r done clash taken o =
        let t = Domain.submit id cmd.handler cmd.payload now in
        let same : D.rows s ≡ before =
          rejected_keeps D.jsonb (to_row t (key_of cmd)) before (D.rows s) (err e') e o done
            clash in
        let same_error : e' ≡ e = cc done in
        let (keyed, found) = key_of_taken cmd before r taken in
        let (seen, rep') = taken_agrees cmd id rep r taken in
        (
          subst (Step D.jsonb before) (sym same) (stay before),
          inr (
            Spec.submit (record { now = now; new_id = ok id }) cmd,
            first,
            rw same rep',
            rw (same_number i) (
              r,
              ((now, ok id, refl), ap some (sym seen)),
              rw same found,
              keyed,
              rw same_error clash,
            ),
          ),
        )

  starting-Moves :
      (h : History) (i : ℕ) (s : D.State) (now : Time) (cmd : SubmitCommand) (id : Uuid)
      → Represents (D.rows s) (store_after h a)
      → call_of i h ≡ none
      → find_id id (D.rows s) ≡ none
      → AdmitsAs D id cmd
      → let t = Domain.submit id cmd.handler cmd.payload now in
        Moves h i (D.rows s) (returned D cmd t (Repository.insert D t (key_of cmd) s))
  starting-Moves h i s now cmd id rep first fresh admitted =
      let t = Domain.submit id cmd.handler cmd.payload now in
      let out = Repository.insert D t (key_of cmd) s in
      let o = insert_lem D pg t (key_of cmd) s in
      elim (Option-cases (find_key? (key_of cmd) (D.rows s))) [
        | inl free ↦
            insert-Moves h i (D.rows s) rep first now cmd id out
              (insert_accepted D up t (key_of cmd) s admitted (fresh, free)) free o
        | inr (r, taken) ↦
            conflict-Moves h i (D.rows s) rep first now cmd id out _ r
              (insert_rejected D up t (key_of cmd) s admitted (not-Fits D t (key_of cmd) s r taken))
              refl taken o
      ]

  -- The read after a conflict gives the row that the history has seen.
  replay-Moves :
      (h : History) (i : ℕ) (s : D.State) (cmd : SubmitCommand) (t : Task) (e : GoError)
      → Represents (D.rows s) (store_after h a)
      → Owes h a (D.rows s) i (inserted cmd t (err e))
      → let done = settle (ports D) cmd t (err e, s) in
        Moves h i (D.rows s) (finished cmd done.0, done.1)
  replay-Moves h i s cmd t e rep (r, is, found, keyed, clash) =
      let done = settle (ports D) cmd t (err e, s) in
      let replayed : done.0 ≡ ok (to_domain r) =
        settle_conflict D cmd t (err e, s) e r refl clash keyed
          (up.finds_key cmd.idempotency_key s r found) in
      let o =
        subst (λ x. SubmitOutcome D.jsonb cmd t.created_at (D.rows s) x (D.rows done.1)) replayed
          (switch-SubmitOutcome D pg cmd t.created_at t e s) in
      let (_, same) =
        replay_lem cmd t.created_at (to_domain r) (D.rows s) (D.rows done.1) r o (keyed_of keyed)
          found in
      (
        subst (Step D.jsonb (D.rows s)) (sym same) (stay (D.rows s)),
        inl (rw same rep, rw replayed is),
      )

  pub advance-Moves :
      (h : History) (i : ℕ) (p : Phase) (s : D.State)
      → Represents (D.rows s) (store_after h a)
      → Owes h a (D.rows s) i p
      → Fresh D p (D.rows s)
      → Moves h i (D.rows s) (advance D p s)
  unfolding advance store_task
  advance-Moves h i idle s rep o fresh = (stay (D.rows s), inl (rep, o))
  advance-Moves h i (starting now cmd (err e)) s rep o fresh = (
    stay (D.rows s),
    inr (
      Spec.submit (record { now = now; new_id = err e }) cmd,
      o,
      rep,
      rw (same_number i) ((now, err e, refl), refl),
    ),
  )
  advance-Moves h i (starting now cmd (ok id)) s rep o (fresh, admitted) =
      rw
        (then_append
          (Repository.insert D (Domain.submit id cmd.handler cmd.payload now) (key_of cmd) s))
        (starting-Moves h i s now cmd id rep o fresh admitted)
  advance-Moves h i (inserted cmd t (ok _)) s rep o fresh = (stay (D.rows s), inl (rep, o))
  advance-Moves h i (inserted cmd t (err e)) s rep o fresh = replay-Moves h i s cmd t e rep o
  advance-Moves h i (finished cmd r) s rep o fresh = (stay (D.rows s), inl (rep, o))
  advance-Moves h i (looked id v) s rep o fresh = (stay (D.rows s), inl (rep, o))

  -- A read is the call itself.
  pub read-Moves :
      (h : History) (i : ℕ) (id : Uuid) (s : D.State)
      → Represents (D.rows s) (store_after h a)
      → call_of i h ≡ none
      → let (v, s') = get_task D id s in Moves h i (D.rows s) (looked id v, s')
  read-Moves h i id s rep first =
      let (seen, rep') = get_agrees D pg up id s (store_after h a) rep in
      (
        subst (Step D.jsonb (D.rows s)) (sym (get_task-GetOutcome D pg id s).1) (stay (D.rows s)),
        inr (Spec.get id, first, rep', rw (same_number i) (refl, ap some (sym seen))),
      )
