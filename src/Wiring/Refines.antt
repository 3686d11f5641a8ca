-- ===== src/Wiring/Refines.antt =====
-- The wired service, over a database that can be reached, against `Spec`.
use mathlib.Core.Path.{subst}
use flowhand.Base.{
  ◌≡◌, refl, ◌∙◌, sym, ap, inl, inr, Option, none, some, String, List, [], ◌∷◌, All, nat_eq, ◌==◌,
  Bool-cases, if◌then◌else◌,
}
use flowhand.Failure.{Result, ok, err, errors_is, err_not_found}
use flowhand.Domain
use flowhand.Domain.{Uuid, Task, RawMessage, utc}
use flowhand.Storage.{
  Row, Database, IsPostgres, IsReachable, Inserted, find_id, find_key, find_key?,
}
use flowhand.Repository.{to_row, to_domain}
use flowhand.Service.{SubmitCommand, Injected, TaskView, key_of}
use flowhand.Wiring.{submit_task, get_task}
use flowhand.Wiring.Spec
use flowhand.Wiring.Spec.{
  Known, Store, Call, Seen, answered, missing, failed, AllFresh, FreshIn, pending,
}
use flowhand.Wiring.Submit.{SubmitOutcome, submit-SubmitOutcome}
use flowhand.Wiring.Total.{submit_total, answer, key_of_taken}
use flowhand.Wiring.Replay.{key_of_keyed}
use flowhand.Wiring.Read.{get_task-GetOutcome}
use flowhand.Repository
use flowhand.Repository.{translate}
use flowhand.Service

-- What a caller of the service sees, but for the payload and the time of creation. The time of a new task
-- is that of the service's clock, and of a stored one that of the database.
abbrev pub see_task : Result Task → Seen
see_task (ok t) = answered (record { id = t.id; handler = t.handler; status = t.status })
see_task (err e) = failed

abbrev pub see_view : Result TaskView → Seen
see_view (ok v) = answered (record { id = v.id; handler = v.handler; status = v.status })
see_view (err e) = if errors_is err_not_found e then missing else failed

module _ (D : Database) where
  abbrev pub serve : Call → D.State → Seen × D.State
  serve (Spec.submit env cmd) s = let (r, s') = submit_task D env cmd s in (see_task r, s')
  serve (Spec.get id) s = let (r, s') = get_task D id s in (see_view r, s')

  abbrev pub serve_all : List Call → D.State → List Seen × D.State
  serve_all [] s = ([], s)
  serve_all (c ∷ calls) s =
      let (seen, s') = serve c s in let (rest, last) = serve_all calls s' in (seen ∷ rest, last)

-- The columns admit a submission's values.
abbrev pub AdmitsAs : (D : Database) → Uuid → SubmitCommand → Type 0
AdmitsAs D id cmd =
    D.Admits (record {
      id = id;
      idempotency_key = key_of cmd;
      payload = cmd.payload;
      handler = cmd.handler;
    })

abbrev pub Admitted : (D : Database) → Call → Type 0
Admitted D (Spec.submit env cmd) = (id : Uuid) → env.new_id ≡ ok id → AdmitsAs D id cmd
Admitted D (Spec.get id) = Unit

-- A row as the store knows it.
abbrev pub known_row : Row → Known
known_row r = record { id = r.id; handler = r.handler; status = r.status }

abbrev pub known : Option Row → Option Known
known none = none
known (some r) = some (known_row r)

-- The table holds what the store knows.
pub record Represents (rows : List Row) (a : Store) : Type 0 where
  pub ids : (id : Uuid) → a.by_id id ≡ known (find_id id rows)
  pub keys : (key : String) → a.by_key key ≡ known (find_key key rows)

pub known-none : (o : Option Row) → known o ≡ none → o ≡ none
known-none none h = refl
known-none (some r) h = cc h

-- A table and a store that take in the same task.
module _ {rows : List Row} {a : Store} (rep : Represents rows a) (r : Row) where
  add_id :
      (id : Uuid)
      → (if nat_eq r.id id then some (known_row r) else a.by_id id) ≡ known (find_id id (r ∷ rows))
  unfolding find_id
  add_id id = elim (Bool-cases (nat_eq r.id id)) [ inl e ↦ rw e refl | inr n ↦ rw n (rep.ids id) ]

  add_key :
      (key q : String)
      → r.idempotency_key ≡ some key
      → (if key == q then some (known_row r) else a.by_key q) ≡ known (find_key q (r ∷ rows))
  unfolding find_key
  add_key key q e = elim (Bool-cases (key == q)) [
    | inl same ↦ rw e (rw same refl)
    | inr other ↦ rw e (rw other (rep.keys q))
  ]

  keep_key : (q : String) → r.idempotency_key ≡ none → a.by_key q ≡ known (find_key q (r ∷ rows))
  unfolding find_key
  keep_key q e = rw e (rep.keys q)

  add-Represents : r.idempotency_key ≡ none → Represents (r ∷ rows) (Spec.add (known_row r) a)
  add-Represents e = record { ids = add_id; keys = λ q. keep_key q e }

  add_keyed-Represents :
      (key : String)
      → r.idempotency_key ≡ some key
      → Represents (r ∷ rows) (Spec.add_keyed key (known_row r) a)
  add_keyed-Represents key e = record { ids = add_id; keys = λ q. add_key key q e }

pub known_row-Inserted :
    {jsonb : RawMessage → RawMessage} (cmd : SubmitCommand) (now : Domain.Time) (id : Uuid)
    (r : Row)
    → Inserted jsonb (to_row (Domain.submit id cmd.handler cmd.payload now) (key_of cmd)) r
    → known_row r ≡ pending id cmd
known_row-Inserted cmd now id r i = rw i.id (rw i.handler (rw i.status refl))

module _ (cmd : SubmitCommand) (id : Uuid) {before : List Row} {a : Store}
    (rep : Represents before a) where
  abbrev pub Specified : Known → List Row → Type 0
  Specified k after =
      let (seen, b) = Spec.submit_known (pending id cmd) cmd.idempotency_key a in
      (answered k ≡ seen) × Represents after b

  -- The key was free, or there is none.
  pub new_agrees :
      (r : Row)
      → find_key? (key_of cmd) before ≡ none
      → r.idempotency_key ≡ key_of cmd
      → known_row r ≡ pending id cmd
      → Specified (pending id cmd) (r ∷ before)
  new_agrees r free key same = elim (Bool-cases (cmd.idempotency_key == "")) [
    | inl keyless ↦
        let no_key : r.idempotency_key ≡ none = key ∙ rw keyless refl in
        rw keyless (
          refl,
          subst (λ k. Represents (r ∷ before) (Spec.add k a)) same (add-Represents rep r no_key),
        )
    | inr keyed ↦
        let its_key : r.idempotency_key ≡ some cmd.idempotency_key = key ∙ rw keyed refl in
        let free' : find_key? (some cmd.idempotency_key) before ≡ none = rw keyed at free in
        let unclaimed : a.by_key cmd.idempotency_key ≡ none =
          rep.keys cmd.idempotency_key ∙ ap known free' in
        rw (keyed, unclaimed)
          (
            refl,
            subst (λ k. Represents (r ∷ before) (Spec.add_keyed cmd.idempotency_key k a)) same
                (add_keyed-Represents rep r cmd.idempotency_key its_key),
          )
  ]

  -- The key was taken by a row.
  pub taken_agrees :
      (r : Row) → find_key? (key_of cmd) before ≡ some r → Specified (known_row r) before
  taken_agrees r taken =
      let (keyed, found) = key_of_taken cmd before r taken in
      let claimed : a.by_key cmd.idempotency_key ≡ some (known_row r) =
        rep.keys cmd.idempotency_key ∙ ap known found in
      rw (keyed, claimed) (refl, rep)

  none_not_some : {r : Row} (o : Option Row) → o ≡ none → o ≡ some r → ⊥
  none_not_some {r} o h k = let clash : ◌≡◌ {A = Option Row} none (some r) = sym h ∙ k in cc clash

  settled_agrees :
      {jsonb : RawMessage → RawMessage} (now : Domain.Time) (after : List Row) (o : Option Row)
      → find_key? (key_of cmd) before ≡ o
      → let t = answer (Domain.submit id cmd.handler cmd.payload now) o in
        SubmitOutcome jsonb cmd now before (ok t) after
        → Specified (record { id = t.id; handler = t.handler; status = t.status }) after
  settled_agrees now after none free (inl (r, fresh, fits, i, grown)) =
      rw grown (new_agrees r free i.key (known_row-Inserted cmd now id r i))
  settled_agrees now after none free (inr (r, keyed, found, same, unchanged)) =
      elim (none_not_some {r = r} (find_key? (key_of cmd) before) free
        (rw (key_of_keyed cmd keyed) found)) [ ]
  settled_agrees now after (some r) taken (inl (r', fresh, fits, i, grown)) =
      elim (none_not_some _ fits.1 taken) [ ]
  settled_agrees now after (some r) taken (inr (r', keyed, found, same, unchanged)) =
      rw unchanged (taken_agrees r taken)

module _ (D : Database) (pg : IsPostgres D) (up : IsReachable D) where
  submit_agrees :
      (env : Injected) (cmd : SubmitCommand) (s : D.State) (a : Store) (minted : Result Uuid)
      → env.new_id ≡ minted
      → ((id : Uuid) → minted ≡ ok id → a.by_id id ≡ none)
      → ((id : Uuid) → minted ≡ ok id → AdmitsAs D id cmd)
      → Represents (D.rows s) a
      → let (r, s') = submit_task D env cmd s in
        let (seen, b) = Spec.submit_as minted cmd a in
        (see_task r ≡ seen) × Represents (D.rows s') b
  unfolding Service.submit
  submit_agrees env cmd s a (err e) minted fresh admitted rep = rw minted (refl, rep)
  submit_agrees env cmd s a (ok id) minted fresh admitted rep =
      let free = known-none (find_id id (D.rows s)) (sym (rep.ids id) ∙ fresh id refl) in
      let total = submit_total D pg up env cmd s id minted free (admitted id refl) in
      let outcome =
        subst
          (λ r.
            SubmitOutcome D.jsonb cmd (utc env.now) (D.rows s) r
              (D.rows (submit_task D env cmd s).1))
          total (submit-SubmitOutcome D pg env cmd s) in
      let (seen, represents) = settled_agrees cmd id rep (utc env.now) _ _ refl outcome in
      (ap see_task total ∙ seen, represents)

  -- What a read gives of the row that the id selects.
  read_seen :
      (id : Uuid) (s : D.State) (o : Option Row)
      → find_id id (D.rows s) ≡ o
      → see_view (get_task D id s).0 ≡ Spec.found (known o)
  unfolding Service.get Repository.get translate
  read_seen id s (some r) e = rw (up.finds_id id s r e) refl
  read_seen id s none e = let (f, missed, gone) = up.misses_id id s e in rw missed (rw gone refl)

  pub get_agrees :
      (id : Uuid) (s : D.State) (a : Store)
      → Represents (D.rows s) a
      → let (r, s') = get_task D id s in
        (see_view r ≡ Spec.found (a.by_id id)) × Represents (D.rows s') a
  get_agrees id s a rep = (
    read_seen id s (find_id id (D.rows s)) refl ∙ ap Spec.found (sym (rep.ids id)),
    subst (λ rows. Represents rows a) (sym (get_task-GetOutcome D pg id s).1) rep,
  )

  pub call_agrees :
      (c : Call) (s : D.State) (a : Store)
      → FreshIn c a
      → Admitted D c
      → Represents (D.rows s) a
      → ((serve D c s).0 ≡ (Spec.step c a).0)
        × Represents (D.rows (serve D c s).1) (Spec.step c a).1
  call_agrees (Spec.submit env cmd) s a fresh admitted rep =
      submit_agrees env cmd s a env.new_id refl fresh admitted rep
  call_agrees (Spec.get id) s a fresh admitted rep = get_agrees id s a rep

-- Over a database that keeps the promises of Postgres and can be reached, whose table holds what an
-- abstract store knows, any sequence of submissions and reads, with ids that are not in use and values
-- that the columns admit, is answered as the store answers it, as to the id, the handler and the status
-- of a task and whether there is one (payloads and times of creation are not compared), and the table
-- holds what the store knows after it: of the rows and the errors a caller sees only a store that finds
-- a task by its id, and by the key under which it was first submitted.
pub serve_all-run :
    (D : Database)
    → IsPostgres D
    → IsReachable D
    → (calls : List Call) (s : D.State) (a : Store) → AllFresh calls a
    → All (Admitted D) calls
    → Represents (D.rows s) a
    → ((serve_all D calls s).0 ≡ (Spec.run calls a).0)
      × Represents (D.rows (serve_all D calls s).1) (Spec.run calls a).1
serve_all-run D pg up [] s a fresh admitted rep = (refl, rep)
serve_all-run D pg up (c ∷ calls) s a (fresh, later) (admitted, others) rep =
    let (seen, rep') = call_agrees D pg up c s a fresh admitted rep in
    let (rest, last) =
      serve_all-run D pg up calls (serve D c s).1 (Spec.step c a).1 later others rep' in
    (rw (seen, rest) refl, last)
