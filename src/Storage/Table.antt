-- ===== src/Storage/Table.antt =====
-- How the table `tasks` may change over time, whoever writes to it, and what never changes: the
-- primary key and the partial unique index of migrations/00001.
use mathlib.Core.Path.{subst}
use flowhand.Base.{
  ◌≡◌, ◌⊎◌, inl, inr, String, Option, none, some, List, [], ◌∷◌, arith, eq_iff, Bool-cases,
}
use flowhand.Domain.{Uuid, RawMessage}
use flowhand.Storage.{Row, CreateTaskParams, find_id, find_key, find_key?, key_is, Fits, Inserted}

-- One insert, or nothing.
pub data Step (jsonb : RawMessage → RawMessage) : List Row → List Row → Type 0 where
  stay : (rows : List Row) → Step jsonb rows rows
  grow :
      (p : CreateTaskParams) (r : Row) (rows : List Row)
      → Fits p rows
      → Inserted jsonb p r
      → Step jsonb rows (r ∷ rows)

pub data Reach (jsonb : RawMessage → RawMessage) (first : List Row) : List Row → Type 0 where
  here : Reach jsonb first first
  next :
      {rows last : List Row}
      → Reach jsonb first rows
      → Step jsonb rows last
      → Reach jsonb first last

-- No two rows share an id, nor a key that is not NULL.
abbrev pub KeysUnique : List Row → Type 0
KeysUnique [] = Unit
KeysUnique (r ∷ rows) =
    (find_id r.id rows ≡ none) × (find_key? r.idempotency_key rows ≡ none) × KeysUnique rows

find_key-grow :
    (k : Option String) (key : String) (r : Row) (rows : List Row) {old : Row}
    → find_key? k rows ≡ none
    → r.idempotency_key ≡ k
    → find_key key rows ≡ some old
    → find_key key (r ∷ rows) ≡ some old
unfolding find_key
find_key-grow none key r rows free e found = ground arith
find_key-grow (some k) key r rows free e found = ground (arith, eq_iff k key)

find_id-grow :
    (id : Uuid) (r : Row) (rows : List Row) {old : Row}
    → find_id r.id rows ≡ none
    → find_id id rows ≡ some old
    → find_id id (r ∷ rows) ≡ some old
unfolding find_id
find_id-grow id r rows free found = ground arith

module _ {jsonb : RawMessage → RawMessage} where
  pub Step-KeysUnique : {a b : List Row} → Step jsonb a b → KeysUnique a → KeysUnique b
  Step-KeysUnique (stay rows) u = u
  Step-KeysUnique (grow p r rows (free_id, free_key) i) u =
      let id : find_id r.id rows ≡ none = rw i.id free_id in
      let key : find_key? r.idempotency_key rows ≡ none = rw i.key free_key in (id, key, u)

  pub Reach-KeysUnique : {a b : List Row} → Reach jsonb a b → KeysUnique a → KeysUnique b
  Reach-KeysUnique here u = u
  Reach-KeysUnique (next before step) u = Step-KeysUnique step (Reach-KeysUnique before u)

  pub Reach-trans : {a b c : List Row} → Reach jsonb a b → Reach jsonb b c → Reach jsonb a c
  Reach-trans first here = first
  Reach-trans first (next later step) = next (Reach-trans first later) step

  pub Step-find_key :
      {a b : List Row}
      → Step jsonb a b
      → (key : String) {old : Row} → find_key key a ≡ some old
      → find_key key b ≡ some old
  Step-find_key (stay rows) key found = found
  Step-find_key (grow p r rows (free_id, free_key) i) key found =
      find_key-grow p.idempotency_key key r rows free_key i.key found

  pub Step-find_id :
      {a b : List Row}
      → Step jsonb a b
      → (id : Uuid) {old : Row} → find_id id a ≡ some old
      → find_id id b ≡ some old
  Step-find_id (stay rows) id found = found
  Step-find_id (grow p r rows (free_id, free_key) i) id found =
      find_id-grow id r rows (rw i.id free_id) found

  pub Reach-find_key :
      {a b : List Row}
      → Reach jsonb a b
      → (key : String) {old : Row} → find_key key a ≡ some old
      → find_key key b ≡ some old
  Reach-find_key here key found = found
  Reach-find_key (next before step) key found =
      Step-find_key step key (Reach-find_key before key found)

  pub Reach-find_id :
      {a b : List Row}
      → Reach jsonb a b
      → (id : Uuid) {old : Row} → find_id id a ≡ some old
      → find_id id b ≡ some old
  Reach-find_id here id found = found
  Reach-find_id (next before step) id found = Step-find_id step id (Reach-find_id before id found)

-- The row that was inserted last is found by its id and by its key.
pub find_id_self : (r : Row) (rows : List Row) → find_id r.id (r ∷ rows) ≡ some r
unfolding find_id
find_id_self r rows = ground arith

pub find_key_self :
    (key : String) (r : Row) (rows : List Row)
    → r.idempotency_key ≡ some key
    → find_key key (r ∷ rows) ≡ some r
unfolding find_key
find_key_self key r rows e = rw e (ground (arith, eq_iff key key))

find_key-cons :
    (key : String) (h : Row) (rows : List Row) (r : Row)
    → find_key key (h ∷ rows) ≡ some r
    → (h ≡ r) ⊎ (find_key key rows ≡ some r)
unfolding find_key
find_key-cons key h rows r found = elim (Bool-cases (key_is h.idempotency_key key)) [
  | inl same ↦ inl (ground arith)
  | inr other ↦ inr (ground arith)
]

-- In a table with unique keys a row that is found by its idempotency key is found by its id.
pub find_id-find_key :
    (key : String) (rows : List Row) (r : Row)
    → KeysUnique rows
    → find_key key rows ≡ some r
    → find_id r.id rows ≡ some r
unfolding find_key
find_id-find_key key [] r u found = ground arith
find_id-find_key key (h ∷ rows) r u found = elim (find_key-cons key h rows r found) [
  | inl same ↦ subst (λ x. find_id x.id (h ∷ rows) ≡ some x) same (find_id_self h rows)
  | inr later ↦ find_id-grow r.id h rows u.0 (find_id-find_key key rows r u.2 later)
]
