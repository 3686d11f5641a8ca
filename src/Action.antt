-- ===== src/Action.antt =====
-- Functions that return `(value, error)` and change a state, such as a database: `State → Result A ×
-- State`, with their sequencing.
use flowhand.Failure.{GoError, Result, ok, err}

abbrev pub Action : Type 0 → Type 0 → Type 0
Action S A = S → Result A × S

abbrev pub then_do : {S A B : Type 0} → Result A × S → (A → Action S B) → Result B × S
then_do (ok a, s) k = k a s
then_do (err e, s) k = (err e, s)

-- `if err != nil { return ..., err }`
infixl 5 ◌>>=◌ ◌>>◌
abbrev pub ◌>>=◌ : {S A B : Type 0} → Action S A → (A → Action S B) → Action S B
◌>>=◌ m k s = then_do (m s) k

abbrev pub ◌>>◌ : {S A B : Type 0} → Action S A → Action S B → Action S B
◌>>◌ m k = m >>= λ _. k

abbrev pub return : {S A : Type 0} → A → Action S A
return a s = (ok a, s)

abbrev pub fail : {S A : Type 0} → GoError → Action S A
fail e s = (err e, s)

-- A result that does not depend on the state.
abbrev pub lift : {S A : Type 0} → Result A → Action S A
lift r s = (r, s)
