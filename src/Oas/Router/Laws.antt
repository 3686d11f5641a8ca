-- ===== src/Oas/Router/Laws.antt =====
-- The router against the paths of the OpenAPI description.
use mathlib.Core.Path.{subst}
use flowhand.Base.{
  ◌≡◌, refl, ◌∙◌, sym, ap, inl, inr, ℕ, true, false, ◌==◌, String, Option, none, some, [], ◌∷◌,
  eq-cases, Bool-cases, eq_iff, arith, eq_of_ne, ◌≢◌, ◌++◌, nat_eq,
}
use flowhand.Oas.Router.{
  Bytes, Routed, create_task, get_task, not_allowed, not_found, strip_prefix, has_byte, slash,
  tasks_path, serve_elem, after_tasks, after_slash, leaf,
}

-- The path of the task with the id `arg`.
abbrev pub task_path : Bytes → Bytes
task_path arg = tasks_path ++ slash ∷ arg

-- The table of the description: /v1/tasks takes POST, /v1/tasks/{id} takes GET, where the argument
-- (which may be empty) has no slash; any other method is refused there, and any other path is unknown.
pub data Routes (method : String) : Bytes → Routed → Type 0 where
  post_tasks : method ≡ "POST" → Routes method tasks_path create_task
  other_tasks : method ≢ "POST" → Routes method tasks_path (not_allowed "POST")
  get_one :
      (arg : Bytes)
      → has_byte slash arg ≡ false
      → method ≡ "GET"
      → Routes method (task_path arg) (get_task arg)
  other_one :
      (arg : Bytes)
      → has_byte slash arg ≡ false
      → method ≢ "GET"
      → Routes method (task_path arg) (not_allowed "GET")
  elsewhere :
      (path : Bytes)
      → path ≢ tasks_path
      → ((arg : Bytes) → has_byte slash arg ≡ false → path ≢ task_path arg)
      → Routes method path not_found

ne_of_eq : (s c : String) → (s == c) ≡ false → s ≢ c
ne_of_eq s c n e = let t : (s == c) ≡ true = (eq_iff s c).1 e in cc t

strip_prefix-some :
    (prefix path rest : Bytes) → strip_prefix prefix path ≡ some rest → path ≡ prefix ++ rest
strip_prefix-some [] path rest h = cc h
strip_prefix-some (p ∷ prefix) [] rest h = cc h
strip_prefix-some (p ∷ prefix) (c ∷ path) rest h =
    ground (arith, strip_prefix-some prefix path rest)

strip_prefix-append : (prefix rest : Bytes) → strip_prefix prefix (prefix ++ rest) ≡ some rest
strip_prefix-append [] rest = refl
strip_prefix-append (p ∷ prefix) rest = ground (arith, strip_prefix-append prefix rest)

cancel : (a b : Bytes) → tasks_path ++ a ≡ tasks_path ++ b → a ≡ b
cancel a b e =
    let both : some a ≡ some b =
      sym (strip_prefix-append tasks_path a)
      ∙ ap (strip_prefix tasks_path) e
      ∙ strip_prefix-append tasks_path b in
    cc both

-- A path that continues /v1/tasks otherwise than by a slash and an argument is unknown.
continued-Routes :
    (method : String) (c : ℕ) (elem : Bytes)
    → ((arg : Bytes) → has_byte slash arg ≡ false → c ∷ elem ≢ slash ∷ arg)
    → Routes method (tasks_path ++ c ∷ elem) not_found
continued-Routes method c elem other =
    elsewhere (tasks_path ++ c ∷ elem) (λ e. let k : c ∷ elem ≡ [] = cancel (c ∷ elem) [] e in cc k)
      (λ arg plain e. other arg plain (cancel (c ∷ elem) (slash ∷ arg) e))

leaf-Routes :
    (method : String) (elem : Bytes)
    → has_byte slash elem ≡ false
    → Routes method (task_path elem) (leaf method elem)
leaf-Routes method elem plain = elim (eq-cases method "GET") [
  | inl e ↦ rw ((eq_iff method "GET").1 e) (get_one elem plain e)
  | inr n ↦ rw n (other_one elem plain (ne_of_eq method "GET" n))
]

slash-Routes :
    (method : String) (elem : Bytes)
    → Routes method (task_path elem) (after_slash method (some elem))
slash-Routes method elem = elim (Bool-cases (has_byte slash elem)) [
  | inl broken ↦ rw broken (
      continued-Routes method slash elem (λ arg plain e. let k : elem ≡ arg = cc e in ground arith))
  | inr plain ↦ rw plain (leaf-Routes method elem plain)
]

tasks-Routes :
    (method : String) (rest : Bytes)
    → Routes method (tasks_path ++ rest) (after_tasks method (some rest))
tasks-Routes method [] = elim (eq-cases method "POST") [
  | inl e ↦ rw ((eq_iff method "POST").1 e) (post_tasks e)
  | inr n ↦ rw n (other_tasks (ne_of_eq method "POST" n))
]
tasks-Routes method (c ∷ elem) = elim (Bool-cases (nat_eq c slash)) [
  | inl e ↦ let same : c ≡ slash = ground arith in rw same (slash-Routes method elem)
  | inr n ↦
      rw n
        (continued-Routes method c elem (λ arg plain e. let k : c ≡ slash = cc e in ground arith))
]

-- The test of the first byte is implied by the prefix.
pub serve_elem_lem :
    (method : String) (path : Bytes)
    → serve_elem method path ≡ after_tasks method (strip_prefix tasks_path path)
unfolding serve_elem
serve_elem_lem method [] = refl
serve_elem_lem method (c ∷ elem) = ground arith

stripped-Routes :
    (method : String) (path : Bytes) (o : Option Bytes)
    → strip_prefix tasks_path path ≡ o
    → Routes method path (after_tasks method o)
stripped-Routes method path none h =
    elsewhere path
      (λ e.
        let k : ◌≡◌ {A = Option Bytes} none (some []) =
          sym h ∙ ap (strip_prefix tasks_path) e ∙ strip_prefix-append tasks_path [] in
        cc k)
      (λ arg plain e.
        let k : ◌≡◌ {A = Option Bytes} none (some (slash ∷ arg)) =
          sym h ∙ ap (strip_prefix tasks_path) e ∙ strip_prefix-append tasks_path (slash ∷ arg) in
        cc k)
stripped-Routes method path (some rest) h =
    subst (λ p. Routes method p (after_tasks method (some rest)))
      (sym (strip_prefix-some tasks_path path rest h)) (tasks-Routes method rest)

-- Every method and path is routed as the table of the description says.
pub serve_elem-Routes :
    (method : String) (path : Bytes) → Routes method path (serve_elem method path)
serve_elem-Routes method path =
    subst (Routes method path) (sym (serve_elem_lem method path))
      (stripped-Routes method path (strip_prefix tasks_path path) refl)

unlisted :
    {method : String} {path : Bytes} {out : Routed}
    → Routes method path out
    → path ≢ tasks_path
    → ((arg : Bytes) → has_byte slash arg ≡ false → path ≢ task_path arg)
    → out ≡ not_found
unlisted (post_tasks e) n m = absurd (n refl)
unlisted (other_tasks o) n m = absurd (n refl)
unlisted (get_one arg plain e) n m = absurd (m arg plain refl)
unlisted (other_one arg plain o) n m = absurd (m arg plain refl)
unlisted (elsewhere path _ _) n m = refl

-- The table leaves no choice, so it decides: an entry of the table is what the router does.
pub Routes-serve_elem :
    {method : String} {path : Bytes} {out : Routed}
    → Routes method path out
    → serve_elem method path ≡ out
unfolding serve_elem
Routes-serve_elem {method} (post_tasks e) = rw ((eq_iff method "POST").1 e) refl
Routes-serve_elem {method} (other_tasks n) = rw (eq_of_ne method "POST" n) refl
Routes-serve_elem {method} (get_one arg plain e) = rw plain (rw ((eq_iff method "GET").1 e) refl)
Routes-serve_elem {method} (other_one arg plain n) = rw plain (rw (eq_of_ne method "GET" n) refl)
Routes-serve_elem {method} (elsewhere path n m) = unlisted (serve_elem-Routes method path) n m
