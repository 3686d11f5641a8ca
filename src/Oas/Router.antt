-- ===== src/Oas/Router.antt =====
-- internal/api/oas/oas_router_gen.go: the static router, over the bytes of the path. What `ServeHTTP`
-- does with a request is the choice `serve_elem` makes; `FindPath` has its own copy of the switch.
pub mod Laws
pub mod Find
use flowhand.Base.{
  ◌≡◌, ℕ, not, Bool, true, false, ◌&&◌, ◌||◌, ◌==◌, String, Option, none, some, List, [], ◌∷◌,
  nat_eq, codes, if◌then◌else◌,
}
use flowhand.Failure.{Result, ok, err}

-- A Go string as its bytes.
abbrev pub Bytes : Type 0
Bytes = List ℕ

-- The two fields of a `url.URL` that the router reads.
pub record Url : Type 0 where
  pub path : Bytes
  pub raw_path : Bytes

-- `elem[0:l] == prefix`, and the rest of the text.
abbrev pub strip_prefix : Bytes → Bytes → Option Bytes
strip_prefix [] s = some s
strip_prefix (p ∷ prefix) [] = none
strip_prefix (p ∷ prefix) (c ∷ s) =
    let rest = strip_prefix prefix s in if nat_eq p c then rest else none

-- `strings.IndexByte(elem, c) >= 0`
abbrev pub has_byte : ℕ → Bytes → Bool
has_byte b [] = false
has_byte b (c ∷ s) = nat_eq c b || has_byte b s

abbrev pub slash : ℕ
slash = b'/'

abbrev pub percent : ℕ
percent = b'%'

abbrev pub tasks_path : Bytes
tasks_path = codes "/v1/tasks"

-- What the router decides: an operation, with its raw path argument, or one of the two refusals, with
-- the methods that are allowed.
pub data Routed : Type 0 where
  create_task : Routed
  get_task : Bytes → Routed
  not_allowed : String → Routed
  not_found : Routed

abbrev leaf : String → Bytes → Routed
leaf method elem = if method == "GET" then get_task elem else not_allowed "GET"

abbrev after_slash : String → Option Bytes → Routed
after_slash method none = not_found
after_slash method (some elem) = if has_byte slash elem then not_found else leaf method elem

abbrev pub after_tasks : String → Option Bytes → Routed
after_tasks method none = not_found
after_tasks method (some []) = if method == "POST" then create_task else not_allowed "POST"
after_tasks method (some (c ∷ elem)) =
    if nat_eq c slash then after_slash method (strip_prefix (codes "/") (c ∷ elem)) else not_found

-- The switch of `ServeHTTP` on the rest of the path after the server's prefix.
unfoldable pub serve_elem : String → Bytes → Routed
serve_elem method [] = not_found
serve_elem method (c ∷ elem) =
    if nat_eq c slash then after_tasks method (strip_prefix tasks_path (c ∷ elem)) else not_found

-- `cutPrefix`: with an empty prefix the path is kept.
unfoldable pub cut_prefix : Bytes → Bytes → Option Bytes
cut_prefix [] path = some path
cut_prefix (p ∷ prefix) path = strip_prefix (p ∷ prefix) path

abbrev pub is_empty : Bytes → Bool
is_empty [] = true
is_empty (c ∷ s) = false

-- `Route`: `args` are the arguments up to `count`, as `Args` gives them.
pub record Route : Type 0 where
  pub name : String
  pub summary : String
  pub operation_id : String
  pub operation_group : String
  pub path_pattern : String
  pub args : List Bytes

abbrev pub create_task_route : Route
create_task_route = record {
  name = "CreateTask";
  summary = "Submit a task";
  operation_id = "createTask";
  operation_group = "";
  path_pattern = "/v1/tasks";
  args = [];
}

abbrev pub get_task_route : Bytes → Route
get_task_route arg = record {
  name = "GetTask";
  summary = "";
  operation_id = "getTask";
  operation_group = "";
  path_pattern = "/v1/tasks/{id}";
  args = arg ∷ [];
}

-- `uri.NormalizeEscapedPath` and `url.PathUnescape`, which are libraries'.
pub record UrlCodec : Type 0 where
  pub normalize_escaped_path : Bytes → Option Bytes
  pub path_unescape : Bytes → Result Bytes

module _ (codec : UrlCodec) where
  abbrev normalized : Bytes → Option Bytes → Bytes × Bool
  normalized path none = (path, false)
  normalized path (some elem) = (elem, has_byte percent elem)

  -- The path that is routed, and whether it is escaped.
  unfoldable pub choose_elem : Url → Bytes × Bool
  choose_elem u =
      if is_empty u.raw_path
      then (u.path, false)
      else normalized u.path (codec.normalize_escaped_path u.raw_path)

  abbrev serve_cut : String → Option Bytes → Routed
  serve_cut method none = not_found
  serve_cut method (some elem) = serve_elem method elem

  -- What `ServeHTTP` decides for a method and a URL, with whether the argument is escaped.
  unfoldable pub serve_route : Bytes → String → Url → Routed × Bool
  unfolding cut_prefix choose_elem
  serve_route prefix method u =
      let (elem, escaped) = choose_elem u in (serve_cut method (cut_prefix prefix elem), escaped)

  abbrev find_leaf : String → Bytes → Option Route
  find_leaf method elem = if method == "GET" then some (get_task_route elem) else none

  abbrev find_slash : String → Option Bytes → Option Route
  find_slash method none = none
  find_slash method (some elem) = if has_byte slash elem then none else find_leaf method elem

  abbrev find_tasks : String → Option Bytes → Option Route
  find_tasks method none = none
  find_tasks method (some []) = if method == "POST" then some create_task_route else none
  find_tasks method (some (c ∷ elem)) =
      if nat_eq c slash then find_slash method (strip_prefix (codes "/") (c ∷ elem)) else none

  abbrev find_elem : String → Option Bytes → Option Route
  find_elem method none = none
  find_elem method (some []) = none
  find_elem method (some (c ∷ elem)) =
      if nat_eq c slash then find_tasks method (strip_prefix tasks_path (c ∷ elem)) else none

  abbrev or_same : Bytes → Result Bytes → Bytes
  or_same arg (ok unescaped) = unescaped
  or_same arg (err e) = arg

  -- The deferred loop, which runs only if there was a raw path.
  abbrev unescape_args : List Bytes → List Bytes
  unescape_args [] = []
  unescape_args (arg ∷ args) = or_same arg (codec.path_unescape arg) ∷ unescape_args args

  abbrev deferred : Bool → Option Route → Option Route
  deferred raw none = none
  deferred raw (some r) = some (record r { args = if raw then unescape_args r.args else r.args })

  unfoldable pub find_path : Bytes → String → Url → Option Route
  unfolding cut_prefix choose_elem
  find_path prefix method u =
      let raw = not (is_empty u.raw_path) in
      deferred raw (find_elem method (cut_prefix prefix (choose_elem u).0))

  -- `FindRoute`
  abbrev pub find_route : Bytes → String → Bytes → Option Route
  find_route prefix method path = find_path prefix method (record { path = path; raw_path = [] })
