-- ===== src/Oas/Router/Find.antt =====
-- `FindPath` against `ServeHTTP`.
use flowhand.Base.{
  ◌≡◌, refl, inl, inr, Bool, true, false, ◌==◌, String, Option, none, some, [], ◌∷◌, if◌then◌else◌,
  Bool-cases, codes, nat_eq, not,
}
use flowhand.Oas.Router.{
  Bytes, Url, UrlCodec, Routed, create_task, get_task, not_allowed, not_found, strip_prefix,
  has_byte, slash, tasks_path, serve_elem, serve_route, find_path, after_tasks, after_slash, leaf,
  or_same, deferred, find_leaf, find_slash, find_tasks, find_elem, serve_cut, cut_prefix,
  choose_elem, is_empty, Route, create_task_route, get_task_route, find_route,
}

-- `FindPath` in terms of the decision of `ServeHTTP`: the operation that is served, with its argument
-- unescaped if the URL has a raw path.
abbrev pub found_route : UrlCodec → Bool → Routed → Option Route
found_route codec raw create_task = some create_task_route
found_route codec raw (get_task arg) =
    some (get_task_route (if raw then or_same codec arg (codec.path_unescape arg) else arg))
found_route codec raw (not_allowed methods) = none
found_route codec raw not_found = none

module _ (codec : UrlCodec) (raw : Bool) (method : String) where
  found_leaf :
      (elem : Bytes)
      → deferred codec raw (find_leaf codec method elem) ≡ found_route codec raw (leaf method elem)
  found_leaf elem = elim (Bool-cases (method == "GET")) [
    | inl e ↦
        rw e
          (elim raw
            as (λ r.
              deferred codec r (some (get_task_route elem)) ≡ found_route codec r (get_task elem)) [
                | true ↦ refl
                | false ↦ refl
              ])
    | inr n ↦ rw n refl
  ]

  found_slash :
      (o : Option Bytes)
      → deferred codec raw (find_slash codec method o)
        ≡ found_route codec raw (after_slash method o)
  found_slash none = refl
  found_slash (some elem) = elim (Bool-cases (has_byte slash elem)) [
    | inl broken ↦ rw broken refl
    | inr plain ↦ rw plain (found_leaf elem)
  ]

  found_tasks :
      (o : Option Bytes)
      → deferred codec raw (find_tasks codec method o)
        ≡ found_route codec raw (after_tasks method o)
  found_tasks none = refl
  found_tasks (some []) = elim (Bool-cases (method == "POST")) [
    | inl e ↦
        rw e
          (elim raw
            as (λ r. deferred codec r (some create_task_route) ≡ found_route codec r create_task) [
              | true ↦ refl
              | false ↦ refl
            ])
    | inr n ↦ rw n refl
  ]
  found_tasks (some (c ∷ elem)) = elim (Bool-cases (nat_eq c slash)) [
    | inl e ↦ rw e (found_slash (strip_prefix (codes "/") (c ∷ elem)))
    | inr n ↦ rw n refl
  ]

  found_elem :
      (o : Option Bytes)
      → deferred codec raw (find_elem codec method o)
        ≡ found_route codec raw (serve_cut codec method o)
  unfolding serve_elem
  found_elem none = refl
  found_elem (some []) = refl
  found_elem (some (c ∷ elem)) = elim (Bool-cases (nat_eq c slash)) [
    | inl e ↦ rw e (found_tasks (strip_prefix tasks_path (c ∷ elem)))
    | inr n ↦ rw n refl
  ]

-- The two copies of the switch agree: for every prefix, method and URL, `FindPath` finds the route of the
-- operation that `ServeHTTP` would run, with the same argument (unescaped if there was a raw path), and
-- finds nothing where `ServeHTTP` refuses; and `FindRoute` of a path finds what is served for the URL
-- that has this path and no raw one.
pub find_path-serve_route :
    (codec : UrlCodec) (prefix : Bytes) (method : String) (u : Url)
    → (find_path codec prefix method u
        ≡ found_route codec (not (is_empty u.raw_path)) (serve_route codec prefix method u).0)
      × (find_route codec prefix method u.path
          ≡ found_route codec false
              (serve_route codec prefix method (record { path = u.path; raw_path = [] })).0)
unfolding find_path serve_route choose_elem
find_path-serve_route codec prefix method u = (
  found_elem codec (not (is_empty u.raw_path)) method (cut_prefix prefix (choose_elem codec u).0),
  found_elem codec false method (cut_prefix prefix u.path),
)
