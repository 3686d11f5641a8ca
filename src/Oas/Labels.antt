-- ===== src/Oas/Labels.antt =====
-- internal/api/oas/oas_labeler_gen.go: the labels of a request's metrics, behind a pointer that the
-- context carries; and the handler of oas_unimplemented_gen.go. `attribute.Set` is a parameter.
pub mod Laws
use flowhand.Base.{
  ℕ, ◌+◌, Bool, true, false, Option, none, some, List, [], ◌++◌, nat_eq, if◌then◌else◌,
}
use flowhand.Failure.{GoError}
use flowhand.Action.{Action, fail}
use flowhand.Oas.Server.{Handler}

-- The labelers that were made: their number, and the attributes of each.
pub record Heap (A : Type 0) : Type 0 where
  pub next : ℕ
  pub attrs : ℕ → List A

-- The labeler's pointer in a context, if there is one.
abbrev pub Context : Type 0
Context = Option ℕ

module _ {A : Type 0} where
  abbrev pub store : ℕ → List A → (ℕ → List A) → ℕ → List A
  store l attrs cells m = if nat_eq m l then attrs else cells m

  -- `&Labeler{}`
  abbrev pub new_labeler : Heap A → ℕ × Heap A
  new_labeler h = (h.next, record { next = h.next + 1; attrs = store h.next [] h.attrs })

  -- `Add`
  unfoldable pub add : ℕ → List A → Heap A → Heap A
  add l attrs h = record h { attrs = store l (h.attrs l ++ attrs) h.attrs }

  -- `AttributeSet`
  abbrev pub attribute_set : {Set : Type 0} → (List A → Set) → ℕ → Heap A → Set
  attribute_set new_set l h = new_set (h.attrs l)

  -- `LabelerFromContext`
  unfoldable pub labeler_from_context : Context → Heap A → (ℕ × Bool) × Heap A
  labeler_from_context (some l) h = ((l, true), h)
  labeler_from_context none h = let (l, h') = new_labeler h in ((l, false), h')

-- `contextWithLabeler`
abbrev pub context_with_labeler : Context → ℕ → Context
context_with_labeler ctx l = some l

-- `UnimplementedHandler`, with ogen's `ErrNotImplemented`
abbrev pub unimplemented_handler : {State : Type 0} → GoError → Handler State
unimplemented_handler err_not_implemented = record {
  create_task = λ req. fail err_not_implemented;
  get_task = λ id. fail err_not_implemented;
}
