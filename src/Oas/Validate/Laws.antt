-- ===== src/Oas/Validate/Laws.antt =====
-- The validators accept exactly what the OpenAPI description allows.
use Prim.Native.String.{count}
use flowhand.Base.{
  ◌≡◌, refl, ◌∙◌, sym, ap, ◌⊎◌, inl, inr, ◌↔◌, ◌≤◌, Bool, true, false, ◌==◌, String, Option, none,
  some, List, [], ◌∷◌, eq-cases, eq_iff, ◌≢◌, ◌++◌,
}
use flowhand.Failure.{GoError, Result, ok, err}
use flowhand.Oas.Schemas.{get, CreateTaskRequest, Error, Task, error_codes, task_statuses, switch}
use flowhand.Oas.Json.{any_failures}
use flowhand.Oas.Validate.{
  StringValidator, CountsCharacters, text_rules, failure, validate_key,
  validate_create_task_request, validate_error, validate_task, error_of,
}

abbrev pub IsMember : String → List String → Type 0
IsMember s [] = ⊥
IsMember s (c ∷ cases) = (s ≡ c) ⊎ IsMember s cases

eq_ne : (s c : String) → (s == c) ≡ false → s ≢ c
eq_ne s c n e = let t : (s == c) ≡ true = (eq_iff s c).1 e in cc t

member_of_tail :
    (s c : String) (cases : List String) {P : Type 0}
    → s ≢ c
    → IsMember s (c ∷ cases)
    → (IsMember s cases → P)
    → P
member_of_tail s c cases other (inl e) k = absurd (other e)
member_of_tail s c cases other (inr later) k = k later

-- The generated switch succeeds exactly on the declared values, and then with the value itself.
pub switch-ok_iff :
    (cases : List String) (s : String)
    → ((switch cases s ≡ ok s) ↔ IsMember s cases) × ((v : String) → switch cases s ≡ ok v → v ≡ s)
unfolding switch
switch-ok_iff [] s = ((λ h. cc, λ h. elim h [ ]), λ v h. cc)
switch-ok_iff (c ∷ cases) s =
    let ((to, from), same) = switch-ok_iff cases s in
    elim (eq-cases s c) [
      | inl e ↦
          rw ((eq_iff s c).1 e)
            ((λ _. inl e, λ _. ap ok (sym e)), λ v h. let k : c ≡ v = cc h in sym k ∙ sym e)
      | inr n ↦ rw n ((λ h. inr (to h), λ m. member_of_tail s c cases (eq_ne s c n) m from), same)
    ]

-- 1 to 128 characters.
abbrev pub InRange : String → Type 0
InRange s = (1 ≤ count s) × (count s ≤ 128)

module _ (v : StringValidator) (counts : CountsCharacters v) where
  text_rules_iff : (s : String) → (v text_rules s ≡ none) ↔ InRange s
  text_rules_iff s =
      let (to, from) = counts text_rules s in
      (λ h. ((to h).0 refl, (to h).1 refl), λ r. from (λ _. r.0, λ _. r.1))

  validate_key_iff :
      (value : String) (set : Bool)
      → (validate_key v (get "" (record { value = value; set = set })) ≡ none)
        ↔ (set ≡ true → InRange value)
  validate_key_iff value true =
      let (to, from) = text_rules_iff value in (λ h _. to h, λ r. from (r refl))
  validate_key_iff value false = (λ _ h. cc, λ _. refl)

failures_iff :
    (name name' : String) (o o' : Option GoError)
    → (any_failures (failure name o ++ failure name' o') ≡ none) ↔ ((o ≡ none) × (o' ≡ none))
failures_iff name name' none none = (λ _. (refl, refl), λ _. refl)
failures_iff name name' none (some e) = (λ h. cc, λ h. let k = h.1 in cc k)
failures_iff name name' (some e) none = (λ h. cc, λ h. let k = h.0 in cc k)
failures_iff name name' (some e) (some e') = (λ h. cc, λ h. let k = h.0 in cc k)

-- With a validator that counts characters, a request is accepted exactly if its handler has 1 to
-- 128 characters, and so has its idempotency key if one is set.
pub validate_create_task_request_iff :
    (validate_string : StringValidator)
    → CountsCharacters validate_string
    → (s : CreateTaskRequest)
    → (validate_create_task_request validate_string s ≡ none)
      ↔ (InRange s.handler × (s.idempotency_key.set ≡ true → InRange s.idempotency_key.value))
unfolding validate_create_task_request
validate_create_task_request_iff v counts s =
    let (split, join) =
      failures_iff "handler" "idempotency_key" (v text_rules s.handler)
        (validate_key v (get "" s.idempotency_key)) in
    let (to, from) = text_rules_iff v counts s.handler in
    let (to', from') = validate_key_iff v counts s.idempotency_key.value s.idempotency_key.set in
    (λ h. (to (split h).0, to' (split h).1), λ r. join (from r.0, from' r.1))

enum_iff :
    (name : String) (cases : List String) (s : String)
    → (any_failures (failure name (error_of (switch cases s))) ≡ none) ↔ IsMember s cases
enum_iff name cases s = go (switch cases s) refl
  where
    go :
        (r : Result String)
        → switch cases s ≡ r
        → (any_failures (failure name (error_of r)) ≡ none) ↔ IsMember s cases
    go (ok v) h =
        let ((to, from), same) = switch-ok_iff cases s in
        (λ _. to (h ∙ ap ok (same v h)), λ _. refl)
    go (err e) h =
        let ((to, from), same) = switch-ok_iff cases s in
        (λ k. cc, λ m. let k : err e ≡ ok s = sym h ∙ from m in cc k)

-- A `Task` is valid exactly if its status is one of the five of the description, and an `Error` exactly
-- if its code is one of the four.
pub validate_enums_iff :
    (t : Task) (e : Error)
    → ((validate_task t ≡ none) ↔ IsMember t.status task_statuses)
      × ((validate_error e ≡ none) ↔ IsMember e.code error_codes)
unfolding validate_task validate_error
validate_enums_iff t e =
    (enum_iff "status" task_statuses t.status, enum_iff "code" error_codes e.code)
