-- ===== src/Api/Mapper/Laws.antt =====
-- The translation of statuses is a bijection between the two vocabularies.
use flowhand.Base.{
  ◌≡◌, refl, true, false, ◌==◌, String, none, List, [], ◌∷◌, if◌then◌else◌, ◌⊎◌, inl, inr, eq-cases,
  eq_iff, ◌↔◌, All, ap, sym, ◌≢◌,
}
use flowhand.Failure.{errorf, Result, ok, err}
use flowhand.Domain
use flowhand.Domain.{Status, statuses, Uuid, Time}
use flowhand.Oas.Schemas.{Task, TaskStatus, task_statuses}
use flowhand.Oas.Validate.{validate_task}
use flowhand.Oas.Validate.Laws.{IsMember, validate_enums_iff}
use flowhand.Api.Mapper.{to_oas_status, to_oas_task, with_status}

-- The two vocabularies, side by side: domain first, API second.
abbrev pub vocabulary : List (Status × TaskStatus)
vocabulary =
    ("pending", "pending")
    ∷ ("running", "running")
    ∷ ("complete", "succeeded")
    ∷ ("failed", "failed")
    ∷ ("canceled", "cancelled")
    ∷ []

abbrev pub IsPair : Status → TaskStatus → List (Status × TaskStatus) → Type 0
IsPair s v [] = ⊥
IsPair s v ((a, b) ∷ pairs) = ((s ≡ a) × (v ≡ b)) ⊎ IsPair s v pairs

abbrev assoc : List (Status × TaskStatus) → Status → Result TaskStatus
assoc [] s = err (errorf "unmapped task status")
assoc ((a, b) ∷ pairs) s = if s == a then ok b else assoc pairs s

abbrev DistinctKeys : List (Status × TaskStatus) → Type 0
DistinctKeys [] = Unit
DistinctKeys ((a, b) ∷ pairs) = All (λ e. a ≢ e.0) pairs × DistinctKeys pairs

no_pair :
    (s : Status) (v : TaskStatus) (pairs : List (Status × TaskStatus))
    → All (λ e. s ≢ e.0) pairs
    → IsPair s v pairs
    → ⊥
no_pair s v [] h m = m
no_pair s v ((a, b) ∷ pairs) (n, h) (inl (e, _)) = n e
no_pair s v ((a, b) ∷ pairs) (n, h) (inr m) = no_pair s v pairs h m

assoc-ok_iff :
    (pairs : List (Status × TaskStatus)) (s : Status) (v : TaskStatus)
    → DistinctKeys pairs
    → (assoc pairs s ≡ ok v) ↔ IsPair s v pairs
assoc-ok_iff [] s v d = (λ h. cc h, λ m. elim m [ ])
assoc-ok_iff ((a, b) ∷ pairs) s v (apart, d) = elim (eq-cases s a) [
  | inl e ↦
      rw ((eq_iff s a).1 e)
        (λ h. let k : b ≡ v = cc h in inl (e, sym k), λ m. head_only s a b v pairs e apart m)
  | inr n ↦
      let (to, from) = assoc-ok_iff pairs s v d in
      rw n (λ h. inr (to h), λ m. tail_only s a b v pairs n m from)
]
  where
    head_only :
        (s : Status) (a : Status) (b v : TaskStatus) (pairs : List (Status × TaskStatus))
        → s ≡ a
        → All (λ e. a ≢ e.0) pairs
        → IsPair s v ((a, b) ∷ pairs)
        → ok b ≡ ok v
    head_only s a b v pairs e apart (inl (_, k)) = ap ok (sym k)
    head_only s a b v pairs e apart (inr m) = absurd (no_pair a v pairs apart (rw e at m))

    tail_only :
        (s : Status) (a : Status) (b v : TaskStatus) (pairs : List (Status × TaskStatus))
        → (s == a) ≡ false
        → IsPair s v ((a, b) ∷ pairs)
        → (IsPair s v pairs → assoc pairs s ≡ ok v)
        → assoc pairs s ≡ ok v
    tail_only s a b v pairs n (inl (e, _)) from = let t : (s == a) ≡ true = (eq_iff s a).1 e in cc t
    tail_only s a b v pairs n (inr m) from = from m

other : (a b : String) → (a == b) ≡ false → a ≢ b
other a b n e = let t : (a == b) ≡ true = (eq_iff a b).1 e in cc t

distinct : DistinctKeys vocabulary
distinct = (
  (
    other "pending" "running" refl,
    (
      other "pending" "complete" refl,
      (other "pending" "failed" refl, (other "pending" "canceled" refl, tt)),
    ),
  ),
  (
    (
      other "running" "complete" refl,
      (other "running" "failed" refl, (other "running" "canceled" refl, tt)),
    ),
    (
      (other "complete" "failed" refl, (other "complete" "canceled" refl, tt)),
      ((other "failed" "canceled" refl, tt), (tt, tt)),
    ),
  ),
)

-- A status is translated to a word exactly if the vocabulary pairs the two.
pub to_oas_status-ok_iff :
    (s : Status) (v : TaskStatus) → (to_oas_status s ≡ ok v) ↔ IsPair s v vocabulary
unfolding to_oas_status
to_oas_status-ok_iff s v = assoc-ok_iff vocabulary s v distinct

IsPair-IsMember :
    (s : Status) (v : TaskStatus)
    → IsPair s v vocabulary
    → IsMember v task_statuses × IsMember s statuses
IsPair-IsMember s v (inl (a, b)) = (inl b, inl a)
IsPair-IsMember s v (inr (inl (a, b))) = (inr (inl b), inr (inl a))
IsPair-IsMember s v (inr (inr (inl (a, b)))) = (inr (inr (inl b)), inr (inr (inl a)))
IsPair-IsMember s v (inr (inr (inr (inl (a, b))))) =
    (inr (inr (inr (inl b))), inr (inr (inr (inl a))))
IsPair-IsMember s v (inr (inr (inr (inr (inl (a, b)))))) =
    (inr (inr (inr (inr (inl b)))), inr (inr (inr (inr (inl a)))))
IsPair-IsMember s v (inr (inr (inr (inr (inr none_left))))) = elim none_left [ ]

pub with_status_lem :
    (id : Uuid) (at : Time) (r : Result TaskStatus) (dto : Task)
    → with_status id at r ≡ ok dto
    → (dto.id ≡ id) × (dto.created_at ≡ at) × (r ≡ ok dto.status)
with_status_lem id at (ok v) dto h =
    let k : record { id = id; status = v; created_at = at } ≡ dto = cc h in
    (ap (λ t. t.id) (sym k), ap (λ t. t.created_at) (sym k), ap (λ t. ok t.status) k)
with_status_lem id at (err e) dto h = cc

-- A task that the mapper gives has the identifier and the time of the domain's task, its status is the
-- word that the vocabulary pairs with the domain's, and it is valid by the API's description.
pub to_oas_task-IsPair :
    (t : Domain.Task) (dto : Task)
    → to_oas_task t ≡ ok dto
    → (dto.id ≡ t.id)
      × (dto.created_at ≡ t.created_at)
      × IsPair t.status dto.status vocabulary
      × (validate_task dto ≡ none)
unfolding to_oas_task
to_oas_task-IsPair t dto h =
    let (same, at, k) = with_status_lem t.id t.created_at (to_oas_status t.status) dto h in
    let pair = (to_oas_status-ok_iff t.status dto.status).0 k in
    (
      same,
      at,
      pair,
      (validate_enums_iff dto (record { code = ""; message = "" })).0.1
          (IsPair-IsMember t.status dto.status pair).0,
    )
