-- ===== src/Demo/Laws.antt =====
-- What the counters of the reference producer mean.
use flowhand.Base.{
  ◌≡◌, refl, ◌∙◌, sym, ◌⊎◌, inl, inr, ℕ, ◌+◌, ◌/◌, ◌%◌, true, false, ◌==◌, String, List, [], ◌∷◌,
  length, if◌then◌else◌, arith, eq_iff, Bool-cases, ◌&&◌, not,
}
use flowhand.Failure.{Result, ok, err}
use flowhand.Demo.{Producer, start, tick, run, account}

pub tick_counts :
    (answer : Result String) (p : Producer)
    → ((tick answer p).n ≡ p.n + 1)
      × ((tick answer p).created + (tick answer p).replayed + (tick answer p).errors
          ≡ p.created + p.replayed + p.errors + 1)
unfolding tick
tick_counts answer p = ground arith

-- Every tick is counted under exactly one label: from any state, the three counters together go up by
-- the number of ticks, and so does `n`.
pub run-length :
    (answers : List (Result String)) (p : Producer)
    → ((run answers p).n ≡ p.n + length answers)
      × ((run answers p).created + (run answers p).replayed + (run answers p).errors
          ≡ p.created + p.replayed + p.errors + length answers)
unfolding run
run-length [] p = (omega arith, omega arith)
run-length (answer ∷ answers) p =
    let (n, counted) = tick_counts answer p in
    let (n', counted') = run-length answers (tick answer p) in (omega arith, omega arith)

-- One if both submits of a pair were answered with the same id, which is not empty.
abbrev pub pair_replayed : Result String → Result String → ℕ
pair_replayed (ok a) (ok b) = if not (a == "") && b == a then 1 else 0
pair_replayed _ _ = 0

abbrev pub pairs_replayed : List (Result String) → ℕ
pairs_replayed [] = 0
pairs_replayed (a ∷ []) = 0
pairs_replayed (a ∷ b ∷ answers) = pair_replayed a b + pairs_replayed answers

-- The first and the second tick of a pair, by the parity of `n`.
pub tick_even :
    (a : Result String) (p : Producer)
    → p.n % 2 ≡ 0
    → tick a p ≡ account true a (record p { n = p.n + 1 })
unfolding tick
tick_even a p even = rw even refl

pub tick_odd :
    (a : Result String) (p : Producer)
    → p.n % 2 ≡ 1
    → tick a p ≡ account false a (record p { n = p.n + 1 })
unfolding tick
tick_odd a p odd = rw odd refl

pair_counts :
    (a b : Result String) (p : Producer) (m : ℕ)
    → (account false b (record (account true a p) { n = m })).replayed
      ≡ p.replayed + pair_replayed a b
pair_counts (err e) b p m = ground arith
pair_counts (ok x) (err e) p m = omega arith
pair_counts (ok x) (ok y) p m = ground arith

pair_lem :
    (a b : Result String) (p : Producer)
    → p.n % 2 ≡ 0
    → ((tick b (tick a p)).n ≡ p.n + 2)
      × ((tick b (tick a p)).replayed ≡ p.replayed + pair_replayed a b)
pair_lem a b p even =
    let one = (tick_counts a p).0 in
    let two = (tick_counts b (tick a p)).0 in
    let odd : (tick a p).n % 2 ≡ 1 = rw one (omega arith) in
    (
      omega arith,
      rw (tick_odd b (tick a p) odd)
          (rw (tick_even a p even) (pair_counts a b (record p { n = p.n + 1 }) _)),
    )

replayed_from :
    (answers : List (Result String)) (p : Producer)
    → p.n % 2 ≡ 0
    → (run answers p).replayed ≡ p.replayed + pairs_replayed answers
unfolding run
replayed_from [] p even = omega arith
replayed_from (a ∷ []) p even = rw (tick_even a p even) (alone a)
  where
    alone :
        (a : Result String) → (account true a (record p { n = p.n + 1 })).replayed ≡ p.replayed + 0
    alone (ok x) = omega arith
    alone (err e) = omega arith
replayed_from (a ∷ b ∷ answers) p even =
    let (n, counted) = pair_lem a b p even in
    let even' : (tick b (tick a p)).n % 2 ≡ 0 = rw n (omega arith) in
    let rest = replayed_from answers (tick b (tick a p)) even' in omega arith

-- The counter of replays is the number of pairs of ticks whose two submits were answered with one id
-- that is not empty, in whatever order answers and errors come.
pub run-pairs_replayed :
    (answers : List (Result String)) → (run answers start).replayed ≡ pairs_replayed answers
run-pairs_replayed answers = let all = replayed_from answers start refl in omega arith

-- The server answers the pair number `k` with the id `id_of k`, or with an error; `n` ticks have passed.
abbrev pub Replays : (ℕ → String) → ℕ → List (Result String) → Type 0
Replays id_of n [] = Unit
Replays id_of n (ok id ∷ answers) = (id ≡ id_of (n / 2)) × Replays id_of (n + 1) answers
Replays id_of n (err e ∷ answers) = Replays id_of (n + 1) answers

-- Between the ticks of a pair, `last_id` is empty or the pair's id.
abbrev pub Remembers : (ℕ → String) → Producer → Type 0
Remembers id_of p = p.n % 2 ≡ 1 → (p.last_id == "") ≡ false → p.last_id ≡ id_of (p.n / 2)

first_half :
    (id_of : ℕ → String) (a : Result String) (answers : List (Result String)) (p : Producer)
    → Replays id_of p.n (a ∷ answers)
    → p.n % 2 ≡ 0
    → Replays id_of (p.n + 1) answers
      × Remembers id_of (account true a (record p { n = p.n + 1 }))
      × ((account true a (record p { n = p.n + 1 })).warnings ≡ p.warnings)
first_half id_of (ok id) answers p (same, r) even =
    let half : (p.n + 1) / 2 ≡ p.n / 2 = omega arith in (r, λ _ _. rw half same, refl)
first_half id_of (err e) answers p r even = (r, λ _ n. cc n, refl)

second_half :
    (id_of : ℕ → String) (a : Result String) (answers : List (Result String)) (p : Producer)
    → Replays id_of p.n (a ∷ answers)
    → Remembers id_of p
    → p.n % 2 ≡ 1
    → Replays id_of (p.n + 1) answers
      × ((account false a (record p { n = p.n + 1 })).n ≡ p.n + 1)
      × ((account false a (record p { n = p.n + 1 })).warnings ≡ p.warnings)
second_half id_of (err e) answers p r m odd = (r, refl, refl)
second_half id_of (ok id) answers p (same, r) m odd = elim (Bool-cases (p.last_id == "")) [
  | inl blank ↦ rw blank (r, refl, refl)
  | inr full ↦
      let one : (id == p.last_id) ≡ true = (eq_iff id p.last_id).1 (same ∙ sym (m odd full)) in
      rw full (rw one (r, refl, refl))
]

pub tick-Replays :
    (id_of : ℕ → String) (a : Result String) (answers : List (Result String)) (p : Producer)
    → Replays id_of p.n (a ∷ answers)
    → Remembers id_of p
    → Replays id_of (tick a p).n answers
      × Remembers id_of (tick a p)
      × ((tick a p).warnings ≡ p.warnings)
tick-Replays id_of a answers p r m = elim parity [
  | inl even ↦
      let (r', m', w) = first_half id_of a answers p r even in
      (rw (tick_counts a p).0 r', rw (tick_even a p even) m', rw (tick_even a p even) w)
  | inr odd ↦
      let (r', n, w) = second_half id_of a answers p r m odd in
      (
        rw (tick_counts a p).0 r',
        λ odd' _. let after : (tick a p).n ≡ p.n + 1 = (tick_counts a p).0 in absurd (omega arith),
        rw (tick_odd a p odd) w,
      )
]
  where
    parity : (p.n % 2 ≡ 0) ⊎ (p.n % 2 ≡ 1)
    parity = omega arith

no_warnings :
    (id_of : ℕ → String) (answers : List (Result String)) (p : Producer)
    → Replays id_of p.n answers
    → Remembers id_of p
    → (run answers p).warnings ≡ p.warnings
unfolding run
no_warnings id_of [] p r m = refl
no_warnings id_of (a ∷ answers) p r m =
    let (r', m', w) = tick-Replays id_of a answers p r m in
    no_warnings id_of answers (tick a p) r' m' ∙ w

-- A server that replays is never accused: if each pair of ticks has one id, with which its submits are
-- answered unless they fail, then no tick warns that a submit was not replayed, whichever of them fail.
pub run-Replays :
    (id_of : ℕ → String) (answers : List (Result String))
    → Replays id_of 0 answers
    → (run answers start).warnings ≡ 0
run-Replays id_of answers r = no_warnings id_of answers start r (λ odd _. absurd (omega arith))
