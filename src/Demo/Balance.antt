-- ===== src/Demo/Balance.antt =====
-- The counter of replays from below: a failed submit costs at most one pair.
use mathlib.Core.Bool.{true≢false}
use flowhand.Base.{
  ◌≡◌, ◌∙◌, sym, ◌⊎◌, inl, inr, ℕ, ◌≤◌, ◌+◌, ◌/◌, ◌%◌, true, false, ◌==◌, String, [], ◌∷◌, arith,
  eq_iff, Bool-cases,
}
use flowhand.Failure.{Result, ok, err}
use flowhand.Demo.{Producer, tick, account}
use flowhand.Demo.Laws.{Replays, Remembers, tick_even, tick_odd}

-- As many pairs were replayed or saw an error as have passed; and if the first submit of a pair failed,
-- the pair is among them.
pub record Balanced (p : Producer) : Type 0 where
  pub passed : p.n / 2 ≤ p.replayed + p.errors
  pub broken : p.n % 2 ≡ 1 → (p.last_id == "") ≡ true → p.n / 2 + 1 ≤ p.replayed + p.errors

abbrev pub NotEmpty : Result String → Type 0
NotEmpty (ok id) = (id == "") ≡ false
NotEmpty (err e) = Unit

first-Balanced :
    (a : Result String) (p : Producer)
    → NotEmpty a
    → p.n % 2 ≡ 0
    → Balanced p
    → Balanced (account true a (record p { n = p.n + 1 }))
first-Balanced (ok id) p full even b =
    let passed = b.passed in
    record { passed = omega arith; broken = λ odd blank. absurd (true≢false (sym blank ∙ full)) }
first-Balanced (err e) p full even b =
    let passed = b.passed in record { passed = omega arith; broken = λ odd blank. omega arith }

second-Balanced :
    (id_of : ℕ → String) (a : Result String) (p : Producer)
    → Replays id_of p.n (a ∷ [])
    → Remembers id_of p
    → p.n % 2 ≡ 1
    → Balanced p
    → Balanced (account false a (record p { n = p.n + 1 }))
second-Balanced id_of (err e) p r m odd b =
    let passed = b.passed in
    record { passed = omega arith; broken = λ odd' blank. absurd (omega arith) }
second-Balanced id_of (ok id) p (same, _) m odd b =
    let passed = b.passed in
    elim (Bool-cases (p.last_id == "")) [
      | inl blank ↦
          let counted = b.broken odd blank in
          rw blank (record { passed = omega arith; broken = λ odd' blank'. absurd (omega arith) })
      | inr full ↦
          let one : (id == p.last_id) ≡ true = (eq_iff id p.last_id).1 (same ∙ sym (m odd full)) in
          rw full
            (rw one (record { passed = omega arith; broken = λ odd' blank'. absurd (omega arith) }))
    ]

-- A tick keeps the balance, if the server answers it as it answered the pair before, with an id that is
-- not empty.
pub tick-Balanced :
    (id_of : ℕ → String) (a : Result String) (p : Producer)
    → Replays id_of p.n (a ∷ [])
    → NotEmpty a
    → Remembers id_of p
    → Balanced p
    → Balanced (tick a p)
tick-Balanced id_of a p r full m b = elim parity [
  | inl even ↦ rw (tick_even a p even) (first-Balanced a p full even b)
  | inr odd ↦ rw (tick_odd a p odd) (second-Balanced id_of a p r m odd b)
]
  where
    parity : (p.n % 2 ≡ 0) ⊎ (p.n % 2 ≡ 1)
    parity = omega arith
