-- ===== src/Demo/Served/Laws.antt =====
-- What the producer's loop counts, over all of its ticks.
use flowhand.Base.{
  ◌≡◌, refl, ◌∙◌, sym, ap, ℕ, ◌≤◌, ◌+◌, ◌/◌, String, Option, none, some, List, [], ◌∷◌, ◌≢◌, All,
  length, arith, eq_of_ne,
}
use flowhand.Failure.{GoError, Result, ok, err}
use flowhand.Domain.{RawMessage}
use flowhand.Storage.{Row, Database, IsPostgres, find_key}
use flowhand.Storage.Table.{Reach, here, next, Reach-find_key, Reach-trans}
use flowhand.Oas.Schemas.{CreateTaskRequestPayload}
use flowhand.Oas.Jx.{Jx}
use flowhand.Oas.Request.{Libs}
use flowhand.Demo.{Producer, start, tick, key}
use flowhand.Demo.Laws.{Replays, Remembers, tick-Replays, tick_counts}
use flowhand.Demo.Balance.{Balanced, NotEmpty, tick-Balanced}
use flowhand.Demo.Served.{Round, Wire, submitted, produced}
use flowhand.Demo.Served.Post.{Carries, Submits, submitted-Submits}

-- What others do before a tick is to insert.
abbrev pub Inserts : (D : Database) → Round D.State → Type 0
Inserts D round = (s : D.State) → Reach D.jsonb (D.rows s) (D.rows (round.others s))

module _ (J : Jx) (libs : Libs) (text : GoError → String) (D : Database) (pg : IsPostgres D)
    (marshal : CreateTaskRequestPayload → Result RawMessage) (wire : Wire J.Bytes)
    (w : Carries J libs wire) where
  submitted-Reach :
      (round : Round D.State) (k : String) (s : D.State)
      → k ≢ ""
      → Inserts D round
      → Reach D.jsonb (D.rows s) (
          D.rows
            (submitted J libs text D marshal wire round.delivery round.env k (round.others s)).1)
  submitted-Reach round k s keyed inserts =
      next (inserts s)
        (submitted-Submits J libs text D pg marshal wire w round.delivery round.env k
          (round.others s) keyed).0

  module _ (run_id : String) where
    produced-Reach :
        (rounds : List (Round D.State)) (p : Producer) (s : D.State)
        → All (Inserts D) rounds
        → Reach D.jsonb
            (D.rows s)
            (D.rows (produced J libs text D marshal wire run_id rounds p s).1)
    produced-Reach [] p s inserts = here
    produced-Reach (round ∷ rounds) p s (inserts, later) =
        let k = wire.print (key run_id p) in
        let (a, s') =
          submitted J libs text D marshal wire round.delivery round.env k (round.others s) in
        Reach-trans (submitted-Reach round k s (w.keyed (key run_id p)) inserts)
          (produced-Reach rounds (tick a p) s' later)

    abbrev text_of : Option Row → String
    text_of none = ""
    text_of (some r) = w.id_text r.id

    -- The id of a pair, by the table at the end.
    abbrev pair_id : List Row → ℕ → String
    pair_id last n = text_of (find_key (wire.print (run_id, n)) last)

    answer-Replays :
        (last : List Row) (p : Producer) (s s' : D.State) (a : Result String)
        → Submits J libs text D pg marshal wire w (wire.print (key run_id p)) (a, s') s
        → Reach D.jsonb (D.rows s') last
        → Replays (pair_id last) p.n (a ∷ [])
    answer-Replays last p s s' (err e) submits later = tt
    answer-Replays last p s s' (ok id) (_, says) later =
        let (r, found, text_is) = says id refl in
        let kept : find_key (wire.print (run_id, p.n / 2)) last ≡ some r =
          Reach-find_key later (wire.print (key run_id p)) found in
        (text_is ∙ sym (ap text_of kept), tt)

    answer-NotEmpty :
        (s s' : D.State) (k : String) (a : Result String)
        → Submits J libs text D pg marshal wire w k (a, s') s
        → NotEmpty a
    answer-NotEmpty s s' k (err e) submits = tt
    answer-NotEmpty s s' k (ok id) (_, says) =
        let (r, _, text_is) = says id refl in
        rw text_is (eq_of_ne (w.id_text r.id) "" (w.not_empty r.id))

    -- From a state of the loop that is sound on.
    counts :
        (rounds : List (Round D.State)) (p : Producer) (s : D.State) (last : List Row)
        → All (Inserts D) rounds
        → Reach D.jsonb (D.rows (produced J libs text D marshal wire run_id rounds p s).1) last
        → Remembers (pair_id last) p
        → Balanced p
        → let q = (produced J libs text D marshal wire run_id rounds p s).0 in
          (q.warnings ≡ p.warnings) × (q.n ≡ p.n + length rounds) × Balanced q
    counts [] p s last inserts later m b = (refl, omega arith, b)
    counts (round ∷ rounds) p s last (inserts, others) later m b =
        let k = wire.print (key run_id p) in
        let (a, s') =
          submitted J libs text D marshal wire round.delivery round.env k (round.others s) in
        let submits =
          submitted-Submits J libs text D pg marshal wire w round.delivery round.env k
            (round.others s) (w.keyed (key run_id p)) in
        let reached = Reach-trans (produced-Reach rounds (tick a p) s' others) later in
        let r = answer-Replays last p (round.others s) s' a submits reached in
        let (_, m', quiet) = tick-Replays (pair_id last) a [] p r m in
        let full = answer-NotEmpty (round.others s) s' k a submits in
        let b' = tick-Balanced (pair_id last) a p r full m b in
        let ticked = (tick_counts a p).0 in
        let (quiet', n, b'') = counts rounds (tick a p) s' last others later m' b' in
        (quiet' ∙ quiet, omega arith, b'')

-- The reference producer judges the server rightly: over a database that keeps the promises of
-- Postgres, with a network that may lose any request or response, with other clients that insert in
-- between, and if libraries, router and decoder carry a key to the handler and an id back, no tick
-- of the loop warns that a submit was not replayed, and each pair of ticks is counted as a replay
-- but for one pair at most for each error.
pub produced_lem :
    (J : Jx) (libs : Libs) (text : GoError → String) (D : Database)
    → IsPostgres D
    → (marshal : CreateTaskRequestPayload → Result RawMessage) (wire : Wire J.Bytes)
    → Carries J libs wire
    → (run_id : String) (rounds : List (Round D.State)) (s : D.State) → All (Inserts D) rounds
    → let p = (produced J libs text D marshal wire run_id rounds start s).0 in
      (p.warnings ≡ 0) × (length rounds / 2 ≤ p.replayed + p.errors)
produced_lem J libs text D pg marshal wire w run_id rounds s inserts =
    let (quiet, n, b) =
      counts J libs text D pg marshal wire w run_id rounds start s _ inserts here
        (λ odd _. absurd (omega arith))
        (record { passed = omega arith; broken = λ odd blank. absurd (omega arith) }) in
    let passed = b.passed in (quiet, omega arith)
