-- ===== src/Wiring/Concurrent/Linear.antt =====
-- Submissions and reads that are interleaved look as if each had happened at once.
use mathlib.Core.List.{append_assoc}
use mathlib.Core.Path.{subst}
use flowhand.Base.{
  ◌≡◌, refl, ◌∙◌, sym, ap, inl, inr, ℕ, nat_eq, true, none, [], ◌∷◌, ◌++◌, Bool-cases, arith,
}
use flowhand.Failure.{Result}
use flowhand.Domain.{Uuid, Time}
use flowhand.Storage.{Database, IsPostgres, IsReachable}
use flowhand.Service.{SubmitCommand}
use flowhand.Wiring.Spec.{Store}
use flowhand.Wiring.Refines.{Represents}
use flowhand.Wiring.Concurrent.{
  looked, read_by, Phase, idle, starting, advance, System, set_call, moved,
}
use flowhand.Wiring.Concurrent.Moves.{Owes, Owes-Step, Owes-cons, Moves, advance-Moves, read-Moves}
use flowhand.Wiring.{get_task}
use flowhand.Wiring.Concurrent.History.{
  reads, History, store_after, call_of, Once, Execution, start, begins, runs, Explains,
}

module _ (D : Database) (pg : IsPostgres D) (up : IsReachable D) (a : Store) where
  record Linear (h : History) (x : System D) : Type 0 where
    table : Represents (D.rows x.state) (store_after h a)
    once : Once h
    owes : (j : ℕ) → Owes h a (D.rows x.state) j (x.calls j)

  Linear-Explains : (h : History) (x : System D) → Linear h x → Explains D a h x
  Linear-Explains h x l = record {
    looked_up = λ i id v e. subst (Owes h a (D.rows x.state) i) e (l.owes i);
    table = l.table;
    once = l.once;
    absent = λ i e. subst (Owes h a (D.rows x.state) i) e (l.owes i);
    returned = λ i cmd r e. subst (Owes h a (D.rows x.state) i) e (l.owes i);
  }

  same_of_test : (i j : ℕ) → nat_eq i j ≡ true → i ≡ j
  same_of_test i j h = ground arith

  -- After a part of the call `i`, nothing new in the history, or the call.
  moved_lem :
      (h : History) (i : ℕ) (x : System D) (out : Phase × D.State)
      → Linear h x
      → Moves D pg up a h i (D.rows x.state) out
      → (new : History) × Linear (new ++ h) (moved D i x.calls out)
  moved_lem h i x (p, s) l (step, inl (rep, o)) = (
    [],
    record {
      table = rep;
      once = l.once;
      owes = λ j. elim (Bool-cases (nat_eq j i)) [
        | inl same ↦ rw same (subst (λ k. Owes h a (D.rows s) k p) (sym (same_of_test j i same)) o)
        | inr apart ↦ rw apart (Owes-Step a h step j (x.calls j) (l.owes j))
      ];
    },
  )
  moved_lem h i x (p, s) l (step, inr (c, first, rep, o)) = (
    (i, c) ∷ [],
    record {
      table = rep;
      once = (first, l.once);
      owes = λ j. elim (Bool-cases (nat_eq j i)) [
        | inl same ↦
            rw same
              (subst (λ k. Owes ((i, c) ∷ h) a (D.rows s) k p) (sym (same_of_test j i same)) o)
        | inr apart ↦ rw apart (Owes-cons a h step j i c (x.calls j) apart (l.owes j))
      ];
    },
  )

  begun_lem :
      (h : History) (i : ℕ) (now : Time) (cmd : SubmitCommand) (minted : Result Uuid) (x : System D)
      → x.calls i ≡ idle
      → Linear h x
      → Linear h (record x { calls = set_call D i (starting now cmd minted) x.calls })
  begun_lem h i now cmd minted x quiet l = record {
    table = l.table;
    once = l.once;
    owes = λ j. elim (Bool-cases (nat_eq j i)) [
      | inl same ↦ rw same (
          let absent : call_of i h ≡ none = subst (Owes h a (D.rows x.state) i) quiet (l.owes i) in
          ap (λ k. call_of k h) (same_of_test j i same) ∙ absent)
      | inr apart ↦ rw apart (l.owes j)
    ];
  }

  Execution-Linear :
      {x y : System D} (h : History)
      → Execution D x y
      → Linear h x
      → (new : History) × Linear (new ++ h) y
  Execution-Linear h start l = ([], l)
  Execution-Linear h (begins {y = y} before i now cmd minted quiet) l =
      let (new, l') = Execution-Linear h before l in
      (new, begun_lem (new ++ h) i now cmd minted y quiet l')
  Execution-Linear h (reads {y = y} before i id quiet) l =
      let (new, l') = Execution-Linear h before l in
      let first : call_of i (new ++ h) ≡ none =
        subst (Owes (new ++ h) a (D.rows y.state) i) quiet (l'.owes i) in
      let (more, l'') =
        moved_lem (new ++ h) i y (looked id (get_task D id y.state).0, (get_task D id y.state).1) l'
          (read-Moves D pg up a (new ++ h) i id y.state l'.table first) in
      (more ++ new, subst (λ k. Linear k (read_by D i id y)) (sym (append_assoc more new h)) l'')
  Execution-Linear h (runs {y = y} before i fresh) l =
      let (new, l') = Execution-Linear h before l in
      let (more, l'') =
        moved_lem (new ++ h) i y (advance D (y.calls i) y.state) l'
          (advance-Moves D pg up a (new ++ h) i (y.calls i) y.state l'.table (l'.owes i) fresh) in
      (
        more ++ new,
        subst (λ k. Linear k (moved D i y.calls (advance D (y.calls i) y.state)))
            (sym (append_assoc more new h)) l'',
      )

-- Submissions and reads are linearizable. Over a database that keeps the promises of Postgres and
-- can be reached, whose table holds what an abstract store knows, with no call under way and then
-- any number of reads and of submissions with fresh ids and admitted values that are interleaved in
-- any way: at each state of the run the calls have an order in which the abstract store, which
-- answers each of them at once, ends with what the table holds, and answers each call that has
-- returned as it was answered, as to id, handler and status; a call that has not begun is not among
-- them, and none is twice. What follows in the run only adds to that order at its end, so a call
-- that has returned comes before all that begin later.
pub calls_linearizable :
    (D : Database)
    → IsPostgres D
    → IsReachable D
    → (a : Store) (x y z : System D) → Represents (D.rows x.state) a
    → ((j : ℕ) → x.calls j ≡ idle)
    → Execution D x y
    → Execution D y z
    → (h : History) × (new : History) × Explains D a h y × Explains D a (new ++ h) z
calls_linearizable D pg up a x y z rep quiet first second =
    let from : Linear D pg up a [] x = record {
      table = rep;
      once = tt;
      owes = λ j. rw (quiet j) refl;
    } in
    let (h, at_y) = Execution-Linear D pg up a [] first from in
    let (new, at_z) = Execution-Linear D pg up a (h ++ []) second at_y in
    (
      h ++ [],
      new,
      Linear-Explains D pg up a (h ++ []) y at_y,
      Linear-Explains D pg up a (new ++ (h ++ [])) z at_z,
    )
