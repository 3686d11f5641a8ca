-- ===== src/Demo/Exit.antt =====
-- How the producer ends.
use flowhand.Base.{
  ◌≡◌, refl, ◌∙◌, sym, inl, inr, true, false, String, List, arith, Bool-cases, ◌↔◌, ◌≢◌, Option,
  none, some, ap,
}
use flowhand.Failure.{GoError, Result, ok, err}
use flowhand.Config.{ℤ, pos}
use flowhand.Config.Pool.{is_positive}
use flowhand.Demo.{
  Producer, start, run, settings, produce, panicked, stopped, ticking, env_dur, main_status,
}

stopped-panicked : (e : Option GoError) (p : Producer) → stopped e p ≢ panicked
stopped-panicked none p h = cc h
stopped-panicked (some e) p h = cc h

stopped_status : (e : Option GoError) (p : Producer) → (main_status (stopped e p) ≡ 0) ↔ (e ≡ none)
stopped_status none p = ((λ h. refl), (λ h. refl))
stopped_status (some e) p = ((λ h. absurd (omega arith)), (λ h. cc h))

module _ (interval : ℤ) (answers : String → List (Result String)) (shutdown : Option GoError) where
  ticking-panicked :
      (o : Result String)
      → (ticking interval answers shutdown o ≡ panicked)
        ↔ (((endpoint : String) × (o ≡ ok endpoint)) × (is_positive interval ≡ false))
  ticking-panicked (err e) = ((λ h. cc h), (λ h. cc (h.0.1)))
  ticking-panicked (ok endpoint) = elim (Bool-cases (is_positive interval)) [
    | inl running ↦ rw running (
      (λ h. absurd (stopped-panicked shutdown (run (answers endpoint) start) h)),
      (λ h. cc (h.1)),
    )
    | inr zero ↦ rw zero ((λ h. ((endpoint, refl), refl)), (λ h. refl))
  ]

  ticking_status :
      (o : Result String)
      → (main_status (ticking interval answers shutdown o) ≡ 0) ↔ (
          ((endpoint : String) × (o ≡ ok endpoint))
          × (is_positive interval ≡ true)
          × (shutdown ≡ none))
  ticking_status (err e) = ((λ h. absurd (omega arith)), (λ h. cc (h.0.1)))
  ticking_status (ok endpoint) =
      let (clean, quiet) = stopped_status shutdown (run (answers endpoint) start) in
      elim (Bool-cases (is_positive interval)) [
        | inl running ↦ rw running ((λ h. ((endpoint, refl), refl, clean h)), (λ h. quiet (h.2)))
        | inr zero ↦ rw zero ((λ h. absurd (omega arith)), (λ h. cc (h.1)))
      ]

-- The producer panics exactly if its URL can be joined with the path and its interval is not positive,
-- which it never is where `DEMO_INTERVAL` is not set; and its process exits with 0 exactly if the URL can
-- be joined, the interval is positive and the metrics server shuts down without an error.
pub produce-panicked_iff :
    (getenv : String → String) (parse_duration : String → Result ℤ)
    (join_path : String → String → Result String) (answers : String → List (Result String))
    (shutdown : Option GoError)
    → let s = settings getenv parse_duration in
      let ending = produce getenv parse_duration join_path answers shutdown in
      let Joins = (endpoint : String) × (join_path s.target "/v1/tasks" ≡ ok endpoint) in
      ((ending ≡ panicked) ↔ (Joins × (is_positive s.interval ≡ false)))
      × (getenv "DEMO_INTERVAL" ≡ "" → ending ≢ panicked)
      × ((main_status ending ≡ 0) ↔ (Joins × (is_positive s.interval ≡ true) × (shutdown ≡ none)))
unfolding produce
produce-panicked_iff getenv parse_duration join_path answers shutdown =
    let s = settings getenv parse_duration in
    let joined = join_path s.target "/v1/tasks" in
    (
      ticking-panicked s.interval answers shutdown joined,
      λ unset h.
          let (_, zero) = (ticking-panicked s.interval answers shutdown joined).0 h in
          let clash : true ≡ false =
            sym (ap (λ v. is_positive (env_dur parse_duration v (pos 1000000000))) unset) ∙ zero in
          cc clash,
      ticking_status s.interval answers shutdown joined,
    )
