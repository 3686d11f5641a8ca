-- ===== src/Wiring/Concurrent/Whole.antt =====
-- The parts of a call of Wiring/Concurrent, without interruption, are the call.
use flowhand.Base.{◌≡◌, refl}
use flowhand.Failure.{Result, ok, err}
use flowhand.Domain.{Uuid, utc}
use flowhand.Storage.{Database}
use flowhand.Service
use flowhand.Service.{SubmitCommand, Injected}
use flowhand.Wiring.{ports, submit_task}
use flowhand.Wiring.Concurrent.{starting, finished, advance}

-- The two parts of a submission with nothing in between are `Commander.Submit`.
advance_twice :
    (D : Database) (env : Injected) (cmd : SubmitCommand) (s : D.State)
    → let (p, s') = advance D (starting (utc env.now) cmd env.new_id) s in
      advance D p s' ≡ (finished cmd (submit_task D env cmd s).0, (submit_task D env cmd s).1)
unfolding advance Service.submit
advance_twice D env cmd s = by_id env.new_id
  where
    by_id :
        (minted : Result Uuid)
        → let (p, s') = advance D (starting (utc env.now) cmd minted) s in
          advance D p s' ≡ (
            finished cmd (Service.minted (ports D) (utc env.now) cmd minted s).0,
            (Service.minted (ports D) (utc env.now) cmd minted s).1,
          )
    by_id (ok id) = refl
    by_id (err e) = refl
