-- ===== src/App/Lifecycle/Laws.antt =====
-- `Run` returns, and with what.
use flowhand.Base.{
  ◌≡◌, ◌≢◌, refl, ◌⊎◌, inl, inr, ℕ, ◌+◌, ◌≤◌, ◌<◌, Bool, true, false, Option, none, some, arith,
  Bool-cases,
}
use flowhand.Failure.{GoError, sentinel, errors_is, err_server_closed}
use flowhand.App.Lifecycle.{
  Listener, listening, sending, ended, Main, selecting, stopping, receiving, returned, Closing,
  not_called, called, failed, done, Process, at, report, begin, Step, cancels, listen_returns,
  sends, listener_first, canceled_first, shutdown_fails, shutdown_done, receives, Run, here, next,
}

-- Between goroutine and channel: nothing sent yet, or the goroutine has ended and its value is there.
abbrev Pipe : (Option GoError → Type 0) → Listener → Option (Option GoError) → Type 0
Pipe P listening none = Unit
Pipe P (sending v) none = P v
Pipe P ended (some v) = P v
Pipe P _ _ = ⊥

abbrev IsError : Option GoError → Type 0
IsError v = (e : GoError) × (v ≡ some e)

abbrev IsAny : Option GoError → Type 0
IsAny v = Unit

-- What holds of every process that `Run` can get to.
abbrev IsSound : Process → Type 0
IsSound (at c k l ch selecting) = (k ≡ not_called) × Pipe IsError l ch
IsSound (at c k l ch stopping) = (c ≡ true) × (k ≡ called) × Pipe IsAny l ch
IsSound (at c k l ch receiving) = (c ≡ true) × (k ≡ done) × Pipe IsAny l ch
IsSound (at c k l ch (returned v)) =
    (IsError v × (c ≡ true) × (k ≡ failed) × Pipe IsAny l ch)
    ⊎ ((l ≡ ended) × (ch ≡ none) × (IsError v ⊎ ((c ≡ true) × (k ≡ done))))

Pipe-IsAny : (l : Listener) (ch : Option (Option GoError)) → Pipe IsError l ch → Pipe IsAny l ch
Pipe-IsAny listening none p = tt
Pipe-IsAny listening (some v) p = elim p [ ]
Pipe-IsAny (sending v) none p = tt
Pipe-IsAny (sending v) (some w) p = elim p [ ]
Pipe-IsAny ended none p = elim p [ ]
Pipe-IsAny ended (some v) p = tt

-- `ListenAndServe` returns with a value for the channel.
Pipe-sending :
    (P : Option GoError → Type 0) (v : Option GoError) (ch : Option (Option GoError))
    → P v
    → Pipe P listening ch
    → Pipe P (sending v) ch
Pipe-sending P v none h p = h
Pipe-sending P v (some w) h p = p

report-IsError :
    (e : GoError) (k : Closing)
    → (errors_is err_server_closed e ≡ true → k ≢ not_called)
    → k ≡ not_called
    → IsError (report e)
report-IsError e k closed not_yet = elim (Bool-cases (errors_is err_server_closed e)) [
  | inl shut ↦ absurd (closed shut not_yet)
  | inr other ↦ (e, rw other refl)
]

Pipe-ended :
    (P : Option GoError → Type 0) (l : Listener) (v : Option GoError)
    → Pipe P l (some v)
    → (l ≡ ended) × P v
Pipe-ended P listening v p = elim p [ ]
Pipe-ended P (sending w) v p = elim p [ ]
Pipe-ended P ended v p = (refl, p)

Step-IsSound : {x y : Process} → Step x y → IsSound x → IsSound y
Step-IsSound (cancels k l ch selecting) h = h
Step-IsSound (cancels k l ch stopping) (c, k', p) = (refl, k', p)
Step-IsSound (cancels k l ch receiving) (c, k', p) = (refl, k', p)
Step-IsSound (cancels k l ch (returned v)) (inl (e, c, k', p)) = inl (e, refl, k', p)
Step-IsSound (cancels k l ch (returned v)) (inr (l', ch', inl e)) = inr (l', ch', inl e)
Step-IsSound (cancels k l ch (returned v)) (inr (l', ch', inr (c, k'))) =
    inr (l', ch', inr (refl, k'))
Step-IsSound (listen_returns c k ch selecting e closed) (k', p) =
    (k', Pipe-sending IsError (report e) ch (report-IsError e k closed k') p)
Step-IsSound (listen_returns c k ch stopping e closed) (c', k', p) =
    (c', k', Pipe-sending IsAny (report e) ch tt p)
Step-IsSound (listen_returns c k ch receiving e closed) (c', k', p) =
    (c', k', Pipe-sending IsAny (report e) ch tt p)
Step-IsSound (listen_returns c k ch (returned v) e closed) (inl (f, c', k', p)) =
    inl (f, c', k', Pipe-sending IsAny (report e) ch tt p)
Step-IsSound (listen_returns c k ch (returned v) e closed) (inr (l, none_left, h)) = cc l
Step-IsSound (sends c k v selecting) h = h
Step-IsSound (sends c k v stopping) h = h
Step-IsSound (sends c k v receiving) h = h
Step-IsSound (sends c k v (returned w)) (inl h) = inl h
Step-IsSound (sends c k v (returned w)) (inr (l, ch, h)) = cc l
Step-IsSound (listener_first c k l v) (k', p) =
    let (stopped, e) = Pipe-ended IsError l v p in inr (stopped, refl, inl e)
Step-IsSound (canceled_first k l ch) (k', p) = (refl, refl, Pipe-IsAny l ch p)
Step-IsSound (shutdown_fails c k l ch e) (c', k', p) = inl ((e, refl), c', refl, p)
Step-IsSound (shutdown_done c k l ch) (c', k', p) = (c', refl, p)
Step-IsSound (receives c k l v) (c', k', p) =
    let (stopped, _) = Pipe-ended IsAny l v p in inr (stopped, refl, inr (c', k'))

Run-IsSound : {x : Process} {n : ℕ} {y : Process} → Run x n y → IsSound x → IsSound y
Run-IsSound here h = h
Run-IsSound (next before step) h = Step-IsSound step (Run-IsSound before h)

-- `Run` returns nil only after its context was cancelled and `Shutdown` has returned nil, and then the
-- goroutine has ended and the channel is empty: nothing is left running.
pub Run-nil :
    {n : ℕ} {c : Bool} {k : Closing} {l : Listener} {ch : Option (Option GoError)}
    → Run begin n (at c k l ch (returned none))
    → (c ≡ true) × (k ≡ done) × (l ≡ ended) × (ch ≡ none)
Run-nil run = nil_cases (Run-IsSound run (refl, tt))
  where
    nil_cases :
        {c : Bool} {k : Closing} {l : Listener} {ch : Option (Option GoError)}
        → IsSound (at c k l ch (returned none))
        → (c ≡ true) × (k ≡ done) × (l ≡ ended) × (ch ≡ none)
    nil_cases (inl ((e, f), c, k, p)) = cc f
    nil_cases (inr (l, ch, inl (e, f))) = cc f
    nil_cases (inr (l, ch, inr (c, k))) = (c, k, l, ch)

-- ## It returns

abbrev listener_left : Listener → ℕ
listener_left listening = 2
listener_left (sending v) = 1
listener_left ended = 0

abbrev main_left : Main → ℕ
main_left selecting = 3
main_left stopping = 2
main_left receiving = 1
main_left (returned v) = 0

abbrev cancel_left : Bool → ℕ
cancel_left true = 0
cancel_left false = 1

-- The steps that can still be taken, at most.
abbrev left : Process → ℕ
left (at c k l ch m) = cancel_left c + listener_left l + main_left m

Step-left : {x y : Process} → Step x y → left y < left x
Step-left (cancels k l ch m) = omega arith
Step-left (listen_returns c k ch m e closed) = omega arith
Step-left (sends c k v m) = omega arith
Step-left (listener_first c k l v) = omega arith
Step-left (canceled_first k l ch) = omega arith
Step-left (shutdown_fails c k l ch e) = omega arith
Step-left (shutdown_done c k l ch) = omega arith
Step-left (receives c k l v) = omega arith

Run-left : {x : Process} {n : ℕ} {y : Process} → Run x n y → n + left y ≤ left x
Run-left here = omega arith
Run-left (next before step) = let a = Run-left before in let b = Step-left step in omega arith

-- What can happen next.
abbrev Moves : Process → Type 0
Moves x = (y : Process) × Step x y

-- A goroutine that listens can return once `Shutdown` was called, and one that sends is never blocked.
Pipe-Moves :
    (c : Bool) (k : Closing) (l : Listener) (ch : Option (Option GoError)) (m : Main)
    → k ≢ not_called
    → Pipe IsAny l ch
    → Moves (at c k l ch m) ⊎ ((v : Option GoError) × (l ≡ ended) × (ch ≡ some v))
Pipe-Moves c k listening ch m closing p =
    inl (_, listen_returns c k ch m (sentinel err_server_closed) (λ _. closing))
Pipe-Moves c k (sending v) none m closing p = inl (_, sends c k v m)
Pipe-Moves c k (sending v) (some w) m closing p = elim p [ ]
Pipe-Moves c k ended none m closing p = elim p [ ]
Pipe-Moves c k ended (some v) m closing p = inr (v, refl, refl)

-- `Run` has returned and the goroutine has ended.
abbrev pub IsOver : Process → Type 0
IsOver (at c k l ch m) = ((v : Option GoError) × (m ≡ returned v)) × (l ≡ ended)

IsSound-IsOver :
    (k : Closing) (l : Listener) (ch : Option (Option GoError)) (m : Main)
    → IsSound (at true k l ch m)
    → IsOver (at true k l ch m) ⊎ Moves (at true k l ch m)
IsSound-IsOver k l ch selecting h = inr (_, canceled_first k l ch)
IsSound-IsOver k l ch stopping h = inr (_, shutdown_done true k l ch)
IsSound-IsOver k l ch receiving (c, k', p) =
    rw k' (received (Pipe-Moves true done l ch receiving (λ e. cc e) p))
  where
    received :
        Moves (at true done l ch receiving) ⊎ ((v : Option GoError) × (l ≡ ended) × (ch ≡ some v))
        → IsOver (at true done l ch receiving) ⊎ Moves (at true done l ch receiving)
    received (inl moves) = inr moves
    received (inr (v, l', ch')) =
        inr (at true done l none (returned v), rw ch' (receives true done l v))
IsSound-IsOver k l ch (returned v) (inl (e, c, k', p)) =
    rw k' (drained (Pipe-Moves true failed l ch (returned v) (λ e. cc e) p))
  where
    drained :
        Moves (at true failed l ch (returned v))
          ⊎ ((w : Option GoError) × (l ≡ ended) × (ch ≡ some w))
        → IsOver (at true failed l ch (returned v)) ⊎ Moves (at true failed l ch (returned v))
    drained (inl moves) = inr moves
    drained (inr (w, l', ch')) = inl ((v, refl), l')
IsSound-IsOver k l ch (returned v) (inr (l', ch', h)) = inl ((v, refl), l')

-- Once the context is cancelled `Run` ends, and the goroutine with it: no run from the beginning has
-- more than six steps, and where one stops short of a further step, `Run` has returned and the
-- goroutine has ended, whether the server shut down in time or not.
pub Run-ends :
    {n : ℕ} {k : Closing} {l : Listener} {ch : Option (Option GoError)} {m : Main}
    → Run begin n (at true k l ch m)
    → (n ≤ 6) × (IsOver (at true k l ch m) ⊎ ((y : Process) × Step (at true k l ch m) y))
Run-ends {k = k} {l = l} {ch = ch} {m = m} run =
    let bound = Run-left run in (omega arith, IsSound-IsOver k l ch m (Run-IsSound run (refl, tt)))
