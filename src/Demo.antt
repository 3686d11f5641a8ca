-- ===== src/Demo.antt =====
-- cmd/flowhand-demo/main.go: the reference producer. Its loop is a fold over what `submitOne` answered
-- at each tick; the list ends where the context is done. Of its logs the warning that a submit was not
-- replayed and the error of the metrics server are modelled; `produce` is `run` from its settings to its
-- end, and signals end the list of answers.
pub mod Laws
pub mod Balance
pub mod Exit
pub mod Served
use flowhand.Base.{
  ◌≡◌, ℕ, ◌+◌, ◌/◌, ◌%◌, Bool, true, false, ◌==◌, String, Option, none, some, List, [], ◌∷◌, nat_eq,
  if◌then◌else◌,
}
use flowhand.Config.{ℤ, pos}
use flowhand.Config.Pool.{is_positive}
use flowhand.Failure.{
  GoError, errorf, wrap, errors_is, err_server_closed, Result, ok, err, map_err, ◌>>=◌,
}

-- `n` and `lastID` of the loop, the counter `submits` by its label, and the warnings of a submit that
-- was not replayed.
pub record Producer : Type 0 where
  pub n : ℕ
  pub last_id : String
  pub created : ℕ
  pub replayed : ℕ
  pub errors : ℕ
  pub warnings : ℕ

abbrev pub start : Producer
start = record { n = 0; last_id = ""; created = 0; replayed = 0; errors = 0; warnings = 0 }

-- The idempotency key of a tick: the run and the number that `fmt.Sprintf("%s-%d", runID, n/2)` prints.
abbrev pub key : String → Producer → String × ℕ
key run_id p = (run_id, p.n / 2)

-- The rest of the loop's body, after `n++`.
abbrev account : Bool → Result String → Producer → Producer
account first_of_pair (err e) p = record p { errors = p.errors + 1; last_id = "" }
account true (ok id) p = record p { created = p.created + 1; last_id = id }
account false (ok id) p =
    if p.last_id == ""
    then record p { created = p.created + 1 }
    else if id == p.last_id
    then record p { replayed = p.replayed + 1 }
    else record p { created = p.created + 1; last_id = id; warnings = p.warnings + 1 }

-- One tick, by what `submitOne` answered.
unfoldable pub tick : Result String → Producer → Producer
tick answer p = account (nat_eq (p.n % 2) 0) answer (record p { n = p.n + 1 })

unfoldable pub run : List (Result String) → Producer → Producer
run [] p = p
run (answer ∷ answers) p = run answers (tick answer p)

-- What `client.Do` gives: the status, and what `json.NewDecoder(resp.Body).Decode` makes of the body.
pub record Response : Type 0 where
  pub status_code : ℕ
  pub task_id : Result String

abbrev read_id : Response → Result String
read_id resp =
    if nat_eq resp.status_code 201
    then map_err (wrap "decode task") resp.task_id
    else err (errorf "unexpected status")

-- `submitOne`, over what the JSON encoder, the request's constructor and the client answer.
unfoldable pub submit_one :
    {Body Request : Type 0}
    → Result Body
    → (Body → Result Request)
    → (Request → Result Response)
    → Result String
submit_one marshalled new_request client_do = do
  body ← map_err (wrap "marshal request") marshalled
  req ← map_err (wrap "new request") (new_request body)
  resp ← map_err (wrap "post task") (client_do req)
  read_id resp

-- `envOr`, where `e` is `os.Getenv(env)`.
abbrev pub env_or : String → String → String
env_or e def = if e == "" then def else e

abbrev parsed_or : Result ℤ → ℤ → ℤ
parsed_or (ok d) def = d
parsed_or (err e) def = def

-- `envDur`, where `ds` is `os.Getenv(env)`; durations are in nanoseconds.
abbrev pub env_dur : (String → Result ℤ) → String → ℤ → ℤ
env_dur parse_duration ds def = if ds == "" then def else parsed_or (parse_duration ds) def

-- `target`, `interval` and `metricsAddr` of `run`.
pub record Settings : Type 0 where
  pub target : String
  pub interval : ℤ
  pub metrics_addr : String

abbrev pub settings : (String → String) → (String → Result ℤ) → Settings
settings getenv parse_duration = record {
  target = env_or (getenv "FLOWHAND_URL") "http://host.docker.internal:8080";
  interval = env_dur parse_duration (getenv "DEMO_INTERVAL") (pos 1000000000);
  metrics_addr = env_or (getenv "DEMO_METRICS_ADDR") ":8081";
}

-- How `run` ends: a return, with what the loop counted, or the panic of `time.NewTicker`.
pub data Ending : Type 0 where
  returned : Option GoError → Producer → Ending
  panicked : Ending

abbrev pub stopped : Option GoError → Producer → Ending
stopped none p = returned none p
stopped (some e) p = returned (some (wrap "metrics shutdown" e)) p

-- From the endpoint on: the ticker, which panics unless the interval is positive, the loop over the
-- answers, and the shutdown of the metrics server.
abbrev pub ticking : ℤ → (String → List (Result String)) → Option GoError → Result String → Ending
ticking interval answers shutdown (err e) = returned (some (wrap "bad FLOWHAND_URL" e)) start
ticking interval answers shutdown (ok endpoint) =
    if is_positive interval then stopped shutdown (run (answers endpoint) start) else panicked

-- `run`, over the environment, `url.JoinPath`, what `submitOne` answers of an endpoint until the context
-- is done, and what `Shutdown` returns.
unfoldable pub produce :
    (String → String)
    → (String → Result ℤ)
    → (String → String → Result String)
    → (String → List (Result String))
    → Option GoError
    → Ending
produce getenv parse_duration join_path answers shutdown =
    let s = settings getenv parse_duration in
    ticking s.interval answers shutdown (join_path s.target "/v1/tasks")

-- What the goroutine of the metrics server logs of `ListenAndServe`: no error after a shutdown.
abbrev pub metrics_log : Option GoError → Option GoError
metrics_log none = none
metrics_log (some e) = if errors_is err_server_closed e then none else some e

-- `main`: the exit status, where a panic is the runtime's 2.
abbrev pub main_status : Ending → ℕ
main_status (returned none p) = 0
main_status (returned (some e) p) = 1
main_status panicked = 2
