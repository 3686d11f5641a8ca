-- ===== src/Lib.antt =====
-- flowhand: the server of a task queue, from the HTTP request to the table and back.
--
-- A POST to /v1/tasks goes through the router and the handler that ogen generates
-- (internal/api/oas), is decoded and validated, reaches `Handler.CreateTask` (internal/api), which
-- submits it to the Commander (internal/service/task), which inserts it by the Postgres repository
-- (internal/repository/tasks) through sqlc's queries (internal/storage/queries). A taken idempotency
-- key is answered with the task that is stored under it. A GET of /v1/tasks/{id} takes the same way
-- to the Querier. Errors travel back as Go's wrapped errors and are rendered by
-- `api.ErrorHandler`.
--
-- Files:
--   Base, Action    shared names; functions that return `(value, error)` and change a state
--   Failure         Go's errors: sentinels, wrapping, errors.Is, errors.As, errors.Join
--   Domain          internal/domain, internal/domain/tasks
--   Storage         internal/storage/queries: rows and queries. `Database` is the pool with Postgres
--                   behind it, `IsPostgres` what it promises (also when the connection breaks after
--                   a commit), `IsReachable` that it answers, and that it accepts what fits among the
--                   values that the columns admit (`Admits`, a parameter: JSON payloads, texts without
--                   NUL). Storage/Table: how the table may change over time. Storage/Memory: a database
--                   that meets the promises
--   Repository      internal/repository/tasks, internal/repository/outbox, internal/storage/txmgr
--   Service         internal/service/task: Commander.Submit, Querier.Get, over their ports
--   Wiring          internal/cli/server.go: the service over the repositories. Its children are about
--                   submission (Submit, Replay, Retry, Total, and Concurrent for those that are
--                   interleaved) and reading (Read). Spec is an abstract store of tasks,
--                   Refines compares the service with it, and Concurrent/History, Moves and Linear compare
--                   interleaved calls with it: by id, handler and status, since a new task shows the clock of
--                   the service as its time of creation and a stored one that of the database.
--                   Concurrent/Whole puts the parts of a submission together
--   Oas             internal/api/oas. Schemas, Json, Validate, Router, Http (the exchange: response,
--                   counters, span), Request, Response, Server, Client, Options (the configurations of
--                   both), Labels (the labeler behind its pointer; the application adds no labels, so
--                   the handlers are modelled with those they start from). Json/Standard is `MarshalJSON`
--                   and `UnmarshalJSON`. Client/Laws and Client/Read are about the client against the
--                   server, Client/Account about what a call leaves in the instruments. Jx is the
--                   JSON library as a parameter with what it promises: a time is written in whole
--                   seconds, a raw text is read without the white space around it; Jx/Tree meets that
--   Api             internal/api: handler, mapper, error handler. Shown is what they make of the
--                   service's answers
--   App             internal/server: the generated server over all of this. Mux is its set-up,
--                   Refines compares the handler with the abstract store of Wiring/Spec, Exchange,
--                   Routing and Rejected are about what a client is sent, Errors about
--                   an error on its way to the generated client, and Lifecycle is how `Run`
--                   listens and shuts down, as a step relation
--   Obs             internal/obs: logger, telemetry and its shutdown
--   Cli             internal/cli, cmd/flowhand: the server's command and its deferred calls
--   Config          internal/config: Load over koanf as a parameter. Config/Pool: NewPool of
--                   internal/storage
--   Demo            cmd/flowhand-demo: the loop of the reference producer. Laws and Balance are about its
--                   counters, Exit about how it ends, Served runs it against the server over a database
--   Tests           the theorems at concrete inputs
--
-- Parameters: Postgres and its driver, jx and ogen's helpers, url and mime parsing, ogen's string
-- validator, json.Marshal, `err.Error()`, net/http's cleaning of paths, the clock and the source
-- of ids, koanf, log/slog, OpenTelemetry and Prometheus, the client's network. What is assumed of
-- one is a named hypothesis: `IsPostgres`, `IsReachable`, `IsJx`, `CountsCharacters`, `Delivers`,
-- `DeliversGet`, `Carries`, `Starts`.
--
-- A `uuid.UUID` is the number of its 16 bytes, a path is the list of its bytes, a header map and a
-- payload are association lists with one entry for each key. All recursion is structural, so there is
-- no fuel. `Commander.Submit` is one step, except in Wiring/Concurrent, which cuts it where it returns
-- from its transaction; what others do to the table between two steps is `Reach` of Storage/Table.
--
-- Not modelled: a nil response of a handler, for which the encoders have a default case; log
-- records but for the few that a theorem is about, traces but for their status, and how long
-- requests take; middleware, which the program does not set (its option is modelled); the
-- registration of commands and flags with cobra; what the endpoints of Prometheus and pprof
-- answer; the generated protobuf code, which nothing uses.
pub mod Base
pub mod Failure
pub mod Action
pub mod Domain
pub mod Storage
pub mod Repository
pub mod Service
pub mod Wiring
pub mod Oas
pub mod Api
pub mod App
pub mod Demo
pub mod Config
pub mod Obs
pub mod Cli
pub mod Tests
