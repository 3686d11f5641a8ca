-- ===== src/App.antt =====
-- What internal/cli/server.go and internal/server/server.go put together: the repositories on the pool,
-- the service on the repositories, the handler on the service, the generated server with its error
-- handler on the handler. `text` is `err.Error()`, `marshal` is `json.Marshal` of a payload.
pub mod Exchange
pub mod Replay
pub mod ReadBack
pub mod Routing
pub mod Lifecycle
pub mod Mux
pub mod Refines
pub mod Errors
pub mod Rejected
use flowhand.Base.{String}
use flowhand.Failure.{GoError, Result}
use flowhand.Domain.{RawMessage}
use flowhand.Storage.{Database}
use flowhand.Service.{Injected}
use flowhand.Wiring.{submit_task, get_task}
use flowhand.Oas.Schemas.{CreateTaskRequestPayload}
use flowhand.Oas.Jx.{Jx}
use flowhand.Oas.Http
use flowhand.Oas.Http.{Request}
use flowhand.Oas.Request.{Libs}
use flowhand.Oas.Server.{Handler, Config, server_config, serve_http}
use flowhand.Api.{Deps, handler, error_handler}

-- `oas.NewServer(h, oas.WithErrorHandler(api.ErrorHandler))`
abbrev pub config : (J : Jx) → (GoError → String) → Config J.Bytes
config J text = server_config (error_handler J text)

abbrev pub deps :
    (D : Database) → Injected → (CreateTaskRequestPayload → Result RawMessage) → Deps D.State
deps D env marshal = record { submit = submit_task D env; get = get_task D; marshal = marshal }

-- A request served by the generated server over the wired application.
abbrev pub serve :
    (J : Jx)
    → Libs
    → (GoError → String)
    → (D : Database) → Injected
    → (CreateTaskRequestPayload → Result RawMessage)
    → Request J.Bytes
    → Http.Exchange J.Bytes
    → D.State
    → Http.Exchange J.Bytes × D.State
serve J libs text D env marshal = serve_http J libs (config J text) (handler (deps D env marshal))
