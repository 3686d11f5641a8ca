-- ===== src/Obs/Log.antt =====
-- internal/obs/log.go: the process logger, whose handler stamps the span's ids onto records. The
-- handlers of log/slog are the record `Slog`; the writer is part of them.
pub mod Laws
use flowhand.Base.{◌==◌, String, Option, none, some, List, [], ◌∷◌, ◌++◌, if◌then◌else◌}
use flowhand.Failure.{GoError}
use flowhand.Config.{Obs}

pub data Level : Type 0 where
  debug info warn error : Level

-- `parseLevel`
unfoldable pub parse_level : String → Level
parse_level s =
    if s == "debug"
    then debug
    else if s == "warn"
    then warn
    else if s == "error"
    then error
    else info

-- `slog.Attr` of a text.
abbrev pub Attr : Type 0
Attr = String × String

-- `slog.Record`
pub record LogRecord : Type 0 where
  pub level : Level
  pub message : String
  pub attrs : List Attr

-- The ids of a `trace.SpanContext` that is valid.
pub record SpanContext : Type 0 where
  pub trace_id : String
  pub span_id : String

-- The handlers of log/slog that the program makes: `Out` is what they write to.
pub record Slog : Type 1 where
  pub H : Type 0
  pub Out : Type 0
  pub new_text_handler : Level → H
  pub new_json_handler : Level → H
  pub with_attrs : H → List Attr → H
  pub with_group : H → String → H
  pub handle : H → LogRecord → Out → Option GoError × Out

-- `r.AddAttrs` of `trace_id` and `span_id`, if the context has a valid span.
abbrev pub stamp : Option SpanContext → LogRecord → LogRecord
stamp none r = r
stamp (some sc) r = record r {
  attrs = r.attrs ++ ("trace_id", sc.trace_id) ∷ ("span_id", sc.span_id) ∷ [];
}

module _ (S : Slog) where
  -- `traceHandler`
  pub record TraceHandler : Type 0 where
    pub handler : S.H

  -- A `slog.Handler`: one of log/slog, or the program's.
  pub data Handler : Type 0 where
    bare : S.H → Handler
    tracing : TraceHandler → Handler

  -- `Handle`, with the span of the context.
  unfoldable pub handle :
      TraceHandler → Option SpanContext → LogRecord → S.Out → Option GoError × S.Out
  handle h sc r out = S.handle h.handler (stamp sc r) out

  -- `WithAttrs`
  unfoldable pub with_attrs : TraceHandler → List Attr → Handler
  with_attrs h attrs = tracing (record { handler = S.with_attrs h.handler attrs })

  -- `WithGroup`
  unfoldable pub with_group : TraceHandler → String → Handler
  with_group h name =
      if name == "" then tracing h else tracing (record { handler = S.with_group h.handler name })

  -- `newLogger`
  unfoldable pub new_logger : String → String → Handler
  new_logger format level =
      let opts = parse_level level in
      let h = if format == "json" then S.new_json_handler opts else S.new_text_handler opts in
      tracing (record { handler = h })

  -- `NewLogger`
  abbrev pub logger_of : Obs → Handler
  logger_of cfg = new_logger cfg.log_format cfg.log_level
