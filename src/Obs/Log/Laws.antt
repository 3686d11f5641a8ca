-- ===== src/Obs/Log/Laws.antt =====
-- Every logger that is derived from the process logger stamps the span's ids.
use flowhand.Failure.{GoError}
use flowhand.Base.{
  ◌≡◌, refl, ◌∙◌, ap, ◌==◌, String, Option, List, [], ◌∷◌, Bool-cases, inl, inr, if◌then◌else◌,
}
use flowhand.Obs.Log
use flowhand.Obs.Log.{
  Level, Attr, LogRecord, SpanContext, Slog, Handler, bare, tracing, stamp, parse_level, new_logger,
}

-- A call of `WithAttrs` or `WithGroup` of a handler, by which log/slog derives loggers.
pub data Derivation : Type 0 where
  attrs : List Attr → Derivation
  group : String → Derivation

module _ (S : Slog) where
  -- The methods of a `slog.Handler`, by its dynamic type.
  abbrev pub handle : Handler S → Option SpanContext → LogRecord → S.Out → Option GoError × S.Out
  handle (bare h) sc r out = S.handle h r out
  handle (tracing h) sc r out = Log.handle S h sc r out

  abbrev pub with_attrs : Handler S → List Attr → Handler S
  with_attrs (bare h) a = bare (S.with_attrs h a)
  with_attrs (tracing h) a = Log.with_attrs S h a

  abbrev pub with_group : Handler S → String → Handler S
  with_group (bare h) name = bare (S.with_group h name)
  with_group (tracing h) name = Log.with_group S h name

  abbrev pub derive : List Derivation → Handler S → Handler S
  derive [] h = h
  derive (attrs a ∷ ds) h = derive ds (with_attrs h a)
  derive (group name ∷ ds) h = derive ds (with_group h name)

  -- The same calls on a handler of log/slog, without the groups that have no name.
  abbrev pub derive_plain : List Derivation → S.H → S.H
  derive_plain [] h = h
  derive_plain (attrs a ∷ ds) h = derive_plain ds (S.with_attrs h a)
  derive_plain (group name ∷ ds) h = derive_plain ds (if name == "" then h else S.with_group h name)

  abbrev traced : S.H → Handler S
  traced h = tracing (record { handler = h })

  with_group-traced :
      (h : S.H) (name : String)
      → with_group (traced h) name ≡ traced (if name == "" then h else S.with_group h name)
  unfolding Log.with_group
  with_group-traced h name = elim (Bool-cases (name == "")) [
    | inl e ↦ rw e refl
    | inr e ↦ rw e refl
  ]

  derive-traced :
      (ds : List Derivation) (h : S.H) → derive ds (traced h) ≡ traced (derive_plain ds h)
  unfolding Log.with_attrs
  derive-traced [] h = refl
  derive-traced (attrs a ∷ ds) h = derive-traced ds (S.with_attrs h a)
  derive-traced (group name ∷ ds) h =
      ap (derive ds) (with_group-traced h name)
      ∙ derive-traced ds (if name == "" then h else S.with_group h name)

  -- The handler that the configuration asks for.
  abbrev pub plain : String → Level → S.H
  plain format level =
      if format == "json" then S.new_json_handler level else S.new_text_handler level

  -- However a handler is derived from that of the process logger, by attributes and by groups, a record
  -- that it handles is what log/slog's own handler, derived in the same way, handles of the record with
  -- the ids of the context's span: no derivation gives a bare handler that drops them, and without a
  -- valid span nothing is added.
  pub handle-derive :
      (format level : String) (ds : List Derivation) (sc : Option SpanContext) (r : LogRecord)
      (out : S.Out)
      → handle (derive ds (new_logger S format level)) sc r out
        ≡ S.handle (derive_plain ds (plain format (parse_level level))) (stamp sc r) out
  unfolding Log.handle new_logger
  handle-derive format level ds sc r out =
      ap (λ h. handle h sc r out) (derive-traced ds (plain format (parse_level level)))
