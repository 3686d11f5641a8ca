-- ===== src/Oas/Request.antt =====
-- internal/api/oas/oas_request_decoders_gen.go and oas_parameters_gen.go: from a request to the
-- arguments of the handler.
pub mod Laws
use flowhand.Base.{
  ◌≡◌, ℕ, Bool, true, false, ◌==◌, String, Option, none, some, List, [], ◌∷◌, nat_eq, if◌then◌else◌,
}
use flowhand.Failure.{
  GoError, errorf, wrap, decode_body, decode_param, join_one, errors_join, Result, ok, err, map_err,
  ◌>>=◌, ◌>>◌, of_error,
}
use flowhand.Domain.{Uuid}
use flowhand.Oas.Schemas.{CreateTaskRequest}
use flowhand.Oas.Jx.{Jx}
use flowhand.Oas.Json.{decode_create_task_request}
use flowhand.Oas.Validate.{StringValidator, validate_create_task_request}
use flowhand.Oas.Router.{Bytes, UrlCodec}
use flowhand.Oas.Http.{Request, Attribute}

-- The libraries' functions that the server calls beside the JSON library's.
pub record Libs : Type 0 where
  pub urls : UrlCodec
  -- `mime.ParseMediaType`, the media type of it
  pub parse_media_type : String → Result String
  -- `DecodeValue` of ogen's simple path decoder, and `conv.ToUUID`
  pub decode_value : Bytes → Result Bytes
  pub to_uuid : Bytes → Result Uuid
  pub validate_string : StringValidator
  -- `strings.ToUpper`
  pub to_upper : String → String
  -- `attribute.NewSet` and `ToSlice`, of an operation's attributes and those of the configuration
  pub attribute_set : List Attribute → List Attribute

abbrev pub length_is_zero : Option ℕ → Bool
length_is_zero none = false
length_is_zero (some n) = nat_eq n 0

abbrev pub body_required : GoError
body_required = errorf "body required"

-- `close()` over `closers`, which stays empty.
abbrev close : Option GoError
close = none

-- The deferred `rerr = errors.Join(rerr, close())`.
abbrev join_close : {A : Type 0} → Result A → Result A
join_close (ok a) = ok a
join_close (err e) = elim (errors_join (some e) close) [ none ↦ err e | some e' ↦ err e' ]

module _ (J : Jx) (libs : Libs) where
  abbrev check_trailing : J.Bytes → Result (Unit {0})
  check_trailing buf = if J.trailing buf then err (errorf "unexpected trailing data") else ok tt

  -- Decoding and validating a body that has been read.
  abbrev pub decode_buffer : J.Bytes → Result (CreateTaskRequest × J.Bytes)
  decode_buffer buf = do
    request ← map_err decode_body (do
      request ← decode_create_task_request J (J.decode_bytes buf)
      check_trailing buf
      ok request)
    map_err (wrap "validate") (of_error (validate_create_task_request libs.validate_string request))
    ok (request, buf)

  abbrev read_body : Request J.Bytes → Result (CreateTaskRequest × J.Bytes)
  read_body r = do buf ← r.body; if J.is_empty buf then err body_required else decode_buffer buf

  abbrev decode_media : Request J.Bytes → String → Result (CreateTaskRequest × J.Bytes)
  decode_media r ct =
      if ct == "application/json"
      then if length_is_zero r.content_length then err body_required else read_body r
      else err (errorf "invalid content type")

  -- `decodeCreateTaskRequest`: the request and the raw body.
  unfoldable pub decode_request_body : Request J.Bytes → Result (CreateTaskRequest × J.Bytes)
  decode_request_body r = join_close (do
    ct ← map_err (wrap "parse media type") (libs.parse_media_type r.content_type)
    decode_media r ct)

  abbrev unescaped : Bytes → Bool → Result Bytes
  unescaped arg true = map_err (wrap "unescape path") (libs.urls.path_unescape arg)
  unescaped arg false = ok arg

  abbrev parse_id : Bytes → Result Uuid
  parse_id [] = err (errorf "field required")
  parse_id (c ∷ param) = do val ← libs.decode_value (c ∷ param); libs.to_uuid val

  -- `decodeGetTaskParams`
  unfoldable pub decode_get_task_params : Bytes → Bool → Result Uuid
  decode_get_task_params arg escaped =
      map_err decode_param (do param ← unescaped arg escaped; parse_id param)
