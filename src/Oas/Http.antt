-- ===== src/Oas/Http.antt =====
-- An HTTP exchange as the generated server sees it: net/http's request, and everything that handling
-- one changes outside the application: the response, the span and the metrics.
use flowhand.Base.{
  ℕ, Bool, true, ◌||◌, String, Option, none, some, List, [], ◌∷◌, ◌++◌, ltb, leb, nat_eq,
  if◌then◌else◌,
}
use flowhand.Failure.{GoError, or_else, Result}
use flowhand.Oas.Schemas.{map_set}
use flowhand.Oas.Jx.{Jx, Value}
use flowhand.Oas.Router.{Url}

pub record Request (Bytes : Type 0) : Type 0 where
  pub method : String
  pub url : Url
  -- `r.Header.Get("Content-Type")` and `r.Header.Get("Access-Control-Request-Method")`
  pub content_type : String
  pub requested_method : String
  -- None if it is unknown, which is -1 in Go.
  pub content_length : Option ℕ
  -- What `io.ReadAll(r.Body)` gives.
  pub body : Result Bytes

abbrev pub Header : Type 0
Header = List (String × String)

pub data Chunk (Bytes : Type 0) : Type 0 where
  json : Bytes → Chunk Bytes
  text : String → Chunk Bytes

-- `attribute.KeyValue`, by the function or the key of `otelogen` and `semconv` that makes it.
pub data Attribute : Type 0 where
  operation_id http_request_method http_route url_template : String → Attribute
  http_response_status_code : ℕ → Attribute
  other : String → String → Attribute

-- `header` is the header map, `sent` the status and the headers of the first `WriteHeader`, which
-- are those on the wire; `recorded` is `codeRecorder.status`. `requests`, `errors` and `durations`
-- are the attributes of the samples that were recorded, a duration without its value. A connection
-- that is broken fails writes.
pub record Exchange (Bytes : Type 0) : Type 0 where
  pub header : Header
  pub recorded : ℕ
  pub sent : Option (ℕ × Header)
  pub body : List (Chunk Bytes)
  pub broken : Option GoError
  pub span_error : Bool
  pub stages : List String
  pub requests : List (List Attribute)
  pub errors : List (List Attribute)
  pub durations : List (List Attribute)

-- The attributes of a sample: those of the request, and the code if one was written.
abbrev pub with_code : ℕ → List Attribute → List Attribute
with_code code attrs = if nat_eq code 0 then attrs else attrs ++ http_response_status_code code ∷ []

module _ {Bytes : Type 0} where
  -- `w.Header().Set(key, value)`
  abbrev pub set_header : String → String → Exchange Bytes → Exchange Bytes
  set_header key value x = record x { header = map_set key value x.header }

  -- `codeRecorder.WriteHeader`: the status is recorded each time, and the first one is sent.
  abbrev pub write_header : ℕ → Exchange Bytes → Exchange Bytes
  write_header status x = record x {
    recorded = status;
    sent = or_else x.sent (some (status, x.header));
  }

  abbrev pub write_chunk : Chunk Bytes → Exchange Bytes → Exchange Bytes
  write_chunk c x = record x { body = x.body ++ c ∷ [] }

  -- `span.SetStatus(codes.Error, ...)`
  abbrev pub set_span_error : Exchange Bytes → Exchange Bytes
  set_span_error x = record x { span_error = true }

  -- `recordError`: a code below 100 (none was written) or from 500 on marks the span, and the error
  -- is counted.
  abbrev pub record_error : List Attribute → String → Exchange Bytes → Exchange Bytes
  record_error attrs stage x = record x {
    span_error = x.span_error || (ltb x.recorded 100 || leb 500 x.recorded);
    stages = x.stages ++ stage ∷ [];
    errors = x.errors ++ with_code x.recorded attrs ∷ [];
  }

  -- The deferred closure of a handler: the request is counted, and its duration recorded.
  abbrev pub count_request : List Attribute → Exchange Bytes → Exchange Bytes
  count_request attrs x = record x {
    requests = x.requests ++ with_code x.recorded attrs ∷ [];
    durations = x.durations ++ with_code x.recorded attrs ∷ [];
  }

-- `e.WriteTo(w)`: the bytes are written, unless the connection is broken.
abbrev write_unless :
    {Bytes : Type 0} → Option GoError → Bytes → Exchange Bytes → Option GoError × Exchange Bytes
write_unless none bytes x = (none, write_chunk (json bytes) x)
write_unless (some e) bytes x = (some e, x)

abbrev pub write_to : (J : Jx) → Value → Exchange J.Bytes → Option GoError × Exchange J.Bytes
write_to J v x = write_unless x.broken (J.write v) x
