-- ===== src/Tests/Doubles.antt =====
-- Libraries that keep their promises, and the data of the tests.
use Prim.Native.String.{count}
use flowhand.Base.{
  ◌≡◌, ◌↔◌, ℕ, ◌≤◌, Bool, true, false, ◌&&◌, ◌==◌, String, none, some, [], ltb, if◌then◌else◌,
  arith, length, codes,
}
use flowhand.Failure.{GoError, errorf, Result, ok}
use flowhand.Domain
use flowhand.Domain.{Time, status_pending}
use flowhand.Storage.{Row}
use flowhand.Service.{SubmitCommand, Injected}
use flowhand.Oas.Schemas
use flowhand.Oas.Validate.{StringRules, StringValidator, CountsCharacters}
use flowhand.Oas.Router.{UrlCodec, Url}
use flowhand.Oas.Http.{Request}
use flowhand.Oas.Jx.{Value}
use flowhand.Oas.Request.{Libs}
use flowhand.Oas.Response.{json_type}

-- A validator that counts characters.
abbrev too_short : StringRules → ℕ → Bool
too_short r n = r.min_length_set && ltb n r.min_length

abbrev too_long : StringRules → ℕ → Bool
too_long r n = r.max_length_set && ltb r.max_length n

abbrev pub counting : StringValidator
counting r s =
    if too_short r (count s)
    then some (errorf "len less than minimum")
    else if too_long r (count s)
    then some (errorf "len greater than maximum")
    else none

pub counting-CountsCharacters : CountsCharacters counting
counting-CountsCharacters r s =
    by_rules r.min_length_set r.max_length_set r.min_length r.max_length (count s)
  where
    by_rules :
        (a b : Bool) (lo hi n : ℕ)
        → ((if (a && ltb n lo)
              then some (errorf "len less than minimum")
              else if (b && ltb hi n)
              then some (errorf "len greater than maximum")
              else none)
            ≡ none)
          ↔ ((a ≡ true → lo ≤ n) × (b ≡ true → n ≤ hi))
    by_rules a b lo hi n = ground arith

abbrev pub urls : UrlCodec
urls = record { normalize_escaped_path = λ path. some path; path_unescape = λ s. ok s }

abbrev pub media_type : String → Result String
media_type s = if s == json_type then ok "application/json" else ok s

abbrev pub libs : Libs
libs = record {
  urls = urls;
  parse_media_type = media_type;
  decode_value = λ s. ok s;
  to_uuid = λ s. ok (length s);
  validate_string = counting;
  to_upper = λ s. s;
  attribute_set = λ attrs. attrs;
}

abbrev pub noon : Time
noon = record { instant = 12; monotonic = some 3; is_utc = false }

abbrev pub epoch : Time
epoch = record { instant = 0; monotonic = none; is_utc = true }

abbrev pub env : Injected
env = record { now = noon; new_id = ok 7 }

abbrev pub later_env : Injected
later_env = record { now = noon; new_id = ok 8 }

abbrev pub command : SubmitCommand
command = record { handler = "echo"; payload = "{}"; idempotency_key = "key" }

abbrev pub other_command : SubmitCommand
other_command = record { handler = "mail"; payload = "{}"; idempotency_key = "key" }

-- The row that the first command leaves in an empty table.
abbrev pub stored : Row
stored = record {
  id = 7;
  idempotency_key = some "key";
  payload = "{}";
  status = status_pending;
  created_at = epoch;
  handler = "echo";
}

-- What the first command returns, and what a replay returns.
abbrev pub task : Domain.Task
task = record {
  id = 7;
  status = status_pending;
  handler = "echo";
  payload = "{}";
  created_at = record { instant = 12; monotonic = none; is_utc = true };
}

abbrev pub replayed_task : Domain.Task
replayed_task = record {
  id = 7;
  status = status_pending;
  handler = "echo";
  payload = "{}";
  created_at = epoch;
}

abbrev pub request : Schemas.CreateTaskRequest
request = record {
  handler = "echo";
  payload = Schemas.reset [];
  idempotency_key = Schemas.new_opt "key";
}

abbrev pub dto : Schemas.Task
dto = record { id = 7; status = "pending"; created_at = task.created_at }

abbrev pub replayed_dto : Schemas.Task
replayed_dto = record { id = 7; status = "pending"; created_at = epoch }

abbrev pub tasks_url : Url
tasks_url = record { path = codes "/v1/tasks"; raw_path = [] }

abbrev pub post : Value → Request Value
post body = record {
  method = "POST";
  url = tasks_url;
  content_type = "application/json";
  requested_method = "";
  content_length = none;
  body = ok body;
}

abbrev pub text_of : GoError → String
text_of e = "error"
