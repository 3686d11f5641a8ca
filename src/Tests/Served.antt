-- ===== src/Tests/Served.antt =====
-- The reference producer against the server over the database in memory.
use flowhand.Base.{
  ◌≡◌, refl, ◌⊎◌, inl, inr, ℕ, ◌≤◌, ◌+◌, ◌/◌, String, Option, none, some, List, [], ◌∷◌, ◌≢◌,
  length, nat_eq, if◌then◌else◌, Bool-cases,
}
use flowhand.Failure.{GoError, Result, ok, err, errorf, wrap, join_one}
use flowhand.Domain.{Uuid}
use flowhand.Storage.{Row}
use flowhand.Storage.Memory.{memory, memory-IsPostgres}
use flowhand.Storage.Table.{here}
use flowhand.Oas.Jx.{Value, object, member, uuid}
use flowhand.Oas.Jx.Tree.{tree}
use flowhand.Oas.Json.{
  encode_create_task_request, encode_create_task_request_fields, decode_create_task_request,
}
use flowhand.Oas.Json.Payload.{request_of}
use flowhand.Oas.Router.{serve_route, serve_elem, choose_elem, cut_prefix}
use flowhand.Oas.Http.{Chunk, json}
use flowhand.Oas.Request.{decode_request_body}
use flowhand.Oas.Validate.{validate_create_task_request}
use flowhand.Demo.{Producer, start}
use flowhand.Demo.Served.{Round, Wire, delivered, response_lost, produced}
use flowhand.Demo.Served.Post.{Carries}
use flowhand.Demo.Served.Laws.{produced_lem}
use flowhand.Tests.Doubles.{libs, text_of, post, counting, env, later_env}

abbrev print : String × ℕ → String
print (run_id, n) = if nat_eq n 0 then "first" else "later"

abbrev id_text : Uuid → String
id_text id = if nat_eq id 7 then "seven" else "another"

abbrev decode_id : List (Chunk Value) → Result String
decode_id (json (object (member name (uuid id) ms)) ∷ []) = ok (id_text id)
decode_id _ = err (errorf "no id")

abbrev wire : Wire Value
wire = record {
  print = print;
  post = λ k. post (encode_create_task_request (request_of "echo" none (some k)));
  decode_id = decode_id;
}

print-not_empty : (k : String × ℕ) → print k ≢ ""
print-not_empty (run_id, n) e = elim (Bool-cases (nat_eq n 0)) [
  | inl zero ↦ let e' = rw zero at e in cc e'
  | inr more ↦ let e' = rw more at e in cc e'
]

id_text-not_empty : (id : Uuid) → id_text id ≢ ""
id_text-not_empty id e = elim (Bool-cases (nat_eq id 7)) [
  | inl seven ↦ let e' = rw seven at e in cc e'
  | inr other ↦ let e' = rw other at e in cc e'
]

valid_or_not :
    (k : String) (v : Option GoError)
    → validate_create_task_request counting (request_of "echo" none (some k)) ≡ v
    → (decode_request_body tree libs (wire.post k)
        ≡ ok (
          request_of "echo" none (some k),
          encode_create_task_request (request_of "echo" none (some k)),
        ))
      ⊎ ((e : GoError) × (decode_request_body tree libs (wire.post k) ≡ err e))
unfolding decode_request_body decode_create_task_request encode_create_task_request_fields
valid_or_not k none h = inl (rw h refl)
valid_or_not k (some e) h = inr (join_one (wrap "validate" e), rw h refl)

wire-Carries : Carries tree libs wire
unfolding serve_route serve_elem choose_elem cut_prefix
wire-Carries = record {
  keyed = print-not_empty;
  routed = λ k. refl;
  request = λ k. request_of "echo" none (some k);
  raw = λ k. encode_create_task_request (request_of "echo" none (some k));
  decoded = λ k. valid_or_not k _ refl;
  key = λ k. refl;
  id_text = id_text;
  not_empty = id_text-not_empty;
  read = λ t. refl;
}

-- A pair of ticks, the response to whose first submit is lost, and a pair that goes well.
abbrev rounds : List (Round (List Row))
rounds =
    record { others = λ s. s; env = env; delivery = response_lost (errorf "reset") }
    ∷ record { others = λ s. s; env = later_env; delivery = delivered }
    ∷ record { others = λ s. s; env = later_env; delivery = delivered }
    ∷ record { others = λ s. s; env = later_env; delivery = delivered }
    ∷ []

abbrev ended : Producer
ended = (produced tree libs text_of memory (λ p. ok "{}") wire "run" rounds start []).0

produced_lem_example : (ended.warnings ≡ 0) × (length rounds / 2 ≤ ended.replayed + ended.errors)
produced_lem_example =
    produced_lem tree libs text_of memory memory-IsPostgres (λ p. ok "{}") wire wire-Carries "run"
      rounds [] ((λ s. here), ((λ s. here), ((λ s. here), ((λ s. here), tt))))
