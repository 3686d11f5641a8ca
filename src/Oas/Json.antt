-- ===== src/Oas/Json.antt =====
-- internal/api/oas/oas_json_gen.go: the generated encoders and decoders. The checks for a nil
-- receiver have no counterpart: the callers pass the address of a variable.
pub mod RoundTrip
pub mod Payload
pub mod Standard
use mathlib.Core.Bool.{xor}
use flowhand.Base.{
  ◌≡◌, ℕ, Bool, true, false, ◌&&◌, ◌==◌, String, Option, none, some, List, [], ◌∷◌, if◌then◌else◌,
}
use flowhand.Failure.{
  GoError, errorf, invalid_fields, wrap, Result, ok, err, map_err, ◌>>=◌, ◌>>◌, of_error,
}
use flowhand.Domain.{Uuid, Time}
use flowhand.Oas.Schemas.{
  Opt, new_opt, reset, OptString, CreateTaskRequestPayload, OptCreateTaskRequestPayload, map_set,
  CreateTaskRequest, empty_request, ErrorCode, Error, TaskStatus, Task, error_codes, task_statuses,
  switch,
}
use flowhand.Oas.Jx.{Jx, Value, str, raw, uuid, date_time, object, Members, end, member, bare}

-- ## Encoders

abbrev pub encode_error_fields : Error → Members
encode_error_fields s = member "code" (str s.code) (member "message" (str s.message) end)

abbrev pub encode_error : Error → Value
encode_error s = object (encode_error_fields s)

abbrev pub encode_task_fields : Task → Members
encode_task_fields s =
    member "id" (uuid s.id)
      (member "status" (str s.status) (member "created_at" (date_time s.created_at) end))

abbrev pub encode_task : Task → Value
encode_task s = object (encode_task_fields s)

-- A raw element of length zero is not written, and leaves a bare field.
unfoldable pub encode_payload_fields : CreateTaskRequestPayload → Members
encode_payload_fields [] = end
encode_payload_fields ((k, elem) ∷ s) =
    let rest = encode_payload_fields s in
    if elem == "" then bare k rest else member k (raw elem) rest

abbrev pub encode_payload : CreateTaskRequestPayload → Value
encode_payload s = object (encode_payload_fields s)

unfoldable pub encode_create_task_request_fields : CreateTaskRequest → Members
encode_create_task_request_fields s =
    let key =
      if s.idempotency_key.set
      then member "idempotency_key" (str s.idempotency_key.value) end
      else end in
    member "handler" (str s.handler)
      (if s.payload.set then member "payload" (encode_payload s.payload.value) key else key)

abbrev pub encode_create_task_request : CreateTaskRequest → Value
encode_create_task_request s = object (encode_create_task_request_fields s)

-- ## Decoders

-- `ObjBytes` with the callback `f` over a value that it fills.
abbrev pub each :
    {Doc T : Type 0}
    → (String → Doc → T → Result T)
    → List (String × Doc)
    → Option GoError
    → T
    → Result T
each f [] none t = ok t
each f [] (some e) t = err e
each f ((k, d) ∷ fields) stop t = f k d t >>= λ t'. each f fields stop t'

-- `requiredBitSet[0]` as the list of its bits, the lowest first.
abbrev pub Bits : Type 0
Bits = List Bool

-- `requiredBitSet[0] |= 1 << n`
abbrev pub set_bit : ℕ → Bits → Bits
set_bit n [] = []
set_bit ℕ.zero (b ∷ bits) = true ∷ bits
set_bit (ℕ.suc n) (b ∷ bits) = b ∷ set_bit n bits

-- The names of the bits that are set in `(requiredBitSet[i] & mask) ^ mask`, from the lowest.
abbrev pub missed : Bits → Bits → List String → List String
missed (b ∷ bits) (m ∷ mask) (name ∷ names) =
    if xor (b && m) m then name ∷ missed bits mask names else missed bits mask names
missed _ _ _ = []

-- `if len(failures) > 0`
abbrev pub any_failures : List String → Option GoError
any_failures [] = none
any_failures (name ∷ names) = some (invalid_fields (name ∷ names))

-- The check of the required fields, and the result.
abbrev pub require_fields : {T : Type 0} → Bits → List String → T × Bits → Result T
require_fields mask names (t, bits) = of_error (any_failures (missed bits mask names)) >> ok t

-- A field's value, put where it belongs, or the error with the field's name.
abbrev decoded : {V T : Type 0} → String → Result V → (V → T) → Result T
decoded text (ok v) put = ok (put v)
decoded text (err e) put = err (wrap text e)

-- `return d.Skip()`
abbrev skipped : {T : Type 0} → Result (Unit {0}) → T → Result T
skipped (ok _) t = ok t
skipped (err e) t = err e

-- `switch ErrorCode(v)` assigns the constant that is equal to `v`, or `v`.
abbrev constant_or_self : List String → String → String
constant_or_self [] v = v
constant_or_self (c ∷ cases) v = if v == c then c else constant_or_self cases v

module _ (J : Jx) where
  abbrev pub decode_error_code : J.Doc → Result ErrorCode
  decode_error_code d = J.str d >>= λ v. ok (constant_or_self error_codes v)

  abbrev pub decode_task_status : J.Doc → Result TaskStatus
  decode_task_status d = J.str d >>= λ v. ok (constant_or_self task_statuses v)

  abbrev pub decode_error_field : String → J.Doc → Error × Bits → Result (Error × Bits)
  decode_error_field k d (s, bits) =
      if k == "code"
      then decoded "decode field \"code\"" (decode_error_code d)
          (λ v. (record s { code = v }, set_bit 0 bits))
      else if k == "message"
      then decoded "decode field \"message\"" (J.str d)
          (λ v. (record s { message = v }, set_bit 1 bits))
      else skipped (J.skip d) (s, bits)

  unfoldable pub decode_error : J.Doc → Result Error
  unfolding xor
  decode_error d =
      let (fields, stop) = J.obj_bytes d in
      map_err (wrap "decode Error") (
        each decode_error_field fields stop
          (record { code = ""; message = "" }, false ∷ false ∷ []))
      >>= require_fields (true ∷ true ∷ []) ("code" ∷ "message" ∷ [])

  abbrev pub decode_task_field : String → J.Doc → Task × Bits → Result (Task × Bits)
  decode_task_field k d (s, bits) =
      if k == "id"
      then decoded "decode field \"id\"" (J.decode_uuid d)
          (λ v. (record s { id = v }, set_bit 0 bits))
      else if k == "status"
      then decoded "decode field \"status\"" (decode_task_status d)
          (λ v. (record s { status = v }, set_bit 1 bits))
      else if k == "created_at"
      then decoded "decode field \"created_at\"" (J.decode_date_time d)
          (λ v. (record s { created_at = v }, set_bit 2 bits))
      else skipped (J.skip d) (s, bits)

  -- The zero value, `var response Task`.
  abbrev pub empty_task : Task
  empty_task = record {
    id = 0;
    status = "";
    created_at = record { instant = 0; monotonic = none; is_utc = true };
  }

  unfoldable pub decode_task : J.Doc → Result Task
  unfolding xor
  decode_task d =
      let (fields, stop) = J.obj_bytes d in
      map_err (wrap "decode Task")
        (each decode_task_field fields stop (empty_task, false ∷ false ∷ false ∷ []))
      >>= require_fields (true ∷ true ∷ true ∷ []) ("id" ∷ "status" ∷ "created_at" ∷ [])

  abbrev pub decode_payload_field :
      String → J.Doc → CreateTaskRequestPayload → Result CreateTaskRequestPayload
  decode_payload_field k d m =
      map_err (wrap "decode field") (J.raw_append d) >>= λ elem. ok (map_set k elem m)

  unfoldable pub decode_payload : J.Doc → Result CreateTaskRequestPayload
  decode_payload d =
      let (fields, stop) = J.obj_bytes d in
      map_err (wrap "decode CreateTaskRequestPayload") (each decode_payload_field fields stop [])

  -- `Decode` of the two optionals: the value is set whatever was there.
  abbrev pub decode_opt_payload : J.Doc → Result OptCreateTaskRequestPayload
  decode_opt_payload d = decode_payload d >>= λ v. ok (new_opt v)

  abbrev pub decode_opt_string : J.Doc → Result OptString
  decode_opt_string d = J.str d >>= λ v. ok (new_opt v)

  abbrev pub decode_request_field :
      String → J.Doc → CreateTaskRequest × Bits → Result (CreateTaskRequest × Bits)
  decode_request_field k d (s, bits) =
      if k == "handler"
      then decoded "decode field \"handler\"" (J.str d)
          (λ v. (record s { handler = v }, set_bit 0 bits))
      else if k == "payload"
      then decoded "decode field \"payload\"" (decode_opt_payload d)
          (λ v. (record s { payload = v }, bits))
      else if k == "idempotency_key"
      then decoded "decode field \"idempotency_key\"" (decode_opt_string d)
          (λ v. (record s { idempotency_key = v }, bits))
      else skipped (J.skip d) (s, bits)

  unfoldable pub decode_create_task_request : J.Doc → Result CreateTaskRequest
  unfolding xor
  decode_create_task_request d =
      let (fields, stop) = J.obj_bytes d in
      map_err (wrap "decode CreateTaskRequest")
        (each decode_request_field fields stop (empty_request, false ∷ false ∷ false ∷ []))
      >>= require_fields (true ∷ false ∷ false ∷ [])
          ("handler" ∷ "payload" ∷ "idempotency_key" ∷ [])

  -- `Decode` of the four types that are an `Error` under another name.
  abbrev pub decode_alias : J.Doc → Result Error
  decode_alias d = map_err (wrap "alias") (decode_error d)
