-- ===== src/Oas/Json/Payload.antt =====
-- The round trip of a `CreateTaskRequest`, its opaque payload included.
use mathlib.Core.Path.{subst}
use mathlib.Core.List.{append_assoc, append-nil}
use flowhand.Base.{
  ◌≡◌, refl, ◌∙◌, ap, Bool, true, false, String, Option, none, some, List, [], ◌∷◌, eq_of_ne, All,
  ◌≢◌, ◌++◌,
}
use flowhand.Failure.{ok}
use flowhand.Oas.Schemas.{
  CreateTaskRequest, CreateTaskRequestPayload, OptCreateTaskRequestPayload, OptString,
  empty_request, reset, new_opt, map_set,
}
use flowhand.Oas.Jx.{Jx, IsJx, raw, member, ReadsMembers, CompleteMembers}
use flowhand.Oas.Json
use flowhand.Oas.Json.{
  encode_payload, encode_payload_fields, encode_create_task_request,
  encode_create_task_request_fields, decode_create_task_request, decode_payload, each,
}
use flowhand.Oas.Json.RoundTrip.{member_inv, end_inv}

-- The payloads that a Go map of valid raw values gives: no key twice, and none of the texts is empty.
abbrev pub IsWritable : (String → Bool) → CreateTaskRequestPayload → Type 0
IsWritable valid [] = Unit
IsWritable valid ((k, elem) ∷ m) =
    All (λ e. k ≢ e.0) m × (elem ≢ "") × (valid elem ≡ true) × IsWritable valid m

map_set_absent :
    (k v : String) (m : CreateTaskRequestPayload)
    → All (λ e. e.0 ≢ k) m
    → map_set k v m ≡ m ++ (k, v) ∷ []
unfolding map_set
map_set_absent k v [] h = refl
map_set_absent k v ((j, w) ∷ m) (other, h) =
    rw (eq_of_ne j k other) (ap (λ l. (j, w) ∷ l) (map_set_absent k v m h))

-- No key of the second payload stands in the first.
abbrev Apart : CreateTaskRequestPayload → CreateTaskRequestPayload → Type 0
Apart done m = All (λ e. All (λ f. f.0 ≢ e.0) done) m

All-snoc :
    (P : String × String → Type 0) (l : CreateTaskRequestPayload) (e : String × String)
    → All P l
    → P e
    → All P (l ++ e ∷ [])
All-snoc P [] e h p = (p, tt)
All-snoc P (x ∷ l) e (q, h) p = (q, All-snoc P l e h p)

Apart-snoc :
    (done m : CreateTaskRequestPayload) (k v : String)
    → Apart done m
    → All (λ e. k ≢ e.0) m
    → Apart (done ++ (k, v) ∷ []) m
Apart-snoc done [] k v h d = tt
Apart-snoc done (e ∷ m) k v (h, hs) (d, ds) =
    (All-snoc (λ f. f.0 ≢ e.0) done (k, v) h d, Apart-snoc done m k v hs ds)

Apart-nil : (m : CreateTaskRequestPayload) → Apart [] m
Apart-nil [] = tt
Apart-nil (e ∷ m) = (tt, Apart-nil m)

encode_payload_fields-cons :
    (k elem : String) (m : CreateTaskRequestPayload)
    → elem ≢ ""
    → encode_payload_fields ((k, elem) ∷ m) ≡ member k (raw elem) (encode_payload_fields m)
unfolding encode_payload_fields
encode_payload_fields-cons k elem m h = rw (eq_of_ne elem "" h) refl

-- The optional fields of a request, from what they hold.
abbrev pub opt_payload : Option CreateTaskRequestPayload → OptCreateTaskRequestPayload
opt_payload none = reset []
opt_payload (some m) = new_opt m

abbrev pub opt_string : Option String → OptString
opt_string none = reset ""
opt_string (some s) = new_opt s

abbrev pub request_of : String → Option CreateTaskRequestPayload → Option String → CreateTaskRequest
request_of handler payload key = record {
  handler = handler;
  payload = opt_payload payload;
  idempotency_key = opt_string key;
}

abbrev pub Writable : (String → Bool) → Option CreateTaskRequestPayload → Type 0
Writable valid none = Unit
Writable valid (some m) = IsWritable valid m

-- Such a payload, and a request with it, are written as valid JSON.
pub payload_complete :
    (valid : String → Bool) (m : CreateTaskRequestPayload)
    → IsWritable valid m
    → CompleteMembers valid (encode_payload_fields m)
unfolding encode_payload_fields
payload_complete valid [] w = tt
payload_complete valid ((k, elem) ∷ m) (fresh, full, json, w) =
    rw (eq_of_ne elem "" full) (json, payload_complete valid m w)

pub request_complete :
    (valid : String → Bool) (h : String) (p : Option CreateTaskRequestPayload) (k : Option String)
    → Writable valid p
    → CompleteMembers valid (encode_create_task_request_fields (request_of h p k))
unfolding encode_create_task_request_fields
request_complete valid h none none w = (tt, tt)
request_complete valid h none (some k) w = (tt, (tt, tt))
request_complete valid h (some m) none w = (tt, (payload_complete valid m w, tt))
request_complete valid h (some m) (some k) w = (tt, (payload_complete valid m w, (tt, tt)))

module _ (J : Jx) (jx : IsJx J) where
  payload_fields :
      (m done : CreateTaskRequestPayload) (fields : List (String × J.Doc))
      → IsWritable J.valid m
      → Apart done m
      → ReadsMembers jx.Reads fields (encode_payload_fields m)
      → each (Json.decode_payload_field J) fields none done ≡ ok (done ++ m)
  unfolding encode_payload_fields
  payload_fields [] done fields w apart all = rw (end_inv all) (rw append-nil refl)
  payload_fields ((k, elem) ∷ m) done fields (fresh, full, json, w) (apart, aparts) all =
      let (d, f, s, r, all') =
        member_inv
          (subst (ReadsMembers jx.Reads fields) (encode_payload_fields-cons k elem m full) all) in
      rw s (
        rw (jx.reads_raw d elem r) (
          rw (map_set_absent k elem done apart) (
            payload_fields m (done ++ (k, elem) ∷ []) f w (Apart-snoc done m k elem aparts fresh)
              all'
            ∙ rw append_assoc refl)))

  pub decode_payload-object :
      (d : J.Doc) (m : CreateTaskRequestPayload)
      → IsWritable J.valid m
      → jx.Reads d (encode_payload m)
      → decode_payload J d ≡ ok m
  unfolding decode_payload
  decode_payload-object d m w r =
      let (all, stop) = jx.reads_object d (encode_payload_fields m) r in
      rw stop (rw (payload_fields m [] _ w (Apart-nil m) all) refl)

  request_fields :
      (h : String) (p : Option CreateTaskRequestPayload) (k : Option String)
      (fields : List (String × J.Doc))
      → Writable J.valid p
      → ReadsMembers jx.Reads fields (encode_create_task_request_fields (request_of h p k))
      → each (Json.decode_request_field J) fields none (empty_request, false ∷ false ∷ false ∷ [])
        ≡ ok (request_of h p k, true ∷ false ∷ false ∷ [])
  unfolding encode_create_task_request_fields
  request_fields h none none fields w all =
      let (d, f, s, r, all') = member_inv all in
      rw s (rw (end_inv all') (rw (jx.reads_str d h r) refl))
  request_fields h none (some k) fields w all =
      let (d, f, s, r, all') = member_inv all in
      let (d', f', s', r', all'') = member_inv all' in
      rw s (rw s' (rw (end_inv all'') (rw (jx.reads_str d h r) (rw (jx.reads_str d' k r') refl))))
  request_fields h (some m) none fields w all =
      let (d, f, s, r, all') = member_inv all in
      let (d', f', s', r', all'') = member_inv all' in
      rw s (
        rw s' (
          rw (end_inv all'') (rw (jx.reads_str d h r) (rw (decode_payload-object d' m w r') refl))))
  request_fields h (some m) (some k) fields w all =
      let (d, f, s, r, all') = member_inv all in
      let (d', f', s', r', all'') = member_inv all' in
      let (d'', f'', s'', r'', all''') = member_inv all'' in
      rw s (
        rw s' (
          rw s'' (
            rw (end_inv all''') (
              rw (jx.reads_str d h r)
                (rw (decode_payload-object d' m w r') (rw (jx.reads_str d'' k r'') refl))))))

  -- With a JSON library that reads what it writes, a request whose payload, if it has one, is a
  -- map of non-empty texts that are each one JSON value is the same after it is encoded and
  -- decoded, with the optional fields set exactly where they were.
  pub decode_request-encode_request :
      (h : String) (p : Option CreateTaskRequestPayload) (k : Option String)
      → Writable J.valid p
      → decode_create_task_request J
          (J.decode_bytes (J.write (encode_create_task_request (request_of h p k))))
        ≡ ok (request_of h p k)
  unfolding decode_create_task_request
  decode_request-encode_request h p k w =
      let (all, stop) = jx.reads_object _ _ (
        jx.reads_written (encode_create_task_request (request_of h p k))
          (request_complete J.valid h p k w)) in
      rw stop (rw (request_fields h p k _ w all) refl)
