-- ===== src/Oas/Request/Laws.antt =====
-- Which requests reach the handler.
use mathlib.Core.Path.{subst}
use flowhand.Base.{
  ◌≡◌, refl, ◌∙◌, ap, inl, inr, ℕ, true, false, ◌==◌, String, Option, none, some, if◌then◌else◌,
  eq-cases, Bool-cases, eq_iff, arith, ◌≢◌,
}
use flowhand.Failure.{Result, ok, err, map_err, wrap, ◌>>=◌, errorf}
use flowhand.Oas.Schemas.{CreateTaskRequest}
use flowhand.Oas.Jx.{Jx}
use flowhand.Oas.Json.{decode_create_task_request}
use flowhand.Oas.Validate.{CountsCharacters, validate_create_task_request}
use flowhand.Oas.Validate.Laws.{InRange, validate_create_task_request_iff}
use flowhand.Oas.Http.{Request}
use flowhand.Oas.Request.{
  Libs, decode_request_body, length_is_zero, body_required, decode_buffer, decode_media, read_body,
  join_close,
}

length_ne_zero : (o : Option ℕ) → length_is_zero o ≡ false → o ≢ some 0
length_ne_zero none h e = cc
length_ne_zero (some n) h e = ground arith

module _ (J : Jx) (libs : Libs) where
  -- A request that reaches the handler with the value `req`, read from the raw body `buf`.
  pub record Accepted (r : Request J.Bytes) (req : CreateTaskRequest) (buf : J.Bytes) : Type 0 where
    pub media : libs.parse_media_type r.content_type ≡ ok "application/json"
    pub announced : r.content_length ≢ some 0
    pub read : r.body ≡ ok buf
    pub not_empty : J.is_empty buf ≡ false
    pub decoded : decode_create_task_request J (J.decode_bytes buf) ≡ ok req
    pub alone : J.trailing buf ≡ false
    pub handler : InRange req.handler
    pub key : req.idempotency_key.set ≡ true → InRange req.idempotency_key.value

  buffer_inv :
      (buf buf' : J.Bytes) (req : CreateTaskRequest)
      → decode_buffer J libs buf ≡ ok (req, buf')
      → (decode_create_task_request J (J.decode_bytes buf) ≡ ok req)
        × (J.trailing buf ≡ false)
        × (validate_create_task_request libs.validate_string req ≡ none)
        × (buf ≡ buf')
  buffer_inv buf buf' req h = ground arith

  read_inv :
      (r : Request J.Bytes) (body : Result J.Bytes) (buf : J.Bytes) (req : CreateTaskRequest)
      → (body >>= λ b. if J.is_empty b then err body_required else decode_buffer J libs b)
        ≡ ok (req, buf)
      → (body ≡ ok buf) × (J.is_empty buf ≡ false) × (decode_buffer J libs buf ≡ ok (req, buf))
  read_inv r (err e) buf req h = cc h
  read_inv r (ok b) buf req h = elim (Bool-cases (J.is_empty b)) [
    | inl empty ↦ let k : err body_required ≡ ok (req, buf) = rw empty at h in cc k
    | inr full ↦
        let k : decode_buffer J libs b ≡ ok (req, buf) = rw full at h in
        let same : b ≡ buf = (buffer_inv b buf req k).3 in
        (ap ok same, rw (← same) full, subst (λ x. decode_buffer J libs x ≡ ok (req, buf)) same k)
  ]

  media_inv :
      (r : Request J.Bytes) (ct : String) (buf : J.Bytes) (req : CreateTaskRequest)
      → decode_media J libs r ct ≡ ok (req, buf)
      → (ct ≡ "application/json")
        × (r.content_length ≢ some 0)
        × (read_body J libs r ≡ ok (req, buf))
  media_inv r ct buf req h = elim (eq-cases ct "application/json") [
    | inl e ↦
        let test : (ct == "application/json") ≡ true = (eq_iff ct "application/json").1 e in
        elim (Bool-cases (length_is_zero r.content_length)) [
          | inl zero_length ↦
              let k : err body_required ≡ ok (req, buf) = rw zero_length at (rw test at h) in cc k
          | inr some_length ↦ (
            e,
            λ z. length_ne_zero r.content_length some_length z,
            rw some_length at (rw test at h),
          )
        ]
    | inr n ↦ let k : err (errorf "invalid content type") ≡ ok (req, buf) = rw n at h in cc k
  ]

  join_inv : {A : Type 0} (r : Result A) (a : A) → join_close r ≡ ok a → r ≡ ok a
  join_inv (ok b) a h = h
  join_inv (err e) a h = cc h

  type_inv :
      (t : Result String) (r : Request J.Bytes) (buf : J.Bytes) (req : CreateTaskRequest)
      → (map_err (wrap "parse media type") t >>= decode_media J libs r) ≡ ok (req, buf)
      → (ct : String) × (t ≡ ok ct) × (decode_media J libs r ct ≡ ok (req, buf))
  type_inv (ok ct) r buf req h = (ct, refl, h)
  type_inv (err e) r buf req h = cc h

  -- With a validator that counts characters, what reaches the handler has been checked: it is
  -- announced as JSON and not as empty, its body can be read, is not empty and decodes to the
  -- request with nothing after it, and the handler's name and the key, if it is set, have 1 to 128
  -- characters.
  pub decode_request_body-Accepted :
      CountsCharacters libs.validate_string
      → (r : Request J.Bytes) (req : CreateTaskRequest) (buf : J.Bytes)
      → decode_request_body J libs r ≡ ok (req, buf)
      → Accepted r req buf
  unfolding decode_request_body
  decode_request_body-Accepted counts r req buf h =
      let (ct, typed, m) =
        type_inv (libs.parse_media_type r.content_type) r buf req (join_inv _ (req, buf) h) in
      let (json, announced, b) = media_inv r ct buf req m in
      let (read, full, d) = read_inv r r.body buf req b in
      let (decoded, alone, valid, _) = buffer_inv buf buf req d in
      let (handler, key) =
        (validate_create_task_request_iff libs.validate_string counts req).0 valid in
      record {
        media = typed ∙ ap ok json;
        announced = announced;
        read = read;
        not_empty = full;
        decoded = decoded;
        alone = alone;
        handler = handler;
        key = key;
      }
