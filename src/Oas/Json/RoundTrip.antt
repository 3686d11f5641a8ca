-- ===== src/Oas/Json/RoundTrip.antt =====
-- What the generated encoders write, the generated decoders read back.
use flowhand.Base.{◌≡◌, refl, true, false, String, none, List, [], ◌∷◌, eq_iff, arith}
use flowhand.Failure.{ok}
use flowhand.Domain.{IsDated, to_second}
use flowhand.Oas.Schemas.{Error, Task, error_codes, task_statuses}
use flowhand.Oas.Jx.{Jx, IsJx, Value, Members, end, member, ReadsMembers, none_left, one_more}
use flowhand.Oas.Json
use flowhand.Oas.Json.{
  encode_error, encode_error_fields, decode_error, encode_task, encode_task_fields, decode_task,
  decode_alias, constant_or_self, each,
}

module _ {Doc : Type 0} {Reads : Doc → Value → Type 0} where
  pub member_inv :
      {fields : List (String × Doc)} {k : String} {v : Value} {ms : Members}
      → ReadsMembers Reads fields (member k v ms)
      → (d : Doc) × (rest : List (String × Doc)) × (fields ≡ (k, d) ∷ rest)
        × Reads d v
        × ReadsMembers Reads rest ms
  member_inv (one_more {fields = rest} k d v r rs) = (d, rest, refl, r, rs)

  pub end_inv : {fields : List (String × Doc)} → ReadsMembers Reads fields end → fields ≡ []
  end_inv none_left = refl

-- What comes back of a task.
abbrev pub on_wire : Task → Task
on_wire t = record t { created_at = to_second t.created_at }

-- Assigning the constant that is equal to a text, or the text, is assigning the text.
pub constant_or_self_lem : (cases : List String) (v : String) → constant_or_self cases v ≡ v
constant_or_self_lem [] v = refl
constant_or_self_lem (c ∷ cases) v = ground (arith, eq_iff v c, constant_or_self_lem cases v)

module _ (J : Jx) (jx : IsJx J) where
  error_fields :
      (e : Error) (fields : List (String × J.Doc))
      → ReadsMembers jx.Reads fields (encode_error_fields e)
      → each
          (Json.decode_error_field J)
          fields
          none
          (record { code = ""; message = "" }, false ∷ false ∷ [])
        ≡ ok (e, true ∷ true ∷ [])
  error_fields e fields all =
      let (d, f, s, r, all') = member_inv all in
      let (d', f', s', r', all'') = member_inv all' in
      rw s (
        rw s' (
          rw (end_inv all'') (
            rw (jx.reads_str d e.code r) (
              rw (constant_or_self_lem error_codes e.code)
                (rw (jx.reads_str d' e.message r') refl)))))

  -- With a JSON library that reads what it writes, an `Error` that is encoded and decoded again is
  -- the same.
  pub decode_error-encode_error :
      (e : Error) → decode_error J (J.decode_bytes (J.write (encode_error e))) ≡ ok e
  unfolding decode_error
  decode_error-encode_error e =
      let (all, stop) = jx.reads_object _ _ (jx.reads_written (encode_error e) (tt, (tt, tt))) in
      rw stop (rw (error_fields e _ all) refl)

  pub alias-encode_error :
      (e : Error) → decode_alias J (J.decode_bytes (J.write (encode_error e))) ≡ ok e
  alias-encode_error e = rw (decode_error-encode_error e) refl

  task_fields :
      (t : Task) (fields : List (String × J.Doc))
      → IsDated t.created_at
      → ReadsMembers jx.Reads fields (encode_task_fields t)
      → each (Json.decode_task_field J) fields none (Json.empty_task J, false ∷ false ∷ false ∷ [])
        ≡ ok (on_wire t, true ∷ true ∷ true ∷ [])
  task_fields t fields in_utc all =
      let (d, f, s, r, all') = member_inv all in
      let (d', f', s', r', all'') = member_inv all' in
      let (d'', f'', s'', r'', all''') = member_inv all'' in
      rw s (
        rw s' (
          rw s'' (
            rw (end_inv all''') (
              rw (jx.reads_uuid d t.id r) (
                rw (jx.reads_str d' t.status r') (
                  rw (constant_or_self_lem task_statuses t.status)
                    (rw (jx.reads_date_time d'' t.created_at r'' in_utc) refl)))))))

  -- With a JSON library that reads what it writes, a `Task` whose time is in UTC and before the year
  -- 10000, encoded and decoded again, is the same but for the fraction of a second.
  pub decode_task-encode_task :
      (t : Task)
      → IsDated t.created_at
      → decode_task J (J.decode_bytes (J.write (encode_task t))) ≡ ok (on_wire t)
  unfolding decode_task
  decode_task-encode_task t in_utc =
      let (all, stop) =
        jx.reads_object _ _ (jx.reads_written (encode_task t) (tt, (tt, (tt, tt)))) in
      rw stop (rw (task_fields t _ in_utc all) refl)
