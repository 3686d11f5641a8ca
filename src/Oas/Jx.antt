-- ===== src/Oas/Jx.antt =====
-- The JSON library github.com/go-faster/jx with ogen's helpers for UUIDs and times, which is not
-- part of the repository: what the generated code calls, as a parameter, and what it relies on. A
-- `Value` is what the calls on a `jx.Encoder` write.
pub mod Tree
use flowhand.Base.{◌≡◌, Bool, true, false, String, Option, none, List, [], ◌∷◌}
use flowhand.Failure.{GoError, Result, ok}
use flowhand.Domain.{Uuid, Time, IsDated, to_second}

mutual
  pub data Value : Type 0 where
    -- `e.Str`, `e.Raw`, `json.EncodeUUID`, `json.EncodeDateTime`
    str raw : String → Value
    uuid : Uuid → Value
    date_time : Time → Value
    -- `e.ObjStart`, the fields, `e.ObjEnd`
    object : Members → Value

  pub data Members : Type 0 where
    end : Members
    -- `e.FieldStart` and the field's value
    member : String → Value → Members → Members
    -- `e.FieldStart` with no value after it
    bare : String → Members → Members

-- What is written as valid JSON: no field without a value, and raw values that are valid themselves.
abbrev mutual
  pub Complete : (String → Bool) → Value → Type 0
  Complete valid (str s) = Unit
  Complete valid (raw s) = valid s ≡ true
  Complete valid (uuid u) = Unit
  Complete valid (date_time t) = Unit
  Complete valid (object ms) = CompleteMembers valid ms

  pub CompleteMembers : (String → Bool) → Members → Type 0
  CompleteMembers valid end = Unit
  CompleteMembers valid (member k v ms) = Complete valid v × CompleteMembers valid ms
  CompleteMembers valid (bare k ms) = ⊥

-- `Doc` is a `jx.Decoder` that stands before a value.
pub record Jx : Type 1 where
  pub Bytes : Type 0
  pub Doc : Type 0
  -- The text is one JSON value, with no white space around it.
  pub valid : String → Bool
  -- `len(buf) == 0`
  pub is_empty : Bytes → Bool
  -- `e.Bytes()`, and what `e.WriteTo(w)` writes
  pub write : Value → Bytes
  -- `e.Bytes()` where nothing was written
  pub nothing : Bytes
  pub decode_bytes : Bytes → Doc
  -- Whether `d.Skip()` after the first value is anything but `io.EOF`.
  pub trailing : Bytes → Bool
  -- The keys on which `d.ObjBytes(f)` calls `f`, each with the decoder before its value, and the error
  -- with which it ends if `f` never fails.
  pub obj_bytes : Doc → List (String × Doc) × Option GoError
  pub str : Doc → Result String
  pub skip : Doc → Result (Unit {0})
  pub raw_append : Doc → Result String
  pub decode_uuid : Doc → Result Uuid
  pub decode_date_time : Doc → Result Time

-- The members of an object, read in the order in which they were written.
pub data ReadsMembers {Doc : Type 0} (Reads : Doc → Value → Type 0)
    : List (String × Doc) → Members → Type 0 where
  none_left : ReadsMembers Reads [] end
  one_more :
      {fields : List (String × Doc)} {ms : Members} (k : String) (d : Doc) (v : Value)
      → Reads d v
      → ReadsMembers Reads fields ms
      → ReadsMembers Reads ((k, d) ∷ fields) (member k v ms)

-- What is written can be read, if it is valid: `Reads d v` says that `d` stands before the text of
-- `v`. A time in UTC comes back without the fraction of its second.
pub record IsJx (J : Jx) : Type 1 where
  pub Reads : J.Doc → Value → Type 0
  pub reads_written : (v : Value) → Complete J.valid v → Reads (J.decode_bytes (J.write v)) v
  pub written_not_empty : (ms : Members) → J.is_empty (J.write (object ms)) ≡ false
  pub written_alone :
      (ms : Members) → CompleteMembers J.valid ms → J.trailing (J.write (object ms)) ≡ false
  pub reads_object :
      (d : J.Doc) (ms : Members)
      → Reads d (object ms)
      → ReadsMembers Reads (J.obj_bytes d).0 ms × ((J.obj_bytes d).1 ≡ none)
  pub reads_str : (d : J.Doc) (s : String) → Reads d (str s) → J.str d ≡ ok s
  pub reads_raw : (d : J.Doc) (s : String) → Reads d (raw s) → J.raw_append d ≡ ok s
  pub reads_uuid : (d : J.Doc) (u : Uuid) → Reads d (uuid u) → J.decode_uuid d ≡ ok u
  pub reads_date_time :
      (d : J.Doc) (t : Time)
      → Reads d (date_time t)
      → IsDated t
      → J.decode_date_time d ≡ ok (to_second t)
  pub reads_skip : (d : J.Doc) (v : Value) → Reads d v → J.skip d ≡ ok tt
