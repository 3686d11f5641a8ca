-- ===== src/Oas/Jx/Tree.antt =====
-- A JSON library whose texts are the trees of what was written: the promises of `IsJx` can be met.
use flowhand.Base.{◌≡◌, refl, ap, sym, false, not, ◌==◌, String, Option, none, some, List, [], ◌∷◌}
use flowhand.Failure.{GoError, errorf, Result, ok, err}
use flowhand.Domain.{Uuid, Time, utc, to_second}
use flowhand.Oas.Jx.{
  Jx, IsJx, Value, str, raw, uuid, date_time, object, Members, end, member, bare, ReadsMembers,
  none_left, one_more, Complete, CompleteMembers,
}

abbrev fields_of : Members → List (String × Value) × Option GoError
fields_of end = ([], none)
fields_of (member k v ms) = let (fields, stop) = fields_of ms in ((k, v) ∷ fields, stop)
fields_of (bare k ms) = ([], some (errorf "unexpected byte"))

abbrev unexpected : {A : Type 0} → Result A
unexpected = err (errorf "unexpected type")

abbrev obj_of : Value → List (String × Value) × Option GoError
obj_of (object ms) = fields_of ms
obj_of _ = ([], some (errorf "unexpected type"))

abbrev str_of : Value → Result String
str_of (str s) = ok s
str_of _ = unexpected

abbrev raw_of : Value → Result String
raw_of (raw s) = ok s
raw_of _ = unexpected

abbrev uuid_of : Value → Result Uuid
uuid_of (uuid u) = ok u
uuid_of _ = unexpected

abbrev date_time_of : Value → Result Time
date_time_of (date_time t) = ok (to_second (utc t))
date_time_of _ = unexpected

abbrev pub tree : Jx
tree = record {
  Bytes = Value;
  Doc = Value;
  valid = λ s. not (s == "");
  is_empty = λ b. false;
  write = λ v. v;
  nothing = str "";
  decode_bytes = λ b. b;
  trailing = λ b. false;
  obj_bytes = obj_of;
  str = str_of;
  skip = λ d. ok tt;
  raw_append = raw_of;
  decode_uuid = uuid_of;
  decode_date_time = date_time_of;
}

abbrev Reads : Value → Value → Type 0
Reads d v = (d ≡ v) × Complete tree.valid v

reads_members :
    (ms : Members)
    → CompleteMembers tree.valid ms
    → ReadsMembers Reads (fields_of ms).0 ms × ((fields_of ms).1 ≡ none)
reads_members end c = (none_left, refl)
reads_members (member k v ms) (c, cs) =
    let (all, stop) = reads_members ms cs in (one_more k v v (refl, c) all, stop)
reads_members (bare k ms) c = elim c [ ]

pub tree-IsJx : IsJx tree
tree-IsJx = record {
  Reads = Reads;
  reads_written = λ v c. (refl, c);
  written_not_empty = λ ms. refl;
  written_alone = λ ms c. refl;
  reads_object = λ d ms (e, c). rw e (reads_members ms c);
  reads_str = λ d s (e, c). rw e refl;
  reads_raw = λ d s (e, c). rw e refl;
  reads_uuid = λ d u (e, c). rw e refl;
  reads_date_time = λ d t (e, c) (in_utc, _). rw e (ap (λ u. ok (to_second u)) (sym in_utc));
  reads_skip = λ d v r. refl;
}
