-- ===== src/Domain.antt =====
-- internal/domain and internal/domain/tasks: the Task aggregate, its statuses and its event.
use flowhand.Base.{◌≡◌, ℕ, ◌<◌, ◌*◌, ◌/◌, String, Bool, Option, none, List, ◌∷◌, []}

-- A `uuid.UUID`: its 16 bytes, as the number that they stand for.
abbrev pub Uuid : Type 0
Uuid = ℕ

-- A `time.Time`: the instant in nanoseconds since the zero time, the monotonic clock's reading if
-- there is one, and whether the location is UTC.
pub record Time : Type 0 where
  pub instant : ℕ
  pub monotonic : Option ℕ
  pub is_utc : Bool

-- `Time.UTC`, which drops the monotonic reading.
abbrev pub utc : Time → Time
utc t = record { instant = t.instant; monotonic = none; is_utc = Bool.true }

-- The time without the fraction of its second, as RFC 3339 writes it.
abbrev pub to_second : Time → Time
to_second t = record t { instant = t.instant / 1000000000 * 1000000000 }

-- A time in UTC before the year 10000.
abbrev pub IsDated : Time → Type 0
IsDated t = (t ≡ utc t) × (t.instant < 315537897600000000000)

-- A `json.RawMessage`.
abbrev pub RawMessage : Type 0
RawMessage = String

abbrev pub Status : Type 0
Status = String

abbrev pub status_pending : Status
status_pending = "pending"

abbrev pub status_running : Status
status_running = "running"

abbrev pub status_complete : Status
status_complete = "complete"

abbrev pub status_failed : Status
status_failed = "failed"

abbrev pub status_canceled : Status
status_canceled = "canceled"

-- The statuses that the package declares.
abbrev pub statuses : List Status
statuses = status_pending ∷ status_running ∷ status_complete ∷ status_failed ∷ status_canceled ∷ []

pub record Task : Type 0 where
  pub id : Uuid
  pub status : Status
  pub handler : String
  pub payload : RawMessage
  pub created_at : Time

-- A freshly submitted task.
abbrev pub submit : Uuid → String → RawMessage → Time → Task
submit id handler payload now = record {
  id = id;
  status = status_pending;
  handler = handler;
  payload = payload;
  created_at = now;
}

abbrev pub from_persistence : Uuid → Status → String → RawMessage → Time → Task
from_persistence id status handler payload created_at = record {
  id = id;
  status = status;
  handler = handler;
  payload = payload;
  created_at = created_at;
}

pub record Submitted : Type 0 where
  pub task_id : Uuid
  pub handler : String
  pub occurred_at : Time

abbrev pub new_submitted : Task → Time → Submitted
new_submitted t now = record { task_id = t.id; handler = t.handler; occurred_at = now }

abbrev pub event_name : Submitted → String
event_name e = "task.submitted.v1"

-- `domain.Event`, the interface: what can be asked of an event.
pub record Event : Type 0 where
  pub event_name : String
  pub occurred_at : Time

abbrev pub submitted_event : Submitted → Event
submitted_event e = record { event_name = event_name e; occurred_at = e.occurred_at }

-- `domain.EnvelopeVersion`
abbrev pub envelope_version : ℕ
envelope_version = 1
