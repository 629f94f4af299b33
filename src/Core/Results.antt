-- ===== src/Core/Results.antt =====
-- arena_core/repository.py and models.py: the results of tasks in MemoryArenaCoreRepository. An
-- event's random id and its data, which no operation reads, are left out; the action of a result is
-- its text. Hashes, digests and the screening of identifiers are parameters.
pub mod Ids
pub mod Once
mod Tests
use adx_agentic_payment.Base.{
  ℕ, String, Bool, true, false, not, ◌||◌, ◌&&◌, Option, none, some, List, [], ◌∷◌, ◌++◌, take,
  select, any, map, leb, ◌==◌, nat_eq, string_eq, is_none, if◌then◌else◌, Result, ok, err, Action,
  pure, raise, raise_if, gets, modify, or_raise, ◌>>=◌, ◌>>◌,
}
use adx_agentic_payment.Base.Dict
use adx_agentic_payment.Base.Dict.{Dict}
use adx_agentic_payment.Base.Sort.{sort_by}
use adx_agentic_payment.Base.Text.{text_leb}
use Prim.Native.String.{◌++◌ as appended}
use adx_agentic_payment.Payments.Models.{Datetime, incomparable, at_most, earlier}

pub data TaskStatus : Type 0 where
  queued leased running completed defaulted cancelled : TaskStatus

-- `TaskStatus.terminal`.
abbrev pub terminal : TaskStatus → Bool
terminal TaskStatus.completed = true
terminal TaskStatus.defaulted = true
terminal TaskStatus.cancelled = true
terminal _ = false

pub data ResultApplyStatus : Type 0 where
  pending applied rejected : ResultApplyStatus

pub data SubmissionDisposition : Type 0 where
  accepted duplicate late : SubmissionDisposition

pub data RuntimeStatus : Type 0 where
  succeeded failed timed_out cancelled : RuntimeStatus

-- What the repository reads of a task and of a result.
pub record ArenaAgentTask : Type 0 where
  pub task_id : String
  pub deadline_at : Datetime

pub record AgentTaskResult : Type 0 where
  pub result_id : String
  pub task_id : String
  pub status : RuntimeStatus
  pub action : Option String

pub record ArenaTaskRecord : Type 0 where
  pub task : ArenaAgentTask
  pub status : TaskStatus
  pub created_at : Datetime
  pub leased_by : Option String
  pub lease_expires_at : Option Datetime
  pub completed_at : Option Datetime

pub record ArenaResultRecord : Type 0 where
  pub result : AgentTaskResult
  pub result_received_at : Datetime
  pub result_hash : String
  pub apply_status : ResultApplyStatus
  pub message_replaced : Bool
  pub public_output_policy_version : Option String
  pub safe_error_class : Option String

pub data EventType : Type 0 where
  result_conflict duplicate_result_ignored late_result_ignored defaulted result_submitted :
      EventType

pub record TaskEventRecord : Type 0 where
  pub task_id : String
  pub event_type : EventType
  pub created_at : Datetime

pub record ResultSubmissionReceipt : Type 0 where
  pub task_id : String
  pub disposition : SubmissionDisposition
  pub authoritative_result_id : Option String
  pub task_status : TaskStatus
  pub result_received_at : Datetime

-- The exceptions, by class and message.
pub data CoreError : Type 0 where
  naive_clock unsafe_identifier task_not_found type_error : CoreError
  other_task_conflict payload_conflict : CoreError

pub record ArenaCore : Type 0 where
  pub tasks : Dict String ArenaTaskRecord
  pub results : Dict String ArenaResultRecord
  pub result_by_task : Dict String String
  pub events : List TaskEventRecord

abbrev pub Call : Type 0 → Type 0
Call = Action ArenaCore CoreError

abbrev append_event : String → EventType → Datetime → Call Unit
append_event task_id kind at = modify (λ s. record s {
  events = s.events ++ record { task_id = task_id; event_type = kind; created_at = at } ∷ [];
})

-- The status of the task after a result, and the error class of the record.
abbrev pub status_after : RuntimeStatus → TaskStatus
status_after RuntimeStatus.succeeded = TaskStatus.completed
status_after RuntimeStatus.cancelled = TaskStatus.cancelled
status_after _ = TaskStatus.defaulted

abbrev error_class : RuntimeStatus → Option String
error_class RuntimeStatus.succeeded = none
error_class RuntimeStatus.failed = some "runtime_failed"
error_class RuntimeStatus.timed_out = some "runtime_timed_out"
error_class RuntimeStatus.cancelled = some "runtime_cancelled"

abbrev finished : ArenaTaskRecord → TaskStatus → Datetime → ArenaTaskRecord
finished t status now = record t {
  status = status;
  completed_at = some now;
  leased_by = none;
  lease_expires_at = none;
}

abbrev receipt_of :
    String → SubmissionDisposition → Option String → TaskStatus → Datetime → ResultSubmissionReceipt
receipt_of task_id disposition authoritative status at = record {
  task_id = task_id;
  disposition = disposition;
  authoritative_result_id = authoritative;
  task_status = status;
  result_received_at = at;
}

-- `digest` gives the hexadecimal SHA-256 digest of a text, `hash_of` the hash of a result, and
-- `rejects` the results whose identifiers the screening refuses.
module _ (digest : String → String) (hash_of : AgentTaskResult → String)
    (rejects : AgentTaskResult → Bool) where
  abbrev pub internal_id : AgentTaskResult → String
  internal_id r = appended "runtime:" (digest r.result_id)

  abbrev pub default_id : String → String
  default_id task_id = appended "default:" (digest task_id)

  abbrev default_result : String → AgentTaskResult
  default_result task_id = record {
    result_id = default_id task_id;
    task_id = task_id;
    status = RuntimeStatus.timed_out;
    action = none;
  }

  abbrev pub default_record : String → Datetime → ArenaResultRecord
  default_record task_id now = record {
    result = default_result task_id;
    result_received_at = now;
    result_hash = hash_of (default_result task_id);
    apply_status = ResultApplyStatus.pending;
    message_replaced = false;
    public_output_policy_version = none;
    safe_error_class = some "deadline_elapsed";
  }

  -- `_create_timeout_result_locked`, for the task that is stored under `key`: the object in the dict
  -- is changed in place.
  abbrev pub timed_out_state : String → ArenaTaskRecord → Datetime → ArenaCore → ArenaCore
  timed_out_state key t now s = record {
    tasks = Dict.put s.tasks key (finished t TaskStatus.defaulted now);
    results = Dict.put s.results (default_id t.task.task_id) (default_record t.task.task_id now);
    result_by_task = Dict.put s.result_by_task t.task.task_id (default_id t.task.task_id);
    events =
        s.events
        ++ record { task_id = t.task.task_id; event_type = EventType.defaulted; created_at = now }
          ∷ [];
  }

  pub create_timeout_result : String → ArenaTaskRecord → Datetime → Call ArenaResultRecord
  create_timeout_result key t now = do
    modify (timed_out_state key t now)
    pure (default_record t.task.task_id now)

  -- A result whose id is known.
  replay :
      ArenaResultRecord
      → ArenaTaskRecord
      → AgentTaskResult
      → Datetime
      → Call ResultSubmissionReceipt
  replay existing t r now =
      if not (existing.result.task_id == r.task_id)
      then (do append_event r.task_id EventType.result_conflict now; raise other_task_conflict)
      else if not (existing.result_hash == hash_of r)
      then (do append_event r.task_id EventType.result_conflict now; raise payload_conflict)
      else (do
        authoritative ← gets (λ s. Dict.get s.result_by_task r.task_id)
        append_event r.task_id EventType.duplicate_result_ignored now
        pure (
            receipt_of r.task_id SubmissionDisposition.duplicate authoritative t.status
              existing.result_received_at))

  late_for_task : ArenaTaskRecord → AgentTaskResult → Datetime → Call ResultSubmissionReceipt
  late_for_task t r now = do
    authoritative ← gets (λ s. Dict.get s.result_by_task r.task_id)
    append_event r.task_id EventType.late_result_ignored now
    pure (receipt_of r.task_id SubmissionDisposition.late authoritative t.status now)

  late_for_deadline : ArenaTaskRecord → AgentTaskResult → Datetime → Call ResultSubmissionReceipt
  unfolding create_timeout_result
  late_for_deadline t r now = do
    made ← create_timeout_result r.task_id t now
    append_event r.task_id EventType.late_result_ignored now
    pure (
        receipt_of r.task_id SubmissionDisposition.late (some made.result.result_id)
          TaskStatus.defaulted now)

  abbrev pub accepted_record : AgentTaskResult → Bool → Option String → Datetime → ArenaResultRecord
  accepted_record r replaced policy now = record {
    result = record r { result_id = internal_id r };
    result_received_at = now;
    result_hash = hash_of r;
    apply_status = ResultApplyStatus.pending;
    message_replaced = replaced;
    public_output_policy_version = policy;
    safe_error_class = error_class r.status;
  }

  abbrev pub accepted_state :
      ArenaTaskRecord → AgentTaskResult → Bool → Option String → Datetime → ArenaCore → ArenaCore
  accepted_state t r replaced policy now s = record {
    tasks = Dict.put s.tasks r.task_id (finished t (status_after r.status) now);
    results = Dict.put s.results (internal_id r) (accepted_record r replaced policy now);
    result_by_task = Dict.put s.result_by_task r.task_id (internal_id r);
    events =
        s.events
        ++ record { task_id = r.task_id; event_type = EventType.result_submitted; created_at = now }
          ∷ [];
  }

  accept_result :
      ArenaTaskRecord
      → AgentTaskResult
      → Bool
      → Option String
      → Datetime
      → Call ResultSubmissionReceipt
  accept_result t r replaced policy now = do
    modify (accepted_state t r replaced policy now)
    pure (
        receipt_of r.task_id SubmissionDisposition.accepted (some (internal_id r))
          (status_after r.status) now)

  -- A result whose id is new.
  first_time :
      ArenaTaskRecord
      → AgentTaskResult
      → Bool
      → Option String
      → Datetime
      → Call ResultSubmissionReceipt
  unfolding late_for_task late_for_deadline accept_result
  first_time t r replaced policy now = do
    authoritative ← gets (λ s. Dict.get s.result_by_task r.task_id)
    if not (is_none authoritative) || terminal t.status
        then late_for_task t r now
        else if incomparable now t.task.deadline_at
        then raise type_error
        else if at_most t.task.deadline_at now
        then late_for_deadline t r now
        else accept_result t r replaced policy now

  abbrev submit_by :
      Option ArenaResultRecord
      → ArenaTaskRecord
      → AgentTaskResult
      → Bool
      → Option String
      → Datetime
      → Call ResultSubmissionReceipt
  submit_by none t r replaced policy now = first_time t r replaced policy now
  submit_by (some existing) t r replaced policy now = replay existing t r now

  unfoldable pub submit_result :
      AgentTaskResult → Bool → Option String → Datetime → Call ResultSubmissionReceipt
  unfolding replay first_time
  submit_result r replaced policy now = do
    raise_if (not now.aware) naive_clock
    raise_if (rejects r) unsafe_identifier
    t ← or_raise (← gets (λ s. Dict.get s.tasks r.task_id)) task_not_found
    existing ← gets (λ s. Dict.get s.results (internal_id r))
    submit_by existing t r replaced policy now

  -- The tasks that `finalize_expired` selects, with the keys they are stored under.
  abbrev pub expired : ArenaCore → Datetime → String × ArenaTaskRecord → Bool
  expired s now e =
      not (terminal e.1.status)
      && (at_most e.1.task.deadline_at now && is_none (Dict.get s.result_by_task e.1.task.task_id))

  abbrev pub due_first : String × ArenaTaskRecord → String × ArenaTaskRecord → Bool
  due_first a b =
      earlier a.1.task.deadline_at b.1.task.deadline_at
      || ((a.1.task.deadline_at.instant == b.1.task.deadline_at.instant)
          && text_leb a.1.task.task_id b.1.task.task_id)

  pub time_out_all : List (String × ArenaTaskRecord) → Datetime → ArenaCore → ArenaCore
  time_out_all [] now s = s
  time_out_all ((k, t) ∷ rest) now s = time_out_all rest now (timed_out_state k t now s)

  -- A task whose deadline `finalize_expired` cannot compare with the clock.
  abbrev pub incomparable_deadline : Datetime → ArenaTaskRecord → Bool
  incomparable_deadline now t = not (terminal t.status) && incomparable now t.task.deadline_at

  -- `finalize_expired`; a limit that is not positive selects nothing, and neither does 0.
  unfoldable pub finalize_expired : ℕ → Datetime → Call (List ArenaResultRecord)
  unfolding time_out_all
  finalize_expired limit now = do
    raise_if (not (limit == 0) && not now.aware) naive_clock
    mixed ← gets (λ s. any (incomparable_deadline now) (Dict.values s.tasks))
    raise_if (not (limit == 0) && mixed) type_error
    eligible ← gets (λ s. take limit (sort_by due_first (select (expired s now) s.tasks.entries)))
    modify (time_out_all eligible now)
    pure (map (λ e. default_record e.1.task.task_id now) eligible)
