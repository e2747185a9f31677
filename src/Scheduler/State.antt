-- ===== src/Scheduler/State.antt =====
-- src/core/operation-scheduler.ts: the state of `OperationScheduler`, its limits and its constructor.
use desktop_remote.Common.{
  ℕ, ◌+◌, Bool, true, false, ◌||◌, Option, none, some, List, [], ◌∷◌, ◌++◌, ltb, if◌then◌else◌,
  or_default, ◌>>=◌,
}
use desktop_remote.Common.Int.{pos, negsuc, Number, safe_integer, other}
use desktop_remote.Scheduler.Classes.{OperationClass, PerClass, get, put, all_classes}

-- What `run` throws, or a queued promise is rejected with.
pub data Limit : Type 0 where
  global class : Limit

pub data Error : Type 0 where
  busy : OperationClass → Limit → Error
  cancelled : Error
  deadline_exceeded : Error
  unknown_class : Error
  infinite_deadline : Error

-- `QueuedOperation`. The number `task` is the object's identity, `signal` that of its AbortSignal;
-- `on_abort` and `deadline_timer` say whether the listener and the timer are installed.
pub record QueuedOperation : Type 0 where
  pub task : ℕ
  pub operation_class : OperationClass
  pub signal : Option ℕ
  pub on_abort : Bool
  pub deadline_timer : Bool
  pub deadline_at : Option ℕ
  pub started : Bool

-- What becomes of a task: it is started, or its promise is rejected before it starts.
pub data Event : Type 0 where
  starts : ℕ → OperationClass → Event
  rejects : QueuedOperation → Error → Event

pub record Scheduler : Type 0 where
  pub concurrency : PerClass ℕ
  pub max_queue_size : ℕ
  pub max_queue_size_by_class : PerClass ℕ
  pub active : PerClass ℕ
  pub queues : PerClass (List QueuedOperation)
  pub total_queued : ℕ
  -- The promises whose `finally` callback has still to run, and the events so far, oldest first.
  pub in_flight : PerClass (List ℕ)
  pub log : List Event

-- What the outside supplies to a call: which signals are aborted, and what the clock says in the
-- k-th reading of the call.
pub record Env : Type 0 where
  pub aborted : ℕ → Bool
  pub now : ℕ → ℕ

-- `options` of `run`; a deadline may be any JavaScript number.
pub data Deadline : Type 0 where
  at : ℕ → Deadline
  not_finite : Deadline

pub record ScheduleOptions : Type 0 where
  pub signal : Option ℕ
  pub deadline_at : Option Deadline

-- The constructor's checks.
unfoldable pub validate_limit : Number → Bool → Option ℕ
validate_limit (safe_integer (pos n)) allow_zero = if allow_zero || ltb 0 n then some n else none
validate_limit (safe_integer (negsuc n)) allow_zero = none
validate_limit other allow_zero = none

-- `override ?? default`.
abbrev pub limit_or : Option Number → ℕ → Number
limit_or override default = or_default override (safe_integer (pos default))

unfoldable pub create_limits : PerClass ℕ → PerClass (Option Number) → Bool → Option (PerClass ℕ)
unfolding validate_limit
create_limits defaults overrides allow_zero = do
  l ← validate_limit (limit_or overrides.of_light defaults.of_light) allow_zero
  h ← validate_limit (limit_or overrides.of_heavy defaults.of_heavy) allow_zero
  p ← validate_limit (limit_or overrides.of_process defaults.of_process) allow_zero
  d ← validate_limit (limit_or overrides.of_document defaults.of_document) allow_zero
  some (record { of_light = l; of_heavy = h; of_process = p; of_document = d })

abbrev pub default_concurrency : PerClass ℕ
default_concurrency = record { of_light = 8; of_heavy = 2; of_process = 2; of_document = 1 }

abbrev pub default_max_queue_size : ℕ
default_max_queue_size = 64

abbrev pub default_max_queue_size_by_class : PerClass ℕ
default_max_queue_size_by_class = record {
  of_light = 32;
  of_heavy = 16;
  of_process = 16;
  of_document = 16;
}

pub record SchedulerOptions : Type 0 where
  pub concurrency : PerClass (Option Number)
  pub max_queue_size : Option Number
  pub max_queue_size_by_class : PerClass (Option Number)

-- The fields' initializers.
abbrev pub initial : PerClass ℕ → ℕ → PerClass ℕ → Scheduler
initial concurrency most by_class = record {
  concurrency = concurrency;
  max_queue_size = most;
  max_queue_size_by_class = by_class;
  active = all_classes 0;
  queues = all_classes [];
  total_queued = 0;
  in_flight = all_classes [];
  log = [];
}

unfoldable pub create : SchedulerOptions → Option Scheduler
unfolding create_limits
create options = do
  concurrency ← create_limits default_concurrency options.concurrency false
  most ← validate_limit (limit_or options.max_queue_size default_max_queue_size) true
  by_class ← create_limits default_max_queue_size_by_class options.max_queue_size_by_class true
  some (initial concurrency most by_class)

-- The part that `startImmediately` and `drain` share: the task is active until its promise settles.
abbrev pub activate : Scheduler → OperationClass → ℕ → Scheduler
activate s c task = record s {
  active = put s.active c (get s.active c + 1);
  in_flight = put s.in_flight c (task ∷ get s.in_flight c);
  log = s.log ++ starts task c ∷ [];
}

abbrev pub reject : Scheduler → QueuedOperation → Error → Scheduler
reject s queued error = record s { log = s.log ++ rejects queued error ∷ [] }
