-- ===== src/Scheduler.antt =====
-- src/core/operation-scheduler.ts: the methods of `OperationScheduler`.
pub mod Classes
pub mod State
pub mod Classify
pub mod Lanes
pub mod Drain
pub mod Invariant
pub mod Create
pub mod Finish
pub mod Cancel
pub mod Submit
pub mod Steps
pub mod Accounting
pub mod Branches
mod Tests
use Prim.Native.String.{String}
use desktop_remote.Common.{
  ℕ, zero, suc, ◌+◌, ◌-◌, Bool, true, false, Option, none, some, List, [], ◌∷◌, ◌++◌, ltb, leb,
  ◌==◌, if◌then◌else◌, length, is_some,
}
use Classes.{OperationClass, PerClass, get, put, assert_operation_class, sum_counts}
use State.{
  Scheduler, QueuedOperation, Env, ScheduleOptions, Deadline, at, not_finite, Error, busy, global,
  class, cancelled, deadline_exceeded, unknown_class, infinite_deadline, activate, reject,
}

unfoldable pub is_past_deadline : Option ℕ → ℕ → Bool
is_past_deadline none now = false
is_past_deadline (some deadline) now = leb deadline now

unfoldable pub cleanup_queued : QueuedOperation → QueuedOperation
cleanup_queued queued = record queued { deadline_timer = false; on_abort = false }

unfoldable pub start_immediately : Scheduler → OperationClass → ℕ → Scheduler
start_immediately s c task = activate s c task

-- `signal?.aborted`.
unfoldable pub is_aborted : (ℕ → Bool) → Option ℕ → Bool
is_aborted aborted none = false
is_aborted aborted (some signal) = aborted signal

-- One round of `drain`, in which the clock says `now`; `queued` is the head of the queue.
unfoldable pub drain_round :
    (ℕ → Bool) → ℕ → OperationClass → QueuedOperation → List QueuedOperation → Scheduler → Scheduler
unfolding is_past_deadline cleanup_queued is_aborted
drain_round aborted now c queued rest s =
    if is_aborted aborted queued.signal
    then reject shifted (cleanup_queued queued) cancelled
    else if is_past_deadline queued.deadline_at now
    then reject shifted (cleanup_queued queued) deadline_exceeded
    else activate shifted c queued.task
  where
    shifted : Scheduler
    shifted = record s { queues = put s.queues c rest; total_queued = s.total_queued - 1 }

-- The loop of `drain`, on the queue of the class.
unfoldable pub drain_loop : Env → ℕ → OperationClass → List QueuedOperation → Scheduler → Scheduler
unfolding drain_round
drain_loop env k c [] s = s
drain_loop env k c (queued ∷ rest) s =
    let next =
      drain_loop env (suc k) c rest (drain_round env.aborted (env.now k) c queued rest s) in
    if ltb (get s.active c) (get s.concurrency c) then next else s

unfoldable pub drain : Env → OperationClass → Scheduler → Scheduler
unfolding drain_loop
drain env c s = drain_loop env 0 c (get s.queues c) s

-- Taking one occurrence out of a list of promises.
unfoldable pub settle : ℕ → List ℕ → List ℕ
settle task [] = []
settle task (t ∷ ts) = if t == task then ts else t ∷ settle task ts

-- The `finally` callback of a started task, up to its call of `drain`.
unfoldable pub release : OperationClass → ℕ → Scheduler → Scheduler
unfolding settle
release c task s = record s {
  active = put s.active c (get s.active c - 1);
  in_flight = put s.in_flight c (settle task (get s.in_flight c));
}

-- The whole callback.
unfoldable pub finish : Env → OperationClass → ℕ → Scheduler → Scheduler
unfolding drain release
finish env c task s = drain env c (release c task s)

-- `queue.indexOf(queued)` and `queue.splice(index, 1)`: `none` if the object is not in the queue.
unfoldable pub splice : ℕ → List QueuedOperation → Option (List QueuedOperation)
splice task [] = none
splice task (q ∷ qs) =
    if q.task == task
    then some qs
    else elim (splice task qs) [ none ↦ none | some r ↦ some (q ∷ r) ]

-- `removeQueued`; `queued` is the object as it is at the time of the call.
unfoldable pub remove_queued : QueuedOperation → Scheduler → Option Scheduler
unfolding splice
remove_queued queued s =
    if queued.started
    then none
    else elim (splice queued.task (get s.queues queued.operation_class)) [
      | none ↦ none
      | some rest ↦ some (record s {
        queues = put s.queues queued.operation_class rest;
        total_queued = s.total_queued - 1;
      })
    ]

-- The `cancel` closure of `installCancellation`: what the abort listener and the timer call.
unfoldable pub cancel : QueuedOperation → Error → Scheduler → Scheduler
unfolding remove_queued cleanup_queued
cancel queued error s = elim (remove_queued queued s) [
  | none ↦ s
  | some s' ↦ reject s' (cleanup_queued queued) error
]

unfoldable pub install_cancellation : QueuedOperation → QueuedOperation
install_cancellation queued = record queued {
  on_abort = is_some queued.signal;
  deadline_timer = is_some queued.deadline_at;
}

-- `assertScheduleOptions`.
unfoldable pub deadline_of : Option Deadline → Option (Option ℕ)
deadline_of none = some none
deadline_of (some (at n)) = some (some n)
deadline_of (some not_finite) = none

-- How `run` ends: by throwing, with the task started, or with the task in its queue.
pub data RunResult : Type 0 where
  threw : Error → RunResult
  running queued : RunResult

-- `run` behind its assertions.
unfoldable pub admit :
    Env → OperationClass → ℕ → Option ℕ → Option ℕ → Scheduler → Scheduler × RunResult
unfolding is_aborted is_past_deadline start_immediately install_cancellation
admit env c task signal deadline s =
    if is_aborted env.aborted signal
    then (s, threw cancelled)
    else if is_past_deadline deadline (env.now 0)
    then (s, threw deadline_exceeded)
    else if ltb (get s.active c) (get s.concurrency c)
    then (start_immediately s c task, running)
    else if leb s.max_queue_size s.total_queued
    then (s, threw (busy c global))
    else if leb (get s.max_queue_size_by_class c) (length (get s.queues c))
    then (s, threw (busy c class))
    else (
      record s {
        queues = put s.queues c (get s.queues c ++ install_cancellation operation ∷ []);
        total_queued = s.total_queued + 1;
      },
      queued,
    )
  where
    operation : QueuedOperation
    operation = record {
      task = task;
      operation_class = c;
      signal = signal;
      on_abort = false;
      deadline_timer = false;
      deadline_at = deadline;
      started = false;
    }

unfoldable pub run : Env → String → ℕ → ScheduleOptions → Scheduler → Scheduler × RunResult
unfolding admit deadline_of assert_operation_class
run env name task options s = elim (assert_operation_class name) [
  | none ↦ (s, threw unknown_class)
  | some c ↦ elim (deadline_of options.deadline_at) [
    | none ↦ (s, threw infinite_deadline)
    | some deadline ↦ admit env c task options.signal deadline s
  ]
]

pub record Snapshot : Type 0 where
  pub active : PerClass ℕ
  pub queued : PerClass ℕ
  pub total_active : ℕ
  pub total_queued : ℕ

abbrev pub queue_lengths : PerClass (List QueuedOperation) → PerClass ℕ
queue_lengths queues = record {
  of_light = length queues.of_light;
  of_heavy = length queues.of_heavy;
  of_process = length queues.of_process;
  of_document = length queues.of_document;
}

unfoldable pub snapshot : Scheduler → Snapshot
unfolding sum_counts
snapshot s = record {
  active = s.active;
  queued = queue_lengths s.queues;
  total_active = sum_counts s.active;
  total_queued = s.total_queued;
}
