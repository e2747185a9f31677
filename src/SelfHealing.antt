-- ===== src/SelfHealing.antt =====
-- src/daemon/self-healing.ts: `OperationDeadlineTracker` and `SelfHealingExecutor`. The id `op-n`
-- is the number n, and a Map is its values in insertion order. Times are whole milliseconds.
pub mod Sync
pub mod Valid
pub mod Callbacks
pub mod Steps
pub mod Hung
mod Tests
use desktop_remote.Common.{
  ℕ, ◌+◌, ◌-◌, Bool, true, false, not, ◌&&◌, ◌||◌, Option, none, some, List, [], ◌∷◌, ◌++◌, leb,
  ◌==◌, if◌then◌else◌, is_some, keep_if, any,
}
use desktop_remote.Events.{Text}

abbrev pub default_deadline_ms : ℕ
default_deadline_ms = 20000

pub record TrackedOperation : Type 0 where
  pub id : ℕ
  pub operation_name : Text
  pub started_at : ℕ
  pub deadline : ℕ
  pub child_pid : Option ℕ
  pub aborted : Bool

-- operationId, operationName, childPid, startedAt, deadline, hungDurationMs; and operationId,
-- operationName, durationMs.
pub data WatchdogEvent : Type 0 where
  hung_event : ℕ → Text → Option ℕ → ℕ → ℕ → ℕ → WatchdogEvent
  completed_event : ℕ → Text → ℕ → WatchdogEvent

-- `Map.set`: the value of a key that is there is replaced in its place.
unfoldable pub set_operation : TrackedOperation → List TrackedOperation → List TrackedOperation
set_operation op [] = op ∷ []
set_operation op (o ∷ os) = if o.id == op.id then op ∷ os else o ∷ set_operation op os

unfoldable pub get_operation : ℕ → List TrackedOperation → Option TrackedOperation
get_operation id [] = none
get_operation id (o ∷ os) = if o.id == id then some o else get_operation id os

unfoldable pub remove_operation : ℕ → List TrackedOperation → List TrackedOperation
remove_operation id [] = []
remove_operation id (o ∷ os) = if o.id == id then os else o ∷ remove_operation id os

-- `abort`, which writes to the object in the map.
unfoldable pub abort : ℕ → List TrackedOperation → List TrackedOperation
abort id [] = []
abort id (o ∷ os) = if o.id == id then record o { aborted = true } ∷ os else o ∷ abort id os

unfoldable pub track : ℕ → ℕ → Text → ℕ → Option ℕ → List TrackedOperation → List TrackedOperation
unfolding set_operation
track deadline_ms id name started_at child_pid ops =
    set_operation
      (record {
        id = id;
        operation_name = name;
        started_at = started_at;
        deadline = started_at + deadline_ms;
        child_pid = child_pid;
        aborted = false;
      })
      ops

unfoldable pub is_expired : ℕ → ℕ → List TrackedOperation → Bool
unfolding get_operation
is_expired id now ops = elim (get_operation id ops) [
  | none ↦ false
  | some op ↦ if op.aborted then false else leb op.deadline now
]

-- How the promise of `execute` settles: with what the executor did, or with the timeout error.
pub data Outcome : Type 0 where
  settled_by_executor timed_out : Outcome

-- The variables of one call of `execute`: `hung` is the closure's flag, `settled` says that the
-- executor's promise has settled, `outcome` is how the race between the two promises ended.
pub record Call : Type 0 where
  pub id : ℕ
  pub name : Text
  pub started_at : ℕ
  pub hung : Bool
  pub settled : Bool
  pub outcome : Option Outcome

pub record Executor : Type 0 where
  pub deadline_ms : ℕ
  pub operations : List TrackedOperation
  pub op_counter : ℕ
  pub watchdog : Bool
  -- The calls of `execute` so far, the events emitted, and the processes told to die.
  pub calls : List Call
  pub events : List WatchdogEvent
  pub kills : List ℕ

unfoldable pub create : Option ℕ → Executor
create deadline_ms = record {
  deadline_ms = elim deadline_ms [ none ↦ default_deadline_ms | some ms ↦ ms ];
  operations = [];
  op_counter = 0;
  watchdog = false;
  calls = [];
  events = [];
  kills = [];
}

unfoldable pub find_call : ℕ → List Call → Option Call
find_call id [] = none
find_call id (c ∷ cs) = if c.id == id then some c else find_call id cs

unfoldable pub set_call : Call → List Call → List Call
set_call call [] = []
set_call call (c ∷ cs) = if c.id == call.id then call ∷ cs else c ∷ set_call call cs

abbrev pub kill_child : Option ℕ → List ℕ → List ℕ
kill_child none kills = kills
kill_child (some pid) kills = kills ++ pid ∷ []

unfoldable pub abort_operation : ℕ → ℕ → Executor → Executor
unfolding get_operation abort
abort_operation id now e = elim (get_operation id e.operations) [
  | none ↦ e
  | some op ↦ record e {
    operations = abort id e.operations;
    kills = kill_child op.child_pid e.kills;
    events =
        e.events
        ++ hung_event id op.operation_name op.child_pid op.started_at op.deadline
            (now - op.started_at)
          ∷ [];
  }
]

-- `execute`, up to the wait: `now` is the clock's reading.
unfoldable pub execute : Text → ℕ → Executor → Executor
unfolding track
execute name now e = record e {
  op_counter = e.op_counter + 1;
  operations = track e.deadline_ms (e.op_counter + 1) name now none e.operations;
  watchdog = true;
  calls =
      e.calls
      ++ record {
        id = e.op_counter + 1;
        name = name;
        started_at = now;
        hung = false;
        settled = false;
        outcome = none;
      }
        ∷ [];
}

abbrev pub is_empty : List TrackedOperation → Bool
is_empty [] = true
is_empty (o ∷ os) = false

abbrev pub first : Option Outcome → Outcome → Option Outcome
first none o = some o
first (some p) o = some p

-- The `finally` callback of the executor's promise, for the call whose variables are `c`.
unfoldable pub on_settled : Call → ℕ → Executor → Executor
unfolding set_call remove_operation
on_settled c now e = if c.hung then noted else record noted {
  operations = left;
  events = e.events ++ completed_event c.id c.name (now - c.started_at) ∷ [];
  watchdog = if is_empty left then false else e.watchdog;
}
  where
    left : List TrackedOperation
    left = remove_operation c.id e.operations

    noted : Executor
    noted = record e {
      calls =
          set_call (record c { settled = true; outcome = first c.outcome settled_by_executor })
            e.calls;
    }

-- The callback of the timeout of the call whose variables are `c`.
unfoldable pub on_timeout : Call → ℕ → Executor → Executor
unfolding set_call abort_operation get_operation
on_timeout c now e =
    if is_some (get_operation c.id e.operations) && not c.hung
    then abort_operation c.id now (record e {
      calls = set_call (record c { hung = true; outcome = first c.outcome timed_out }) e.calls;
    })
    else e

-- The loop of `checkDeadlines`, over the list taken before it.
unfoldable pub check_each : ℕ → List TrackedOperation → Executor → Executor
unfolding abort_operation
check_each now [] e = e
check_each now (op ∷ ops) e =
    check_each now ops
      (if op.aborted then e else if leb op.deadline now then abort_operation op.id now e else e)

unfoldable pub check_deadlines : ℕ → Executor → Executor
unfolding check_each
check_deadlines now e = check_each now e.operations e
