-- ===== src/Process/Table.antt =====
-- `ProcessManager` of src/process/manager.ts: the table of managed processes. A managed object is known
-- by its id; what the system does (spawning, output, exits, timers) is an argument of an operation.
use desktop_remote.Common.{
  ℕ, zero, suc, ◌+◌, ◌*◌, Bool, true, false, not, Option, none, some, List, [], ◌∷◌, ◌++◌, ltb, leb,
  ◌==◌, if◌then◌else◌, length, is_some, or_default, ◌>>=◌, ◌⊎◌, inl, inr,
}
use desktop_remote.Common.Dict.{find, put, delete, count_values}
use desktop_remote.Common.Int.{pos, negsuc, Number, safe_integer, other}
use desktop_remote.Events.{Text}
use desktop_remote.Process.Buffer.{Utf8Buffer, new_buffer, append}

pub data Signal : Type 0 where
  sigterm sigkill : Signal

pub record ManagedProcess : Type 0 where
  pub id : ℕ
  pub pid : ℕ
  pub cwd : Text
  pub stdout : Utf8Buffer
  pub stderr : Utf8Buffer
  pub combined : Utf8Buffer
  pub exit_code : Option ℕ
  pub completed_at : Option ℕ
  pub timeout_timer : Bool
  pub eviction_timer : Bool
  pub termination_requested : Bool
  pub timed_out : Bool
  -- The signals that were sent to it.
  pub signals : List Signal

pub record ProcessManagerOptions : Type 0 where
  pub max_concurrent_processes : Option Number
  pub max_output_bytes : Option Number
  pub max_retained_sessions : Option Number
  pub completed_session_ttl_ms : Option Number
  pub session_ttl_ms : Option Number
  pub graceful_terminate_ms : Option Number

pub record ProcessManager : Type 0 where
  pub processes : List (ℕ × ManagedProcess)
  pub ids : List (ℕ × ℕ)
  pub max_concurrent : ℕ
  pub max_output : ℕ
  pub max_retained : ℕ
  pub completed_ttl : ℕ
  pub graceful_terminate : ℕ

abbrev pub default_max_retained_sessions : ℕ
default_max_retained_sessions = 100

abbrev pub default_completed_session_ttl_ms : ℕ
default_completed_session_ttl_ms = 5 * 60 * 1000

abbrev pub default_graceful_terminate_ms : ℕ
default_graceful_terminate_ms = 500

-- `Number.isSafeInteger(value) && value >= 0`, and `> 0`.
unfoldable pub non_negative : Number → Option ℕ
non_negative (safe_integer (pos n)) = some n
non_negative (safe_integer (negsuc n)) = none
non_negative other = none

unfoldable pub positive : Number → Option ℕ
positive (safe_integer (pos zero)) = none
positive (safe_integer (pos (suc n))) = some (suc n)
positive (safe_integer (negsuc n)) = none
positive other = none

abbrev number_or : Option Number → ℕ → Number
number_or none n = safe_integer (pos n)
number_or (some x) n = x

abbrev first_given : Option Number → Option Number → Option Number
first_given none o = o
first_given (some x) o = some x

-- The constructor; `none` where it throws.
unfoldable pub create_manager : ProcessManagerOptions → Option ProcessManager
unfolding positive non_negative
create_manager o = do
  concurrent ← positive (number_or o.max_concurrent_processes 16)
  output ← positive (number_or o.max_output_bytes (64 * 1024))
  retained ← non_negative (number_or o.max_retained_sessions default_max_retained_sessions)
  ttl ← non_negative (
      number_or (first_given o.completed_session_ttl_ms o.session_ttl_ms)
        default_completed_session_ttl_ms)
  graceful ← non_negative (number_or o.graceful_terminate_ms default_graceful_terminate_ms)
  some (record {
    processes = [];
    ids = [];
    max_concurrent = concurrent;
    max_output = output;
    max_retained = retained;
    completed_ttl = ttl;
    graceful_terminate = graceful;
  })

abbrev pub is_running : ManagedProcess → Bool
is_running m = not (is_some m.exit_code)

abbrev pub is_completed : ManagedProcess → Bool
is_completed m = is_some m.completed_at

-- `evict`; the test that the map holds this very object compares ids.
unfoldable pub evict : ManagedProcess → ProcessManager → ProcessManager
evict m s = elim (find m.pid s.processes) [
  | none ↦ s
  | some held ↦
      if not (held.id == m.id)
      then s
      else if is_running held
      then s
      else record s { processes = delete m.pid s.processes; ids = delete m.id s.ids }
]

-- `managed.completedAt !== undefined && now - managed.completedAt >= this.completedSessionTtlMs`.
unfoldable pub is_expired : ℕ → ℕ → ManagedProcess → Bool
is_expired ttl now m = elim m.completed_at [ none ↦ false | some at_ms ↦ leb (at_ms + ttl) now ]

unfoldable pub evict_expired_loop : ℕ → List (ℕ × ManagedProcess) → ProcessManager → ProcessManager
unfolding is_expired evict
evict_expired_loop now [] s = s
evict_expired_loop now ((pid, m) ∷ rest) s =
    evict_expired_loop now rest (if is_expired s.completed_ttl now m then evict m s else s)

unfoldable pub evict_expired_sessions : ℕ → ProcessManager → ProcessManager
unfolding evict_expired_loop
evict_expired_sessions now s = evict_expired_loop now s.processes s

-- `sort` by `completedAt`, which is stable.
abbrev completed_time : ManagedProcess → ℕ
completed_time m = or_default m.completed_at 0

unfoldable pub insert_by_time : ManagedProcess → List ManagedProcess → List ManagedProcess
insert_by_time m [] = m ∷ []
insert_by_time m (n ∷ ns) =
    if leb (completed_time m) (completed_time n) then m ∷ n ∷ ns else n ∷ insert_by_time m ns

unfoldable pub completed_by_time : List (ℕ × ManagedProcess) → List ManagedProcess
unfolding insert_by_time
completed_by_time [] = []
completed_by_time ((pid, m) ∷ rest) =
    if is_completed m then insert_by_time m (completed_by_time rest) else completed_by_time rest

-- `while (completed.length > this.maxRetainedSessions) this.evict(completed.shift()!)`.
unfoldable pub evict_oldest : List ManagedProcess → ProcessManager → ProcessManager
unfolding evict
evict_oldest [] s = s
evict_oldest (m ∷ ms) s =
    let next = evict_oldest ms (evict m s) in
    if ltb s.max_retained (suc (length ms)) then next else s

unfoldable pub evict_completed_by_count : ProcessManager → ProcessManager
unfolding evict_oldest completed_by_time
evict_completed_by_count s = evict_oldest (completed_by_time s.processes) s

-- An assignment to a field of the object, seen through the map.
unfoldable pub update :
    ManagedProcess → (ManagedProcess → ManagedProcess) → ProcessManager → ProcessManager
update m change s = elim (find m.pid s.processes) [
  | none ↦ s
  | some held ↦
      if held.id == m.id then record s { processes = put m.pid (change held) s.processes } else s
]

-- `markCompleted`, with the assignment of the exit code before it.
unfoldable pub on_exit : ManagedProcess → Option ℕ → ℕ → ProcessManager → ProcessManager
unfolding update evict_completed_by_count evict
on_exit m code now s =
    if counted.completed_ttl == 0
    then evict m counted
    else update m (λ held. record held { eviction_timer = true }) counted
  where
    marked : ProcessManager
    marked =
        update m
          (λ held. record held {
            exit_code = some (or_default code 1);
            timeout_timer = false;
            completed_at = some now;
          })
          s

    counted : ProcessManager
    counted = evict_completed_by_count marked

-- The eviction timer's callback.
unfoldable pub on_eviction : ManagedProcess → ProcessManager → ProcessManager
unfolding evict
on_eviction m s = evict m s

unfoldable pub send_signal : Signal → ManagedProcess → ManagedProcess
send_signal signal m = if is_running m then record m { signals = m.signals ++ signal ∷ [] } else m

-- `requestTermination`, up to the first wait of `terminateManaged`.
unfoldable pub request_termination : ManagedProcess → ManagedProcess
unfolding send_signal
request_termination m =
    if m.termination_requested
    then m
    else send_signal sigterm (record m { termination_requested = true })

-- `terminateManaged` after its grace period.
unfoldable pub after_grace : ManagedProcess → ManagedProcess
unfolding send_signal
after_grace m = send_signal sigkill m

-- The callback of the timeout.
unfoldable pub on_timeout : ManagedProcess → ManagedProcess
unfolding request_termination
on_timeout m =
    if is_some m.exit_code then m else request_termination (record m { timed_out = true })

-- A chunk of an output stream.
unfoldable pub on_output : Bool → List ℕ → ManagedProcess → ManagedProcess
unfolding append
on_output is_stdout bytes m =
    if is_stdout
    then record m { stdout = append bytes m.stdout; combined = append bytes m.combined }
    else record m { stderr = append bytes m.stderr; combined = append bytes m.combined }

pub data StartError : Type 0 where
  invalid_argument too_many_processes spawn_failed : StartError

-- The object that `start` makes.
abbrev pub new_process : ℕ → ℕ → Text → Bool → ℕ → ManagedProcess
new_process id pid cwd with_timeout max_output = record {
  id = id;
  pid = pid;
  cwd = cwd;
  stdout = new_buffer max_output;
  stderr = new_buffer max_output;
  combined = new_buffer max_output;
  exit_code = none;
  completed_at = none;
  timeout_timer = with_timeout;
  eviction_timer = false;
  termination_requested = false;
  timed_out = false;
  signals = [];
}

-- `start` behind its validation: the clock, the fresh id, the pid that the system gives, the directory
-- and whether there is a timeout.
unfoldable pub start :
    ℕ → ℕ → Option ℕ → Text → Bool → ProcessManager → ProcessManager × (StartError ⊎ ManagedProcess)
unfolding evict_expired_sessions new_buffer
start now fresh spawned cwd with_timeout s =
    if leb swept.max_concurrent (count_values is_running swept.processes)
    then (swept, inl too_many_processes)
    else elim spawned [
      | none ↦ (swept, inl spawn_failed)
      | some pid ↦ (
        record swept {
          processes = put pid (managed pid) swept.processes;
          ids = put fresh pid swept.ids;
        },
        inr (managed pid),
      )
    ]
  where
    swept : ProcessManager
    swept = evict_expired_sessions now s

    managed : ℕ → ManagedProcess
    managed pid = new_process fresh pid cwd with_timeout swept.max_output

-- `getManaged`: the pid is a number, the id a string.
unfoldable pub get_managed : ℕ → ℕ ⊎ ℕ → ProcessManager → ProcessManager × Option ManagedProcess
unfolding evict_expired_sessions
get_managed now (inl pid) s =
    (evict_expired_sessions now s, find pid (evict_expired_sessions now s).processes)
get_managed now (inr id) s = (
  evict_expired_sessions now s,
  elim (find id (evict_expired_sessions now s).ids) [
    | none ↦ none
    | some pid ↦ find pid (evict_expired_sessions now s).processes
  ],
)

-- `terminate` and `kill`, for a pid that is valid.
unfoldable pub terminate : ℕ → ℕ → ProcessManager → ProcessManager × Bool
unfolding get_managed update request_termination
terminate now pid s = elim (get_managed now (inl pid) s).1 [
  | none ↦ ((get_managed now (inl pid) s).0, false)
  | some m ↦ (update m request_termination (get_managed now (inl pid) s).0, true)
]
