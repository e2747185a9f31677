-- ===== src/Supervisor.antt =====
-- src/daemon/supervisor.ts: `DaemonSupervisor`. A managed runtime is known by the number under which
-- `createRuntime` made it; a pending `restartAfter` is a timer with its delay and generation.
pub mod Restart
pub mod Phase
pub mod Methods
pub mod Steps
pub mod Exit
mod Tests
use desktop_remote.Common.{
  ℕ, zero, suc, ◌+◌, ◌-◌, Bool, true, false, not, ◌&&◌, ◌||◌, Option, none, some, List, [], ◌∷◌,
  ◌++◌, ◌==◌, if◌then◌else◌, is_some,
}
use desktop_remote.Events.{
  Text, RuntimeEvent, auth_required, device_ready, runtime_exited, runtime_error,
}
use Restart.{RestartPolicy, RestartDecision, reset, next_after_exit}

pub data SupervisorState : Type 0 where
  starting auth online recovering degraded stopped : SupervisorState

-- `childPid` is the number of the runtime whose pid is read.
pub record SupervisorStatus : Type 0 where
  pub state : SupervisorState
  pub child : Option ℕ
  pub restart_count : ℕ
  pub consecutive_failures : ℕ
  pub started_at : ℕ
  pub last_restart_at : Option ℕ

pub record Timer : Type 0 where
  pub delay_ms : ℕ
  pub generation : ℕ

pub record Supervisor (V : Type 0) : Type 0 where
  pub current : Option ℕ
  pub subscribed : Bool
  pub state : SupervisorState
  pub desired_running : Bool
  pub lifecycle_generation : ℕ
  pub runtime_started_at : ℕ
  pub started_at : ℕ
  pub restart_count : ℕ
  pub last_restart_at : Option ℕ
  pub policy : RestartPolicy
  -- The world: runtimes made so far, those whose exit was handled, those told to stop, pending
  -- restarts, and what the listeners were told, oldest first.
  pub created : ℕ
  pub exited : List ℕ
  pub told_to_stop : List ℕ
  pub timers : List Timer
  pub events : List (RuntimeEvent V)
  pub statuses : List SupervisorStatus

-- `runtime === this.current`.
abbrev pub is_current : ℕ → Option ℕ → Bool
is_current runtime none = false
is_current runtime (some r) = runtime == r

abbrev pub state_after : Bool → SupervisorState
state_after true = degraded
state_after false = recovering

abbrev pub is_stopped : SupervisorState → Bool
is_stopped stopped = true
is_stopped _ = false

abbrev pub tell_to_stop : Option ℕ → List ℕ → List ℕ
tell_to_stop none told = told
tell_to_stop (some runtime) told = told ++ runtime ∷ []

module _ {V : Type 0} where
  -- The field initializers and the constructor.
  unfoldable pub initial : Supervisor V
  unfolding reset
  initial = record {
    current = none;
    subscribed = false;
    state = stopped;
    desired_running = false;
    lifecycle_generation = 0;
    runtime_started_at = 0;
    started_at = 0;
    restart_count = 0;
    last_restart_at = none;
    policy = reset;
    created = 0;
    exited = [];
    told_to_stop = [];
    timers = [];
    events = [];
    statuses = [];
  }

  unfoldable pub status : Supervisor V → SupervisorStatus
  status s = record {
    state = s.state;
    child = s.current;
    restart_count = s.restart_count;
    consecutive_failures = s.policy.consecutive_failures;
    started_at = s.started_at;
    last_restart_at = s.last_restart_at;
  }

  unfoldable pub emit_status : Supervisor V → Supervisor V
  unfolding status
  emit_status s = record s { statuses = s.statuses ++ status s ∷ [] }

  unfoldable pub emit_event : RuntimeEvent V → Supervisor V → Supervisor V
  emit_event event s = record s { events = s.events ++ event ∷ [] }

  unfoldable pub detach_current : Supervisor V → Supervisor V
  detach_current s = record s { current = none; subscribed = false }

  unfoldable pub schedule : RestartPolicy × RestartDecision → Supervisor V → Supervisor V
  unfolding emit_status
  schedule (policy, decision) s = record told {
    timers =
        told.timers
        ++ record { delay_ms = decision.delay_ms; generation = told.lifecycle_generation } ∷ [];
  }
    where
      told : Supervisor V
      told = emit_status (record s { policy = policy; state = state_after decision.degraded })

  unfoldable pub handle_runtime_exit : ℕ → ℕ → Supervisor V → Supervisor V
  unfolding detach_current schedule
  handle_runtime_exit runtime run_duration_ms s =
      if is_current runtime s.current
      then (if s.desired_running
          then schedule (next_after_exit run_duration_ms s.policy) gone
          else emit_status (record gone { state = stopped }))
      else s
    where
      gone : Supervisor V
      gone = record (detach_current s) { exited = s.exited ++ runtime ∷ [] }

  -- A new runtime becomes the current one.
  unfoldable pub launch : Bool → ℕ → Supervisor V → Supervisor V
  unfolding emit_status
  launch is_restart now s = emit_status (record s {
    current = some s.created;
    created = s.created + 1;
    subscribed = true;
    runtime_started_at = now;
    restart_count = if is_restart then s.restart_count + 1 else s.restart_count;
    last_restart_at = if is_restart then some now else s.last_restart_at;
    state = starting;
  })

  -- `clock k` is the k-th reading of the clock in the call; `failure` is the message of what
  -- `runtime.start()` throws, if it throws.
  unfoldable pub start_runtime : Bool → (ℕ → ℕ) → Option Text → Supervisor V → Supervisor V
  unfolding launch emit_event handle_runtime_exit
  start_runtime is_restart clock failure s =
      if not s.desired_running || is_some s.current then s else elim failure [
        | none ↦ launch is_restart (clock 0) s
        | some message ↦
            handle_runtime_exit s.created 0
              (emit_event (runtime_error message (clock 1)) (launch is_restart (clock 0) s))
      ]

  unfoldable pub start : (ℕ → ℕ) → Option Text → Supervisor V → Supervisor V
  unfolding start_runtime reset
  start clock failure s =
      if s.desired_running
      then s
      else start_runtime false (λ k. clock (suc k)) failure
          (record s {
            desired_running = true;
            lifecycle_generation = s.lifecycle_generation + 1;
            policy = reset;
            restart_count = 0;
            last_restart_at = none;
            started_at = clock 0;
          })

  unfoldable pub stop : Supervisor V → Supervisor V
  unfolding emit_status detach_current
  stop s = if not s.desired_running && is_stopped s.state then s else record (detach_current told) {
    told_to_stop = tell_to_stop told.current told.told_to_stop;
  }
    where
      told : Supervisor V
      told = emit_status (record s {
        desired_running = false;
        lifecycle_generation = s.lifecycle_generation + 1;
        state = stopped;
      })

  -- `handleRuntimeEvent` behind its guard and its `emitEvent`.
  unfoldable pub react : ℕ → (ℕ → ℕ) → RuntimeEvent V → Supervisor V → Supervisor V
  unfolding emit_status handle_runtime_exit
  react runtime clock (auth_required _ _ _ _) s = emit_status (record s { state = auth })
  react runtime clock (device_ready _ _ _ _) s = emit_status (record s { state = online })
  react runtime clock (runtime_exited _ _ _) s =
      handle_runtime_exit runtime (clock 0 - s.runtime_started_at) s
  react runtime clock _ s = s

  unfoldable pub handle_runtime_event : ℕ → RuntimeEvent V → (ℕ → ℕ) → Supervisor V → Supervisor V
  unfolding emit_event react
  handle_runtime_event runtime event clock s =
      if is_current runtime s.current then react runtime clock event (emit_event event s) else s

  -- The rest of `restartAfter` when its sleep is over.
  unfoldable pub restart_after : ℕ → (ℕ → ℕ) → Option Text → Supervisor V → Supervisor V
  unfolding start_runtime
  restart_after generation clock failure s =
      if not s.desired_running || not (generation == s.lifecycle_generation) || is_some s.current
      then s
      else start_runtime true clock failure s
