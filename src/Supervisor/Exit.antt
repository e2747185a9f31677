-- ===== src/Supervisor/Exit.antt =====
-- What the end of a runtime does: the delay of the restart follows from the policy.
use desktop_remote.Common.{
  ℕ, ◌-◌, ◌+◌, ◌≡◌, true, Option, none, some, [], ◌∷◌, ◌++◌, leb, if◌then◌else◌, arith,
}
use desktop_remote.Events.{Text, runtime_exited}
use desktop_remote.Supervisor.Restart.{
  RestartPolicy, next_after_exit, delay_after, healthy_reset_ms, degraded_after_failures,
}
use desktop_remote.Supervisor.{Supervisor, handle_runtime_event, state_after}

-- The failures in a row that the policy counts once a runtime that ran for `d` ms has ended.
abbrev pub failures_with : ℕ → RestartPolicy → ℕ
failures_with d policy = if leb healthy_reset_ms d then 1 else policy.consecutive_failures + 1

-- When the current runtime of a supervisor that should run exits, it is detached and one restart is
-- scheduled under the current generation: after the policy's delay for the failures in a row, which
-- start from one if the runtime had run for the healthy time. The supervisor is degraded exactly
-- when these are ten or more, and recovering otherwise; nothing is restarted at once.
pub exited_schedules :
    {V : Type 0} (runtime : ℕ) (code : Option ℕ) (signal : Option Text) (at : ℕ) (clock : ℕ → ℕ)
    (s : Supervisor V)
    → s.current ≡ some runtime
    → s.desired_running ≡ true
    → let failures = failures_with (clock 0 - s.runtime_started_at) s.policy in
      let t = handle_runtime_event runtime (runtime_exited code signal at) clock s in
      (t.timers
        ≡ s.timers
          ++ record { delay_ms = delay_after failures; generation = s.lifecycle_generation } ∷ [])
      × (t.current ≡ none)
      × (t.state ≡ state_after (leb degraded_after_failures failures))
      × (t.policy.consecutive_failures ≡ failures)
      × (t.created ≡ s.created)
      × (t.exited ≡ s.exited ++ runtime ∷ [])
unfolding handle_runtime_event next_after_exit
exited_schedules runtime code signal at clock s c d =
    (ground arith, ground arith, ground arith, ground arith, ground arith, ground arith)
