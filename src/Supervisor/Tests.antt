-- ===== src/Supervisor/Tests.antt =====
-- The supervisor at concrete inputs. The unknown values of events are numbers here.
use desktop_remote.Common.{ℕ, ◌+◌, ◌≡◌, refl, false, none, some, [], ◌∷◌, arith}
use desktop_remote.Events.{RuntimeEvent, runtime_exited}
use desktop_remote.Supervisor.Restart.{
  reset, decisions, Escalates, failures_after, decisions_escalate, next_after_exit,
}
use desktop_remote.Supervisor.Phase.{IsSteady}
use desktop_remote.Supervisor.Steps.{
  Reach, here, next, starts, hears, wakes, Reach-IsSteady, stop_lasts, awake,
}
use desktop_remote.Supervisor.{
  Supervisor, initial, start, stop, handle_runtime_event, restart_after,
}

abbrev clock : ℕ → ℕ
clock k = 1000 + k

decisions_escalate_example :
    Escalates 0 (decisions (50 ∷ 60 ∷ 70 ∷ []) reset)
    × (failures_after (50 ∷ 60 ∷ 70 ∷ []) reset ≡ reset.consecutive_failures + 3)
decisions_escalate_example = decisions_escalate (50 ∷ 60 ∷ 70 ∷ []) reset (omega arith)

abbrev started : Supervisor ℕ
unfolding start initial
started = start clock none initial

abbrev exit_event : RuntimeEvent ℕ
exit_event = runtime_exited (some 1) none 1500

abbrev crashed : Supervisor ℕ
unfolding handle_runtime_event start initial
crashed = handle_runtime_event 0 exit_event clock started

abbrev to_crash : Reach initial crashed
unfolding handle_runtime_event start initial
to_crash = next (next here (starts clock none)) (hears 0 exit_event clock)

Reach-IsSteady_example : IsSteady crashed
unfolding handle_runtime_event start initial
Reach-IsSteady_example = Reach-IsSteady crashed to_crash

one_restart_pending : crashed.timers ≡ record { delay_ms = 1000; generation = 1 } ∷ []
unfolding handle_runtime_event start initial next_after_exit
one_restart_pending = refl

abbrev after_stop : Supervisor ℕ
unfolding handle_runtime_event start initial stop restart_after next_after_exit
after_stop = restart_after 1 clock none (awake [] [] (stop crashed))

stop_lasts_example :
    (after_stop.desired_running ≡ false)
    × (after_stop.current ≡ none)
    × (after_stop.created ≡ crashed.created)
unfolding handle_runtime_event start initial stop restart_after next_after_exit
stop_lasts_example =
    stop_lasts crashed to_crash after_stop
      (next here (wakes [] (record { delay_ms = 1000; generation = 1 }) [] clock none refl) refl)
