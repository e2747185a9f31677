-- ===== src/Recovery.antt =====
-- src/doctor/recovery-policy.ts: when the tunnel may be restarted. Times and the limits of the
-- policy are whole non-negative numbers, so `Number.isFinite`, `Math.floor` and `Math.max` change
-- none of them. An option is absent, which `none` stands for, or a number; an option that is present and
-- undefined, which the spread would let replace the default, is not modelled.
pub mod Decision
pub mod Spacing
mod Tests
use desktop_remote.Common.{
  ℕ, ◌+◌, ◌-◌, ◌*◌, Bool, true, false, not, ◌&&◌, ◌||◌, Option, none, some, List, [], ◌∷◌, ◌++◌,
  leb, ltb, ◌==◌, if◌then◌else◌, length, drop, last?, keep_if, or_default,
}

pub data RecoveryAction : Type 0 where
  healthy observe restart_tunnel circuit_open : RecoveryAction

pub record RecoveryLocalObservation : Type 0 where
  pub configured : Option Bool
  pub liveness : Bool
  pub readiness : Bool
  pub process_alive : Option Bool
  pub stuck : Option Bool

pub record RecoveryControlPlaneObservation : Type 0 where
  pub reachable : Option Bool
  pub stale : Option Bool

pub record RecoveryObservation : Type 0 where
  pub now : ℕ
  pub local : RecoveryLocalObservation
  pub control_plane : Option RecoveryControlPlaneObservation

pub record RecoveryPolicyOptions : Type 0 where
  pub max_restarts : Option ℕ
  pub window_ms : Option ℕ
  pub cooldown_ms : Option ℕ
  pub healthy_reset_ms : Option ℕ

pub record Policy : Type 0 where
  pub max_restarts : ℕ
  pub window_ms : ℕ
  pub cooldown_ms : ℕ
  pub healthy_reset_ms : ℕ

-- The texts of `reason`.
pub data Reason : Type 0 where
  not_configured control_plane_stale not_ready locally_healthy : Reason
  budget_exhausted : ℕ → ℕ → Reason
  cooldown_active : ℕ → Reason
  proven_stuck process_dead probe_failed : Reason

pub record RecoveryDecision : Type 0 where
  pub action : RecoveryAction
  pub reason : Reason
  pub restart_times : List ℕ

abbrev pub default_recovery_policy : Policy
default_recovery_policy = record {
  max_restarts = 3;
  window_ms = 10 * 60 * 1000;
  cooldown_ms = 60 * 1000;
  healthy_reset_ms = 5 * 60 * 1000;
}

-- `{ ...DEFAULT_RECOVERY_POLICY, ...options }`.
unfoldable pub with_defaults : RecoveryPolicyOptions → Policy
with_defaults options = record {
  max_restarts = or_default options.max_restarts default_recovery_policy.max_restarts;
  window_ms = or_default options.window_ms default_recovery_policy.window_ms;
  cooldown_ms = or_default options.cooldown_ms default_recovery_policy.cooldown_ms;
  healthy_reset_ms = or_default options.healthy_reset_ms default_recovery_policy.healthy_reset_ms;
}

abbrev pub is : Bool → Option Bool → Bool
is b none = false
is true (some c) = c
is false (some c) = not c

unfoldable pub is_locally_healthy : RecoveryLocalObservation → Bool
is_locally_healthy local =
    local.liveness
    && local.readiness
    && not (is false local.process_alive)
    && not (is true local.stuck)

unfoldable pub is_locally_repairable : RecoveryLocalObservation → Bool
is_locally_repairable local =
    is true local.stuck || not local.liveness || is false local.process_alive

unfoldable pub local_failure_reason : RecoveryLocalObservation → Reason
local_failure_reason local =
    if is true local.stuck
    then proven_stuck
    else if is false local.process_alive
    then process_dead
    else probe_failed

-- `controlPlane?.stale || controlPlane?.reachable === false`.
unfoldable pub is_unavailable : Option RecoveryControlPlaneObservation → Bool
is_unavailable none = false
is_unavailable (some plane) = is true plane.stale || is false plane.reachable

unfoldable pub control_plane_only_reason : Option RecoveryControlPlaneObservation → Reason
unfolding is_unavailable
control_plane_only_reason plane = if is_unavailable plane then control_plane_stale else not_ready

unfoldable pub has_been_healthy_long_enough : ℕ → Option ℕ → ℕ → Bool
has_been_healthy_long_enough now none healthy_reset_ms = true
has_been_healthy_long_enough now (some last) healthy_reset_ms = leb healthy_reset_ms (now - last)

-- `xs.slice(-n)`: the last `n`; all of them for 0.
unfoldable pub slice_last : ℕ → List ℕ → List ℕ
slice_last n xs = if n == 0 then xs else drop (length xs - n) xs

abbrev pub in_window : ℕ → ℕ → ℕ → Bool
in_window now window timestamp = leb timestamp now && leb (now - timestamp) window

unfoldable pub recent_restarts : Policy → ℕ → List ℕ → List ℕ
unfolding slice_last keep_if
recent_restarts policy now times =
    slice_last policy.max_restarts (keep_if (in_window now policy.window_ms) times)

-- The time still to wait after the last restart, if the cooldown is active.
unfoldable pub cooling : Policy → ℕ → Option ℕ → Option ℕ
cooling policy now none = none
cooling policy now (some last) =
    if ltb (now - last) policy.cooldown_ms then some (policy.cooldown_ms - (now - last)) else none

-- The decision once the tunnel needs a repair.
unfoldable pub repair : Policy → RecoveryObservation → List ℕ → RecoveryDecision
unfolding cooling local_failure_reason
repair policy o recent =
    if leb policy.max_restarts (length recent)
    then record {
      action = circuit_open;
      reason = budget_exhausted (length recent) policy.window_ms;
      restart_times = recent;
    }
    else elim (cooling policy o.now (last? recent)) [
      | some wait ↦ record {
        action = observe;
        reason = cooldown_active wait;
        restart_times = recent;
      }
      | none ↦ record {
        action = restart_tunnel;
        reason = local_failure_reason o.local;
        restart_times = recent ++ o.now ∷ [];
      }
    ]

-- The decision for a tunnel that is locally healthy.
unfoldable pub keep : Policy → RecoveryObservation → List ℕ → RecoveryDecision
unfolding has_been_healthy_long_enough is_unavailable control_plane_only_reason
keep policy o recent =
    if is_unavailable o.control_plane
    then record {
      action = observe;
      reason = control_plane_only_reason o.control_plane;
      restart_times = recent;
    }
    else record {
      action = healthy;
      reason = locally_healthy;
      restart_times =
          if has_been_healthy_long_enough o.now (last? recent) policy.healthy_reset_ms
          then []
          else recent;
    }

unfoldable pub decide : Policy → RecoveryObservation → List ℕ → RecoveryDecision
unfolding keep repair is_locally_healthy is_locally_repairable control_plane_only_reason
decide policy o recent =
    if is false o.local.configured
    then record { action = observe; reason = not_configured; restart_times = recent }
    else if is_locally_healthy o.local
    then keep policy o recent
    else if not (is_locally_repairable o.local)
    then record {
      action = observe;
      reason = control_plane_only_reason o.control_plane;
      restart_times = recent;
    }
    else repair policy o recent

-- `times` is `history.restartTimes ?? []`.
unfoldable pub evaluate_recovery :
    RecoveryObservation → List ℕ → RecoveryPolicyOptions → RecoveryDecision
unfolding decide recent_restarts with_defaults
evaluate_recovery o times options =
    decide (with_defaults options) o (recent_restarts (with_defaults options) o.now times)
