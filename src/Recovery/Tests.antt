-- ===== src/Recovery/Tests.antt =====
-- The recovery policy at concrete observations: a tunnel that stays dead.
use desktop_remote.Common.{
  ℕ, ◌<◌, ◌≡◌, ◌↔◌, refl, true, false, none, some, List, ◌≢◌, [], ◌∷◌, arith, length, last?,
}
use desktop_remote.Recovery.{
  RecoveryObservation, RecoveryPolicyOptions, evaluate_recovery, restart_tunnel, with_defaults,
}
use desktop_remote.Recovery.Decision.{evaluate_restart_iff, IsCool, Within, HasFailed}
use desktop_remote.Recovery.Spacing.{restarts, restarts-Spaced, Spaced}

abbrev defaults : RecoveryPolicyOptions
defaults = record {
  max_restarts = none;
  window_ms = none;
  cooldown_ms = none;
  healthy_reset_ms = none;
}

abbrev dead_at : ℕ → RecoveryObservation
dead_at now = record {
  now = now;
  local = record {
    configured = some true;
    liveness = false;
    readiness = false;
    process_alive = none;
    stuck = none;
  };
  control_plane = none;
}

evaluate_restart_iff_example :
    (kept : List ℕ) × Within 70000 (with_defaults defaults).window_ms (1000 ∷ []) kept
    × (((evaluate_recovery (dead_at 70000) (1000 ∷ []) defaults).action ≡ restart_tunnel) ↔ (
        ((dead_at 70000).local.configured ≢ some false)
        × HasFailed (dead_at 70000).local
        × (length kept < (with_defaults defaults).max_restarts)
        × IsCool (with_defaults defaults).cooldown_ms 70000 (last? kept)))
evaluate_restart_iff_example = evaluate_restart_iff (dead_at 70000) (1000 ∷ []) defaults

two_restarts :
    restarts defaults (dead_at 1000 ∷ dead_at 2000 ∷ dead_at 61000 ∷ []) [] ≡ 1000 ∷ 61000 ∷ []
unfolding restarts evaluate_recovery
two_restarts = refl

restarts-Spaced_example :
    Spaced
      (with_defaults defaults).cooldown_ms
      none
      (restarts defaults (dead_at 1000 ∷ dead_at 2000 ∷ dead_at 61000 ∷ []) [])
unfolding with_defaults
restarts-Spaced_example =
    restarts-Spaced defaults (dead_at 1000 ∷ dead_at 2000 ∷ dead_at 61000 ∷ []) (omega arith)
      (omega arith) (omega arith)
