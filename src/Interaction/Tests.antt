-- ===== src/Interaction/Tests.antt =====
-- The terminal interface's transitions at concrete inputs.
use desktop_remote.Common.{◌≡◌, ◌≢◌, refl, true, false, none, some}
use desktop_remote.Interaction.{
  activity, help, toggle_help, transition_mode, FollowState, ActivityClickState, action_for_key,
  quit,
}
use desktop_remote.Interaction.Modes.{Moves, transition-Moves}

ctrl_c : action_for_key (record { name = some "c"; sequence = none; ctrl = true }) ≡ quit
unfolding action_for_key
ctrl_c = refl

transition-Moves_example :
    (transition_mode help toggle_help true ≢ help
      → Moves help toggle_help true (transition_mode help toggle_help true))
    × (Moves help toggle_help true activity → transition_mode help toggle_help true ≡ activity)
transition-Moves_example = transition-Moves help toggle_help true activity

abbrev frozen : FollowState
frozen = record { following = false; pending_new = 2 }

abbrev first_click : ActivityClickState
first_click = record { call_id = "c1"; at = 100 }
