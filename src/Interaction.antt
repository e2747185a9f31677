-- ===== src/Interaction.antt =====
-- src/tui/interaction.ts: keys, modes, clicks and the following of new calls in the terminal
-- interface. Times are whole milliseconds.
pub mod Modes
pub mod Following
mod Tests
use Prim.Native.String.{String}
use text.Mathlib.Text.{◌==◌ as str_eq}
use desktop_remote.Common.{
  ℕ, zero, suc, ◌+◌, ◌-◌, Bool, true, false, ◌&&◌, ◌||◌, Option, none, some, leb, ltb,
  if◌then◌else◌,
}
use desktop_remote.Common.Int.{ℤ, pos, negsuc}

pub data TuiMode : Type 0 where
  activity detail search_mode help : TuiMode

pub data TuiAction : Type 0 where
  next previous open_detail open_search toggle_help cycle_filter jump_end toggle_arguments :
      TuiAction
  back escape quit none_action : TuiAction

pub record FollowState : Type 0 where
  pub following : Bool
  pub pending_new : ℕ

pub data FollowEvent : Type 0 where
  user_away freeze new_call resume : FollowEvent

pub record ActivityClickState : Type 0 where
  pub call_id : String
  pub at : ℕ

pub record ActivityClickResult : Type 0 where
  pub state : Option ActivityClickState
  pub opens : Bool

pub record KeyLike : Type 0 where
  pub name : Option String
  pub sequence : Option String
  pub ctrl : Bool

abbrev is_text : Option String → String → Bool
is_text none s = false
is_text (some t) s = str_eq t s

unfoldable pub action_for_key : KeyLike → TuiAction
action_for_key key =
    if key.ctrl && is_text key.name "c"
    then quit
    else if is_text key.name "escape"
    then escape
    else if is_text key.name "left"
    then back
    else if is_text key.name "up" || is_text key.name "k"
    then previous
    else if is_text key.name "down" || is_text key.name "j"
    then next
    else if is_text key.name "end"
    then jump_end
    else if is_text key.name "return" || is_text key.name "enter"
    then open_detail
    else if is_text key.sequence "/" || is_text key.name "/"
    then open_search
    else if is_text key.sequence "?" || is_text key.name "?"
    then toggle_help
    else if is_text key.name "f"
    then cycle_filter
    else if is_text key.name "a"
    then toggle_arguments
    else none_action

unfoldable pub update_follow_state : FollowState → FollowEvent → FollowState
update_follow_state state resume = record { following = true; pending_new = 0 }
update_follow_state state freeze = record { following = false; pending_new = 0 }
update_follow_state state user_away = state
update_follow_state state new_call =
    if state.following
    then state
    else record { following = false; pending_new = state.pending_new + 1 }

pub record FollowTotalUpdate : Type 0 where
  pub state : FollowState
  pub select_newest : Bool

-- The loop of `updateFollowForTotalCalls`, with the rounds left.
unfoldable pub new_calls : ℕ → FollowState → FollowState
unfolding update_follow_state
new_calls zero state = state
new_calls (suc rounds) state = new_calls rounds (update_follow_state state new_call)

unfoldable pub update_follow_for_total_calls : FollowState → ℤ → ℕ → FollowTotalUpdate
unfolding new_calls
update_follow_for_total_calls state (negsuc n) total = record {
  state = state;
  select_newest = ltb 0 total && state.following;
}
update_follow_for_total_calls state (pos previous_total) total =
    if leb total previous_total then record { state = state; select_newest = false } else record {
      state = new_calls (total - previous_total) state;
      select_newest = (new_calls (total - previous_total) state).following;
    }

abbrev pub default_threshold_ms : ℕ
default_threshold_ms = 350

-- `elapsed >= 0 && elapsed <= thresholdMs`, where another call's click is infinitely long ago.
unfoldable pub opens_on : Option ActivityClickState → String → ℕ → ℕ → Bool
opens_on none call_id now_ms threshold_ms = false
opens_on (some click) call_id now_ms threshold_ms =
    str_eq click.call_id call_id && leb click.at now_ms && leb (now_ms - click.at) threshold_ms

unfoldable pub register_activity_click :
    Option ActivityClickState → String → ℕ → ℕ → ActivityClickResult
unfolding opens_on
register_activity_click state call_id now_ms threshold_ms = record {
  state =
      if opens_on state call_id now_ms threshold_ms
      then none
      else some (record { call_id = call_id; at = now_ms });
  opens = opens_on state call_id now_ms threshold_ms;
}

abbrev is_activity : TuiMode → Bool
is_activity activity = true
is_activity _ = false

abbrev is_help : TuiMode → Bool
is_help help = true
is_help _ = false

unfoldable pub transition_mode : TuiMode → TuiAction → Bool → TuiMode
transition_mode mode escape has_selection = activity
transition_mode mode back has_selection = activity
transition_mode mode open_detail has_selection =
    if is_activity mode && has_selection then detail else mode
transition_mode mode open_search has_selection = if is_activity mode then search_mode else mode
transition_mode mode toggle_help has_selection =
    if is_help mode then activity else if is_activity mode then help else mode
transition_mode mode _ has_selection = mode
