-- ===== src/Interaction/Modes.antt =====
-- The modes of the interface, as the user moves through them.
use desktop_remote.Common.{◌≡◌, ◌≢◌, ◌↔◌, refl, Bool, true, arith}
use desktop_remote.Interaction.{
  TuiMode, activity, detail, search_mode, help, TuiAction, open_detail, open_search, toggle_help,
  back, escape, transition_mode,
}

-- How an action changes the mode, as a relation: the moves that the interface offers.
pub data Moves : TuiMode → TuiAction → Bool → TuiMode → Type 0 where
  leaves_escape : {m : TuiMode} {b : Bool} → Moves m escape b activity
  leaves_back : {m : TuiMode} {b : Bool} → Moves m back b activity
  opens_detail : Moves activity open_detail true detail
  opens_search : {b : Bool} → Moves activity open_search b search_mode
  opens_help : {b : Bool} → Moves activity toggle_help b help
  closes_help : {b : Bool} → Moves help toggle_help b activity

change-Moves :
    (m : TuiMode) (a : TuiAction) (b : Bool)
    → transition_mode m a b ≢ m
    → Moves m a b (transition_mode m a b)
unfolding transition_mode
change-Moves m escape b h = leaves_escape
change-Moves m back b h = leaves_back
change-Moves activity open_detail true h = opens_detail
change-Moves activity open_search b h = opens_search
change-Moves activity toggle_help b h = opens_help
change-Moves help toggle_help b h = closes_help
change-Moves m a b h = absurd (h refl)

Moves-transition :
    {m n : TuiMode} {a : TuiAction} {b : Bool} → Moves m a b n → transition_mode m a b ≡ n
unfolding transition_mode
Moves-transition leaves_escape = refl
Moves-transition leaves_back = refl
Moves-transition opens_detail = refl
Moves-transition opens_search = refl
Moves-transition opens_help = refl
Moves-transition closes_help = refl

-- The mode changes exactly by the offered moves: search, help and detail are entered from the
-- activity view alone, detail only with a call selected, and they lead back to it alone; every
-- action that offers no move leaves the mode as it is.
pub transition-Moves :
    (m : TuiMode) (a : TuiAction) (b : Bool) (n : TuiMode)
    → (transition_mode m a b ≢ m → Moves m a b (transition_mode m a b))
      × (Moves m a b n → transition_mode m a b ≡ n)
transition-Moves m a b n = (change-Moves m a b, Moves-transition)

-- From whatever mode, an escape and then a key for the detail view shows the detail view exactly if
-- a call is selected then.
pub escape_detail_iff :
    (m : TuiMode) (before now : Bool)
    → (transition_mode (transition_mode m escape before) open_detail now ≡ detail) ↔ (now ≡ true)
unfolding transition_mode
escape_detail_iff m before now = ground arith
