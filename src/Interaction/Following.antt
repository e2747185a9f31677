-- ===== src/Interaction/Following.antt =====
-- Following new calls, and double clicks.
use Prim.Native.String.{String}
use text.Mathlib.TextEquality.{eq_iff}
use desktop_remote.Common.{
  ℕ, zero, suc, ◌+◌, ◌-◌, ◌≤◌, ◌<◌, ◌≡◌, ◌↔◌, refl, true, false, Option, none, some, arith, leb,
}
use desktop_remote.Common.Int.{pos}
use desktop_remote.Interaction.{
  FollowState, new_calls, update_follow_for_total_calls, ActivityClickState,
  register_activity_click,
}

new_calls_following : (n : ℕ) (s : FollowState) → s.following ≡ true → new_calls n s ≡ s
unfolding new_calls
new_calls_following zero s f = refl
new_calls_following (suc n) s f = simp f (new_calls_following n s f)

new_calls_frozen :
    (n : ℕ) (s : FollowState)
    → s.following ≡ false
    → new_calls n s ≡ record { following = false; pending_new = s.pending_new + n }
unfolding new_calls
new_calls_frozen zero s f = ground arith
new_calls_frozen (suc n) s f =
    let t : FollowState = record { following = false; pending_new = s.pending_new + 1 } in
    rw f (ground (arith, new_calls_frozen n t refl))

-- When the total of calls grows from a known value, a view that follows keeps its state and selects
-- the newest call; one that does not adds exactly the number of new calls to those pending, and
-- selects nothing. When the total does not grow nothing changes and nothing is selected.
pub update_follow_total :
    (s : FollowState) (before total : ℕ)
    → (before < total
        → s.following ≡ true
        → update_follow_for_total_calls s (pos before) total
          ≡ record { state = s; select_newest = true })
      × (before < total
          → s.following ≡ false
          → update_follow_for_total_calls s (pos before) total ≡ record {
            state = record { following = false; pending_new = s.pending_new + (total - before) };
            select_newest = false;
          })
      × (total ≤ before
          → update_follow_for_total_calls s (pos before) total
            ≡ record { state = s; select_newest = false })
unfolding update_follow_for_total_calls
update_follow_total s before total = (
  λ h f.
      let e : leb total before ≡ false = ground arith in
      rw (e, new_calls_following (total - before) s f) (ground arith),
  λ h f.
      let e : leb total before ≡ false = ground arith in
      rw (e, new_calls_frozen (total - before) s f) refl,
  λ h. let e : leb total before ≡ true = ground arith in rw e refl,
)

-- A click opens a call exactly when the click before was on the same call, not later than this one
-- and at most the threshold earlier; the click that opens is forgotten, and any other is kept.
pub click_opens_iff :
    (before : ActivityClickState) (call_id : String) (now threshold : ℕ)
    → let r = register_activity_click (some before) call_id now threshold in
      ((r.opens ≡ true)
        ↔ ((before.call_id ≡ call_id) × (before.at ≤ now) × (now ≤ before.at + threshold)))
      × (r.opens ≡ true → r.state ≡ none)
      × (r.opens ≡ false → r.state ≡ some (record { call_id = call_id; at = now }))
unfolding register_activity_click
click_opens_iff before call_id now threshold = (
  (
    λ e. ground (arith, eq_iff before.call_id call_id),
    λ h. ground (arith, eq_iff before.call_id call_id),
  ),
  λ e. ground arith,
  λ e. ground arith,
)

-- Clicks on one call open it at every second click at most: after one that opens, the next does not.
pub click_alternates :
    (before : Option ActivityClickState) (call_id other : String) (now later threshold : ℕ)
    → (register_activity_click before call_id now threshold).opens ≡ true
    → (register_activity_click
        (register_activity_click before call_id now threshold).state
        other
        later
        threshold).opens
      ≡ false
unfolding register_activity_click
click_alternates before call_id other now later threshold e = rw e refl
