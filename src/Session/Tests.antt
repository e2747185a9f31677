-- ===== src/Session/Tests.antt =====
-- Concrete sessions: strings stand for the values, and are their own serialization.
use desktop_remote.Common.{
  ℕ, zero, suc, ◌+◌, ◌≤◌, ◌<◌, ◌≡◌, refl, true, false, Option, none, some, [], or_default, ◌∷◌,
  length, is_some, arith,
}
use desktop_remote.Common.Int.{pos}
use desktop_remote.Events.{Text, RuntimeEvent, tool_started, tool_completed}
use desktop_remote.Bytes.{units, byte_length, bytes_after, bound_text}
use desktop_remote.Session.{RuntimeSessionStore, set_call, consume, new_store, snapshot}
use desktop_remote.Session.Types.{ToolCallRow, ToolStatus}
use desktop_remote.Session.Calls.{get_call, put_call}
use desktop_remote.Session.Bounds.{bound_runtime_event, control_text_max_bytes, shrink_preview}
use desktop_remote.Session.Evict.{contains}
use desktop_remote.Session.Reachable.{IsIndexed, Reach, constructed, consumed, Reach-IsIndexed}
use desktop_remote.Session.Counts.{snapshot_counts}
use desktop_remote.Session.Selection.{
  SessionStore, new_session, consume_event, move_selection, get_filtered_rows,
}
use desktop_remote.Session.Chosen.{Chosen, Visits, begun, seen, stepped, Visits-Chosen}
use desktop_remote.Session.Lost.{set_call_unlisted, split_call}
use desktop_remote.Session.Preview.{IsPreview, shrink_preview_enough}

abbrev serialize : Text → Text
serialize t = t

abbrev truncated : ℕ → Text → Text
truncated n t = t

abbrev or_empty : Option Text → Text
or_empty value = or_default value []

abbrev started : Text → RuntimeEvent Text
started call_id = tool_started call_id (units "read") (units "args") [] 7

abbrev step : Text → RuntimeSessionStore Text → RuntimeSessionStore Text
step call_id s = consume serialize truncated or_empty (started call_id) s

-- A store for one call that has seen a call without a name and then the call `a`.
abbrev crowded : RuntimeSessionStore Text
crowded = step (units "a") (step [] (new_store 1))

abbrev crowded-Reach : Reach serialize truncated or_empty 1 crowded
crowded-Reach =
    consumed (started (units "a")) (step [] (new_store 1))
      (consumed (started []) (new_store 1) constructed)

abbrev row : ToolCallRow Text
row = record {
  call_id = units "b";
  tool_name = units "read";
  args = [];
  metadata = [];
  status = ToolStatus.running;
  started_at = pos 7;
  completed_at = none;
  duration_ms = none;
  result_text = none;
  failure = none;
}

one_kept : crowded.order ≡ units "a" ∷ []
unfolding consume new_store get_call bound_runtime_event put_call
one_kept = refl

Reach-IsIndexed_example : IsIndexed crowded
Reach-IsIndexed_example = Reach-IsIndexed serialize truncated or_empty 1 crowded crowded-Reach

crowded-IsIndexed : IsIndexed crowded
crowded-IsIndexed = Reach-IsIndexed serialize truncated or_empty 1 crowded crowded-Reach

b_contained : contains (units "b") (set_call (units "b") row crowded).order ≡ true
unfolding contains set_call consume new_store get_call bound_runtime_event put_call
b_contained = refl

snapshot_counts_example :
    ((snapshot crowded).counts.total ≡ length crowded.order)
    × ((snapshot crowded).counts.total ≤ crowded.max_history)
    × ((snapshot crowded).counts.of_running
          + (snapshot crowded).counts.of_completed
          + (snapshot crowded).counts.of_failed
        ≡ (snapshot crowded).counts.total)
snapshot_counts_example = snapshot_counts serialize truncated or_empty 1 crowded crowded-Reach

abbrev nameless : RuntimeSessionStore Text
nameless = step [] (new_store 1)

nameless-IsIndexed : IsIndexed nameless
nameless-IsIndexed =
    Reach-IsIndexed serialize truncated or_empty 1 nameless
      (consumed (started []) (new_store 1) constructed)

nameless_order : nameless.order ≡ [] ∷ []
unfolding consume new_store get_call bound_runtime_event put_call
nameless_order = refl

nameless_full : length nameless.order ≡ nameless.max_history
unfolding consume new_store get_call bound_runtime_event put_call
nameless_full = refl

b_unknown : get_call (units "b") nameless.calls ≡ none
unfolding consume new_store get_call bound_runtime_event put_call
b_unknown = refl

set_call_unlisted_example :
    (contains [] (set_call (units "b") row nameless).order ≡ false)
    × (is_some (get_call [] (set_call (units "b") row nameless).calls) ≡ true)
    × ((set_call [] row (set_call (units "b") row nameless)).order
        ≡ (set_call (units "b") row nameless).order)
set_call_unlisted_example =
    set_call_unlisted (units "b") row row [] nameless nameless-IsIndexed nameless_order
      nameless_full b_unknown

abbrev repeated : ℕ → Text
repeated zero = []
repeated (suc n) = b'a' ∷ repeated n

bytes-repeated : (n : ℕ) → bytes_after false (repeated n) ≡ n
unfolding bytes_after
bytes-repeated zero = refl
bytes-repeated (suc n) = omega (arith, bytes-repeated n)

byte_length-repeated : (n : ℕ) → byte_length (repeated n) ≡ n
unfolding byte_length
byte_length-repeated n = bytes-repeated n

is_long : (n : ℕ) → control_text_max_bytes < n → control_text_max_bytes < byte_length (repeated n)
is_long n h = omega (arith, byte_length-repeated n)

split_call_example :
    (consume serialize truncated or_empty
      (tool_completed (repeated 9000) (units "read") (units "done") (some 5) 12)
      (consume serialize truncated or_empty
        (tool_started (repeated 9000) (units "read") (units "args") [] 7)
        (new_store 50))).order
    ≡ bound_text (repeated 9000) control_text_max_bytes ∷ repeated 9000 ∷ []
split_call_example =
    split_call serialize truncated or_empty 50 (repeated 9000) (units "read") (units "done")
      (units "args") [] 7 12 (some 5) (is_long 9000 (omega arith)) (omega arith)

shrink_preview_enough_example :
    (value : Text) × (shrink_preview serialize truncated 3 4 (units "daemon") 2 ≡ some value)
    × IsPreview serialize truncated 4 (units "daemon") 2 value
shrink_preview_enough_example =
    shrink_preview_enough serialize truncated 3 4 (units "daemon") 2 (omega arith)

nothing_fits : byte_length [] ≤ 4
unfolding byte_length
nothing_fits = omega arith

abbrev browsed : SessionStore Text
browsed = move_selection serialize serialize serialize (pos 1) (
    consume_event serialize serialize serialize serialize truncated or_empty (started (units "a"))
      (new_session 2))

abbrev browsed_visits : Visits serialize serialize serialize serialize truncated or_empty 2 browsed
browsed_visits = stepped (pos 1) _ (seen (started (units "a")) (new_session 2) begun)

Visits-Chosen_example :
    Chosen browsed.selected_call_id (get_filtered_rows serialize serialize serialize browsed)
Visits-Chosen_example =
    Visits-Chosen serialize serialize serialize serialize truncated or_empty 2 browsed
      browsed_visits
