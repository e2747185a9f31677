-- ===== src/Session/Selection.antt =====
-- src/session/store.ts: the rows that a query and a filter leave, and which of them is selected.
-- `lower` and `trim` are the methods of strings, `stringify` is `safeStringify` as `join` shows
-- it (an undefined value as nothing), `serialize` is that of the bounds.
use desktop_remote.Common.{
  ℕ, suc, ◌+◌, ◌-◌, Bool, true, false, Option, none, some, List, [], ◌∷◌, ◌++◌, if◌then◌else◌,
  length, keep_if, any, last?, get_or, or_default, min, ◌==◌, ◌&&◌,
}
use desktop_remote.Common.Int.{ℤ, pos, negsuc}
use desktop_remote.Events.{Text, RuntimeEvent}
use desktop_remote.Bytes.{units}
use desktop_remote.Session.{
  RuntimeSessionStore, consume, restore, snapshot, new_store, is_nonempty, is_running, is_completed,
  is_failed,
}
use desktop_remote.Session.Types.{ToolCallRow, ToolStatus, RuntimeSessionSnapshot}
use desktop_remote.Session.Calls.{same_text}

pub data StatusFilter : Type 0 where
  every_status only_running only_completed only_failed : StatusFilter

abbrev pub passes : StatusFilter → ToolStatus → Bool
passes StatusFilter.every_status st = true
passes StatusFilter.only_running st = is_running st
passes StatusFilter.only_completed st = is_completed st
passes StatusFilter.only_failed st = is_failed st

pub record SessionStore (V : Type 0) : Type 0 where
  pub runtime : RuntimeSessionStore V
  pub query : Text
  pub status_filter : StatusFilter
  pub selected_call_id : Option Text

-- `text.startsWith(part)` and `text.includes(part)`.
unfoldable pub starts_with : Text → Text → Bool
starts_with text [] = true
starts_with [] (u ∷ part) = false
starts_with (v ∷ text) (u ∷ part) = if v == u then starts_with text part else false

unfoldable pub includes : Text → Text → Bool
unfolding starts_with
includes [] part = starts_with [] part
includes (v ∷ text) part = if starts_with (v ∷ text) part then true else includes text part

unfoldable pub is_call : Option Text → Text → Bool
unfolding same_text
is_call none id = false
is_call (some selected) id = same_text id selected

-- `Math.min(last, Math.max(0, current + delta))`.
abbrev pub moved : ℕ → ℕ → ℤ → ℕ
moved last current (pos n) = min last (current + n)
moved last current (negsuc n) = min last (current - suc n)

module _ {V : Type 0} where
  unfoldable pub new_session : ℕ → SessionStore V
  unfolding new_store
  new_session max_history = record {
    runtime = new_store max_history;
    query = [];
    status_filter = StatusFilter.every_status;
    selected_call_id = none;
  }

  -- `rows.findIndex((row) => row.callId === selected)`, at least 0.
  unfoldable pub index_of : Option Text → List (ToolCallRow V) → Option ℕ
  unfolding is_call
  index_of selected [] = none
  index_of selected (row ∷ rows) =
      if is_call selected row.call_id
      then some 0
      else elim (index_of selected rows) [ none ↦ none | some i ↦ some (suc i) ]

  -- The selection that `ensureSelection` leaves, for the filtered rows.
  unfoldable pub ensured : Option Text → List (ToolCallRow V) → Option Text
  unfolding any is_call
  ensured selected [] = none
  ensured selected (row ∷ rows) =
      if any (λ r. is_call selected r.call_id) (row ∷ rows) then selected else some row.call_id

  -- The selection that `moveSelection` leaves, for the filtered rows.
  unfoldable pub shifted : ℤ → Option Text → List (ToolCallRow V) → Option Text
  unfolding index_of
  shifted delta selected [] = none
  shifted delta selected (row ∷ rows) =
      some
        (get_or (row ∷ rows)
          (moved (length rows) (or_default (index_of selected (row ∷ rows)) 0) delta) row).call_id

  module _ (lower trim : Text → Text) (stringify : V → Text) where
    unfoldable pub searchable : ToolCallRow V → Text
    searchable row =
        row.call_id
        ++ (units " "
            ++ (row.tool_name
                ++ (units " "
                    ++ (stringify row.args
                        ++ (units " "
                            ++ (or_default row.result_text []
                                ++ (units " " ++ or_default row.failure [])))))))

    unfoldable pub filter_rows : SessionStore V → List (ToolCallRow V) → List (ToolCallRow V)
    unfolding keep_if searchable includes
    filter_rows s rows =
        keep_if
          (λ row.
            passes s.status_filter row.status
            && (if is_nonempty query then includes (lower (searchable row)) query else true))
          rows
      where
        query : Text
        query = lower (trim s.query)

    unfoldable pub get_filtered_rows : SessionStore V → List (ToolCallRow V)
    unfolding filter_rows snapshot
    get_filtered_rows s = filter_rows s (snapshot s.runtime).rows

    unfoldable pub ensure_selection : SessionStore V → SessionStore V
    unfolding ensured
    ensure_selection s = record s {
      selected_call_id = ensured s.selected_call_id (get_filtered_rows s);
    }

    unfoldable pub consume_event :
        (V → Text)
        → (ℕ → Text → V)
        → (Option V → V)
        → RuntimeEvent V
        → SessionStore V
        → SessionStore V
    unfolding ensure_selection
    consume_event serialize truncated or_empty event s =
        ensure_selection
          (record s { runtime = consume serialize truncated or_empty event s.runtime })

    unfoldable pub replace_runtime :
        (V → Text)
        → (ℕ → Text → V)
        → (Option V → V)
        → RuntimeSessionSnapshot V
        → SessionStore V
        → SessionStore V
    unfolding ensure_selection
    replace_runtime serialize truncated or_empty taken s =
        ensure_selection
          (record s { runtime = restore serialize truncated or_empty taken s.runtime })

    unfoldable pub set_query : Text → SessionStore V → SessionStore V
    unfolding ensure_selection
    set_query query s = ensure_selection (record s { query = query })

    unfoldable pub set_status_filter : StatusFilter → SessionStore V → SessionStore V
    unfolding ensure_selection
    set_status_filter filter s = ensure_selection (record s { status_filter = filter })

    unfoldable pub select_last_filtered : SessionStore V → SessionStore V
    select_last_filtered s = record s {
      selected_call_id = elim (last? (get_filtered_rows s)) [
        | none ↦ none
        | some row ↦ some row.call_id
      ];
    }

    unfoldable pub select_call : Text → SessionStore V → SessionStore V
    unfolding any is_call
    select_call call_id s =
        if any (λ row. is_call (some call_id) row.call_id) (get_filtered_rows s)
        then record s { selected_call_id = some call_id }
        else s

    unfoldable pub move_selection : ℤ → SessionStore V → SessionStore V
    unfolding shifted
    move_selection delta s = record s {
      selected_call_id = shifted delta s.selected_call_id (get_filtered_rows s);
    }
