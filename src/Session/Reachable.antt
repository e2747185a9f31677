-- ===== src/Session/Reachable.antt =====
-- What holds of every session store that events and snapshots lead to.
use mathlib.Core.Bool.{false≢true}
use desktop_remote.Common.{
  Option, ℕ, ◌-◌, ◌≤◌, ◌≡◌, sym, ◌∙◌, subst, true, some, List, [], ◌∷◌, if◌then◌else◌, length, drop,
  arith, length-drop,
}
use desktop_remote.Events.{
  Text, RuntimeEvent, auth_required, device_ready, tool_started, tool_completed, tool_failed,
  runtime_log, runtime_exited, runtime_error,
}
use desktop_remote.Session.{
  RuntimeSessionStore, evict, set_call, apply_event, consume, restore, restore_rows, new_store,
  slice_end,
}
use desktop_remote.Session.Types.{ToolCallRow, RuntimeSessionSnapshot}
use desktop_remote.Session.Calls.{same_text, get_call, put_call, get_call-put_call}
use desktop_remote.Session.Bounds.{bound_runtime_event}
use desktop_remote.Session.Evict.{contains, Agrees, evict-Agrees, evict_kept}
use desktop_remote.Session.History.{recorded, recorded-Agrees}

-- The calls and their order agree, and there are at most `max_history`.
pub record IsIndexed {V : Type 0} (s : RuntimeSessionStore V) : Type 0 where
  pub agrees : Agrees s.calls s.order
  pub short : length s.order ≤ s.max_history

module _ {V : Type 0} where
  -- Recording a call keeps the newest calls: a call that is listed keeps its place, any other becomes
  -- the newest, and the oldest leave while there are more than `max_history`.
  pub set_call-order :
      (id : Text) (row : ToolCallRow V) (s : RuntimeSessionStore V)
      → IsIndexed s
      → (set_call id row s).order
        ≡ drop
            (length (recorded id row s.calls s.order) - s.max_history)
            (recorded id row s.calls s.order)
  unfolding set_call
  set_call-order id row s v =
      (evict-Agrees s.max_history (put_call id row s.calls) (recorded id row s.calls s.order)
        (recorded-Agrees id row s.calls s.order v.agrees)).1

  -- A call that is listed after `setCall` has the new row if it is the recorded one, and the row that
  -- it had before otherwise.
  pub set_call-get_call :
      (id other : Text) (row : ToolCallRow V) (s : RuntimeSessionStore V)
      → IsIndexed s
      → contains other (set_call id row s).order ≡ true
      → get_call other (set_call id row s).calls
        ≡ (if same_text id other then some row else get_call other s.calls)
  unfolding set_call
  set_call-get_call id other row s v h =
      evict_kept s.max_history (put_call id row s.calls) (recorded id row s.calls s.order) other
        (recorded-Agrees id row s.calls s.order v.agrees) h
      ∙ get_call-put_call id other row s.calls

  set_call-IsIndexed :
      (id : Text) (row : ToolCallRow V) (s : RuntimeSessionStore V)
      → IsIndexed s
      → IsIndexed (set_call id row s)
  unfolding set_call
  set_call-IsIndexed id row s v = record {
    agrees = kept.0;
    short =
        subst (λ x. length x ≤ s.max_history) (sym kept.1)
          (omega (arith, length-drop (length o - s.max_history) o));
  }
    where
      o : List Text
      o = recorded id row s.calls s.order

      kept :
          Agrees
            (evict s.max_history (put_call id row s.calls) o).0
            (evict s.max_history (put_call id row s.calls) o).1
          × ((evict s.max_history (put_call id row s.calls) o).1
              ≡ drop (length o - s.max_history) o)
      kept =
          evict-Agrees s.max_history (put_call id row s.calls) o
            (recorded-Agrees id row s.calls s.order v.agrees)

  empty-Agrees : Agrees {V = V} [] []
  unfolding contains get_call
  empty-Agrees = record {
    distinct = tt;
    held = λ id h. absurd (false≢true h);
    listed = λ id n h. absurd (false≢true h);
  }

  apply_event-IsIndexed :
      (or_empty : Option V → V) (event : RuntimeEvent V) (s : RuntimeSessionStore V)
      → IsIndexed s
      → IsIndexed (apply_event or_empty event s)
  unfolding apply_event
  apply_event-IsIndexed o (device_ready user device_id device_name at_ms) s v = record {
    agrees = v.agrees;
    short = v.short;
  }
  apply_event-IsIndexed o (auth_required url code expires_in at_ms) s v = record {
    agrees = v.agrees;
    short = v.short;
  }
  apply_event-IsIndexed o (runtime_exited code signal at_ms) s v = record {
    agrees = v.agrees;
    short = v.short;
  }
  apply_event-IsIndexed o (runtime_error message at_ms) s v = record {
    agrees = v.agrees;
    short = v.short;
  }
  apply_event-IsIndexed o (runtime_log source message at_ms) s v = v
  apply_event-IsIndexed o (tool_started id name args metadata started_at) s v =
      set_call-IsIndexed id _ s v
  apply_event-IsIndexed o (tool_completed id name text duration completed_at) s v =
      set_call-IsIndexed id _ s v
  apply_event-IsIndexed o (tool_failed id name text duration completed_at) s v =
      set_call-IsIndexed id _ s v

  module _ (serialize : V → Text) (truncated : ℕ → Text → V) (or_empty : Option V → V) where
    restore_rows-IsIndexed :
        (rows : List (ToolCallRow V)) (s : RuntimeSessionStore V)
        → IsIndexed s
        → IsIndexed (restore_rows serialize truncated or_empty rows s)
    unfolding restore_rows
    restore_rows-IsIndexed [] s v = v
    restore_rows-IsIndexed (row ∷ rows) s v =
        restore_rows-IsIndexed rows _ (set_call-IsIndexed row.call_id _ s v)

    restore-IsIndexed :
        (taken : RuntimeSessionSnapshot V) (s : RuntimeSessionStore V)
        → IsIndexed (restore serialize truncated or_empty taken s)
    unfolding restore
    restore-IsIndexed taken s =
        restore_rows-IsIndexed (slice_end s.max_history taken.rows) _
          (record { agrees = empty-Agrees; short = omega arith })

    -- The states of a store, from its construction on.
    pub data Reach (max_history : ℕ) : RuntimeSessionStore V → Type 0 where
      constructed : Reach max_history (new_store max_history)
      consumed :
          (event : RuntimeEvent V) (s : RuntimeSessionStore V)
          → Reach max_history s
          → Reach max_history (consume serialize truncated or_empty event s)
      restored :
          (taken : RuntimeSessionSnapshot V) (s : RuntimeSessionStore V)
          → Reach max_history s
          → Reach max_history (restore serialize truncated or_empty taken s)

    -- In every state of a store the order lists each call once, every listed call has a row, every call
    -- that has a row and a name that is not empty is listed, and at most `max_history` are listed.
    pub Reach-IsIndexed :
        (max_history : ℕ) (s : RuntimeSessionStore V) → Reach max_history s → IsIndexed s
    unfolding new_store consume
    Reach-IsIndexed m s constructed = record { agrees = empty-Agrees; short = omega arith }
    Reach-IsIndexed m s (consumed event t r) =
        apply_event-IsIndexed or_empty (bound_runtime_event serialize truncated event) t
          (Reach-IsIndexed m t r)
    Reach-IsIndexed m s (restored taken t r) = restore-IsIndexed taken t
