-- ===== src/Session/Chosen.antt =====
-- The selection of src/session/store.ts is always one of the filtered rows.
use desktop_remote.Common.{
  ℕ, zero, suc, ◌≡◌, ◌⊎◌, refl, sym, subst, Bool, true, false, Option, none, some, List, [], ◌∷◌,
  if◌then◌else◌, keep_if, any, last?, get_or, inl, inr, Bool-cases,
}
use desktop_remote.Common.Int.{ℤ}
use desktop_remote.Events.{Text, RuntimeEvent}
use desktop_remote.Session.{new_store, snapshot, rows_of}
use desktop_remote.Session.Types.{ToolCallRow, RuntimeSessionSnapshot}
use desktop_remote.Session.Calls.{same_text_refl}
use desktop_remote.Session.Selection.{
  SessionStore, StatusFilter, is_call, ensured, shifted, filter_rows, get_filtered_rows,
  new_session, ensure_selection, consume_event, replace_runtime, set_query, set_status_filter,
  select_last_filtered, select_call, move_selection,
}

-- No call is selected and there are no rows, or the selected call is in the rows.
abbrev pub Chosen : {V : Type 0} → Option Text → List (ToolCallRow V) → Type 0
Chosen selected rows =
    ((rows ≡ []) × (selected ≡ none)) ⊎ (any (λ r. is_call selected r.call_id) rows ≡ true)

module _ {V : Type 0} where
  any_first :
      (row : ToolCallRow V) (rows : List (ToolCallRow V))
      → any (λ r. is_call (some row.call_id) r.call_id) (row ∷ rows) ≡ true
  unfolding any is_call
  any_first row rows = rw (same_text_refl row.call_id) refl

  any_more :
      (selected : Option Text) (row : ToolCallRow V) (rows : List (ToolCallRow V))
      → any (λ r. is_call selected r.call_id) rows ≡ true
      → any (λ r. is_call selected r.call_id) (row ∷ rows) ≡ true
  unfolding any
  any_more selected row rows h = elim (Bool-cases (is_call selected row.call_id)) [
    | inl e ↦ rw e refl
    | inr e ↦ rw e h
  ]

  pick_ensured :
      (selected : Option Text) (row : ToolCallRow V) (rows : List (ToolCallRow V)) (b : Bool)
      → any (λ r. is_call selected r.call_id) (row ∷ rows) ≡ b
      → Chosen (if b then selected else some row.call_id) (row ∷ rows)
  pick_ensured selected row rows true h = inr h
  pick_ensured selected row rows false h = inr (any_first row rows)

  ensured-Chosen :
      (selected : Option Text) (rows : List (ToolCallRow V)) → Chosen (ensured selected rows) rows
  unfolding ensured
  ensured-Chosen selected [] = inl (refl, refl)
  ensured-Chosen selected (row ∷ rows) = pick_ensured selected row rows _ refl

  any-get_or :
      (d : ToolCallRow V) (rows : List (ToolCallRow V)) (i : ℕ)
      → (any (λ r. is_call (some (get_or rows i d).call_id) r.call_id) rows ≡ true)
        ⊎ (get_or rows i d ≡ d)
  any-get_or d [] i = inr refl
  any-get_or d (row ∷ rows) zero = inl (any_first row rows)
  any-get_or d (row ∷ rows) (suc i) = elim (any-get_or d rows i) [
    | inl h ↦ inl (any_more (some (get_or rows i d).call_id) row rows h)
    | inr h ↦ inr h
  ]

  get_or-Chosen :
      (row : ToolCallRow V) (rows : List (ToolCallRow V)) (i : ℕ)
      → any (λ r. is_call (some (get_or (row ∷ rows) i row).call_id) r.call_id) (row ∷ rows) ≡ true
  get_or-Chosen row rows i = elim (any-get_or row (row ∷ rows) i) [
    | inl h ↦ h
    | inr h ↦
        subst (λ x. any (λ r. is_call (some x.call_id) r.call_id) (row ∷ rows) ≡ true) (sym h)
          (any_first row rows)
  ]

  shifted-Chosen :
      (delta : ℤ) (selected : Option Text) (rows : List (ToolCallRow V))
      → Chosen (shifted delta selected rows) rows
  unfolding shifted
  shifted-Chosen delta selected [] = inl (refl, refl)
  shifted-Chosen delta selected (row ∷ rows) = inr (get_or-Chosen row rows _)

  -- The call of `rows.at(-1)`.
  abbrev last_call : List (ToolCallRow V) → Option Text
  last_call rows = elim (last? rows) [ none ↦ none | some row ↦ some row.call_id ]

  last-Chosen : (rows : List (ToolCallRow V)) → Chosen (last_call rows) rows
  last-Chosen [] = inl (refl, refl)
  last-Chosen (row ∷ []) = inr (any_first row [])
  last-Chosen (row ∷ next ∷ rows) = elim (last-Chosen (next ∷ rows)) [
    | inl (e, n) ↦ absurd (cc)
    | inr h ↦ inr (any_more (last_call (next ∷ rows)) row (next ∷ rows) h)
  ]

  module _ (lower trim : Text → Text) (stringify serialize : V → Text) (truncated : ℕ → Text → V)
      (or_empty : Option V → V) where
    -- The states of a session store, from its construction on.
    pub data Visits (max_history : ℕ) : SessionStore V → Type 0 where
      begun : Visits max_history (new_session max_history)
      seen :
          (event : RuntimeEvent V) (s : SessionStore V)
          → Visits max_history s
          → Visits max_history
              (consume_event lower trim stringify serialize truncated or_empty event s)
      replaced :
          (taken : RuntimeSessionSnapshot V) (s : SessionStore V)
          → Visits max_history s
          → Visits max_history
              (replace_runtime lower trim stringify serialize truncated or_empty taken s)
      queried :
          (query : Text) (s : SessionStore V)
          → Visits max_history s
          → Visits max_history (set_query lower trim stringify query s)
      filtered :
          (filter : StatusFilter) (s : SessionStore V)
          → Visits max_history s
          → Visits max_history (set_status_filter lower trim stringify filter s)
      last_selected :
          (s : SessionStore V)
          → Visits max_history s
          → Visits max_history (select_last_filtered lower trim stringify s)
      picked :
          (call_id : Text) (s : SessionStore V)
          → Visits max_history s
          → Visits max_history (select_call lower trim stringify call_id s)
      stepped :
          (delta : ℤ) (s : SessionStore V)
          → Visits max_history s
          → Visits max_history (move_selection lower trim stringify delta s)

    IsChosen : SessionStore V → Type 0
    IsChosen s = Chosen s.selected_call_id (get_filtered_rows lower trim stringify s)

    ensure_selection-IsChosen :
        (s : SessionStore V) → IsChosen (ensure_selection lower trim stringify s)
    unfolding IsChosen ensure_selection get_filtered_rows
    ensure_selection-IsChosen s =
        ensured-Chosen s.selected_call_id (get_filtered_rows lower trim stringify s)

    select_call-IsChosen :
        (call_id : Text) (s : SessionStore V)
        → IsChosen s
        → IsChosen (select_call lower trim stringify call_id s)
    unfolding IsChosen select_call get_filtered_rows
    select_call-IsChosen call_id s v =
        elim (Bool-cases (
          any (λ row. is_call (some call_id) row.call_id)
            (get_filtered_rows lower trim stringify s))) [ inl e ↦ rw e (inr e) | inr e ↦ rw e v ]

    select_last-IsChosen :
        (s : SessionStore V) → IsChosen (select_last_filtered lower trim stringify s)
    unfolding IsChosen select_last_filtered get_filtered_rows
    select_last-IsChosen s = last-Chosen (get_filtered_rows lower trim stringify s)

    move_selection-IsChosen :
        (delta : ℤ) (s : SessionStore V) → IsChosen (move_selection lower trim stringify delta s)
    unfolding IsChosen move_selection get_filtered_rows
    move_selection-IsChosen delta s =
        shifted-Chosen delta s.selected_call_id (get_filtered_rows lower trim stringify s)

    new_session-IsChosen : (m : ℕ) → IsChosen (new_session m)
    unfolding IsChosen new_session new_store get_filtered_rows filter_rows snapshot rows_of keep_if
    new_session-IsChosen m = inl (refl, refl)

    -- In every state of a session store the selected call is one of the filtered rows, and no call is
    -- selected only if there are no filtered rows.
    pub Visits-Chosen :
        (max_history : ℕ) (s : SessionStore V)
        → Visits max_history s
        → Chosen s.selected_call_id (get_filtered_rows lower trim stringify s)
    unfolding IsChosen consume_event replace_runtime set_query set_status_filter
    Visits-Chosen m s begun = new_session-IsChosen m
    Visits-Chosen m s (seen event t r) = ensure_selection-IsChosen _
    Visits-Chosen m s (replaced taken t r) = ensure_selection-IsChosen _
    Visits-Chosen m s (queried query t r) = ensure_selection-IsChosen _
    Visits-Chosen m s (filtered filter t r) = ensure_selection-IsChosen _
    Visits-Chosen m s (last_selected t r) = select_last-IsChosen t
    Visits-Chosen m s (picked call_id t r) = select_call-IsChosen call_id t (Visits-Chosen m t r)
    Visits-Chosen m s (stepped delta t r) = move_selection-IsChosen delta t
