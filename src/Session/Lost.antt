-- ===== src/Session/Lost.antt =====
-- Two ways in which the session shows a call wrongly.
use desktop_remote.Common.{
  ℕ, suc, ◌≤◌, ◌<◌, ◌≡◌, refl, sym, subst, ◌∙◌, ap, true, false, Option, none, List, [], ◌∷◌, ◌++◌,
  ltb, length, length-append, is_some, inl, inr, Bool-cases, arith,
}
use desktop_remote.Events.{Text, tool_started, tool_completed}
use desktop_remote.Bytes.{byte_length, bound_text}
use desktop_remote.Bytes.Limits.{bound_text_size}
use desktop_remote.Session.{RuntimeSessionStore, evict, set_call, apply_event, consume, new_store}
use desktop_remote.Session.Types.{ToolCallRow}
use desktop_remote.Session.Calls.{same_text, same_text→eq, get_call, put_call, get_call-put_call}
use desktop_remote.Session.Bounds.{bound_runtime_event, control_text_max_bytes}
use desktop_remote.Session.Evict.{evict_within, contains, Distinct}
use desktop_remote.Session.History.{contains-append}
use mathlib.Core.Bool.{false≢true}
use desktop_remote.Session.Reachable.{IsIndexed}

long_id_differs :
    (call_id : Text)
    → control_text_max_bytes < byte_length call_id
    → same_text (bound_text call_id control_text_max_bytes) call_id ≡ false
long_id_differs call_id h =
    elim (Bool-cases (same_text (bound_text call_id control_text_max_bytes) call_id)) [
      | inr e ↦ e
      | inl e ↦
          let fits =
            (bound_text_size call_id control_text_max_bytes).1.0 (same_text→eq _ call_id e) in
          absurd (omega (arith, fits))
    ]

module _ {V : Type 0} where
  -- A call that has a row and is not listed is not listed by being recorded again.
  recorded_again :
      (id : Text) (row : ToolCallRow V) (s : RuntimeSessionStore V)
      → length s.order ≤ s.max_history
      → is_some (get_call id s.calls) ≡ true
      → (set_call id row s).order ≡ s.order
  unfolding set_call
  recorded_again id row s short e =
      rw (e, evict_within s.max_history (put_call id row s.calls) s.order short) refl

  evicts_nameless :
      (calls : List (Text × ToolCallRow V)) (order : List Text) (m : ℕ)
      → length order ≡ m
      → evict m calls ([] ∷ order) ≡ (calls, order)
  unfolding evict
  evicts_nameless calls order m e =
      let full : ltb m (suc (length order)) ≡ true = ground (arith, e) in
      rw full (evict_within m calls order (omega (arith, e)))

  -- The state after a call that is not known, in a full store whose oldest call has the empty name.
  abbrev after_nameless :
      Text → ToolCallRow V → List Text → RuntimeSessionStore V → RuntimeSessionStore V
  after_nameless id row rest s = record s {
    calls = put_call id row s.calls;
    order = rest ++ id ∷ [];
  }

  set_call_full :
      (id : Text) (row : ToolCallRow V) (rest : List Text) (s : RuntimeSessionStore V)
      → s.order ≡ [] ∷ rest
      → length s.order ≡ s.max_history
      → get_call id s.calls ≡ none
      → set_call id row s ≡ after_nameless id row rest s
  unfolding set_call
  set_call_full id row rest s e full fresh = rw (fresh, evicted s.order e full) refl
    where
      evicted :
          (order : List Text)
          → order ≡ [] ∷ rest
          → length order ≡ s.max_history
          → evict s.max_history (put_call id row s.calls) (order ++ id ∷ [])
            ≡ (put_call id row s.calls, rest ++ id ∷ [])
      evicted order f n =
          ap (λ o. evict s.max_history (put_call id row s.calls) (o ++ id ∷ [])) f
          ∙ evicts_nameless (put_call id row s.calls) (rest ++ id ∷ []) s.max_history
              (omega (arith, n, ap length f, length-append rest (id ∷ [])))

  module _ (id : Text) (row : ToolCallRow V) (rest : List Text) (s : RuntimeSessionStore V)
      (v : IsIndexed s) (e : s.order ≡ [] ∷ rest) (fresh : get_call id s.calls ≡ none) where
    nameless_row : is_some (get_call [] s.calls) ≡ true
    unfolding contains same_text
    nameless_row = v.agrees.held [] (ap (contains []) e)

    has_name : same_text id [] ≡ false
    has_name = elim (Bool-cases (same_text id [])) [
      | inr f ↦ f
      | inl f ↦ absurd (
          false≢true (
            sym (ap is_some fresh)
            ∙ subst (λ x. is_some (get_call x s.calls) ≡ true) (sym (same_text→eq id [] f))
                nameless_row))
    ]

    nameless_unlisted : contains [] (rest ++ id ∷ []) ≡ false
    nameless_unlisted =
        let others : contains [] rest ≡ false = (subst Distinct e v.agrees.distinct).0 in
        contains-append [] id rest ∙ rw others has_name

    nameless_kept : is_some (get_call [] (put_call id row s.calls)) ≡ true
    nameless_kept =
        ap is_some (get_call-put_call id [] row s.calls ∙ rw has_name refl) ∙ nameless_row

  -- If the call with the empty name is the oldest of a full store and a call that is not known is
  -- recorded, then the former is listed no longer but keeps its row, and recording it again leaves the
  -- order of the listed calls as it is.
  pub set_call_unlisted :
      (id : Text) (row again : ToolCallRow V) (rest : List Text) (s : RuntimeSessionStore V)
      → IsIndexed s
      → s.order ≡ [] ∷ rest
      → length s.order ≡ s.max_history
      → get_call id s.calls ≡ none
      → (contains [] (set_call id row s).order ≡ false)
        × (is_some (get_call [] (set_call id row s).calls) ≡ true)
        × ((set_call [] again (set_call id row s)).order ≡ (set_call id row s).order)
  set_call_unlisted id row again rest s v e full fresh =
      rw (set_call_full id row rest s e full fresh) (
        nameless_unlisted id row rest s v e fresh,
        nameless_kept id row rest s v e fresh,
        recorded_again [] again (after_nameless id row rest s)
            (omega (arith, full, ap length e, length-append rest (id ∷ [])))
            (nameless_kept id row rest s v e fresh),
      )

  -- The state after a call that is not known, in a store with room for it.
  set_call_fresh :
      (id : Text) (row : ToolCallRow V) (s : RuntimeSessionStore V)
      → get_call id s.calls ≡ none
      → length (s.order ++ id ∷ []) ≤ s.max_history
      → set_call id row s ≡ record s { calls = put_call id row s.calls; order = s.order ++ id ∷ [] }
  unfolding set_call
  set_call_fresh id row s e h =
      rw (e, evict_within s.max_history (put_call id row s.calls) (s.order ++ id ∷ []) h) refl

  absent_after :
      (a b : Text) (row : ToolCallRow V)
      → same_text a b ≡ false
      → get_call b (put_call a row []) ≡ none
  unfolding get_call put_call
  absent_after a b row h = rw h refl

  fresh_first : (a : Text) → get_call {R = ToolCallRow V} a [] ≡ none
  unfolding get_call
  fresh_first a = refl

  two_calls :
      (a b : Text) (r q : ToolCallRow V) (m : ℕ)
      → same_text a b ≡ false
      → 2 ≤ m
      → (set_call b q (set_call a r (new_store m))).order ≡ a ∷ b ∷ []
  unfolding new_store
  two_calls a b r q m h w =
      ap (λ t. (set_call b q t).order)
        (set_call_fresh a r (new_store m) (fresh_first a) (omega arith))
      ∙ ap (λ t. t.order) (set_call_fresh b q after (absent_after a b r h) (omega arith))
    where
      after : RuntimeSessionStore V
      after = record (new_store m) { calls = put_call a r []; order = a ∷ [] }

  -- A call whose name has more than 8 KiB is listed twice once it has started and completed, in a store
  -- with room for two: under its cut name, and under its full name.
  pub split_call :
      (serialize : V → Text) (truncated : ℕ → Text → V) (or_empty : Option V → V) (max_history : ℕ)
      (call_id tool_name result_text : Text) (args metadata : V) (started_at completed_at : ℕ)
      (duration_ms : Option ℕ)
      → control_text_max_bytes < byte_length call_id
      → 2 ≤ max_history
      → (consume serialize truncated or_empty
          (tool_completed call_id tool_name result_text duration_ms completed_at)
          (consume serialize truncated or_empty
            (tool_started call_id tool_name args metadata started_at)
            (new_store max_history))).order
        ≡ bound_text call_id control_text_max_bytes ∷ call_id ∷ []
  unfolding consume apply_event bound_runtime_event new_store
  split_call serialize truncated or_empty m call_id tool_name result_text args metadata started_at
        completed_at duration_ms h w =
      two_calls (bound_text call_id control_text_max_bytes) call_id _ _ m
        (long_id_differs call_id h) w
