-- ===== src/Session/Counts.antt =====
-- What a snapshot of the session counts.
use desktop_remote.Common.{
  Option, ℕ, suc, ◌+◌, ◌≤◌, ◌≡◌, refl, sym, ◌∙◌, ap, Bool, true, some, List, [], ◌∷◌, if◌then◌else◌,
  length, is_some, inl, inr, Bool-cases, arith, Option-cases, keep_if,
}
use mathlib.Core.Bool.{false≢true}
use desktop_remote.Events.{Text}
use desktop_remote.Session.{
  RuntimeSessionStore, rows_of, snapshot, count_status, is_running, is_completed, is_failed,
}
use desktop_remote.Session.Types.{ToolCallRow, ToolStatus}
use desktop_remote.Session.Calls.{same_text, same_text_refl, get_call}
use desktop_remote.Session.Evict.{contains}
use desktop_remote.Session.Reachable.{IsIndexed, Reach, Reach-IsIndexed}

contains_first : (k : Text) (order : List Text) → contains k (k ∷ order) ≡ true
unfolding contains
contains_first k order = rw (same_text_refl k) refl

contains_more :
    (id k : Text) (order : List Text) → contains id order ≡ true → contains id (k ∷ order) ≡ true
unfolding contains
contains_more id k order h = elim (Bool-cases (same_text k id)) [
  | inl e ↦ rw e refl
  | inr e ↦ rw e h
]

-- One for a test that holds.
abbrev one_if : Bool → ℕ
one_if b = if b then 1 else 0

one_status :
    (st : ToolStatus)
    → one_if (is_running st) + one_if (is_completed st) + one_if (is_failed st) ≡ 1
one_status ToolStatus.running = refl
one_status ToolStatus.completed = refl
one_status ToolStatus.failed = refl

module _ {V : Type 0} where
  rows_of-some :
      (calls : List (Text × ToolCallRow V)) (k : Text) (order : List Text) (row : ToolCallRow V)
      → get_call k calls ≡ some row
      → rows_of calls (k ∷ order) ≡ row ∷ rows_of calls order
  unfolding rows_of
  rows_of-some calls k order row e = rw (e, rows_of) refl

  count_first :
      (test : ToolStatus → Bool) (row : ToolCallRow V) (rows : List (ToolCallRow V))
      → count_status test (row ∷ rows) ≡ one_if (test row.status) + count_status test rows
  unfolding count_status keep_if
  count_first test row rows = elim (Bool-cases (test row.status)) [
    | inl e ↦ rw e (omega arith)
    | inr e ↦ rw e (omega arith)
  ]

  length-rows_of :
      (calls : List (Text × ToolCallRow V)) (order : List Text)
      → ((id : Text) → contains id order ≡ true → is_some (get_call id calls) ≡ true)
      → length (rows_of calls order) ≡ length order
  unfolding rows_of
  length-rows_of calls [] h = refl
  length-rows_of calls (k ∷ order) h = elim (Option-cases (get_call k calls)) [
    | inl e ↦ absurd (false≢true (sym (ap is_some e) ∙ h k (contains_first k order)))
    | inr (row, e) ↦
        ap length (rows_of-some calls k order row e)
        ∙ ap suc (length-rows_of calls order (λ id g. h id (contains_more id k order g)))
  ]

  count_all :
      (rows : List (ToolCallRow V))
      → count_status is_running rows + count_status is_completed rows + count_status is_failed rows
        ≡ length rows
  unfolding count_status keep_if
  count_all [] = refl
  count_all (row ∷ rows) = omega (
    arith,
    count_all rows,
    one_status row.status,
    count_first is_running row rows,
    count_first is_completed row rows,
    count_first is_failed row rows,
  )

  -- A snapshot of a store in any state has one row for each listed call, at most as many as the store
  -- keeps, and each row is counted under exactly one status.
  pub snapshot_counts :
      (serialize : V → Text) (truncated : ℕ → Text → V) (or_empty : Option V → V) (max_history : ℕ)
      (s : RuntimeSessionStore V)
      → Reach serialize truncated or_empty max_history s
      → ((snapshot s).counts.total ≡ length s.order)
        × ((snapshot s).counts.total ≤ s.max_history)
        × ((snapshot s).counts.of_running
              + (snapshot s).counts.of_completed
              + (snapshot s).counts.of_failed
            ≡ (snapshot s).counts.total)
  unfolding snapshot
  snapshot_counts serialize truncated or_empty m s r =
      (total, omega (arith, total, v.short), count_all (rows_of s.calls s.order))
    where
      v : IsIndexed s
      v = Reach-IsIndexed serialize truncated or_empty m s r

      total : length (rows_of s.calls s.order) ≡ length s.order
      total = length-rows_of s.calls s.order v.agrees.held
