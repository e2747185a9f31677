-- ===== src/Session/Evict.antt =====
-- The eviction of the oldest calls keeps the map of calls and their order in agreement.
use mathlib.Core.Bool.{false≢true}
use desktop_remote.Common.{
  ℕ, zero, suc, ◌-◌, ◌≤◌, ◌<◌, ◌≡◌, refl, sym, ◌∙◌, ap, subst, Bool, true, false, none, List, [],
  ◌∷◌, ltb, ltb→lt, ltb→ge, if◌then◌else◌, length, drop, is_some, inl, inr, Bool-cases, arith,
}
use desktop_remote.Events.{Text}
use desktop_remote.Session.{is_nonempty, evict}
use desktop_remote.Session.Types.{ToolCallRow}
use desktop_remote.Session.Calls.{
  same_text, same_text→eq, get_call, delete_call, get_call-delete_call,
}

-- Whether a call is in the order.
unfoldable pub contains : Text → List Text → Bool
unfolding same_text
contains id [] = false
contains id (k ∷ order) = if same_text k id then true else contains id order

abbrev pub Distinct : List Text → Type 0
Distinct [] = Unit
Distinct (k ∷ order) = (contains k order ≡ false) × Distinct order

-- A map of calls and an order agree: the order has no duplicates, each of its calls has a row, and
-- each call with a row and a name that is not empty is in the order.
pub record Agrees {V : Type 0} (calls : List (Text × ToolCallRow V)) (order : List Text)
    : Type 0 where
  pub distinct : Distinct order
  pub held : (id : Text) → contains id order ≡ true → is_some (get_call id calls) ≡ true
  pub listed :
      (id : Text)
      → is_nonempty id ≡ true
      → is_some (get_call id calls) ≡ true
      → contains id order ≡ true

contains_rest :
    (k id : Text) (order : List Text)
    → same_text k id ≡ false
    → contains id (k ∷ order) ≡ contains id order
unfolding contains
contains_rest k id order e = rw e refl

-- A call of the rest is another than the first.
rest_other :
    (k id : Text) (order : List Text)
    → contains k order ≡ false
    → contains id order ≡ true
    → same_text k id ≡ false
rest_other k id order d h = elim (Bool-cases (same_text k id)) [
  | inr e ↦ e
  | inl e ↦
      absurd
        (false≢true (sym d ∙ subst (λ x. contains x order ≡ true) (sym (same_text→eq k id e)) h))
]

suc_minus : (n m : ℕ) → m < suc n → suc n - m ≡ suc (n - m)
suc_minus n m h = omega arith

drop_none : (n : ℕ) (order : List Text) → n ≡ 0 → drop n order ≡ order
drop_none n order e = ap (λ x. drop x order) e

drop_first :
    (k : Text) (order : List Text) (m : ℕ)
    → m < suc (length order)
    → drop (suc (length order) - m) (k ∷ order) ≡ drop (length order - m) order
drop_first k order m h = ap (λ x. drop x (k ∷ order)) (suc_minus (length order) m h)

ge→ltb : (a b : ℕ) → b ≤ a → ltb a b ≡ false
ge→ltb a b h = ground arith

-- The calls after the first of the order has been removed.
abbrev pub without : {V : Type 0} → Text → List (Text × ToolCallRow V) → List (Text × ToolCallRow V)
without removed calls = if is_nonempty removed then delete_call removed calls else calls

module _ {V : Type 0} where
  pub get_call-without :
      (removed id : Text) (calls : List (Text × ToolCallRow V))
      → same_text removed id ≡ false
      → get_call id (without removed calls) ≡ get_call id calls
  get_call-without removed id calls e = elim (Bool-cases (is_nonempty removed)) [
    | inl f ↦ rw f (simp e at (get_call-delete_call removed id calls))
    | inr f ↦ rw f refl
  ]

  get_call-removed :
      (removed id : Text) (calls : List (Text × ToolCallRow V))
      → is_nonempty removed ≡ true
      → same_text removed id ≡ true
      → get_call id (without removed calls) ≡ none
  get_call-removed removed id calls n e = rw n (simp e at (get_call-delete_call removed id calls))

  -- A call with a name that is left without its row is another than the removed one.
  without_other :
      (removed id : Text) (calls : List (Text × ToolCallRow V))
      → is_nonempty id ≡ true
      → is_some (get_call id (without removed calls)) ≡ true
      → same_text removed id ≡ false
  without_other removed id calls n h = elim (Bool-cases (same_text removed id)) [
    | inr e ↦ e
    | inl e ↦
        let f = subst (λ x. is_nonempty x ≡ true) (sym (same_text→eq removed id e)) n in
        absurd (false≢true (sym (ap is_some (get_call-removed removed id calls f e)) ∙ h))
  ]

  without-Agrees :
      (removed : Text) (calls : List (Text × ToolCallRow V)) (order : List Text)
      → Agrees calls (removed ∷ order)
      → Agrees (without removed calls) order
  without-Agrees removed calls order a = record {
    distinct = a.distinct.1;
    held = λ id h.
        let e = rest_other removed id order a.distinct.0 h in
        ap is_some (get_call-without removed id calls e)
        ∙ a.held id (contains_rest removed id order e ∙ h);
    listed = λ id n h.
        let e = without_other removed id calls n h in
        sym (contains_rest removed id order e)
        ∙ a.listed id n (sym (ap is_some (get_call-without removed id calls e)) ∙ h);
  }

  -- After the eviction the newest `max_history` calls are left, in agreement with the map.
  pub evict-Agrees :
      (max_history : ℕ) (calls : List (Text × ToolCallRow V)) (order : List Text)
      → Agrees calls order
      → Agrees (evict max_history calls order).0 (evict max_history calls order).1
        × ((evict max_history calls order).1 ≡ drop (length order - max_history) order)
  unfolding evict
  evict-Agrees max_history calls [] a = (a, sym (drop_none (0 - max_history) [] (omega arith)))
  evict-Agrees max_history calls (k ∷ order) a =
      elim (Bool-cases (ltb max_history (suc (length order)))) [
        | inl e ↦ rw e (
            let (b, p) =
              evict-Agrees max_history (without k calls) order (without-Agrees k calls order a) in
            (
              b,
              p ∙ sym (drop_first k order max_history (ltb→lt max_history (suc (length order)) e)),
            ))
        | inr e ↦ rw e (
          a,
          sym (
              drop_none (suc (length order) - max_history) (k ∷ order)
                (omega (arith, ltb→ge max_history (suc (length order)) e))),
        )
      ]

contains-drop :
    (id : Text) (n : ℕ) (order : List Text)
    → contains id (drop n order) ≡ true
    → contains id order ≡ true
unfolding contains
contains-drop id zero order h = h
contains-drop id (suc n) [] h = h
contains-drop id (suc n) (k ∷ order) h = elim (Bool-cases (same_text k id)) [
  | inl e ↦ rw e refl
  | inr e ↦ rw e (contains-drop id n order h)
]

module _ {V : Type 0} where
  evict-contains :
      (max_history : ℕ) (calls : List (Text × ToolCallRow V)) (order : List Text) (id : Text)
      → Agrees calls order
      → contains id (evict max_history calls order).1 ≡ true
      → contains id order ≡ true
  evict-contains max_history calls order id a h =
      contains-drop id (length order - max_history) order
        (subst (λ x. contains id x ≡ true) (evict-Agrees max_history calls order a).1 h)

  -- The calls that are left keep their rows.
  pub evict_kept :
      (max_history : ℕ) (calls : List (Text × ToolCallRow V)) (order : List Text) (id : Text)
      → Agrees calls order
      → contains id (evict max_history calls order).1 ≡ true
      → get_call id (evict max_history calls order).0 ≡ get_call id calls
  unfolding evict
  evict_kept max_history calls [] id a h = refl
  evict_kept max_history calls (k ∷ order) id a h =
      elim (Bool-cases (ltb max_history (suc (length order)))) [
        | inr e ↦ rw e refl
        | inl e ↦
            let b = without-Agrees k calls order a in
            let g = simp e at h in
            rw e (
              evict_kept max_history (without k calls) order id b g
              ∙ get_call-without k id calls (
                  rest_other k id order a.distinct.0
                    (evict-contains max_history (without k calls) order id b g)))
      ]

  -- Within the limit nothing leaves.
  pub evict_within :
      (max_history : ℕ) (calls : List (Text × ToolCallRow V)) (order : List Text)
      → length order ≤ max_history
      → evict max_history calls order ≡ (calls, order)
  unfolding evict
  evict_within max_history calls [] h = refl
  evict_within max_history calls (k ∷ order) h = rw (ge→ltb max_history (suc (length order)) h) refl
