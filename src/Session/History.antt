-- ===== src/Session/History.antt =====
-- Recording a call keeps the calls and their order in agreement, within the history limit.
use mathlib.Core.Bool.{false≢true}
use desktop_remote.Common.{
  ◌≡◌, refl, sym, ◌∙◌, ap, subst, Bool, true, false, List, [], ◌∷◌, ◌++◌, if◌then◌else◌, is_some,
  inl, inr, Bool-cases,
}
use desktop_remote.Events.{Text}
use desktop_remote.Session.{is_nonempty}
use desktop_remote.Session.Types.{ToolCallRow}
use desktop_remote.Session.Calls.{
  same_text, same_text_refl, same_text→eq, get_call, put_call, get_call-put_call,
}
use desktop_remote.Session.Evict.{contains, Distinct, Agrees}

if_bool : (b : Bool) → (if b then true else false) ≡ b
if_bool true = refl
if_bool false = refl

if_true : (b : Bool) → (if b then true else true) ≡ true
if_true true = refl
if_true false = refl

contains_here :
    (j k : Text) (order : List Text) → same_text j k ≡ true → contains k (j ∷ order) ≡ true
unfolding contains
contains_here j k order e = rw e refl

contains_there :
    (j k : Text) (order : List Text)
    → same_text j k ≡ false
    → contains k (j ∷ order) ≡ contains k order
unfolding contains
contains_there j k order e = rw e refl

same_text_swap : (j k : Text) → same_text j k ≡ false → same_text k j ≡ false
same_text_swap j k e = elim (Bool-cases (same_text k j)) [
  | inr f ↦ f
  | inl f ↦ absurd (
      false≢true
        (sym e ∙ subst (λ x. same_text j x ≡ true) (sym (same_text→eq k j f)) (same_text_refl j)))
]

pub contains-append :
    (id k : Text) (order : List Text)
    → contains id (order ++ k ∷ []) ≡ (if contains id order then true else same_text k id)
unfolding contains
contains-append id k [] = if_bool (same_text k id)
contains-append id k (j ∷ order) = elim (Bool-cases (same_text j id)) [
  | inl e ↦ rw e refl
  | inr e ↦ rw e (contains-append id k order)
]

Distinct-append :
    (k : Text) (order : List Text)
    → Distinct order
    → contains k order ≡ false
    → Distinct (order ++ k ∷ [])
unfolding contains
Distinct-append k [] d h = (refl, tt)
Distinct-append k (j ∷ order) (n, d) h = elim (Bool-cases (same_text j k)) [
  | inl e ↦ absurd (false≢true (sym h ∙ contains_here j k order e))
  | inr e ↦ (
    contains-append j k order ∙ rw (n, same_text_swap j k e) refl,
    Distinct-append k order d (sym (contains_there j k order e) ∙ h),
  )
]

module _ {V : Type 0} (id : Text) (row : ToolCallRow V) where
  -- The order after the call has been recorded and before the eviction.
  abbrev pub recorded : List (Text × ToolCallRow V) → List Text → List Text
  recorded calls order = if is_some (get_call id calls) then order else order ++ id ∷ []

  is_some-put :
      (other : Text) (calls : List (Text × ToolCallRow V))
      → is_some (get_call other (put_call id row calls))
        ≡ (if same_text id other then true else is_some (get_call other calls))
  is_some-put other calls = elim (Bool-cases (same_text id other)) [
    | inl e ↦ rw e (ap is_some (simp e at (get_call-put_call id other row calls)))
    | inr e ↦ rw e (ap is_some (simp e at (get_call-put_call id other row calls)))
  ]

  recorded_other :
      (other : Text) (calls : List (Text × ToolCallRow V)) (order : List Text)
      → same_text id other ≡ false
      → contains other (recorded calls order) ≡ contains other order
  recorded_other other calls order e = elim (Bool-cases (is_some (get_call id calls))) [
    | inl f ↦ rw f refl
    | inr f ↦ rw f (contains-append other id order ∙ rw e (if_bool (contains other order)))
  ]

  recorded_itself :
      (calls : List (Text × ToolCallRow V)) (order : List Text)
      → Agrees calls order
      → is_nonempty id ≡ true
      → contains id (recorded calls order) ≡ true
  recorded_itself calls order a n = elim (Bool-cases (is_some (get_call id calls))) [
    | inl f ↦ rw f (a.listed id n f)
    | inr f ↦
        rw f (contains-append id id order ∙ rw (same_text_refl id) (if_true (contains id order)))
  ]

  recorded-Distinct :
      (calls : List (Text × ToolCallRow V)) (order : List Text)
      → Agrees calls order
      → Distinct (recorded calls order)
  recorded-Distinct calls order a = elim (Bool-cases (is_some (get_call id calls))) [
    | inl f ↦ rw f a.distinct
    | inr f ↦ rw f (Distinct-append id order a.distinct (absent f))
  ]
    where
      absent : is_some (get_call id calls) ≡ false → contains id order ≡ false
      absent f = elim (Bool-cases (contains id order)) [
        | inr g ↦ g
        | inl g ↦ absurd (false≢true (sym f ∙ a.held id g))
      ]

  pub recorded-Agrees :
      (calls : List (Text × ToolCallRow V)) (order : List Text)
      → Agrees calls order
      → Agrees (put_call id row calls) (recorded calls order)
  recorded-Agrees calls order a = record {
    distinct = recorded-Distinct calls order a;
    held = λ other h. elim (Bool-cases (same_text id other)) [
      | inl e ↦ is_some-put other calls ∙ rw e refl
      | inr e ↦
          is_some-put other calls
          ∙ rw e (a.held other (sym (recorded_other other calls order e) ∙ h))
    ];
    listed = λ other n h. elim (Bool-cases (same_text id other)) [
      | inl e ↦
          subst (λ x. contains x (recorded calls order) ≡ true) (same_text→eq id other e)
            (recorded_itself calls order a
              (subst (λ x. is_nonempty x ≡ true) (sym (same_text→eq id other e)) n))
      | inr e ↦
          recorded_other other calls order e
          ∙ a.listed other n (simp e at (sym (is_some-put other calls) ∙ h))
    ];
  }
