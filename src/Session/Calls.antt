-- ===== src/Session/Calls.antt =====
-- A `Map` whose keys are strings, as src/session/runtime-store.ts uses it.
use mathlib.Core.Bool.{false≢true}
use desktop_remote.Common.{
  ℕ, ◌≡◌, refl, ap, subst, ◌∙◌, Bool, true, false, Option, none, some, List, [], ◌∷◌, ◌==◌,
  if◌then◌else◌, Bool-cases, inl, inr, arith,
}
use desktop_remote.Events.{Text}

-- `===` on strings.
unfoldable pub same_text : Text → Text → Bool
same_text [] [] = true
same_text (a ∷ s) (b ∷ t) = if a == b then same_text s t else false
same_text _ _ = false

module _ {R : Type 0} where
  unfoldable pub get_call : Text → List (Text × R) → Option R
  unfolding same_text
  get_call id [] = none
  get_call id ((k, r) ∷ calls) = if same_text k id then some r else get_call id calls

  -- The value in place of the old one, or at the end.
  unfoldable pub put_call : Text → R → List (Text × R) → List (Text × R)
  unfolding same_text
  put_call id r [] = (id, r) ∷ []
  put_call id r ((k, old) ∷ calls) =
      if same_text k id then (k, r) ∷ calls else (k, old) ∷ put_call id r calls

  unfoldable pub delete_call : Text → List (Text × R) → List (Text × R)
  unfolding same_text
  delete_call id [] = []
  delete_call id ((k, r) ∷ calls) =
      if same_text k id then delete_call id calls else (k, r) ∷ delete_call id calls

pub same_text_refl : (t : Text) → same_text t t ≡ true
unfolding same_text
same_text_refl [] = refl
same_text_refl (a ∷ t) = ground (arith, same_text_refl t)

==→eq : (a b : ℕ) → (a == b) ≡ true → a ≡ b
==→eq a b h = ground arith

pub same_text→eq : (s t : Text) → same_text s t ≡ true → s ≡ t
unfolding same_text
same_text→eq [] [] h = refl
same_text→eq [] (b ∷ t) h = cc
same_text→eq (a ∷ s) [] h = cc
same_text→eq (a ∷ s) (b ∷ t) h = elim (Bool-cases (a == b)) [
  | inl e ↦ rw (==→eq a b e) (ap (◌∷◌ b) (same_text→eq s t (simp e at h)))
  | inr e ↦ absurd (false≢true (simp e at h))
]

if_twice :
    {A : Type 0} (b : Bool) (x y z : A)
    → (if b then x else z) ≡ (if b then x else if b then y else z)
if_twice true x y z = refl
if_twice false x y z = refl

if_same : {A : Type 0} (b : Bool) (x : A) → x ≡ (if b then x else x)
if_same true x = refl
if_same false x = refl

-- Two keys that differ are not both the third.
same_text_apart :
    (k id other : Text)
    → same_text k id ≡ false
    → same_text id other ≡ true
    → same_text k other ≡ false
same_text_apart k id other e f = subst (λ x. same_text k x ≡ false) (same_text→eq id other f) e

module _ {R : Type 0} where
  pub get_call-put_call :
      (id other : Text) (r : R) (calls : List (Text × R))
      → get_call other (put_call id r calls)
        ≡ (if same_text id other then some r else get_call other calls)
  unfolding get_call put_call
  get_call-put_call id other r [] = refl
  get_call-put_call id other r ((k, old) ∷ calls) = elim (Bool-cases (same_text k id)) [
    | inl e ↦
        rw (e, same_text→eq k id e)
          (if_twice (same_text id other) (some r) (some old) (get_call other calls))
    | inr e ↦ rw e (elim (Bool-cases (same_text id other)) [
      | inl f ↦
          rw (f, same_text_apart k id other e f) (simp f at (get_call-put_call id other r calls))
      | inr f ↦ rw f (
          ap (λ x. if same_text k other then some old else x)
            (simp f at (get_call-put_call id other r calls)))
    ])
  ]

  pub get_call-delete_call :
      (id other : Text) (calls : List (Text × R))
      → get_call other (delete_call id calls)
        ≡ (if same_text id other then none else get_call other calls)
  unfolding get_call delete_call
  get_call-delete_call id other [] = if_same (same_text id other) none
  get_call-delete_call id other ((k, r) ∷ calls) = elim (Bool-cases (same_text k id)) [
    | inl e ↦
        rw (e, same_text→eq k id e)
          (get_call-delete_call id other calls
            ∙ if_twice (same_text id other) none (some r) (get_call other calls))
    | inr e ↦ rw e (elim (Bool-cases (same_text id other)) [
      | inl f ↦
          rw (f, same_text_apart k id other e f) (simp f at (get_call-delete_call id other calls))
      | inr f ↦ rw f (
          ap (λ x. if same_text k other then some r else x)
            (simp f at (get_call-delete_call id other calls)))
    ])
  ]
