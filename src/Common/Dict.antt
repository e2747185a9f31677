-- ===== src/Common/Dict.antt =====
-- A `Map` whose keys are numbers, in the order of insertion.
use Prim.Native.Nat.{ℕ, ◌+◌, ◌≤◌}
use mathlib.Core.Path.{◌≡◌, refl}
use mathlib.Core.Bool.{Bool}
use mathlib.Core.Logic.{inl, inr}
use mathlib.Core.Option.{Option, none, some}
use mathlib.Core.List.{List, [], ◌∷◌}
use native.Mathlib.Omega.{arith}
use desktop_remote.Common.Tests.{if◌then◌else◌, ◌==◌, Bool-cases}

module _ {A : Type 0} where
  unfoldable pub find : ℕ → List (ℕ × A) → Option A
  find k [] = none
  find k ((j, a) ∷ m) = if j == k then some a else find k m

  -- The value in place of the old one, or at the end.
  unfoldable pub put : ℕ → A → List (ℕ × A) → List (ℕ × A)
  put k a [] = (k, a) ∷ []
  put k a ((j, b) ∷ m) = if j == k then (j, a) ∷ m else (j, b) ∷ put k a m

  unfoldable pub delete : ℕ → List (ℕ × A) → List (ℕ × A)
  delete k [] = []
  delete k ((j, b) ∷ m) = if j == k then m else (j, b) ∷ delete k m

  unfoldable pub count_values : (A → Bool) → List (ℕ × A) → ℕ
  count_values p [] = 0
  count_values p ((j, b) ∷ m) = (if p b then 1 else 0) + count_values p m

  -- No key stands twice.
  abbrev pub DistinctKeys : List (ℕ × A) → Type 0
  DistinctKeys [] = Unit
  DistinctKeys ((j, b) ∷ m) = (find j m ≡ none) × DistinctKeys m

  pub find-put :
      (k j : ℕ) (a : A) (m : List (ℕ × A))
      → find j (put k a m) ≡ (if k == j then some a else find j m)
  unfolding find put
  find-put k j a [] = refl
  find-put k j a ((i, b) ∷ m) = ground (arith, find-put k j a m)

  pub find-delete :
      (k j : ℕ) (m : List (ℕ × A))
      → DistinctKeys m
      → find j (delete k m) ≡ (if k == j then none else find j m)
  unfolding find delete
  find-delete k j [] d = ground arith
  find-delete k j ((i, b) ∷ m) (n, d) = ground (arith, find-delete k j m d)

  pub DistinctKeys-put :
      (k : ℕ) (a : A) (m : List (ℕ × A)) → DistinctKeys m → DistinctKeys (put k a m)
  unfolding put find
  DistinctKeys-put k a [] d = (refl, tt)
  DistinctKeys-put k a ((i, b) ∷ m) (n, d) = elim (Bool-cases (i == k)) [
    | inl e ↦ rw e (n, d)
    | inr e ↦ rw e (ground (arith, find-put k i a m), DistinctKeys-put k a m d)
  ]

  pub DistinctKeys-delete : (k : ℕ) (m : List (ℕ × A)) → DistinctKeys m → DistinctKeys (delete k m)
  unfolding delete find
  DistinctKeys-delete k [] d = tt
  DistinctKeys-delete k ((i, b) ∷ m) (n, d) = elim (Bool-cases (i == k)) [
    | inl e ↦ rw e d
    | inr e ↦ rw e (ground (arith, find-delete k i m d), DistinctKeys-delete k m d)
  ]

  pub count_values-put :
      (p : A → Bool) (k : ℕ) (a : A) (m : List (ℕ × A))
      → count_values p (put k a m) ≤ count_values p m + (if p a then 1 else 0)
  unfolding count_values put
  count_values-put p k a [] = ground arith
  count_values-put p k a ((i, b) ∷ m) = ground (arith, count_values-put p k a m)

  -- Putting in place of an old value.
  pub count_values-put_old :
      (p : A → Bool) (k : ℕ) (a b : A) (m : List (ℕ × A))
      → find k m ≡ some b
      → count_values p (put k a m) + (if p b then 1 else 0)
        ≡ count_values p m + (if p a then 1 else 0)
  unfolding count_values put find
  count_values-put_old p k a b [] e = absurd (cc e)
  count_values-put_old p k a b ((i, c) ∷ m) e = ground (arith, count_values-put_old p k a b m)

  pub count_values-delete :
      (p : A → Bool) (k : ℕ) (m : List (ℕ × A)) → count_values p (delete k m) ≤ count_values p m
  unfolding count_values delete
  count_values-delete p k [] = omega arith
  count_values-delete p k ((i, c) ∷ m) = ground (arith, count_values-delete p k m)

  pub count_values-le-delete :
      (p : A → Bool) (k : ℕ) (m : List (ℕ × A)) → count_values p m ≤ 1 + count_values p (delete k m)
  unfolding count_values delete
  count_values-le-delete p k [] = omega arith
  count_values-le-delete p k ((i, c) ∷ m) = ground (arith, count_values-le-delete p k m)
