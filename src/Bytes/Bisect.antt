-- ===== src/Bytes/Bisect.antt =====
-- The binary search finds the last number that fits.
use mathlib.Core.Bool.{false≢true}
use desktop_remote.Common.{
  sym, ◌∙◌, ℕ, zero, suc, ◌+◌, ◌-◌, ◌/◌, ◌≤◌, ◌≡◌, refl, Bool, true, false, inl, inr, ltb, ltb→lt,
  ltb→ge, Bool-cases, arith,
}
use desktop_remote.Bytes.{bisect}

-- Whatever is below a number that fits, fits.
abbrev pub DownClosed : (ℕ → Bool) → Type 0
DownClosed fits = (j k : ℕ) → j ≤ k → fits k ≡ true → fits j ≡ true

-- `r` is the last number up to `top` that fits.
pub record IsLast (fits : ℕ → Bool) (top r : ℕ) : Type 0 where
  pub within : r ≤ top
  pub fitting : fits r ≡ true
  pub last : (k : ℕ) → k ≤ top → fits k ≡ true → k ≤ r

module _ (fits : ℕ → Bool) (closed : DownClosed fits) (top : ℕ) where
  -- Beyond `high` nothing fits.
  abbrev Beyond : ℕ → Type 0
  Beyond high = (k : ℕ) → k ≤ top → fits k ≡ true → k ≤ high

  lower : (high middle : ℕ) → fits middle ≡ false → Beyond high → Beyond (middle - 1)
  lower high middle e b k h f = elim (Bool-cases (ltb k middle)) [
    | inl g ↦ omega (arith, ltb→lt k middle g)
    | inr g ↦ absurd (false≢true (sym e ∙ closed middle k (ltb→ge k middle g) f))
  ]

  -- With the fuel that the distance needs, the search ends at the last number that fits.
  bisect-IsLast :
      (fuel low high : ℕ)
      → low ≤ high
      → high ≤ top
      → high ≤ low + fuel
      → fits low ≡ true
      → Beyond high
      → IsLast fits top (bisect fits fuel low high)
  unfolding bisect
  bisect-IsLast zero low high a b c f d = record {
    within = omega arith;
    fitting = f;
    last = λ k h g. omega (arith, d k h g);
  }
  bisect-IsLast (suc fuel) low high a b c f d = elim (Bool-cases (ltb low high)) [
    | inr e ↦ rw e (record {
      within = omega arith;
      fitting = f;
      last = λ k h g. omega (arith, d k h g, ltb→ge low high e);
    })
    | inl e ↦
        let p = ltb→lt low high e in
        elim (Bool-cases (fits ((low + high + 1) / 2))) [
          | inl m ↦
              rw (e, m)
                (bisect-IsLast fuel ((low + high + 1) / 2) high (omega arith) b (omega arith) m d)
          | inr m ↦
              rw (e, m)
                (bisect-IsLast fuel low ((low + high + 1) / 2 - 1) (omega arith) (omega arith)
                  (omega arith) f (lower high ((low + high + 1) / 2) m d))
        ]
  ]

-- The search from 0 to `top` with fuel `top`.
pub search-IsLast :
    (fits : ℕ → Bool) (top : ℕ)
    → DownClosed fits
    → fits 0 ≡ true
    → IsLast fits top (bisect fits top 0 top)
search-IsLast fits top closed z =
    bisect-IsLast fits closed top top 0 top (omega arith) (omega arith) (omega arith) z (λ k h f. h)

-- Where nothing fits, the search ends where it begins.
pub bisect-nothing :
    (fits : ℕ → Bool)
    → ((k : ℕ) → fits k ≡ false)
    → (fuel low high : ℕ) → bisect fits fuel low high ≡ low
unfolding bisect
bisect-nothing fits none zero low high = refl
bisect-nothing fits none (suc fuel) low high = elim (Bool-cases (ltb low high)) [
  | inr e ↦ rw e refl
  | inl e ↦
      rw (e, none ((low + high + 1) / 2))
        (bisect-nothing fits none fuel low ((low + high + 1) / 2 - 1))
]
