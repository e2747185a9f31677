-- ===== src/Session/Preview.antt =====
-- The size of what the session keeps of a value.
use desktop_remote.Common.{
  ℕ, zero, suc, ◌-◌, ◌*◌, ◌/◌, ◌≤◌, ◌<◌, ◌≡◌, refl, false, some, [], leb, ltb, inl, inr, Bool-cases,
  leb→le, leb→gt, ltb→lt, ltb→ge, arith,
}
use desktop_remote.Events.{Text}
use desktop_remote.Bytes.{byte_length, bound_text}
use desktop_remote.Session.Bounds.{shrink_preview, bound_unknown}

no_budget : (budget : ℕ) → budget ≤ 0 → ltb 0 budget ≡ false
no_budget budget h = ground arith

module _ {V : Type 0} (serialize : V → Text) (truncated : ℕ → Text → V) where
  -- What a value that is too large is replaced by: the first preview that fits, its budget cut to four
  -- fifths in each round, or the empty preview when the budget has come to 0.
  pub data IsPreview (m : ℕ) (text : Text) : ℕ → V → Type 0 where
    spent : IsPreview m text 0 (truncated (byte_length text) [])
    fits :
        {budget : ℕ}
        → 0 < budget
        → byte_length (serialize (truncated (byte_length text) (bound_text text budget))) ≤ m
        → IsPreview m text budget (truncated (byte_length text) (bound_text text budget))
    shrinks :
        {budget : ℕ} {value : V}
        → 0 < budget
        → m < byte_length (serialize (truncated (byte_length text) (bound_text text budget)))
        → IsPreview m text (budget * 4 / 5) value
        → IsPreview m text budget value

  empty_preview :
      (m : ℕ) (text : Text) (budget : ℕ)
      → budget ≤ 0
      → IsPreview m text budget (truncated (byte_length text) [])
  empty_preview m text zero h = spent
  empty_preview m text (suc budget) h = absurd (omega (arith, h))

  -- The loop over the preview's budget ends within as many rounds as the budget: it gives a value, and
  -- that is the first preview that fits under the budget cut to four fifths in each round, or the empty
  -- preview if none fits before the budget is 0.
  pub shrink_preview_enough :
      (fuel m : ℕ) (text : Text) (budget : ℕ)
      → budget ≤ fuel
      → (value : V) × (shrink_preview serialize truncated fuel m text budget ≡ some value)
        × IsPreview m text budget value
  unfolding shrink_preview
  shrink_preview_enough zero m text budget h =
      (truncated (byte_length text) [], rw (no_budget budget h) refl, empty_preview m text budget h)
  shrink_preview_enough (suc fuel) m text budget h = elim (Bool-cases (ltb 0 budget)) [
    | inr e ↦ (
      truncated (byte_length text) [],
      rw e refl,
      empty_preview m text budget (ltb→ge 0 budget e),
    )
    | inl e ↦
        elim (Bool-cases (
          leb (byte_length (serialize (truncated (byte_length text) (bound_text text budget))))
            m)) [
              | inl f ↦ (
                truncated (byte_length text) (bound_text text budget),
                rw (e, f) refl,
                fits (ltb→lt 0 budget e) (leb→le _ m f),
              )
              | inr f ↦
                  let (value, same, is_preview) =
                    shrink_preview_enough fuel m text (budget * 4 / 5)
                      (omega (arith, ltb→lt 0 budget e)) in
                  (value, rw (e, f) same, shrinks (ltb→lt 0 budget e) (leb→gt _ m f) is_preview)
            ]
  ]

  IsPreview-size :
      (m : ℕ) (text : Text) (budget : ℕ) (value : V)
      → IsPreview m text budget value
      → byte_length (serialize (truncated (byte_length text) [])) ≤ m
      → byte_length (serialize value) ≤ m
  IsPreview-size m text zero value spent h = h
  IsPreview-size m text budget value (fits some_budget short) h = short
  IsPreview-size m text budget value (shrinks some_budget long is_preview) h =
      IsPreview-size m text (budget * 4 / 5) value is_preview h

  -- If the object with an empty preview fits, the serialized result of `boundUnknown` has at most the
  -- given number of bytes, for every value.
  pub bound_unknown_size :
      (value : V) (m : ℕ)
      → byte_length (serialize (truncated (byte_length (serialize value)) [])) ≤ m
      → byte_length (serialize (bound_unknown serialize truncated value m)) ≤ m
  unfolding bound_unknown
  bound_unknown_size value m h = elim (Bool-cases (leb (byte_length (serialize value)) m)) [
    | inl e ↦ rw e (leb→le _ m e)
    | inr e ↦
        let (preview, same, is_preview) =
          shrink_preview_enough (m - 256) m (serialize value) (m - 256) (omega arith) in
        rw e (rw same (IsPreview-size m (serialize value) (m - 256) preview is_preview h))
  ]
