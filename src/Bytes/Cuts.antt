-- ===== src/Bytes/Cuts.antt =====
-- What the binary searches cut: the longest piece that fits.
use desktop_remote.Common.{
  ℕ, zero, suc, ◌-◌, ◌≤◌, ◌<◌, ◌≡◌, refl, sym, subst, Bool, [], ◌∷◌, inl, inr, leb, leb→le, leb→gt,
  Bool-cases, take, drop, length, arith,
}
use desktop_remote.Events.{Text}
use desktop_remote.Bytes.{byte_length, bisect, suffix_from, take_utf8_head, take_utf8_tail}
use desktop_remote.Bytes.Bisect.{DownClosed, IsLast, search-IsLast}
use desktop_remote.Bytes.Length.{byte_length-take, byte_length-drop}

-- `r` is the piece of `count` units, it has at most `max_bytes` bytes, and every piece of more units
-- has more bytes.
pub record IsLongest (piece : ℕ → Text) (top max_bytes : ℕ) (r : Text) : Type 0 where
  pub count : ℕ
  pub within : count ≤ top
  pub is_piece : r ≡ piece count
  pub fitting : byte_length r ≤ max_bytes
  pub longest : (k : ℕ) → count < k → k ≤ top → max_bytes < byte_length (piece k)

module _ (piece : ℕ → Text)
    (mono : (j k : ℕ) → j ≤ k → byte_length (piece j) ≤ byte_length (piece k)) (max_bytes : ℕ) where
  fits : ℕ → Bool
  fits k = leb (byte_length (piece k)) max_bytes

  fits-DownClosed : DownClosed fits
  unfolding fits
  fits-DownClosed j k h f = ground (arith, mono j k h, leb→le (byte_length (piece k)) max_bytes f)

  -- The search finds the longest piece that fits, if the shortest does.
  pub bisect-IsLongest :
      (top : ℕ)
      → byte_length (piece 0) ≤ max_bytes
      → IsLongest piece top max_bytes
          (piece (bisect (λ k. leb (byte_length (piece k)) max_bytes) top 0 top))
  unfolding fits
  bisect-IsLongest top z = record {
    count = r;
    within = found.within;
    is_piece = refl;
    fitting = leb→le (byte_length (piece r)) max_bytes found.fitting;
    longest = λ k h w. elim (Bool-cases (fits k)) [
      | inl e ↦ absurd (omega (arith, found.last k w e))
      | inr e ↦ leb→gt (byte_length (piece k)) max_bytes e
    ];
  }
    where
      r : ℕ
      r = bisect fits top 0 top

      found : IsLast fits top r
      found = search-IsLast fits top fits-DownClosed (ground arith)

-- `takeUtf8Head` returns the longest prefix of the string that has at most the given number of bytes.
pub take_utf8_head-IsLongest :
    (value : Text) (max_bytes : ℕ)
    → IsLongest (λ k. take k value) (length value) max_bytes (take_utf8_head value max_bytes)
unfolding take_utf8_head byte_length
take_utf8_head-IsLongest value max_bytes =
    bisect-IsLongest (λ k. take k value) (λ j k h. byte_length-take j k value h) max_bytes
      (length value) (omega arith)

drop-all : (n : ℕ) (us : Text) → length us ≤ n → drop n us ≡ []
drop-all zero [] h = refl
drop-all zero (u ∷ us) h = absurd (omega arith)
drop-all (suc n) [] h = refl
drop-all (suc n) (u ∷ us) h = drop-all n us (omega arith)

-- `takeUtf8Tail` returns the longest suffix of the string that has at most the given number of bytes.
pub take_utf8_tail-IsLongest :
    (value : Text) (max_bytes : ℕ)
    → IsLongest (λ k. suffix_from k value) (length value) max_bytes (take_utf8_tail value max_bytes)
unfolding take_utf8_tail byte_length
take_utf8_tail-IsLongest value max_bytes =
    bisect-IsLongest (λ k. suffix_from k value)
      (λ j k h. byte_length-drop (length value - k) (length value - j) value (omega arith))
      max_bytes (length value)
      (subst (λ x. byte_length x ≤ max_bytes)
        (sym (drop-all (length value - 0) value (omega arith))) (omega arith))
