-- ===== src/Bytes/Limits.antt =====
-- Which budgets the three truncations keep.
use desktop_remote.Common.{
  ℕ, ◌+◌, ◌-◌, ◌/◌, ◌≤◌, ◌<◌, ◌≡◌, ◌↔◌, ◌⊎◌, refl, ap, subst, false, [], ◌++◌, inl, inr, leb, ltb,
  leb→le, leb→gt, ltb→lt, ltb→ge, Bool-cases, take, length, arith,
}
use desktop_remote.Events.{Text}
use desktop_remote.Bytes.{
  byte_length, bisect, marker, shorten, suffix_from, bound_text, take_utf8_head, take_utf8_tail,
  truncate_utf8, truncate_message, ellipsis,
}
use desktop_remote.Bytes.Bisect.{bisect-nothing}
use desktop_remote.Bytes.Length.{byte_length-++, byte_length_suffix, byte_length-take-++}
use desktop_remote.Bytes.Cuts.{
  IsLongest, take_utf8_head-IsLongest, take_utf8_tail-IsLongest, bisect-IsLongest,
}

byte_length-ellipsis : byte_length ellipsis ≡ 3
unfolding byte_length
byte_length-ellipsis = refl

take_utf8_head_size : (value : Text) (m : ℕ) → byte_length (take_utf8_head value m) ≤ m
take_utf8_head_size value m = (take_utf8_head-IsLongest value m).fitting

take_utf8_tail_size : (value : Text) (m : ℕ) → byte_length (take_utf8_tail value m) ≤ m
take_utf8_tail_size value m = (take_utf8_tail-IsLongest value m).fitting

-- What `boundText` makes of a string with the marker `notice`: the string itself if it fits, else the
-- marker with as much of both ends as has room, or as much of the marker as has room.
pub data Bounding (value notice : Text) (m : ℕ) : Text → Type 0 where
  whole : byte_length value ≤ m → Bounding value notice m value
  only_notice :
      (r : Text)
      → m < byte_length value
      → m ≤ byte_length notice
      → IsLongest (λ k. take k notice) (length notice) m r
      → Bounding value notice m r
  both_ends :
      (head tail : Text)
      → m < byte_length value
      → byte_length notice < m
      → IsLongest (λ k. take k value) (length value) ((m - byte_length notice + 1) / 2) head
      → IsLongest (λ k. suffix_from k value) (length value) ((m - byte_length notice) / 2) tail
      → Bounding value notice m (head ++ (notice ++ tail))

joined_size :
    (head notice tail : Text) (m : ℕ)
    → byte_length notice < m
    → byte_length head ≤ (m - byte_length notice + 1) / 2
    → byte_length tail ≤ (m - byte_length notice) / 2
    → byte_length (head ++ (notice ++ tail)) ≤ m
joined_size head notice tail m a b c =
    omega (arith, byte_length-++ head (notice ++ tail), byte_length-++ notice tail)

shorten-Bounding :
    (value notice : Text) (m : ℕ)
    → m < byte_length value
    → Bounding value notice m (shorten notice value m)
unfolding shorten
shorten-Bounding value notice m h = elim (Bool-cases (leb m (byte_length notice))) [
  | inl e ↦ rw e (
      only_notice (take_utf8_head notice m) h (leb→le m (byte_length notice) e)
        (take_utf8_head-IsLongest notice m))
  | inr e ↦ rw e (
      both_ends (take_utf8_head value ((m - byte_length notice + 1) / 2))
        (take_utf8_tail value ((m - byte_length notice) / 2)) h (leb→gt m (byte_length notice) e)
        (take_utf8_head-IsLongest value ((m - byte_length notice + 1) / 2))
        (take_utf8_tail-IsLongest value ((m - byte_length notice) / 2)))
]

-- A string that fits is returned as it is. Any other becomes the marker with the longest prefix and
-- the longest suffix that fit into the two halves of the room beside it, the larger half for the
-- prefix; if the marker leaves no room, it becomes the longest prefix of the marker that fits.
pub bound_text-Bounding :
    (value : Text) (m : ℕ) → Bounding value (marker (byte_length value)) m (bound_text value m)
unfolding bound_text
bound_text-Bounding value m = elim (Bool-cases (leb (byte_length value) m)) [
  | inl e ↦ rw e (whole (leb→le (byte_length value) m e))
  | inr e ↦
      rw e (shorten-Bounding value (marker (byte_length value)) m (leb→gt (byte_length value) m e))
]

bounded_size :
    (value notice r : Text) (m : ℕ)
    → Bounding value notice m r
    → (byte_length r ≤ m) × ((r ≡ value) ↔ (byte_length value ≤ m))
bounded_size value notice r m b = (
  size value notice r m b,
  ((λ e. subst (λ x. byte_length x ≤ m) e (size value notice r m b)), same value notice r m b),
)
  where
    size : (value notice r : Text) (m : ℕ) → Bounding value notice m r → byte_length r ≤ m
    size value notice r m (whole h) = h
    size value notice r m (only_notice _ h g l) = l.fitting
    size value notice r m (both_ends head tail h g l n) =
        joined_size head notice tail m g l.fitting n.fitting

    same :
        (value notice r : Text) (m : ℕ)
        → Bounding value notice m r
        → byte_length value ≤ m
        → r ≡ value
    same value notice r m (whole h) f = refl
    same value notice r m (only_notice _ h g l) f = absurd (omega arith)
    same value notice r m (both_ends head tail h g l n) f = absurd (omega arith)

-- The result of `boundText` has at most the given number of bytes, and is the string itself exactly if
-- the string has no more.
pub bound_text_size :
    (value : Text) (m : ℕ)
    → (byte_length (bound_text value m) ≤ m)
      × ((bound_text value m ≡ value) ↔ (byte_length value ≤ m))
bound_text_size value m =
    bounded_size value (marker (byte_length value)) (bound_text value m) m
      (bound_text-Bounding value m)

-- The result of `truncateUtf8` in the response budget is over its budget exactly if the budget is
-- one or two bytes and the string does not fit.
pub truncate_utf8_exceeds_iff :
    (value : Text) (m : ℕ)
    → (m < byte_length (truncate_utf8 value m)) ↔ ((0 < m) × (m < 3) × (m < byte_length value))
unfolding truncate_utf8
truncate_utf8_exceeds_iff value m = elim (Bool-cases (ltb m 1)) [
  | inl e ↦ rw e ((λ h. absurd (omega arith)), (λ (a, b, c). absurd (omega (arith, ltb→lt m 1 e))))
  | inr e ↦ elim (Bool-cases (leb (byte_length value) m)) [
    | inl f ↦
        rw (e, f)
          (
            (λ h. absurd (omega (arith, leb→le (byte_length value) m f))),
            (λ (a, b, c). absurd (omega (arith, leb→le (byte_length value) m f))),
          )
    | inr f ↦
        rw (e, f)
          (
            (λ h. (
              omega (arith, ltb→ge m 1 e),
              omega (
                arith,
                h,
                byte_length-++ (take_utf8_head value (m - 3)) ellipsis,
                take_utf8_head_size value (m - 3),
              ),
              leb→gt (byte_length value) m f,
            )),
            (λ (a, b, c).
                omega (arith, byte_length_suffix (take_utf8_head value (m - 3)) ellipsis)),
          )
  ]
]

gt→leb : (a b : ℕ) → b < a → leb a b ≡ false
gt→leb a b h = ground arith

-- The message of a log line that does not fit becomes its longest prefix that fits together with the
-- ellipsis after it; where there is no room for the ellipsis, it becomes empty.
pub truncate_message-IsLongest :
    (value : Text) (m : ℕ)
    → m < byte_length value
    → (IsLongest (λ k. take k value ++ ellipsis) (length value) m (truncate_message value m)
        × (3 ≤ m))
      ⊎ ((truncate_message value m ≡ []) × (m < 3))
unfolding truncate_message
truncate_message-IsLongest value m h = elim (Bool-cases (leb (byte_length value) m)) [
  | inl e ↦ absurd (omega (arith, leb→le (byte_length value) m e))
  | inr e ↦ elim (Bool-cases (leb (byte_length ellipsis) m)) [
    | inl f ↦
        rw (e, f)
          (inl (
            bisect-IsLongest (λ k. take k value ++ ellipsis)
                (λ j k w. byte_length-take-++ j k value ellipsis w) m (length value) (leb→le 3 m f),
            leb→le 3 m f,
          ))
    | inr f ↦ rw (e, f) (inr (ap (λ k. take k value ++ []) (nothing f), leb→gt 3 m f))
  ]
]
  where
    nothing :
        leb (byte_length ellipsis) m ≡ false
        → bisect
            (λ k. leb (byte_length (take k value ++ ellipsis)) m)
            (length value)
            0
            (length value)
          ≡ 0
    nothing f =
        bisect-nothing (λ k. leb (byte_length (take k value ++ ellipsis)) m)
          (λ k.
            gt→leb (byte_length (take k value ++ ellipsis)) m
              (omega (arith, byte_length_suffix (take k value) ellipsis, leb→gt 3 m f)))
          (length value) 0 (length value)
