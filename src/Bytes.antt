-- ===== src/Bytes.antt =====
-- Cutting strings to a number of UTF-8 bytes: src/session/bounds.ts (`boundText` and its helpers),
-- and the two functions `truncateUtf8` of src/core/response-budget.ts and src/logging/rotating-log.ts.
-- A string is its UTF-16 code units; `byte_length` is `Buffer.byteLength`.
pub mod Bisect
pub mod Length
pub mod Cuts
pub mod Limits
mod Tests
use Prim.Native.Char.{code}
use Prim.Native.String
use Prim.Native.String.{String}
use desktop_remote.Common.{
  ℕ, zero, suc, ◌+◌, ◌-◌, ◌*◌, ◌/◌, ◌%◌, Bool, true, false, ◌&&◌, List, [], ◌∷◌, ◌++◌, leb, ltb,
  if◌then◌else◌, length, take, drop,
}
use desktop_remote.Events.{Text}

-- A literal of the source, whose characters all lie in the basic plane.
abbrev pub units : String → Text
units String.[] = []
units (String.◌∷◌ c s) = code c ∷ units s

abbrev is_high : ℕ → Bool
is_high u = leb 0xd800 u && ltb u 0xdc00

abbrev is_low : ℕ → Bool
is_low u = leb 0xdc00 u && ltb u 0xe000

-- The bytes that one more code unit adds; `paired` says that the unit before is a high surrogate. A
-- lone surrogate is replaced by a character of three bytes, a pair has four.
unfoldable pub unit_bytes : Bool → ℕ → ℕ
unit_bytes paired u =
    if ltb u 0x80 then 1 else if ltb u 0x800 then 2 else if paired && is_low u then 1 else 3

unfoldable pub bytes_after : Bool → Text → ℕ
unfolding unit_bytes
bytes_after paired [] = 0
bytes_after paired (u ∷ us) = unit_bytes paired u + bytes_after (is_high u) us

unfoldable pub byte_length : Text → ℕ
unfolding bytes_after
byte_length us = bytes_after false us

-- `while (low < high)`: the search for the last number that fits, with fuel.
unfoldable pub bisect : (ℕ → Bool) → ℕ → ℕ → ℕ → ℕ
bisect fits zero low high = low
bisect fits (suc fuel) low high =
    let middle = (low + high + 1) / 2 in
    let up = bisect fits fuel middle high in
    let down = bisect fits fuel low (middle - 1) in
    if ltb low high then (if fits middle then up else down) else low

abbrev pub suffix_from : ℕ → Text → Text
suffix_from count value = drop (length value - count) value

unfoldable pub take_utf8_head : Text → ℕ → Text
unfolding bisect byte_length
take_utf8_head value max_bytes =
    take (bisect (λ k. leb (byte_length (take k value)) max_bytes) (length value) 0 (length value))
      value

unfoldable pub take_utf8_tail : Text → ℕ → Text
unfolding bisect byte_length
take_utf8_tail value max_bytes =
    suffix_from
      (bisect (λ k. leb (byte_length (suffix_from k value)) max_bytes) (length value) 0
        (length value))
      value

-- `String(n)`, the digits before `rest`; the fuel exceeds their number.
unfoldable pub digits : ℕ → ℕ → Text → Text
digits zero n rest = rest
digits (suc fuel) n rest =
    let more = digits fuel (n / 10) ((b'0' + n % 10) ∷ rest) in
    if ltb n 10 then (b'0' + n) ∷ rest else more

unfoldable pub marker : ℕ → Text
unfolding digits
marker original_bytes =
    units "\n… [truncated: " ++ digits (original_bytes + 1) original_bytes (units " bytes] …\n")

-- The rest of `boundText`, for a string that does not fit.
unfoldable pub shorten : Text → Text → ℕ → Text
unfolding take_utf8_head take_utf8_tail byte_length
shorten notice value max_bytes =
    if leb max_bytes (byte_length notice)
    then take_utf8_head notice max_bytes
    else take_utf8_head value ((available + 1) / 2)
      ++ (notice ++ take_utf8_tail value (available / 2))
  where
    available : ℕ
    available = max_bytes - byte_length notice

unfoldable pub bound_text : Text → ℕ → Text
bound_text value max_bytes =
    if leb (byte_length value) max_bytes
    then value
    else shorten (marker (byte_length value)) value max_bytes

abbrev pub ellipsis : Text
ellipsis = units "…"

-- `truncateUtf8` of src/core/response-budget.ts.
unfoldable pub truncate_utf8 : Text → ℕ → Text
unfolding take_utf8_head byte_length
truncate_utf8 value max_bytes =
    if ltb max_bytes 1
    then []
    else if leb (byte_length value) max_bytes
    then value
    else take_utf8_head value (max_bytes - byte_length ellipsis) ++ ellipsis

-- `truncateUtf8` of src/logging/rotating-log.ts.
unfoldable pub truncate_message : Text → ℕ → Text
unfolding bisect byte_length
truncate_message value max_bytes =
    if leb (byte_length value) max_bytes
    then value
    else take kept value ++ (if leb (byte_length ellipsis) max_bytes then ellipsis else [])
  where
    kept : ℕ
    kept =
        bisect (λ k. leb (byte_length (take k value ++ ellipsis)) max_bytes) (length value) 0
          (length value)
