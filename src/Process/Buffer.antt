-- ===== src/Process/Buffer.antt =====
-- `BoundedUtf8Buffer` of src/process/manager.ts: the last bytes of an output stream. A `Buffer` is the
-- list of its bytes; `append` takes the bytes of `Buffer.from(value, "utf8")`, and `read` gives the
-- bytes whose `toString("utf8")` the source returns.
use desktop_remote.Common.{
  ℕ, zero, suc, ◌+◌, ◌-◌, ◌/◌, min, max, Bool, true, false, ◌&&◌, ◌||◌, Option, none, some, List,
  [], ◌∷◌, ◌++◌, ltb, leb, ◌==◌, if◌then◌else◌, length, take, drop, get_or, or_default, joined,
}

pub record Utf8Buffer : Type 0 where
  pub chunks : List (List ℕ)
  pub total_bytes : ℕ
  pub retained_bytes : ℕ
  pub truncated : Bool
  pub max_bytes : ℕ

unfoldable pub new_buffer : ℕ → Utf8Buffer
new_buffer max_bytes = record {
  chunks = [];
  total_bytes = 0;
  retained_bytes = 0;
  truncated = false;
  max_bytes = max_bytes;
}

-- `(byte & 0xc0) === 0x80`, for a byte.
abbrev pub is_utf8_continuation : ℕ → Bool
is_utf8_continuation byte = byte / 64 == 2

abbrev pub utf8_sequence_length : ℕ → ℕ
utf8_sequence_length byte =
    if ltb byte 0x80 then 1 else if ltb byte 0xe0 then 2 else if ltb byte 0xf0 then 3 else 4

unfoldable pub skip_continuation : List ℕ → List ℕ
skip_continuation [] = []
skip_continuation (byte ∷ bytes) =
    if is_utf8_continuation byte then skip_continuation bytes else byte ∷ bytes

unfoldable pub safe_tail : List ℕ → ℕ → List ℕ
unfolding skip_continuation
safe_tail bytes max_bytes = skip_continuation (drop (length bytes - max_bytes) bytes)

-- What the loop of `append` leaves: the chunks, the bytes retained, and whether a round was made. A
-- round that trims a chunk is the last: the bytes retained are within the limit after it.
pub record Trimmed : Type 0 where
  pub kept : List (List ℕ)
  pub bytes_kept : ℕ
  pub cut : Bool

unfoldable pub trim : ℕ → ℕ → List (List ℕ) → Trimmed
unfolding safe_tail
trim max_bytes retained [] = record { kept = []; bytes_kept = retained; cut = false }
trim max_bytes retained (first ∷ rest) =
    let without_first = record (trim max_bytes (retained - length first) rest) { cut = true } in
    let trimmed = safe_tail first (length first - (retained - max_bytes)) in
    if ltb max_bytes retained
    then (if leb (length first) (retained - max_bytes) then without_first else record {
      kept = trimmed ∷ rest;
      bytes_kept = retained - (length first - length trimmed);
      cut = true;
    })
    else record { kept = first ∷ rest; bytes_kept = retained; cut = false }

abbrev pub one_chunk : List ℕ → List (List ℕ)
one_chunk [] = []
one_chunk (byte ∷ bytes) = (byte ∷ bytes) ∷ []

unfoldable pub append : List ℕ → Utf8Buffer → Utf8Buffer
unfolding trim safe_tail
append [] b = b
append (byte ∷ rest) b =
    if leb b.max_bytes (length (byte ∷ rest))
    then record b {
      chunks = one_chunk (safe_tail (byte ∷ rest) b.max_bytes);
      total_bytes = b.total_bytes + length (byte ∷ rest);
      retained_bytes = length (safe_tail (byte ∷ rest) b.max_bytes);
      truncated = true;
    }
    else record b {
      chunks = pushed.kept;
      total_bytes = b.total_bytes + length (byte ∷ rest);
      retained_bytes = pushed.bytes_kept;
      truncated = b.truncated || pushed.cut;
    }
  where
    pushed : Trimmed
    pushed =
        trim b.max_bytes (b.retained_bytes + length (byte ∷ rest)) (b.chunks ++ (byte ∷ rest) ∷ [])

-- `while (start < end && …) start += 1`; the fuel is the distance.
unfoldable pub safe_utf8_start : ℕ → List ℕ → ℕ → ℕ → ℕ
safe_utf8_start zero bytes start end = start
safe_utf8_start (suc fuel) bytes start end =
    let next = safe_utf8_start fuel bytes (start + 1) end in
    if ltb start end && is_utf8_continuation (get_or bytes start 0) then next else start

-- `while (lead > start && …) lead -= 1`.
unfoldable pub lead_before : ℕ → List ℕ → ℕ → ℕ → ℕ
lead_before zero bytes start lead = lead
lead_before (suc fuel) bytes start lead =
    let next = lead_before fuel bytes start (lead - 1) in
    if ltb start lead && is_utf8_continuation (get_or bytes lead 0) then next else lead

unfoldable pub safe_utf8_end : List ℕ → ℕ → ℕ → ℕ
unfolding lead_before
safe_utf8_end bytes start end =
    if leb end start
    then end
    else if lead + utf8_sequence_length (get_or bytes lead 0) == end
    then end
    else lead
  where
    lead : ℕ
    lead = lead_before (end - 1 - start) bytes start (end - 1)

pub record Cursor : Type 0 where
  pub offset : ℕ
  pub end_offset : ℕ
  pub next_offset : ℕ
  pub cursor_truncated : Bool

pub record ReadResult : Type 0 where
  pub bytes_read : List ℕ
  pub cursor : Cursor

-- The part of `read` that follows the clamping, on the retained bytes.
unfoldable pub read_range : Utf8Buffer → ℕ → ℕ → ℕ → ReadResult
unfolding safe_utf8_start safe_utf8_end
read_range b requested_start relative_start relative_end = record {
  bytes_read = take (safe_end - safe_start) (drop safe_start buffer);
  cursor = record {
    offset = retained_start + safe_start;
    end_offset = retained_start + safe_end;
    next_offset = b.total_bytes;
    cursor_truncated = b.truncated || ltb requested_start retained_start;
  };
}
  where
    buffer : List ℕ
    buffer = joined b.chunks

    retained_start : ℕ
    retained_start = b.total_bytes - b.retained_bytes

    safe_start : ℕ
    safe_start = safe_utf8_start (relative_end - relative_start) buffer relative_start relative_end

    safe_end : ℕ
    safe_end = safe_utf8_end buffer safe_start relative_end

-- `read`, for an offset and a length that are valid.
unfoldable pub read : Utf8Buffer → Option ℕ → Option ℕ → ReadResult
unfolding read_range
read b offset count = read_range b requested_start relative_start relative_end
  where
    retained_start : ℕ
    retained_start = b.total_bytes - b.retained_bytes

    requested_start : ℕ
    requested_start = or_default offset retained_start

    start : ℕ
    start = min b.total_bytes (max requested_start retained_start)

    requested_end : ℕ
    requested_end = elim count [ none ↦ b.total_bytes | some n ↦ min b.total_bytes (start + n) ]

    relative_start : ℕ
    relative_start = start - retained_start

    relative_end : ℕ
    relative_end =
        max relative_start (min (length (joined b.chunks)) (requested_end - retained_start))
