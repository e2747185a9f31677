-- ===== src/Process/Reading.antt =====
-- What `read` returns is the part of the stream that its cursor names.
use desktop_remote.Common.{
  ℕ, zero, suc, ◌+◌, ◌-◌, ◌≤◌, ◌≡◌, refl, sym, ap, subst, ◌∙◌, min, max, Option, List, [], ◌∷◌,
  ◌++◌, length, take, drop, or_default, joined, length-append, drop-drop, arith,
}
use desktop_remote.Process.Buffer.{
  Utf8Buffer, safe_utf8_start, lead_before, safe_utf8_end, read, read_range, ReadResult,
}
use desktop_remote.Process.Retained.{Holds}

safe_utf8_start_range :
    (fuel : ℕ) (bytes : List ℕ) (start end : ℕ)
    → start ≤ end
    → (start ≤ safe_utf8_start fuel bytes start end) × (safe_utf8_start fuel bytes start end ≤ end)
unfolding safe_utf8_start
safe_utf8_start_range zero bytes start end h = (omega arith, h)
safe_utf8_start_range (suc fuel) bytes start end h =
    ground (arith, safe_utf8_start_range fuel bytes (start + 1) end)

lead_before_range :
    (fuel : ℕ) (bytes : List ℕ) (start lead : ℕ)
    → start ≤ lead
    → (start ≤ lead_before fuel bytes start lead) × (lead_before fuel bytes start lead ≤ lead)
unfolding lead_before
lead_before_range zero bytes start lead h = (h, omega arith)
lead_before_range (suc fuel) bytes start lead h =
    ground (arith, lead_before_range fuel bytes start (lead - 1))

safe_utf8_end_range :
    (bytes : List ℕ) (start end : ℕ)
    → start ≤ end
    → (start ≤ safe_utf8_end bytes start end) × (safe_utf8_end bytes start end ≤ end)
unfolding safe_utf8_end
safe_utf8_end_range bytes start end h =
    ground (arith, lead_before_range (end - 1 - start) bytes start (end - 1))

drop-append : (front back : List ℕ) → drop (length front) (front ++ back) ≡ back
drop-append [] back = refl
drop-append (x ∷ front) back = drop-append front back

-- What the buffer holds is what follows the first `total_bytes - retained_bytes` bytes of the stream.
Holds-back :
    (b : Utf8Buffer) (stream : List ℕ)
    → Holds b stream
    → joined b.chunks ≡ drop (b.total_bytes - b.retained_bytes) stream
Holds-back b stream v =
    sym (drop-append v.is_end.front (joined b.chunks))
    ∙ ap (drop (length v.is_end.front)) (sym v.is_end.parts)
    ∙ ap (λ n. drop n stream) fronts
  where
    fronts : length v.is_end.front ≡ b.total_bytes - b.retained_bytes
    fronts = omega (
      arith,
      ap length v.is_end.parts,
      length-append v.is_end.front (joined b.chunks),
      v.total,
      v.retained,
    )

-- What is read lies in the part of the stream that is held, and is the stream between the cursor's
-- offset and its end.
pub record IsSlice (b : Utf8Buffer) (stream : List ℕ) (r : ReadResult) : Type 0 where
  pub from_retained : b.total_bytes - b.retained_bytes ≤ r.cursor.offset
  pub ordered : r.cursor.offset ≤ r.cursor.end_offset
  pub to_total : r.cursor.end_offset ≤ b.total_bytes
  pub same_bytes :
      r.bytes_read ≡ take (r.cursor.end_offset - r.cursor.offset) (drop r.cursor.offset stream)

slice_shift :
    (stream : List ℕ) (r s e : ℕ)
    → take (e - s) (drop s (drop r stream)) ≡ take ((r + e) - (r + s)) (drop (r + s) stream)
slice_shift stream r s e =
    ap (take (e - s)) (drop-drop r s stream)
    ∙ ap (λ n. take n (drop (r + s) stream)) (minus_shift r s e)
  where
    minus_shift : (r s e : ℕ) → e - s ≡ (r + e) - (r + s)
    minus_shift r s e = omega arith

read_range-IsSlice :
    (b : Utf8Buffer) (stream : List ℕ) (requested start end : ℕ)
    → Holds b stream
    → start ≤ end
    → end ≤ length (joined b.chunks)
    → IsSlice b stream (read_range b requested start end)
unfolding read_range
read_range-IsSlice b stream requested start end v h k = record {
  from_retained = omega arith;
  ordered = omega (arith, e);
  to_total = omega (
    arith,
    s,
    e,
    v.retained,
    v.total,
    ap length v.is_end.parts,
    length-append v.is_end.front (joined b.chunks),
  );
  same_bytes =
      subst
        (λ buffer.
          take (safe_utf8_end (joined b.chunks) ss end - ss) (drop ss buffer)
          ≡ take ((R + safe_utf8_end (joined b.chunks) ss end) - (R + ss)) (drop (R + ss) stream))
        (sym (Holds-back b stream v))
        (slice_shift stream R ss (safe_utf8_end (joined b.chunks) ss end));
}
  where
    R : ℕ
    R = b.total_bytes - b.retained_bytes

    ss : ℕ
    ss = safe_utf8_start (end - start) (joined b.chunks) start end

    s : (start ≤ ss) × (ss ≤ end)
    s = safe_utf8_start_range (end - start) (joined b.chunks) start end h

    e :
        (ss ≤ safe_utf8_end (joined b.chunks) ss end)
        × (safe_utf8_end (joined b.chunks) ss end ≤ end)
    e = safe_utf8_end_range (joined b.chunks) ss end s.1

read_clamped :
    (b : Utf8Buffer) (stream : List ℕ) (requested start wanted : ℕ)
    → Holds b stream
    → start ≤ length (joined b.chunks)
    → IsSlice b stream
        (read_range b requested start (max start (min (length (joined b.chunks)) wanted)))
read_clamped b stream requested start wanted v h =
    read_range-IsSlice b stream requested start (max start (min (length (joined b.chunks)) wanted))
      v (omega arith) (omega arith)

clamped_start :
    (b : Utf8Buffer) (stream : List ℕ) (requested : ℕ)
    → Holds b stream
    → min b.total_bytes (max requested (b.total_bytes - b.retained_bytes))
        - (b.total_bytes - b.retained_bytes)
      ≤ length (joined b.chunks)
clamped_start b stream requested v = omega (arith, v.retained)

-- What `read` returns from a buffer that holds an end of a stream is the stream between the cursor's
-- offset and its end, whatever was requested; both lie within the part that the buffer holds.
pub read-IsSlice :
    (b : Utf8Buffer) (stream : List ℕ) (offset count : Option ℕ)
    → Holds b stream
    → IsSlice b stream (read b offset count)
unfolding read
read-IsSlice b stream offset count v =
    read_clamped b stream _ _ _ v
      (clamped_start b stream (or_default offset (b.total_bytes - b.retained_bytes)) v)
