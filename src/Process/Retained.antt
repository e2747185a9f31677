-- ===== src/Process/Retained.antt =====
-- The buffer holds the last bytes of the stream that was appended to it.
use mathlib.Core.Bool.{false≢true}
use mathlib.Core.List.{append-nil, append_assoc}
use desktop_remote.Common.{
  ℕ, ◌+◌, ◌-◌, ◌≤◌, ◌<◌, ◌≡◌, refl, sym, ap, subst, ◌∙◌, Bool, true, false, ◌||◌, List, [], ◌∷◌,
  ◌++◌, ltb, leb, ltb→lt, ltb→ge, leb→gt, length, take, drop, joined, length-append, length-drop,
  take-append-drop, Bool-cases, inl, inr, arith,
}
use desktop_remote.Process.Buffer.{
  Utf8Buffer, new_buffer, is_utf8_continuation, skip_continuation, safe_tail, trim, Trimmed,
  one_chunk, append,
}

-- `back` is the end of `whole`.
pub record IsEndOf (back whole : List ℕ) : Type 0 where
  pub front : List ℕ
  pub parts : whole ≡ front ++ back

-- The buffer after `stream` has been appended to it, in whatever pieces.
pub record Holds (b : Utf8Buffer) (stream : List ℕ) : Type 0 where
  pub total : b.total_bytes ≡ length stream
  pub retained : b.retained_bytes ≡ length (joined b.chunks)
  pub within : b.retained_bytes ≤ b.max_bytes
  pub is_end : IsEndOf (joined b.chunks) stream
  pub whole : b.truncated ≡ false → b.retained_bytes ≡ b.total_bytes

end_itself : (xs : List ℕ) → IsEndOf xs xs
end_itself xs = record { front = []; parts = refl }

end_further : (front xs ys : List ℕ) → IsEndOf xs ys → IsEndOf xs (front ++ ys)
end_further front xs ys e = record {
  front = front ++ e.front;
  parts = ap (λ zs. front ++ zs) e.parts ∙ sym (append_assoc front e.front xs);
}

end_drop : (n : ℕ) (xs : List ℕ) → IsEndOf (drop n xs) xs
end_drop n xs = record { front = take n xs; parts = sym (take-append-drop n xs) }

IsEndOf-trans : (xs ys zs : List ℕ) → IsEndOf xs ys → IsEndOf ys zs → IsEndOf xs zs
IsEndOf-trans xs ys zs e f = record {
  front = f.front ++ e.front;
  parts = f.parts ∙ ap (λ us. f.front ++ us) e.parts ∙ sym (append_assoc f.front e.front xs);
}

IsEndOf-short : (xs ys : List ℕ) → IsEndOf xs ys → length xs ≤ length ys
IsEndOf-short xs ys e = omega (arith, ap length e.parts, length-append e.front xs)

skip_end : (xs : List ℕ) → IsEndOf (skip_continuation xs) xs
unfolding skip_continuation
skip_end [] = end_itself []
skip_end (byte ∷ xs) = elim (Bool-cases (is_utf8_continuation byte)) [
  | inl e ↦ rw e (end_further (byte ∷ []) _ xs (skip_end xs))
  | inr e ↦ rw e (end_itself (byte ∷ xs))
]

safe_tail-IsEndOf : (bytes : List ℕ) (m : ℕ) → IsEndOf (safe_tail bytes m) bytes
unfolding safe_tail
safe_tail-IsEndOf bytes m =
    IsEndOf-trans _ _ bytes (skip_end (drop (length bytes - m) bytes))
      (end_drop (length bytes - m) bytes)

safe_tail_short : (bytes : List ℕ) (m : ℕ) → length (safe_tail bytes m) ≤ m
unfolding safe_tail
safe_tail_short bytes m = omega (
  arith,
  IsEndOf-short _ _ (skip_end (drop (length bytes - m) bytes)),
  length-drop (length bytes - m) bytes,
)

-- What the loop of `append` makes of chunks.
record IsTrimmed (m : ℕ) (chunks : List (List ℕ)) (t : Trimmed) : Type 0 where
  pub counted : t.bytes_kept ≡ length (joined t.kept)
  pub short : t.bytes_kept ≤ m
  pub tail : IsEndOf (joined t.kept) (joined chunks)
  pub untouched : t.cut ≡ false → t.kept ≡ chunks

end_append : (xs ys zs : List ℕ) → IsEndOf xs ys → IsEndOf (xs ++ zs) (ys ++ zs)
end_append xs ys zs e = record {
  front = e.front;
  parts = ap (λ us. us ++ zs) e.parts ∙ append_assoc e.front xs zs;
}

first-IsTrimmed :
    (m retained : ℕ) (first : List ℕ) (rest : List (List ℕ))
    → retained ≡ length (joined (first ∷ rest))
    → m < retained
    → retained - m < length first
    → IsTrimmed m (first ∷ rest) (record {
      kept = safe_tail first (length first - (retained - m)) ∷ rest;
      bytes_kept =
          retained - (length first - length (safe_tail first (length first - (retained - m))));
      cut = true;
    })
first-IsTrimmed m retained first rest h over part = record {
  counted =
      omega (arith, sizes, length-append first (joined rest), length-append t (joined rest), h);
  short = omega (arith, sizes, h);
  tail = end_append t first (joined rest) (safe_tail-IsEndOf first (length first - (retained - m)));
  untouched = λ e. absurd (false≢true (sym e));
}
  where
    t : List ℕ
    t = safe_tail first (length first - (retained - m))

    sizes : length t ≤ length first - (retained - m)
    sizes = safe_tail_short first (length first - (retained - m))

trim-IsTrimmed :
    (m retained : ℕ) (chunks : List (List ℕ))
    → retained ≡ length (joined chunks)
    → IsTrimmed m chunks (trim m retained chunks)
unfolding trim
trim-IsTrimmed m retained [] h = record {
  counted = h;
  short = omega arith;
  tail = end_itself [];
  untouched = λ e. refl;
}
trim-IsTrimmed m retained (first ∷ rest) h = elim (Bool-cases (ltb m retained)) [
  | inr e ↦ rw e (record {
    counted = h;
    short = ltb→ge m retained e;
    tail = end_itself (joined (first ∷ rest));
    untouched = λ e'. refl;
  })
  | inl e ↦ elim (Bool-cases (leb (length first) (retained - m))) [
    | inl f ↦
        rw (e, f)
          (let ih =
              trim-IsTrimmed m (retained - length first) rest
                (omega (arith, length-append first (joined rest))) in
            record {
              counted = ih.counted;
              short = ih.short;
              tail = end_further first _ (joined rest) ih.tail;
              untouched = λ e'. absurd (false≢true (sym e'));
            })
    | inr f ↦
        rw (e, f)
          (first-IsTrimmed m retained first rest h (ltb→lt m retained e)
            (leb→gt (length first) (retained - m) f))
  ]
]

joined-append : (xss yss : List (List ℕ)) → joined (xss ++ yss) ≡ joined xss ++ joined yss
joined-append [] yss = refl
joined-append (xs ∷ xss) yss =
    ap (λ zs. xs ++ zs) (joined-append xss yss) ∙ sym (append_assoc xs (joined xss) (joined yss))

joined-one_chunk : (xs : List ℕ) → joined (one_chunk xs) ≡ xs
joined-one_chunk [] = refl
joined-one_chunk (x ∷ xs) = append-nil (x ∷ xs)

joined-snoc : (xss : List (List ℕ)) (xs : List ℕ) → joined (xss ++ xs ∷ []) ≡ joined xss ++ xs
joined-snoc xss xs = joined-append xss (xs ∷ []) ∙ ap (λ zs. joined xss ++ zs) (append-nil xs)

or_false_left : (a b : Bool) → (a || b) ≡ false → a ≡ false
or_false_left true b e = e
or_false_left false b e = refl

or_false_right : (a b : Bool) → (a || b) ≡ false → b ≡ false
or_false_right true b e = absurd (false≢true (sym e))
or_false_right false b e = e

pub new_buffer-Holds : (m : ℕ) → Holds (new_buffer m) []
unfolding new_buffer
new_buffer-Holds m = record {
  total = refl;
  retained = refl;
  within = omega arith;
  is_end = end_itself [];
  whole = λ e. refl;
}

append_long :
    (b : Utf8Buffer) (stream : List ℕ) (byte : ℕ) (rest : List ℕ)
    → Holds b stream
    → leb b.max_bytes (length (byte ∷ rest)) ≡ true
    → Holds (append (byte ∷ rest) b) (stream ++ byte ∷ rest)
unfolding append
append_long b stream byte rest v e = rw e (record {
  total = omega (arith, v.total, length-append stream (byte ∷ rest));
  retained = ap length (sym (joined-one_chunk t));
  within = safe_tail_short (byte ∷ rest) b.max_bytes;
  is_end =
      subst (λ xs. IsEndOf xs (stream ++ byte ∷ rest)) (sym (joined-one_chunk t))
        (end_further stream t (byte ∷ rest) (safe_tail-IsEndOf (byte ∷ rest) b.max_bytes));
  whole = λ e'. absurd (false≢true (sym e'));
})
  where
    t : List ℕ
    t = safe_tail (byte ∷ rest) b.max_bytes

append_short :
    (b : Utf8Buffer) (stream : List ℕ) (byte : ℕ) (rest : List ℕ)
    → Holds b stream
    → leb b.max_bytes (length (byte ∷ rest)) ≡ false
    → Holds (append (byte ∷ rest) b) (stream ++ byte ∷ rest)
unfolding append
append_short b stream byte rest v e = rw e (record {
  total = omega (arith, v.total, length-append stream (byte ∷ rest));
  retained = t.counted;
  within = t.short;
  is_end = IsEndOf-trans _ _ (stream ++ byte ∷ rest) t.tail (
      subst (λ xs. IsEndOf xs (stream ++ byte ∷ rest)) (sym (joined-snoc b.chunks (byte ∷ rest)))
        (end_append (joined b.chunks) stream (byte ∷ rest) v.is_end));
  whole = λ e'.
      let same = ap (λ xss. length (joined xss)) (t.untouched (or_false_right b.truncated _ e')) in
      let full = v.whole (or_false_left b.truncated _ e') in
      omega (arith, same, full, t.counted, counts);
})
  where
    counts :
        b.retained_bytes + length (byte ∷ rest) ≡ length (joined (b.chunks ++ (byte ∷ rest) ∷ []))
    counts = omega (
      arith,
      ap length (joined-snoc b.chunks (byte ∷ rest)),
      v.retained,
      length-append (joined b.chunks) (byte ∷ rest),
    )

    t : IsTrimmed b.max_bytes (b.chunks ++ (byte ∷ rest) ∷ []) (
        trim b.max_bytes (b.retained_bytes + length (byte ∷ rest)) (b.chunks ++ (byte ∷ rest) ∷ []))
    t =
        trim-IsTrimmed b.max_bytes (b.retained_bytes + length (byte ∷ rest))
          (b.chunks ++ (byte ∷ rest) ∷ []) counts

append-Holds :
    (bytes : List ℕ) (b : Utf8Buffer) (stream : List ℕ)
    → Holds b stream
    → Holds (append bytes b) (stream ++ bytes)
append-Holds [] b stream v =
    subst (Holds (append [] b)) (sym (append-nil stream)) (unfold append in v)
append-Holds (byte ∷ rest) b stream v = elim (Bool-cases (leb b.max_bytes (length (byte ∷ rest)))) [
  | inl e ↦ append_long b stream byte rest v e
  | inr e ↦ append_short b stream byte rest v e
]

-- The buffer after pieces of output.
unfoldable pub append_all : List (List ℕ) → Utf8Buffer → Utf8Buffer
append_all [] b = b
append_all (piece ∷ pieces) b = append_all pieces (append piece b)

append_all-Holds :
    (pieces : List (List ℕ)) (b : Utf8Buffer) (stream : List ℕ)
    → Holds b stream
    → Holds (append_all pieces b) (stream ++ joined pieces)
unfolding append_all
append_all-Holds [] b stream v = subst (Holds b) (sym (append-nil stream)) v
append_all-Holds (piece ∷ pieces) b stream v =
    subst (Holds (append_all pieces (append piece b))) (append_assoc stream piece (joined pieces))
      (append_all-Holds pieces (append piece b) (stream ++ piece) (append-Holds piece b stream v))

-- After any pieces of output a new buffer holds an end of the whole output, it counts all of its bytes
-- and those that it holds, these are at most `max_bytes`, and a buffer that does not say `truncated`
-- holds the whole output.
pub append_all-new_buffer :
    (m : ℕ) (pieces : List (List ℕ)) → Holds (append_all pieces (new_buffer m)) (joined pieces)
append_all-new_buffer m pieces = append_all-Holds pieces (new_buffer m) [] (new_buffer-Holds m)
