-- ===== src/Ipc/Chunks.antt =====
-- The decoder on a stream that comes in two parts.
use mathlib.Core.List.{append-nil, append_assoc}
use desktop_remote.Common.{
  ℕ, ◌+◌, ◌≤◌, ◌<◌, ◌≡◌, refl, sym, ap, ◌∙◌, true, false, Option, none, some, List, [], ◌∷◌, ◌++◌,
  ltb, ltb→ge, ltb→lt, ◌==◌, if◌then◌else◌, length, length-append, Bool-cases, inl, inr, arith,
}
use desktop_remote.Ipc.Framing.{
  Pushed, decoded, threw, too_long, max_ipc_frame_bytes, in_front, split_lines, append, push_lines,
  push, in_order, and_then, read_segment,
}

gt→ltb : (a b : ℕ) → b < a → ltb b a ≡ true
gt→ltb a b h = ground arith

ge→ltb : (a b : ℕ) → b ≤ a → ltb a b ≡ false
ge→ltb a b h = ground arith

module _ (remainder : List ℕ) (byte : ℕ) (segment : List ℕ) where
  append_full :
      max_ipc_frame_bytes < length remainder + 1 → append remainder (byte ∷ segment) ≡ none
  unfolding append
  append_full h =
      rw (gt→ltb (length remainder + length (byte ∷ segment)) max_ipc_frame_bytes (omega arith))
        refl

  snoc_length :
      length (remainder ++ byte ∷ []) + length segment ≡ length remainder + length (byte ∷ segment)
  snoc_length = omega (arith, length-append remainder (byte ∷ []))

  append_byte : append remainder (byte ∷ segment) ≡ append (remainder ++ byte ∷ []) segment
  unfolding append
  append_byte = rw (snoc_length, append_assoc remainder (byte ∷ []) segment) refl

append-nil_short :
    (remainder : List ℕ)
    → length remainder ≤ max_ipc_frame_bytes
    → append remainder [] ≡ some remainder
unfolding append
append-nil_short remainder h =
    rw (ge→ltb max_ipc_frame_bytes (length remainder + 0) (omega arith), append-nil) refl

module _ {M : Type 0} (parse : List ℕ → Option M) where
  -- The decoder byte by byte.
  unfoldable pub feed : List ℕ → List ℕ → List ℕ × Pushed M
  feed remainder [] = (remainder, decoded [])
  feed remainder (byte ∷ bytes) =
      let line_done =
        and_then ([], read_segment parse (some remainder)) (λ kept. feed kept bytes) in
      let line_goes_on = feed (remainder ++ byte ∷ []) bytes in
      if byte == b'\n'
      then line_done
      else if ltb max_ipc_frame_bytes (length remainder + 1)
      then ([], threw too_long)
      else line_goes_on

  and_then_same :
      (r : List ℕ × Pushed M) (f g : List ℕ → List ℕ × Pushed M)
      → f r.0 ≡ g r.0
      → and_then r f ≡ and_then r g
  unfolding and_then
  and_then_same (kept, decoded messages) f g h = ap (in_order messages) h
  and_then_same (kept, threw error) f g h = refl

  -- A byte in front of the input is too much, or joins the remainder.
  push_lines_full :
      (remainder : List ℕ) (byte : ℕ) (segments : List (List ℕ)) (last : List ℕ)
      → max_ipc_frame_bytes < length remainder + 1
      → push_lines parse remainder
          (in_front byte (segments, last)).0
          (in_front byte (segments, last)).1
        ≡ ([], threw too_long)
  unfolding push_lines in_front
  push_lines_full remainder byte [] last h = rw (append_full remainder byte last h) refl
  push_lines_full remainder byte (segment ∷ segments) last h =
      rw (append_full remainder byte segment h) refl

  push_lines_byte :
      (remainder : List ℕ) (byte : ℕ) (segments : List (List ℕ)) (last : List ℕ)
      → length remainder + 1 ≤ max_ipc_frame_bytes
      → push_lines parse remainder
          (in_front byte (segments, last)).0
          (in_front byte (segments, last)).1
        ≡ push_lines parse (remainder ++ byte ∷ []) segments last
  unfolding push_lines in_front
  push_lines_byte remainder byte [] [] h =
      rw
        (
          append_byte remainder byte [],
          append-nil_short (remainder ++ byte ∷ [])
              (omega (arith, length-append remainder (byte ∷ []))),
        )
        refl
  push_lines_byte remainder byte [] (next ∷ last) h =
      rw (append_byte remainder byte (next ∷ last)) refl
  push_lines_byte remainder byte (segment ∷ segments) last h =
      rw (append_byte remainder byte segment) refl

  push_newline :
      (remainder : List ℕ) (byte : ℕ) (bytes : List ℕ)
      → (byte == b'\n') ≡ true
      → length remainder ≤ max_ipc_frame_bytes
      → push parse remainder (byte ∷ bytes)
        ≡ and_then ([], read_segment parse (some remainder)) (λ kept. push parse kept bytes)
  unfolding push
  push_newline remainder byte bytes e h = rw (e, append-nil_short remainder h) refl

  push_other :
      (remainder : List ℕ) (byte : ℕ) (bytes : List ℕ)
      → (byte == b'\n') ≡ false
      → push parse remainder (byte ∷ bytes)
        ≡ push_lines parse remainder
            (in_front byte (split_lines bytes)).0
            (in_front byte (split_lines bytes)).1
  unfolding push
  push_other remainder byte bytes e = rw e refl

  fold_push :
      (remainder bytes : List ℕ)
      → push_lines parse remainder (split_lines bytes).0 (split_lines bytes).1
        ≡ push parse remainder bytes
  unfolding push
  fold_push remainder bytes = refl

  pub push-feed :
      (remainder input : List ℕ)
      → length remainder ≤ max_ipc_frame_bytes
      → push parse remainder input ≡ feed remainder input
  unfolding feed
  push-feed remainder [] h = unfold push in refl
  push-feed remainder (byte ∷ bytes) h = elim (Bool-cases (byte == b'\n')) [
    | inl e ↦
        push_newline remainder byte bytes e h
        ∙ rw e (
            and_then_same ([], read_segment parse (some remainder)) (λ kept. push parse kept bytes)
              (λ kept. feed kept bytes) (push-feed [] bytes (omega arith)))
    | inr e ↦
        push_other remainder byte bytes e
        ∙ rw e (elim (Bool-cases (ltb max_ipc_frame_bytes (length remainder + 1))) [
          | inl f ↦
              push_lines_full remainder byte (split_lines bytes).0 (split_lines bytes).1
                (ltb→lt _ _ f)
              ∙ rw f refl
          | inr f ↦
              push_lines_byte remainder byte (split_lines bytes).0 (split_lines bytes).1
                (ltb→ge max_ipc_frame_bytes (length remainder + 1) f)
              ∙ rw f (
                  fold_push (remainder ++ byte ∷ []) bytes
                  ∙ push-feed (remainder ++ byte ∷ []) bytes (
                      omega (
                        arith,
                        ltb→ge max_ipc_frame_bytes (length remainder + 1) f,
                        length-append remainder (byte ∷ []),
                      )))
        ])
  ]

  in_order_none : (r : List ℕ × Pushed M) → in_order [] r ≡ r
  unfolding in_order
  in_order_none (kept, decoded more) = refl
  in_order_none (kept, threw error) = refl

  in_order_twice :
      (ms ns : List M) (r : List ℕ × Pushed M) → in_order (ms ++ ns) r ≡ in_order ms (in_order ns r)
  unfolding in_order
  in_order_twice ms ns (kept, decoded more) = ap (λ x. (kept, decoded x)) (append_assoc ms ns more)
  in_order_twice ms ns (kept, threw error) = refl

  and_then-in_order :
      (ms : List M) (r : List ℕ × Pushed M) (g : List ℕ → List ℕ × Pushed M)
      → and_then (in_order ms r) g ≡ in_order ms (and_then r g)
  unfolding in_order and_then
  and_then-in_order ms (kept, decoded more) g = in_order_twice ms more (g kept)
  and_then-in_order ms (kept, threw error) g = refl

  and_then_assoc :
      (r : List ℕ × Pushed M) (f g : List ℕ → List ℕ × Pushed M)
      → and_then (and_then r f) g ≡ and_then r (λ kept. and_then (f kept) g)
  unfolding and_then
  and_then_assoc (kept, decoded messages) f g = and_then-in_order messages (f kept) g
  and_then_assoc (kept, threw error) f g = refl

  and_then_threw :
      (g : List ℕ → List ℕ × Pushed M) → and_then ([], threw too_long) g ≡ ([], threw too_long)
  unfolding and_then
  and_then_threw g = refl

  feed-append :
      (remainder first second : List ℕ)
      → feed remainder (first ++ second)
        ≡ and_then (feed remainder first) (λ kept. feed kept second)
  unfolding feed and_then
  feed-append remainder [] second = sym (in_order_none (feed remainder second))
  feed-append remainder (byte ∷ bytes) second = elim (Bool-cases (byte == b'\n')) [
    | inl e ↦ rw e (
        and_then_same ([], read_segment parse (some remainder))
          (λ kept. feed kept (bytes ++ second))
          (λ kept. and_then (feed kept bytes) (λ k. feed k second)) (feed-append [] bytes second)
        ∙ sym (
            and_then_assoc ([], read_segment parse (some remainder)) (λ kept. feed kept bytes)
              (λ kept. feed kept second)))
    | inr e ↦ rw e (elim (Bool-cases (ltb max_ipc_frame_bytes (length remainder + 1))) [
      | inl f ↦ rw f (sym (and_then_threw (λ kept. feed kept second)))
      | inr f ↦ rw f (feed-append (remainder ++ byte ∷ []) bytes second)
    ])
  ]

  in_order_kept : (ms : List M) (r : List ℕ × Pushed M) → (in_order ms r).0 ≡ r.0
  unfolding in_order
  in_order_kept ms (kept, decoded more) = refl
  in_order_kept ms (kept, threw error) = refl

  -- A bound on the remainder that a call and those after it keep.
  and_then_short :
      (r : List ℕ × Pushed M) (f : List ℕ → List ℕ × Pushed M)
      → length r.0 ≤ max_ipc_frame_bytes
      → length (f r.0).0 ≤ max_ipc_frame_bytes
      → length (and_then r f).0 ≤ max_ipc_frame_bytes
  unfolding and_then
  and_then_short (kept, decoded messages) f h k = rw (in_order_kept messages (f kept)) k
  and_then_short (kept, threw error) f h k = h

  feed_short :
      (remainder bytes : List ℕ)
      → length remainder ≤ max_ipc_frame_bytes
      → length (feed remainder bytes).0 ≤ max_ipc_frame_bytes
  unfolding feed
  feed_short remainder [] h = h
  feed_short remainder (byte ∷ bytes) h = elim (Bool-cases (byte == b'\n')) [
    | inl e ↦ rw e (
        and_then_short ([], read_segment parse (some remainder)) (λ kept. feed kept bytes)
          (omega arith) (feed_short [] bytes (omega arith)))
    | inr e ↦ rw e (elim (Bool-cases (ltb max_ipc_frame_bytes (length remainder + 1))) [
      | inl f ↦ rw f (omega arith)
      | inr f ↦ rw f (
          feed_short (remainder ++ byte ∷ []) bytes (
            omega (
              arith,
              ltb→ge max_ipc_frame_bytes (length remainder + 1) f,
              length-append remainder (byte ∷ []),
            )))
    ])
  ]

  pub push_short :
      (remainder bytes : List ℕ)
      → length remainder ≤ max_ipc_frame_bytes
      → length (push parse remainder bytes).0 ≤ max_ipc_frame_bytes
  push_short remainder bytes h = rw (push-feed remainder bytes h) (feed_short remainder bytes h)

  pub push-append :
      (remainder first second : List ℕ)
      → length remainder ≤ max_ipc_frame_bytes
      → push parse remainder (first ++ second)
        ≡ and_then (push parse remainder first) (λ kept. push parse kept second)
  push-append remainder first second h =
      push-feed remainder (first ++ second) h
      ∙ feed-append remainder first second
      ∙ rw (push-feed remainder first h) (
          and_then_same (feed remainder first) (λ kept. feed kept second)
            (λ kept. push parse kept second)
            (sym (push-feed (feed remainder first).0 second (feed_short remainder first h))))
