-- ===== src/Ipc/Frames.antt =====
-- What one end encodes, the other decodes, however the connection cuts it.
use mathlib.Core.List.{append-nil, append_assoc}
use desktop_remote.Common.{
  joined, ℕ, suc, ◌+◌, ◌≤◌, ◌≡◌, refl, ap, subst, ◌∙◌, false, Option, none, some, List, [], ◌∷◌,
  ◌++◌, ltb, ltb→ge, ◌==◌, length, length-append, Bool-cases, inl, inr, arith, All, ◌>>=◌,
  >>=-eq-some,
}
use desktop_remote.Ipc.Framing.{
  decoded, max_ipc_frame_bytes, encode_frame, push_all, is_empty, in_order, and_then, read_segment,
  parse_current,
}
use desktop_remote.Ipc.Chunks.{feed, push-feed}
use desktop_remote.Ipc.Cut.{push_all-IsCut, IsCut-complete}

-- The frames of messages sent one after the other; `none` if one of them is refused.
unfoldable pub encode_all : {M : Type 0} → (M → List ℕ) → List M → Option (List ℕ)
unfolding encode_frame
encode_all stringify [] = some []
encode_all stringify (message ∷ messages) = encode_frame stringify message >>= λ frame.
    encode_all stringify messages >>= λ frames. some (frame ++ frames)

encoded :
    {M : Type 0} (stringify : M → List ℕ) (message : M) (frame : List ℕ)
    → encode_frame stringify message ≡ some frame
    → (frame ≡ stringify message ++ b'\n' ∷ [])
      × (length (stringify message) + 1 ≤ max_ipc_frame_bytes)
unfolding encode_frame
encoded stringify message frame e =
    elim (Bool-cases (ltb max_ipc_frame_bytes (length (stringify message ++ b'\n' ∷ [])))) [
      | inl f ↦ absurd (cc (simp f at e))
      | inr f ↦ (
        cc (simp f at e),
        omega
            (arith, ltb→ge max_ipc_frame_bytes _ f, length-append (stringify message) (b'\n' ∷ [])),
      )
    ]

module _ {M : Type 0} (parse : List ℕ → Option M) where
  read_line :
      (line : List ℕ) (message : M)
      → is_empty line ≡ false
      → parse line ≡ some message
      → read_segment parse (some line) ≡ decoded (message ∷ [])
  unfolding read_segment parse_current
  read_line [] message n e = absurd (cc n)
  read_line (byte ∷ line) message n e = rw (e, read_segment, parse_current) refl

  -- A line without newlines, within the limit.
  feed_line :
      (line remainder rest : List ℕ)
      → All (λ byte. (byte == b'\n') ≡ false) line
      → length remainder + length line ≤ max_ipc_frame_bytes
      → feed parse remainder (line ++ b'\n' ∷ rest)
        ≡ and_then
            ([], read_segment parse (some (remainder ++ line)))
            (λ kept. feed parse kept rest)
  unfolding feed
  feed_line [] remainder rest a h = rw (append-nil remainder) refl
  feed_line (byte ∷ line) remainder rest (e, a) h =
      rw (e, short (length remainder) (length line) h)
        (feed_line line (remainder ++ byte ∷ []) rest a
            (omega (arith, length-append remainder (byte ∷ [])))
          ∙ rw (append_assoc remainder (byte ∷ []) line) refl)
    where
      short : (m n : ℕ) → m + suc n ≤ max_ipc_frame_bytes → ltb max_ipc_frame_bytes (m + 1) ≡ false
      short m n k = ground arith

  module _ (stringify : M → List ℕ)
      (reads_back : (message : M) → parse (stringify message) ≡ some message)
      (is_one_line : (message : M) → All (λ byte. (byte == b'\n') ≡ false) (stringify message))
      (has_bytes : (message : M) → is_empty (stringify message) ≡ false) where
    read_segment-stringify :
        (message : M) → read_segment parse (some (stringify message)) ≡ decoded (message ∷ [])
    read_segment-stringify message =
        read_line (stringify message) message (has_bytes message) (reads_back message)

    feed_frame :
        (message : M) (frame rest : List ℕ)
        → encode_frame stringify message ≡ some frame
        → feed parse [] (frame ++ rest) ≡ in_order (message ∷ []) (feed parse [] rest)
    unfolding and_then in_order
    feed_frame message frame rest e =
        let (same, short) = encoded stringify message frame e in
        rw (same, append_assoc (stringify message) (b'\n' ∷ []) rest)
          (feed_line (stringify message) [] rest (is_one_line message) (omega arith)
            ∙ rw (read_segment-stringify message) refl)

    feed_frames :
        (messages : List M) (stream : List ℕ)
        → encode_all stringify messages ≡ some stream
        → feed parse [] stream ≡ ([], decoded messages)
    unfolding encode_all feed in_order
    feed_frames [] stream e =
        let nothing : [] ≡ stream = cc e in
        subst (λ x. feed parse [] x ≡ ([], decoded [])) nothing refl
    feed_frames (message ∷ messages) stream e =
        let (frame, e', more) = >>=-eq-some (encode_frame stringify message) _ e in
        let (frames, e'', same) = >>=-eq-some (encode_all stringify messages) _ more in
        let whole : frame ++ frames ≡ stream = cc same in
        subst (λ x. feed parse [] x ≡ ([], decoded (message ∷ messages))) whole
          (feed_frame message frame frames e'
            ∙ ap (in_order (message ∷ [])) (feed_frames messages frames e''))

    -- If `parse` reads back what `stringify` writes, and that is never empty and holds no newline, then
    -- where no frame is refused, and however the connection cuts the frames of messages into chunks, the
    -- decoder hands on these messages in their order, without an error, and nothing is left in it.
    pub push_all-encode_all :
        (messages : List M) (chunks : List (List ℕ))
        → encode_all stringify messages ≡ some (joined chunks)
        → push_all parse [] chunks ≡ record { messages = messages; failure = none; kept = [] }
    push_all-encode_all messages chunks e =
        IsCut-complete parse [] [] chunks messages (push_all parse [] chunks)
          (push_all-IsCut parse chunks [] (omega arith))
          (push-feed parse [] (joined chunks) (omega arith)
            ∙ feed_frames messages (joined chunks) e)
