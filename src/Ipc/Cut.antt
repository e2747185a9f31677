-- ===== src/Ipc/Cut.antt =====
-- What the decoder gives, however the connection cuts the stream into chunks.
use desktop_remote.Common.{
  joined, ℕ, ◌≤◌, ◌≡◌, refl, ◌∙◌, none, some, Option, List, [], ◌∷◌, ◌++◌, length,
}
use desktop_remote.Ipc.Framing.{
  FrameError, Pushed, decoded, threw, max_ipc_frame_bytes, push, push_all, Delivery, handed_on,
  in_order, and_then,
}
use desktop_remote.Ipc.Chunks.{push_short, push-append}

module _ {M : Type 0} (parse : List ℕ → Option M) where
  -- What a stream in chunks gives, against what the decoder returns for the stream in one piece: the
  -- same messages, or, where some chunk has a bad frame, the same error and the messages of the chunks
  -- before that one.
  pub data IsCut (remainder : List ℕ) : List (List ℕ) → Delivery M → Type 0 where
    complete :
        (chunks : List (List ℕ)) (kept : List ℕ) (messages : List M)
        → push parse remainder (joined chunks) ≡ (kept, decoded messages)
        → IsCut remainder chunks (record { messages = messages; failure = none; kept = kept })
    broken :
        (earlier : List (List ℕ)) (bad : List ℕ) (later : List (List ℕ)) (middle kept : List ℕ)
        (messages : List M) (error : FrameError)
        → push parse remainder (joined (earlier ++ bad ∷ later)) ≡ (kept, threw error)
        → push parse remainder (joined earlier) ≡ (middle, decoded messages)
        → push parse middle bad ≡ (kept, threw error)
        → IsCut remainder
            (earlier ++ bad ∷ later)
            (record { messages = messages; failure = some error; kept = kept })

  push_later :
      (remainder chunk rest middle kept : List ℕ) (messages : List M) (result : Pushed M)
      → length remainder ≤ max_ipc_frame_bytes
      → push parse remainder chunk ≡ (middle, decoded messages)
      → push parse middle rest ≡ (kept, result)
      → push parse remainder (chunk ++ rest) ≡ in_order messages (kept, result)
  unfolding and_then
  push_later remainder chunk rest middle kept messages result h e f =
      push-append parse remainder chunk rest h ∙ rw (e, f) refl

  later-IsCut :
      (remainder chunk middle : List ℕ) (messages : List M) (chunks : List (List ℕ))
      (d : Delivery M)
      → length remainder ≤ max_ipc_frame_bytes
      → push parse remainder chunk ≡ (middle, decoded messages)
      → IsCut middle chunks d
      → IsCut remainder (chunk ∷ chunks) (handed_on (middle, decoded messages) (λ kept. d))
  unfolding handed_on in_order
  later-IsCut remainder chunk middle messages _ _ h e (complete chunks kept more same) =
      complete (chunk ∷ chunks) kept (messages ++ more)
        (push_later remainder chunk (joined chunks) middle kept messages (decoded more) h e same)
  later-IsCut remainder chunk middle messages _ _ h e
        (broken earlier bad later last kept more error same before at_bad) =
      broken (chunk ∷ earlier) bad later last kept (messages ++ more) error
        (push_later remainder chunk (joined (earlier ++ bad ∷ later)) middle kept messages
          (threw error) h e same)
        (push_later remainder chunk (joined earlier) middle last messages (decoded more) h e before)
        at_bad

  handed_on-IsCut :
      (r : List ℕ × Pushed M) (remainder chunk : List ℕ) (chunks : List (List ℕ))
      (next : List ℕ → Delivery M)
      → length remainder ≤ max_ipc_frame_bytes
      → push parse remainder chunk ≡ r
      → IsCut r.0 chunks (next r.0)
      → IsCut remainder (chunk ∷ chunks) (handed_on r next)
  unfolding handed_on and_then
  handed_on-IsCut (kept, decoded messages) remainder chunk chunks next h e cut =
      later-IsCut remainder chunk kept messages chunks (next kept) h e cut
  handed_on-IsCut (kept, threw error) remainder chunk chunks next h e cut =
      broken [] chunk chunks remainder kept [] error
        (push-append parse remainder chunk (joined chunks) h ∙ rw e refl) (unfold push in refl) e

  pub push_all-IsCut :
      (chunks : List (List ℕ)) (remainder : List ℕ)
      → length remainder ≤ max_ipc_frame_bytes
      → IsCut remainder chunks (push_all parse remainder chunks)
  unfolding push_all
  push_all-IsCut [] remainder h = complete [] remainder [] (unfold push in refl)
  push_all-IsCut (chunk ∷ chunks) remainder h =
      handed_on-IsCut (push parse remainder chunk) remainder chunk chunks
        (λ kept. push_all parse kept chunks) h refl
        (push_all-IsCut chunks (push parse remainder chunk).0 (push_short parse remainder chunk h))

  pub IsCut-complete :
      (remainder kept : List ℕ) (chunks : List (List ℕ)) (messages : List M) (d : Delivery M)
      → IsCut remainder chunks d
      → push parse remainder (joined chunks) ≡ (kept, decoded messages)
      → d ≡ record { messages = messages; failure = none; kept = kept }
  IsCut-complete remainder kept chunks messages _ (complete _ _ _ same) e = cc
  IsCut-complete remainder kept chunks messages _ (broken _ _ _ _ _ _ _ same before at_bad) e =
      absurd (cc)
