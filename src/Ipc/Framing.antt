-- ===== src/Ipc/Framing.antt =====
-- src/ipc/framing.ts, and `encodeFrame` of src/ipc/protocol.ts. A buffer is the list of its bytes;
-- `parse` is `JSON.parse` of the bytes read as UTF-8, `none` where it throws, and `stringify` gives the
-- bytes of `JSON.stringify`.
use desktop_remote.Common.{
  ℕ, ◌+◌, ◌*◌, Bool, true, false, Option, none, some, List, [], ◌∷◌, ◌++◌, ltb, ◌==◌, if◌then◌else◌,
  length,
}

abbrev pub max_ipc_frame_bytes : ℕ
max_ipc_frame_bytes = 512 * 1024

pub data FrameError : Type 0 where
  too_long invalid_json : FrameError

-- What `push` and `end` return or throw.
pub data Pushed (M : Type 0) : Type 0 where
  decoded : List M → Pushed M
  threw : FrameError → Pushed M

-- A byte in front of the first segment, or of what follows the last newline.
unfoldable pub in_front : ℕ → List (List ℕ) × List ℕ → List (List ℕ) × List ℕ
in_front byte ([], last) = ([], byte ∷ last)
in_front byte (segment ∷ segments, last) = ((byte ∷ segment) ∷ segments, last)

-- The segments that `input.indexOf(0x0a, cursor)` finds one by one, and what follows the last newline.
unfoldable pub split_lines : List ℕ → List (List ℕ) × List ℕ
unfolding in_front
split_lines [] = ([], [])
split_lines (byte ∷ bytes) =
    let (segments, last) = split_lines bytes in
    if byte == b'\n' then ([] ∷ segments, last) else in_front byte (segments, last)

-- `append`: the new remainder, or `none` where the frame gets too long.
unfoldable pub append : List ℕ → List ℕ → Option (List ℕ)
append remainder segment =
    if ltb max_ipc_frame_bytes (length remainder + length segment)
    then none
    else some (remainder ++ segment)

abbrev pub is_empty : List ℕ → Bool
is_empty [] = true
is_empty (byte ∷ bytes) = false

-- Messages in front of those that a later call returns.
unfoldable pub in_order : {M : Type 0} → List M → List ℕ × Pushed M → List ℕ × Pushed M
in_order messages (kept, decoded more) = (kept, decoded (messages ++ more))
in_order messages (kept, threw error) = (kept, threw error)

-- One call after another, unless the first throws.
unfoldable pub and_then :
    {M : Type 0} → List ℕ × Pushed M → (List ℕ → List ℕ × Pushed M) → List ℕ × Pushed M
unfolding in_order
and_then (kept, decoded messages) next = in_order messages (next kept)
and_then (kept, threw error) next = (kept, threw error)

-- What a connection's data events have given: the messages that have been handed on, the error that has
-- ended the connection if one has, and the remainder.
pub record Delivery (M : Type 0) : Type 0 where
  pub messages : List M
  pub failure : Option FrameError
  pub kept : List ℕ

-- The messages of one data event are handed on before the next event comes; an error destroys the
-- socket, so none comes after it.
unfoldable pub handed_on : {M : Type 0} → List ℕ × Pushed M → (List ℕ → Delivery M) → Delivery M
handed_on (kept, decoded messages) next = record {
  messages = messages ++ (next kept).messages;
  failure = (next kept).failure;
  kept = (next kept).kept;
}
handed_on (kept, threw error) next = record { messages = []; failure = some error; kept = kept }

-- What is left of the input after the last newline stays in the remainder.
unfoldable pub keep_rest : {M : Type 0} → Option (List ℕ) → List ℕ × Pushed M
keep_rest none = ([], threw too_long)
keep_rest (some kept) = (kept, decoded [])

module _ {M : Type 0} (parse : List ℕ → Option M) where
  -- `parseCurrent`.
  unfoldable pub parse_current : List ℕ → Pushed M
  parse_current line = elim (parse line) [
    | none ↦ threw invalid_json
    | some message ↦ decoded (message ∷ [])
  ]

  -- What a finished segment gives, after it has been appended; an empty line gives nothing.
  unfoldable pub read_segment : Option (List ℕ) → Pushed M
  unfolding parse_current
  read_segment none = threw too_long
  read_segment (some []) = decoded []
  read_segment (some (byte ∷ line)) = parse_current (byte ∷ line)

  -- The loop of `push`: the remainder that it leaves, and what it returns or throws.
  unfoldable pub push_lines : List ℕ → List (List ℕ) → List ℕ → List ℕ × Pushed M
  unfolding append and_then keep_rest read_segment
  push_lines remainder [] [] = (remainder, decoded [])
  push_lines remainder [] (byte ∷ last) = keep_rest (append remainder (byte ∷ last))
  push_lines remainder (segment ∷ segments) last =
      and_then ([], read_segment (append remainder segment)) (λ kept. push_lines kept segments last)

  unfoldable pub push : List ℕ → List ℕ → List ℕ × Pushed M
  unfolding push_lines split_lines
  push remainder input = push_lines remainder (split_lines input).0 (split_lines input).1

  -- `end`.
  unfoldable pub finish_stream : List ℕ → List ℕ × Pushed M
  unfolding parse_current
  finish_stream [] = ([], decoded [])
  finish_stream (byte ∷ bytes) = ([], parse_current (byte ∷ bytes))

  -- A connection's data events one after the other, as bindSocket of src/client/ipc-client.ts handles
  -- them, without what becomes of the messages that are handed on.
  unfoldable pub push_all : List ℕ → List (List ℕ) → Delivery M
  unfolding push handed_on
  push_all remainder [] = record { messages = []; failure = none; kept = remainder }
  push_all remainder (chunk ∷ chunks) =
      handed_on (push remainder chunk) (λ kept. push_all kept chunks)

unfoldable pub encode_frame : {M : Type 0} → (M → List ℕ) → M → Option (List ℕ)
encode_frame stringify message =
    if ltb max_ipc_frame_bytes (length (stringify message ++ b'\n' ∷ []))
    then none
    else some (stringify message ++ b'\n' ∷ [])
