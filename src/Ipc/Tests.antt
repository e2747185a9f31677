-- ===== src/Ipc/Tests.antt =====
-- A small format: a Boolean is one digit.
use desktop_remote.Common.{
  joined, ℕ, ◌≡◌, refl, Bool, true, false, Option, none, some, List, [], ◌∷◌, ◌==◌, if◌then◌else◌,
  All,
}
use desktop_remote.Ipc.Framing.{threw, invalid_json, push, push_all, is_empty}
use desktop_remote.Ipc.Frames.{encode_all, push_all-encode_all}

abbrev stringify : Bool → List ℕ
stringify true = b'1' ∷ []
stringify false = b'0' ∷ []

abbrev parse : List ℕ → Option Bool
parse [] = none
parse (byte ∷ bytes) = if byte == b'1' then some true else if byte == b'0' then some false else none

abbrev cut : List (List ℕ)
cut = (b'1' ∷ []) ∷ (b'\n' ∷ b'\n' ∷ b'0' ∷ []) ∷ (b'\n' ∷ b'1' ∷ []) ∷ []

cut_decoded :
    push_all parse [] cut
    ≡ record { messages = true ∷ false ∷ []; failure = none; kept = b'1' ∷ [] }
unfolding push_all
cut_decoded = refl

-- A good frame and a bad one, in two chunks and in one.
good_then_bad :
    push_all parse [] ((b'1' ∷ b'\n' ∷ []) ∷ (b'2' ∷ b'\n' ∷ []) ∷ [])
    ≡ record { messages = true ∷ []; failure = some invalid_json; kept = [] }
unfolding push_all
good_then_bad = refl

good_and_bad :
    push_all parse [] ((b'1' ∷ b'\n' ∷ b'2' ∷ b'\n' ∷ []) ∷ [])
    ≡ record { messages = []; failure = some invalid_json; kept = [] }
unfolding push_all
good_and_bad = refl

invalid_line : push parse [] (b'2' ∷ b'\n' ∷ b'1' ∷ []) ≡ ([], threw invalid_json)
unfolding push
invalid_line = refl

reads_back : (message : Bool) → parse (stringify message) ≡ some message
reads_back true = refl
reads_back false = refl

is_one_line : (message : Bool) → All (λ byte. (byte == b'\n') ≡ false) (stringify message)
is_one_line true = (refl, tt)
is_one_line false = (refl, tt)

has_bytes : (message : Bool) → is_empty (stringify message) ≡ false
has_bytes true = refl
has_bytes false = refl

abbrev frames : List (List ℕ)
frames = (b'1' ∷ []) ∷ (b'\n' ∷ b'0' ∷ []) ∷ (b'\n' ∷ []) ∷ []

frames_encoded : encode_all stringify (true ∷ false ∷ []) ≡ some (joined frames)
unfolding encode_all
frames_encoded = refl

push_all-encode_all_example :
    push_all parse [] frames ≡ record { messages = true ∷ false ∷ []; failure = none; kept = [] }
push_all-encode_all_example =
    push_all-encode_all parse stringify reads_back is_one_line has_bytes (true ∷ false ∷ []) frames
      frames_encoded
