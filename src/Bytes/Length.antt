-- ===== src/Bytes/Length.antt =====
-- How the number of bytes changes when strings are cut and joined.
use desktop_remote.Common.{
  ℕ, zero, suc, ◌+◌, ◌≤◌, ◌≡◌, Bool, true, false, [], ◌∷◌, ◌++◌, inl, inr, Bool-cases, take, drop,
  arith,
}
use desktop_remote.Events.{Text}
use desktop_remote.Bytes.{unit_bytes, bytes_after, byte_length, is_high}

unit_bytes-high : (paired : Bool) (u : ℕ) → is_high u ≡ true → unit_bytes paired u ≡ 3
unfolding unit_bytes
unit_bytes-high false u h = ground arith
unit_bytes-high true u h = ground arith

unit_bytes_paired : (u : ℕ) → unit_bytes true u ≤ unit_bytes false u
unfolding unit_bytes
unit_bytes_paired u = ground arith

unit_bytes_unpaired : (u : ℕ) → unit_bytes false u ≤ unit_bytes true u + 2
unfolding unit_bytes
unit_bytes_unpaired u = ground arith

-- A high surrogate before a string saves at most two bytes.
bytes_after_paired : (us : Text) → bytes_after true us ≤ bytes_after false us
unfolding bytes_after
bytes_after_paired [] = omega arith
bytes_after_paired (u ∷ us) = omega (arith, unit_bytes_paired u)

bytes_after_unpaired : (us : Text) → bytes_after false us ≤ bytes_after true us + 2
unfolding bytes_after
bytes_after_unpaired [] = omega arith
bytes_after_unpaired (u ∷ us) = omega (arith, unit_bytes_unpaired u)

bytes_after_any : (paired : Bool) (us : Text) → bytes_after paired us ≤ bytes_after false us
bytes_after_any true us = bytes_after_paired us
bytes_after_any false us = omega arith

bytes_after-++ :
    (paired : Bool) (us vs : Text)
    → bytes_after paired (us ++ vs) ≤ bytes_after paired us + bytes_after false vs
unfolding bytes_after
bytes_after-++ paired [] vs = omega (arith, bytes_after_any paired vs)
bytes_after-++ paired (u ∷ us) vs = omega (arith, bytes_after-++ (is_high u) us vs)

-- Joining strings never adds bytes.
pub byte_length-++ : (us vs : Text) → byte_length (us ++ vs) ≤ byte_length us + byte_length vs
unfolding byte_length
byte_length-++ us vs = bytes_after-++ false us vs

bytes_after-take :
    (paired : Bool) (j k : ℕ) (us : Text)
    → j ≤ k
    → bytes_after paired (take j us) ≤ bytes_after paired (take k us)
unfolding bytes_after
bytes_after-take paired zero k us h = omega arith
bytes_after-take paired (suc j) zero us h = omega arith
bytes_after-take paired (suc j) (suc k) [] h = omega arith
bytes_after-take paired (suc j) (suc k) (u ∷ us) h =
    omega (arith, bytes_after-take (is_high u) j k us (omega arith))

pub byte_length-take :
    (j k : ℕ) (us : Text) → j ≤ k → byte_length (take j us) ≤ byte_length (take k us)
unfolding byte_length
byte_length-take j k us h = bytes_after-take false j k us h

-- Without its first unit a string has no more bytes.
bytes_after_rest :
    (paired : Bool) (u : ℕ) (us : Text) → bytes_after false us ≤ bytes_after paired (u ∷ us)
unfolding bytes_after
bytes_after_rest paired u us = elim (Bool-cases (is_high u)) [
  | inl h ↦ rw h (omega (arith, unit_bytes-high paired u h, bytes_after_unpaired us))
  | inr h ↦ rw h (omega arith)
]

bytes_after_suffix :
    (paired : Bool) (us vs : Text) → bytes_after paired vs ≤ bytes_after paired (us ++ vs)
bytes_after_suffix paired [] vs = omega arith
bytes_after_suffix paired (u ∷ us) vs = omega (
  arith,
  bytes_after_any paired vs,
  bytes_after_suffix false us vs,
  bytes_after_rest paired u (us ++ vs),
)

-- A string has at least the bytes of its end.
pub byte_length_suffix : (us vs : Text) → byte_length vs ≤ byte_length (us ++ vs)
unfolding byte_length
byte_length_suffix us vs = bytes_after_suffix false us vs

bytes_after-take-++ :
    (paired : Bool) (j k : ℕ) (us vs : Text)
    → j ≤ k
    → bytes_after paired (take j us ++ vs) ≤ bytes_after paired (take k us ++ vs)
unfolding bytes_after
bytes_after-take-++ paired zero k us vs h = bytes_after_suffix paired (take k us) vs
bytes_after-take-++ paired (suc j) zero us vs h = absurd (omega arith)
bytes_after-take-++ paired (suc j) (suc k) [] vs h = omega arith
bytes_after-take-++ paired (suc j) (suc k) (u ∷ us) vs h =
    omega (arith, bytes_after-take-++ (is_high u) j k us vs (omega arith))

-- Before a fixed end, a longer prefix has no fewer bytes.
pub byte_length-take-++ :
    (j k : ℕ) (us vs : Text) → j ≤ k → byte_length (take j us ++ vs) ≤ byte_length (take k us ++ vs)
unfolding byte_length
byte_length-take-++ j k us vs h = bytes_after-take-++ false j k us vs h

bytes_after-drop :
    (j k : ℕ) (us : Text) → j ≤ k → bytes_after false (drop k us) ≤ bytes_after false (drop j us)
bytes_after-drop zero zero us h = omega arith
bytes_after-drop zero (suc k) [] h = omega arith
bytes_after-drop zero (suc k) (u ∷ us) h =
    omega (arith, bytes_after-drop zero k us (omega arith), bytes_after_rest false u us)
bytes_after-drop (suc j) zero us h = absurd (omega arith)
bytes_after-drop (suc j) (suc k) [] h = omega arith
bytes_after-drop (suc j) (suc k) (u ∷ us) h = bytes_after-drop j k us (omega arith)

pub byte_length-drop :
    (j k : ℕ) (us : Text) → j ≤ k → byte_length (drop k us) ≤ byte_length (drop j us)
unfolding byte_length
byte_length-drop j k us h = bytes_after-drop j k us h
