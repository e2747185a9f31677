-- ===== src/SelfHealing/Sync.antt =====
-- The map of tracked operations and the calls of `execute`, side by side.
use desktop_remote.Common.{
  ℕ, ◌+◌, ◌≤◌, ◌<◌, ◌≡◌, refl, inl, inr, Bool, true, false, not, ◌||◌, some, List, [], ◌∷◌, ◌++◌,
  ◌==◌, if◌then◌else◌, arith, Bool-cases,
}
use desktop_remote.SelfHealing.{
  TrackedOperation, Call, set_operation, remove_operation, abort, find_call, set_call,
}

abbrev pub op_ids : List TrackedOperation → List ℕ
op_ids [] = []
op_ids (o ∷ os) = o.id ∷ op_ids os

-- A call whose operation is still in the map: it has not settled, or it was hung when it did.
abbrev pub is_open : Call → Bool
is_open c = c.hung || not c.settled

abbrev pub open_ids : List Call → List ℕ
open_ids [] = []
open_ids (c ∷ cs) = if is_open c then c.id ∷ open_ids cs else open_ids cs

-- The ids rise along the list, from above `low` up to `high`.
abbrev pub Rising : ℕ → List Call → ℕ → Type 0
Rising low [] high = low ≤ high
Rising low (c ∷ cs) high = (low < c.id) × Rising c.id cs high

abbrev pub drop_id : ℕ → List ℕ → List ℕ
drop_id id [] = []
drop_id id (i ∷ is) = if i == id then is else i ∷ drop_id id is

pub Rising-le : (low : ℕ) (cs : List Call) (high : ℕ) → Rising low cs high → low ≤ high
Rising-le low [] high r = r
Rising-le low (c ∷ cs) high (p, r) = omega (arith, Rising-le c.id cs high r)

pub Rising-append :
    (low : ℕ) (cs : List Call) (high : ℕ) (c : Call)
    → Rising low cs high
    → c.id ≡ high + 1
    → Rising low (cs ++ c ∷ []) (high + 1)
Rising-append low [] high c r e = (omega arith, omega arith)
Rising-append low (d ∷ cs) high c (p, r) e = (p, Rising-append d.id cs high c r e)

pub open_ids-append :
    (cs : List Call) (c : Call)
    → is_open c ≡ true
    → open_ids (cs ++ c ∷ []) ≡ open_ids cs ++ c.id ∷ []
open_ids-append [] c e = rw e refl
open_ids-append (d ∷ cs) c e = ground (arith, open_ids-append cs c e)

-- An id above the last is not among the tracked ones.
abbrev pub AllBelow : ℕ → List ℕ → Type 0
AllBelow n [] = Unit {0}
AllBelow n (i ∷ is) = (i < n) × AllBelow n is

pub open_ids-AllBelow :
    (low : ℕ) (cs : List Call) (high : ℕ) → Rising low cs high → AllBelow (high + 1) (open_ids cs)
open_ids-AllBelow low [] high r = tt
open_ids-AllBelow low (c ∷ cs) high (p, r) =
    ground (arith, open_ids-AllBelow c.id cs high r, Rising-le c.id cs high r)

pub op_ids-set_fresh :
    (op : TrackedOperation) (ops : List TrackedOperation)
    → AllBelow op.id (op_ids ops)
    → op_ids (set_operation op ops) ≡ op_ids ops ++ op.id ∷ []
unfolding set_operation
op_ids-set_fresh op [] h = refl
op_ids-set_fresh op (o ∷ os) (p, h) = ground (arith, op_ids-set_fresh op os h)

pub op_ids-abort : (id : ℕ) (ops : List TrackedOperation) → op_ids (abort id ops) ≡ op_ids ops
unfolding abort
op_ids-abort id [] = refl
op_ids-abort id (o ∷ os) = ground (arith, op_ids-abort id os)

pub op_ids-remove :
    (id : ℕ) (ops : List TrackedOperation)
    → op_ids (remove_operation id ops) ≡ drop_id id (op_ids ops)
unfolding remove_operation
op_ids-remove id [] = refl
op_ids-remove id (o ∷ os) = ground (arith, op_ids-remove id os)

pub Rising-set :
    (low : ℕ) (cs : List Call) (high : ℕ) (c : Call)
    → Rising low cs high
    → Rising low (set_call c cs) high
unfolding set_call
Rising-set low [] high c r = r
Rising-set low (d ∷ cs) high c (p, r) = elim (Bool-cases (d.id == c.id)) [
  | inl e ↦ rw e (let f : c.id ≡ d.id = ground arith in rw f (p, r))
  | inr e ↦ rw e (p, Rising-set d.id cs high c r)
]

-- Writing a call back that is open exactly if it was changes nothing in the ids.
pub open_ids-set_same :
    (cs : List Call) (c d : Call)
    → find_call c.id cs ≡ some c
    → d.id ≡ c.id
    → is_open d ≡ is_open c
    → open_ids (set_call d cs) ≡ open_ids cs
unfolding find_call set_call
open_ids-set_same [] c d f e o = refl
open_ids-set_same (b ∷ cs) c d f e o = ground (arith, open_ids-set_same cs c d)

-- Closing an open call takes its id out.
pub open_ids-set_closed :
    (cs : List Call) (c d : Call)
    → find_call c.id cs ≡ some c
    → d.id ≡ c.id
    → is_open c ≡ true
    → is_open d ≡ false
    → open_ids (set_call d cs) ≡ drop_id c.id (open_ids cs)
unfolding find_call set_call
open_ids-set_closed [] c d f e o p = refl
open_ids-set_closed (b ∷ cs) c d f e o p = ground (arith, open_ids-set_closed cs c d)
