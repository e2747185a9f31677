-- ===== src/SelfHealing/Valid.antt =====
-- The invariant of the self-healing executor, and its parts.
use desktop_remote.Common.{
  ℕ, ◌≤◌, ◌≡◌, refl, subst, inl, inr, Bool, true, false, not, Option, none, some, List, [], ◌∷◌,
  ◌==◌, if◌then◌else◌, is_some, arith, Bool-cases, All,
}
use desktop_remote.SelfHealing.Sync.{op_ids, is_open, open_ids, Rising}
use desktop_remote.SelfHealing.{
  TrackedOperation, Call, Executor, Outcome, timed_out, settled_by_executor, set_operation,
  get_operation, remove_operation, abort, find_call, set_call, is_empty,
}

-- How the race of a call must have ended.
abbrev pub expected : Bool → Bool → Option Outcome
expected true settled = some timed_out
expected false true = some settled_by_executor
expected false false = none

abbrev pub IsFair : Call → Type 0
IsFair c = c.outcome ≡ expected c.hung c.settled

abbrev pub HasNoChild : TrackedOperation → Type 0
HasNoChild o = o.child_pid ≡ none

abbrev pub is_nil : List ℕ → Bool
is_nil [] = true
is_nil (i ∷ is) = false

pub record IsInSync (e : Executor) : Type 0 where
  pub rising : Rising 0 e.calls e.op_counter
  pub synced : op_ids e.operations ≡ open_ids e.calls
  pub watched : e.watchdog ≡ not (is_nil (op_ids e.operations))
  pub fair : All IsFair e.calls
  pub childless : All HasNoChild e.operations
  pub harmless : e.kills ≡ []

pub is_empty-is_nil : (ops : List TrackedOperation) → is_empty ops ≡ is_nil (op_ids ops)
is_empty-is_nil [] = refl
is_empty-is_nil (o ∷ os) = refl

pub All-set_call {κ} :
    (P : Call → Type κ) (c : Call) (cs : List Call) → P c → All P cs → All P (set_call c cs)
unfolding set_call
All-set_call P c [] p h = tt
All-set_call P c (d ∷ cs) p (q, h) = elim (Bool-cases (d.id == c.id)) [
  | inl e ↦ rw e (p, h)
  | inr e ↦ rw e (q, All-set_call P c cs p h)
]

pub All-find_call {κ} :
    (P : Call → Type κ) (id : ℕ) (cs : List Call) (c : Call)
    → find_call id cs ≡ some c
    → All P cs
    → P c
unfolding find_call
All-find_call P id [] c f h = cc
All-find_call P id (d ∷ cs) c f (q, h) = elim (Bool-cases (d.id == id)) [
  | inl e ↦ let g : d ≡ c = ground arith in subst P g q
  | inr e ↦ All-find_call P id cs c (rw e at f) h
]

pub All-abort {κ} :
    (P : TrackedOperation → Type κ) (id : ℕ) (ops : List TrackedOperation)
    → ((o : TrackedOperation) → P o → P (record o { aborted = true }))
    → All P ops
    → All P (abort id ops)
unfolding abort
All-abort P id [] k h = tt
All-abort P id (o ∷ os) k (q, h) = elim (Bool-cases (o.id == id)) [
  | inl e ↦ rw e (k o q, h)
  | inr e ↦ rw e (q, All-abort P id os k h)
]

pub All-remove {κ} :
    (P : TrackedOperation → Type κ) (id : ℕ) (ops : List TrackedOperation)
    → All P ops
    → All P (remove_operation id ops)
unfolding remove_operation
All-remove P id [] h = tt
All-remove P id (o ∷ os) (q, h) = elim (Bool-cases (o.id == id)) [
  | inl e ↦ rw e h
  | inr e ↦ rw e (q, All-remove P id os h)
]

pub All-set_operation {κ} :
    (P : TrackedOperation → Type κ) (op : TrackedOperation) (ops : List TrackedOperation)
    → P op
    → All P ops
    → All P (set_operation op ops)
unfolding set_operation
All-set_operation P op [] p h = (p, tt)
All-set_operation P op (o ∷ os) p (q, h) = elim (Bool-cases (o.id == op.id)) [
  | inl e ↦ rw e (p, h)
  | inr e ↦ rw e (q, All-set_operation P op os p h)
]

pub All-get_operation {κ} :
    (P : TrackedOperation → Type κ) (id : ℕ) (ops : List TrackedOperation) (o : TrackedOperation)
    → get_operation id ops ≡ some o
    → All P ops
    → P o
unfolding get_operation
All-get_operation P id [] o f h = cc
All-get_operation P id (d ∷ os) o f (q, h) = elim (Bool-cases (d.id == id)) [
  | inl e ↦ let g : d ≡ o = ground arith in subst P g q
  | inr e ↦ All-get_operation P id os o (rw e at f) h
]

abbrev pub contains : ℕ → List ℕ → Bool
contains id [] = false
contains id (i ∷ is) = if i == id then true else contains id is

pub contains-op_ids :
    (id : ℕ) (ops : List TrackedOperation)
    → contains id (op_ids ops) ≡ is_some (get_operation id ops)
unfolding get_operation
contains-op_ids id [] = refl
contains-op_ids id (o ∷ os) = ground (arith, contains-op_ids id os)

contains-above :
    (id low : ℕ) (cs : List Call) (high : ℕ)
    → Rising low cs high
    → id ≤ low
    → contains id (open_ids cs) ≡ false
contains-above id low [] high r h = refl
contains-above id low (c ∷ cs) high (q, r) h = ground (arith, contains-above id c.id cs high r)

-- An id is tracked exactly if its call is open.
pub contains-open_ids :
    (id low : ℕ) (cs : List Call) (high : ℕ) (c : Call)
    → Rising low cs high
    → find_call id cs ≡ some c
    → contains id (open_ids cs) ≡ is_open c
unfolding find_call
contains-open_ids id low [] high c r f = cc
contains-open_ids id low (d ∷ cs) high c (q, r) f = elim (Bool-cases (d.id == id)) [
  | inl e ↦
      let g : d ≡ c = ground arith in
      subst (λ x. contains id (open_ids (d ∷ cs)) ≡ is_open x) g
        (ground (arith, contains-above id d.id cs high r))
  | inr e ↦ ground (arith, contains-open_ids id d.id cs high c r (rw e at f))
]
