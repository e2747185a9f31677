-- ===== src/SelfHealing/Hung.antt =====
-- What becomes of a hung operation.
use mathlib.Core.Bool.{false≢true}
use desktop_remote.Common.{
  ℕ, suc, ◌+◌, ◌≤◌, ◌≡◌, refl, sym, ap, ◌∙◌, subst, inl, inr, Bool, true, false, not, ◌&&◌, Option,
  some, List, [], ◌∷◌, ◌++◌, leb, ◌==◌, if◌then◌else◌, is_some, arith, Bool-cases, Option-cases,
}
use desktop_remote.SelfHealing.Sync.{op_ids, open_ids}
use desktop_remote.SelfHealing.{
  TrackedOperation, Call, Executor, WatchdogEvent, hung_event, completed_event, get_operation,
  abort, find_call, set_call, create, execute, abort_operation, on_settled, on_timeout, check_each,
  check_deadlines,
}
use desktop_remote.SelfHealing.Valid.{is_nil, contains}
use desktop_remote.SelfHealing.Steps.{
  Step, executes, settles, times_out, ticks, Reach, here, next, Reach-IsInSync,
}

-- The flag `hung` of the call with that id.
abbrev pub is_hung : ℕ → List Call → Bool
is_hung id [] = false
is_hung id (c ∷ cs) = if c.id == id then c.hung else is_hung id cs

is_hung-append : (id : ℕ) (cs ds : List Call) → is_hung id cs ≡ true → is_hung id (cs ++ ds) ≡ true
is_hung-append id [] ds h = cc
is_hung-append id (d ∷ cs) ds h = ground (arith, is_hung-append id cs ds)

-- Writing a call back that stays hung if it was.
is_hung-set :
    (id : ℕ) (cs : List Call) (c d : Call)
    → find_call d.id cs ≡ some c
    → (c.hung && not d.hung) ≡ false
    → is_hung id cs ≡ true
    → is_hung id (set_call d cs) ≡ true
unfolding find_call set_call
is_hung-set id [] c d f k h = cc
is_hung-set id (b ∷ cs) c d f k h = elim (Bool-cases (b.id == d.id)) [
  | inl e ↦ let g : b ≡ c = ground arith in rw e (ground (arith, ap (λ (x : Call). x.hung) g))
  | inr e ↦ rw e (ground (arith, is_hung-set id cs c d (rw e at f) k))
]

tracked_of_hung :
    (id : ℕ) (cs : List Call) → is_hung id cs ≡ true → contains id (open_ids cs) ≡ true
tracked_of_hung id [] h = cc
tracked_of_hung id (c ∷ cs) h = ground (arith, tracked_of_hung id cs)

abort_calls : (id now : ℕ) (e : Executor) → (abort_operation id now e).calls ≡ e.calls
unfolding abort_operation
abort_calls id now e = ground arith

-- One round of `checkDeadlines`.
abbrev check_one : ℕ → TrackedOperation → Executor → Executor
check_one now op e =
    if op.aborted then e else if leb op.deadline now then abort_operation op.id now e else e

check_one_calls :
    (now : ℕ) (op : TrackedOperation) (e : Executor) → (check_one now op e).calls ≡ e.calls
check_one_calls now op e = ground (arith, abort_calls op.id now e)

check_calls :
    (now : ℕ) (ops : List TrackedOperation) (e : Executor) → (check_each now ops e).calls ≡ e.calls
unfolding check_each
check_calls now [] e = refl
check_calls now (op ∷ ops) e = check_calls now ops (check_one now op e) ∙ check_one_calls now op e

Step-hung :
    (id : ℕ) {e f : Executor} → Step e f → is_hung id e.calls ≡ true → is_hung id f.calls ≡ true
unfolding execute on_settled on_timeout check_deadlines
Step-hung id {e} (executes name now) h = is_hung-append id e.calls _ h
Step-hung id {e} (settles c now f u) h = elim (Bool-cases c.hung) [
  | inl b ↦ simp b (is_hung-set id e.calls c _ f (ground arith) h)
  | inr b ↦ simp b (is_hung-set id e.calls c _ f (ground arith) h)
]
Step-hung id {e} (times_out c now f) h =
    elim (Bool-cases (is_some (get_operation c.id e.operations) && not c.hung)) [
      | inr n ↦ rw n h
      | inl y ↦ rw y (
          subst (λ cs. is_hung id cs ≡ true) (sym (abort_calls c.id now _))
            (is_hung-set id e.calls c _ f (ground arith) h))
    ]
Step-hung id {e} (ticks now w) h =
    subst (λ cs. is_hung id cs ≡ true) (sym (check_calls now e.operations e)) h

Reach-hung :
    (id : ℕ) {e f : Executor} → Reach e f → is_hung id e.calls ≡ true → is_hung id f.calls ≡ true
Reach-hung id here h = h
Reach-hung id (next r st) h = Step-hung id st (Reach-hung id r h)

nonempty : (id : ℕ) (is : List ℕ) → contains id is ≡ true → is_nil is ≡ false
nonempty id [] h = cc
nonempty id (i ∷ is) h = refl

join : {e f g : Executor} → Reach e f → Reach f g → Reach e g
join r here = r
join r (next q st) = next (join r q) st

-- Once a call was hung, its operation stays in the map for ever, also after the executor's promise
-- has settled, and so the watchdog is never switched off again.
pub hung_stays :
    (ms : Option ℕ) (id : ℕ) (e f : Executor)
    → Reach (create ms) e
    → is_hung id e.calls ≡ true
    → Reach e f
    → (contains id (op_ids f.operations) ≡ true) × (f.watchdog ≡ true)
hung_stays ms id e f r h q =
    let v = Reach-IsInSync ms f (join r q) in
    let tracked : contains id (op_ids f.operations) ≡ true =
      ap (contains id) v.synced ∙ tracked_of_hung id f.calls (Reach-hung id q h) in
    (tracked, v.watched ∙ ap not (nonempty id (op_ids f.operations) tracked))

abbrev pub hung_events : ℕ → List WatchdogEvent → ℕ
hung_events id [] = 0
hung_events id (hung_event i name pid started deadline duration ∷ es) =
    if i == id then suc (hung_events id es) else hung_events id es
hung_events id (completed_event i name duration ∷ es) = hung_events id es

hung_events-append :
    (id : ℕ) (es fs : List WatchdogEvent)
    → hung_events id (es ++ fs) ≡ hung_events id es + hung_events id fs
hung_events-append id [] fs = omega arith
hung_events-append id (hung_event i name pid started deadline duration ∷ es) fs =
    ground (arith, hung_events-append id es fs)
hung_events-append id (completed_event i name duration ∷ es) fs = hung_events-append id es fs

get-abort :
    (id : ℕ) (ops : List TrackedOperation) (o : TrackedOperation)
    → get_operation id ops ≡ some o
    → is_some (get_operation id (abort id ops)) ≡ true
unfolding get_operation abort
get-abort id [] o f = cc
get-abort id (p ∷ ops) o f = ground (arith, get-abort id ops o)

abort_found :
    (id now : ℕ) (e : Executor) (o : TrackedOperation)
    → get_operation id e.operations ≡ some o
    → is_some (get_operation id (abort_operation id now e).operations) ≡ true
unfolding abort_operation
abort_found id now e o f = rw (f, abort_operation) (get-abort id e.operations o f)

abort_reports :
    (id now : ℕ) (e : Executor) (o : TrackedOperation)
    → get_operation id e.operations ≡ some o
    → hung_events id (abort_operation id now e).events ≡ hung_events id e.events + 1
unfolding abort_operation
abort_reports id now e o f =
    rw (f, abort_operation) (hung_events-append id e.events _ ∙ ground arith)

timeout_reports :
    (c : Call) (later : ℕ) (e : Executor)
    → c.hung ≡ false
    → is_some (get_operation c.id e.operations) ≡ true
    → hung_events c.id (on_timeout c later e).events ≡ hung_events c.id e.events + 1
unfolding on_timeout
timeout_reports c later e h t = elim (Option-cases (get_operation c.id e.operations)) [
  | inl n ↦ absurd (false≢true (sym (ap is_some n) ∙ t))
  | inr (o, f) ↦
      let fires : (is_some (get_operation c.id e.operations) && not c.hung) ≡ true = ground arith in
      rw fires (abort_reports c.id later _ o f)
]

get_head : (op : TrackedOperation) → get_operation op.id (op ∷ []) ≡ some op
unfolding get_operation
get_head op = ground arith

check_single :
    (op : TrackedOperation) (now : ℕ) (e : Executor)
    → op.aborted ≡ false
    → op.deadline ≤ now
    → check_each now (op ∷ []) e ≡ abort_operation op.id now e
unfolding check_each
check_single op now e a d = ground arith

-- The watchdog and the timeout do not know of one another: if the watchdog finds the only tracked
-- operation past its deadline, and then the timeout of its call fires, the operation is reported as
-- hung twice.
pub hung_twice :
    (op : TrackedOperation) (c : Call) (now later : ℕ) (e : Executor)
    → e.operations ≡ op ∷ []
    → op.aborted ≡ false
    → op.deadline ≤ now
    → c.id ≡ op.id
    → c.hung ≡ false
    → hung_events c.id (on_timeout c later (check_deadlines now e)).events
      ≡ hung_events c.id e.events + 2
unfolding check_deadlines
hung_twice op c now later e s a d i h =
    let found : get_operation op.id e.operations ≡ some op =
      ap (get_operation op.id) s ∙ get_head op in
    let f : Executor = abort_operation op.id now e in
    let g : check_each now e.operations e ≡ f =
      ap (λ ops. check_each now ops e) s ∙ check_single op now e a d in
    let t : is_some (get_operation c.id f.operations) ≡ true =
      ap (λ (n : ℕ). is_some (get_operation n f.operations)) i ∙ abort_found op.id now e op found in
    let once : hung_events c.id f.events ≡ hung_events c.id e.events + 1 =
      subst (λ (n : ℕ). hung_events n f.events ≡ hung_events n e.events + 1) (sym i)
        (abort_reports op.id now e op found) in
    rw g (omega (arith, timeout_reports c later f h t, once))
