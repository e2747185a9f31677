-- ===== src/Scheduler/Lanes.antt =====
-- The scheduler's state seen class by class: what holds of one class's counters and queue.
use desktop_remote.Common.{ℕ, ◌+◌, ◌≤◌, ◌≡◌, false, ◌⊎◌, List, [], length, All, arith, is_some}
use desktop_remote.Scheduler.Classes.{
  OperationClass, light, heavy, process, document, PerClass, get, put, sum_counts,
}
use desktop_remote.Scheduler.State.{QueuedOperation}
use desktop_remote.Scheduler.{queue_lengths}

-- An entry of the queue of class `c`: not started, with exactly the listeners that can cancel it.
pub record IsWaiting (c : OperationClass) (q : QueuedOperation) : Type 0 where
  pub own_class : q.operation_class ≡ c
  pub idle : q.started ≡ false
  pub listens : q.on_abort ≡ is_some q.signal
  pub timed : q.deadline_timer ≡ is_some q.deadline_at

pub record IsLane (c : OperationClass) (concurrency most active : ℕ) (queue : List QueuedOperation)
    (in_flight : List ℕ) : Type 0 where
  pub within : active ≤ concurrency
  pub counted : length in_flight ≡ active
  pub room : length queue ≤ most
  pub waiting : All (IsWaiting c) queue

-- Nothing waits while there is capacity.
abbrev pub IsBusy : ℕ → ℕ → List QueuedOperation → Type 0
IsBusy concurrency active queue = (queue ≡ []) ⊎ (active ≡ concurrency)

-- A statement on every class survives a write at one class if the new values satisfy it.
module _ (P : OperationClass → ℕ → ℕ → ℕ → List QueuedOperation → List ℕ → Type 0)
    {conc most act : PerClass ℕ} {qs : PerClass (List QueuedOperation)}
    {fl : PerClass (List ℕ)} where
  pub put_lanes :
      {a : ℕ} {q : List QueuedOperation} {f : List ℕ} (c d : OperationClass)
      → ((e : OperationClass) → P e (get conc e) (get most e) (get act e) (get qs e) (get fl e))
      → P c (get conc c) (get most c) a q f
      → P d
          (get conc d)
          (get most d)
          (get (put act c a) d)
          (get (put qs c q) d)
          (get (put fl c f) d)
  put_lanes light light old new = new
  put_lanes light heavy old new = old heavy
  put_lanes light process old new = old process
  put_lanes light document old new = old document
  put_lanes heavy light old new = old light
  put_lanes heavy heavy old new = new
  put_lanes heavy process old new = old process
  put_lanes heavy document old new = old document
  put_lanes process light old new = old light
  put_lanes process heavy old new = old heavy
  put_lanes process process old new = new
  put_lanes process document old new = old document
  put_lanes document light old new = old light
  put_lanes document heavy old new = old heavy
  put_lanes document process old new = old process
  put_lanes document document old new = new

  pub put_queue :
      {q : List QueuedOperation} (c d : OperationClass)
      → ((e : OperationClass) → P e (get conc e) (get most e) (get act e) (get qs e) (get fl e))
      → P c (get conc c) (get most c) (get act c) q (get fl c)
      → P d (get conc d) (get most d) (get act d) (get (put qs c q) d) (get fl d)
  put_queue light light old new = new
  put_queue light heavy old new = old heavy
  put_queue light process old new = old process
  put_queue light document old new = old document
  put_queue heavy light old new = old light
  put_queue heavy heavy old new = new
  put_queue heavy process old new = old process
  put_queue heavy document old new = old document
  put_queue process light old new = old light
  put_queue process heavy old new = old heavy
  put_queue process process old new = new
  put_queue process document old new = old document
  put_queue document light old new = old light
  put_queue document heavy old new = old heavy
  put_queue document process old new = old process
  put_queue document document old new = new

abbrev pub sum_lengths : PerClass (List QueuedOperation) → ℕ
sum_lengths queues = sum_counts (queue_lengths queues)

pub sum_lengths-put :
    (qs : PerClass (List QueuedOperation)) (c : OperationClass) (q : List QueuedOperation)
    → sum_lengths (put qs c q) + length (get qs c) ≡ sum_lengths qs + length q
unfolding sum_counts
sum_lengths-put qs light q = omega arith
sum_lengths-put qs heavy q = omega arith
sum_lengths-put qs process q = omega arith
sum_lengths-put qs document q = omega arith

pub length-le-sum :
    (qs : PerClass (List QueuedOperation)) (c : OperationClass) → length (get qs c) ≤ sum_lengths qs
unfolding sum_counts
length-le-sum qs light = omega arith
length-le-sum qs heavy = omega arith
length-le-sum qs process = omega arith
length-le-sum qs document = omega arith
