-- ===== src/Scheduler/Cancel.antt =====
-- Cancellation by a signal or a deadline keeps the scheduler's invariant.
use desktop_remote.Common.{
  ℕ, ◌+◌, ◌-◌, ◌≡◌, ap, subst, inl, inr, List, [], ◌∷◌, some, ◌==◌, Bool-cases, Option-cases,
  length, All, arith,
}
use desktop_remote.Scheduler.Classes.{OperationClass, get, put}
use desktop_remote.Scheduler.State.{Scheduler, QueuedOperation, Event, Error}
use desktop_remote.Scheduler.Lanes.{IsLane, IsBusy, IsWaiting, put_queue, sum_lengths-put}
use desktop_remote.Scheduler.Invariant.{IsSound, IsValid, BusyAt}
use desktop_remote.Scheduler.{splice, remove_queued, cancel}

length-splice :
    (task : ℕ) (qs rest : List QueuedOperation)
    → splice task qs ≡ some rest
    → length rest + 1 ≡ length qs
unfolding splice
length-splice task [] rest e = cc
length-splice task (q ∷ qs) rest e = elim (Option-cases (splice task qs)) [
  | inl n ↦ ground arith
  | inr (r, f) ↦ ground (arith, length-splice task qs r f)
]

All-splice {κ} :
    (P : QueuedOperation → Type κ) (task : ℕ) (qs rest : List QueuedOperation)
    → splice task qs ≡ some rest
    → All P qs
    → All P rest
unfolding splice
All-splice P task [] rest e h = cc
All-splice P task (q ∷ qs) rest e h = elim (Bool-cases (q.task == task)) [
  | inl hit ↦ let f : qs ≡ rest = ground arith in subst (All P) f h.1
  | inr miss ↦ elim (Option-cases (splice task qs)) [
    | inl n ↦ cc (rw (miss, n, splice) at e)
    | inr (r, f) ↦
        let g : q ∷ r ≡ rest = ground arith in subst (All P) g (h.0, All-splice P task qs r f h.1)
  ]
]

-- The state of a class where `rest` is what is left after one entry is taken out.
module _ (s : Scheduler) (c : OperationClass) (task : ℕ) (rest : List QueuedOperation)
    (v : IsValid s) (e : splice task (get s.queues c) ≡ some rest) where
  abbrev spliced : Scheduler
  spliced = record s { queues = put s.queues c rest; total_queued = s.total_queued - 1 }

  spliced-IsSound : IsSound spliced
  spliced-IsSound =
      let lane = v.sound.lanes c in
      record {
        lanes = λ d. put_queue IsLane c d v.sound.lanes (record {
          within = lane.within;
          counted = lane.counted;
          room = omega (arith, lane.room, length-splice task (get s.queues c) rest e);
          waiting = All-splice (IsWaiting c) task (get s.queues c) rest e lane.waiting;
        });
        total = omega (
          arith,
          v.sound.total,
          sum_lengths-put s.queues c rest,
          length-splice task (get s.queues c) rest e,
        );
        bound = omega (arith, v.sound.bound);
        capacity = v.sound.capacity;
      }

  spliced-IsBusy : BusyAt s c → IsBusy (get s.concurrency c) (get s.active c) rest
  spliced-IsBusy (inl n) =
      absurd (omega (arith, length-splice task (get s.queues c) rest e, ap length n))
  spliced-IsBusy (inr f) = inr f

  spliced-IsValid : IsValid spliced
  spliced-IsValid = record {
    sound = spliced-IsSound;
    busy = λ d.
        put_queue (λ _ conc _ act qs _. IsBusy conc act qs) {most = s.max_queue_size_by_class}
          {fl = s.in_flight} c d v.busy (spliced-IsBusy (v.busy c));
  }

log-IsValid : (s : Scheduler) (log : List Event) → IsValid s → IsValid (record s { log = log })
log-IsValid s log v = record {
  sound = record {
    lanes = v.sound.lanes;
    total = v.sound.total;
    bound = v.sound.bound;
    capacity = v.sound.capacity;
  };
  busy = v.busy;
}

-- An aborted signal or an expired timer takes its own entry out of the queue, and no other.
pub cancel-IsValid :
    (queued : QueuedOperation) (error : Error) (s : Scheduler)
    → IsValid s
    → IsValid (cancel queued error s)
unfolding cancel
cancel-IsValid queued error s v = elim (Bool-cases queued.started) [
  | inl b ↦ rw (b, cancel, remove_queued) v
  | inr b ↦ elim (Option-cases (splice queued.task (get s.queues queued.operation_class))) [
    | inl n ↦ rw (b, n, cancel, remove_queued) v
    | inr (rest, e) ↦
        rw (b, e, cancel, remove_queued)
          (log-IsValid (spliced s queued.operation_class queued.task rest v e) _
            (spliced-IsValid s queued.operation_class queued.task rest v e))
  ]
]
