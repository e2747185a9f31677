-- ===== src/Scheduler/Invariant.antt =====
-- The scheduler's invariant, and that draining a queue keeps it.
use desktop_remote.Common.{
  ℕ, ◌+◌, ◌-◌, ◌≤◌, ◌<◌, ◌≡◌, ap, subst, inl, inr, Bool, List, ◌∷◌, Bool-cases, length, All, arith,
}
use desktop_remote.Scheduler.Classes.{OperationClass, get, put}
use desktop_remote.Scheduler.State.{Scheduler, QueuedOperation}
use desktop_remote.Scheduler.Lanes.{
  IsLane, IsBusy, IsWaiting, put_lanes, put_queue, sum_lengths, sum_lengths-put,
}
use desktop_remote.Scheduler.{drain_round, is_aborted, is_past_deadline}

abbrev pub LaneAt : Scheduler → OperationClass → Type 0
LaneAt s d =
    IsLane d (get s.concurrency d) (get s.max_queue_size_by_class d) (get s.active d)
      (get s.queues d) (get s.in_flight d)

abbrev pub BusyAt : Scheduler → OperationClass → Type 0
BusyAt s d = IsBusy (get s.concurrency d) (get s.active d) (get s.queues d)

-- What holds at every moment, also between the rounds of `drain`.
pub record IsSound (s : Scheduler) : Type 0 where
  pub lanes : (d : OperationClass) → LaneAt s d
  pub total : s.total_queued ≡ sum_lengths s.queues
  pub bound : s.total_queued ≤ s.max_queue_size
  pub capacity : (d : OperationClass) → 0 < get s.concurrency d

-- What holds between the calls.
pub record IsValid (s : Scheduler) : Type 0 where
  pub sound : IsSound s
  pub busy : (d : OperationClass) → BusyAt s d

module _ {s : Scheduler} (c : OperationClass) (q : QueuedOperation) (rest : List QueuedOperation)
    (v : IsSound s) (e : get s.queues c ≡ q ∷ rest) where
  tail_room : length rest ≤ get s.max_queue_size_by_class c
  tail_room = omega (arith, (v.lanes c).room, ap length e)

  tail_waiting : All (IsWaiting c) rest
  tail_waiting = (subst (All (IsWaiting c)) e (v.lanes c).waiting).1

  shift_total : s.total_queued - 1 ≡ sum_lengths (put s.queues c rest)
  shift_total = omega (arith, v.total, sum_lengths-put s.queues c rest, ap length e)

  shift_bound : s.total_queued - 1 ≤ s.max_queue_size
  shift_bound = omega (arith, v.bound)

  drop_lanes :
      (d : OperationClass)
      → IsLane d
          (get s.concurrency d)
          (get s.max_queue_size_by_class d)
          (get s.active d)
          (get (put s.queues c rest) d)
          (get s.in_flight d)
  drop_lanes d = put_queue IsLane c d v.lanes (record {
    within = (v.lanes c).within;
    counted = (v.lanes c).counted;
    room = tail_room;
    waiting = tail_waiting;
  })

  start_lanes :
      (task : ℕ)
      → get s.active c < get s.concurrency c
      → (d : OperationClass)
      → IsLane d
          (get s.concurrency d)
          (get s.max_queue_size_by_class d)
          (get (put s.active c (get s.active c + 1)) d)
          (get (put s.queues c rest) d)
          (get (put s.in_flight c (task ∷ get s.in_flight c)) d)
  start_lanes task h d = put_lanes IsLane c d v.lanes (record {
    within = omega arith;
    counted = omega (arith, (v.lanes c).counted);
    room = tail_room;
    waiting = tail_waiting;
  })

  pub drain_round-IsSound :
      (aborted : ℕ → Bool) (now : ℕ)
      → get s.active c < get s.concurrency c
      → IsSound (drain_round aborted now c q rest s)
  unfolding drain_round
  drain_round-IsSound aborted now h = elim (Bool-cases (is_aborted aborted q.signal)) [
    | inl a ↦ rw a (record {
      lanes = drop_lanes;
      total = shift_total;
      bound = shift_bound;
      capacity = v.capacity;
    })
    | inr a ↦ elim (Bool-cases (is_past_deadline q.deadline_at now)) [
      | inl p ↦
          rw (a, p)
            (record {
              lanes = drop_lanes;
              total = shift_total;
              bound = shift_bound;
              capacity = v.capacity;
            })
      | inr p ↦
          rw (a, p)
            (record {
              lanes = start_lanes q.task h;
              total = shift_total;
              bound = shift_bound;
              capacity = v.capacity;
            })
    ]
  ]
