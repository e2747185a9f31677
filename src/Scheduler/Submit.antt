-- ===== src/Scheduler/Submit.antt =====
-- `run` keeps the scheduler's invariant.
use Prim.Native.String.{String}
use desktop_remote.Common.{
  ℕ, ◌+◌, ◌<◌, ◌≡◌, refl, subst, inl, inr, List, [], ◌∷◌, ◌++◌, Option, ltb, leb, leb→gt, ltb→lt,
  ltb→ge, Bool-cases, Option-cases, length, length-append, All-append, arith,
}
use desktop_remote.Scheduler.Classes.{OperationClass, get, put, put-get, assert_operation_class}
use desktop_remote.Scheduler.State.{Scheduler, QueuedOperation, Env, ScheduleOptions}
use desktop_remote.Scheduler.Lanes.{
  IsLane, IsBusy, IsWaiting, put_lanes, put_queue, sum_lengths, sum_lengths-put,
}
use desktop_remote.Scheduler.Invariant.{IsValid, BusyAt}
use desktop_remote.Scheduler.{
  admit, run, deadline_of, is_aborted, is_past_deadline, start_immediately, install_cancellation,
}

module _ (s : Scheduler) (c : OperationClass) (task : ℕ) (v : IsValid s)
    (h : get s.active c < get s.concurrency c) where
  idle_queue : BusyAt s c → get s.queues c ≡ []
  idle_queue (inl n) = n
  idle_queue (inr f) = absurd (omega arith)

  pub start_immediately-IsValid : IsValid (start_immediately s c task)
  unfolding start_immediately
  start_immediately-IsValid =
      let lane = v.sound.lanes c in
      record {
        sound = record {
          lanes = λ d.
              subst
                (λ q.
                  IsLane d (get s.concurrency d) (get s.max_queue_size_by_class d)
                    (get (put s.active c (get s.active c + 1)) d) (get q d)
                    (get (put s.in_flight c (task ∷ get s.in_flight c)) d))
                (put-get s.queues c)
                (put_lanes IsLane c d v.sound.lanes (record {
                  within = omega arith;
                  counted = omega (arith, lane.counted);
                  room = lane.room;
                  waiting = lane.waiting;
                }));
          total = v.sound.total;
          bound = v.sound.bound;
          capacity = v.sound.capacity;
        };
        busy = λ d.
            subst
              (λ q.
                IsBusy (get s.concurrency d) (get (put s.active c (get s.active c + 1)) d)
                  (get q d))
              (put-get s.queues c)
              (put_lanes (λ _ conc _ act qs _. IsBusy conc act qs)
                {most = s.max_queue_size_by_class} {fl = s.in_flight} {f = []} c d v.busy
                (inl (idle_queue (v.busy c))));
      }

append_total :
    (s : Scheduler) (c : OperationClass) (q : QueuedOperation)
    → s.total_queued ≡ sum_lengths s.queues
    → s.total_queued + 1 ≡ sum_lengths (put s.queues c (get s.queues c ++ q ∷ []))
append_total s c q e = omega (
  arith,
  e,
  sum_lengths-put s.queues c (get s.queues c ++ q ∷ []),
  length-append (get s.queues c) (q ∷ []),
)

-- Putting an entry at the end of the queue of a full class with room.
module _ (s : Scheduler) (c : OperationClass) (q : QueuedOperation) (v : IsValid s)
    (w : IsWaiting c q) (full : get s.active c ≡ get s.concurrency c)
    (room : length (get s.queues c) < get s.max_queue_size_by_class c)
    (bound : s.total_queued < s.max_queue_size) where
  abbrev longer : List QueuedOperation
  longer = get s.queues c ++ q ∷ []

  enqueue-IsValid :
      IsValid (record s { queues = put s.queues c longer; total_queued = s.total_queued + 1 })
  enqueue-IsValid =
      let lane = v.sound.lanes c in
      record {
        sound = record {
          lanes = λ d. put_queue IsLane c d v.sound.lanes (record {
            within = lane.within;
            counted = lane.counted;
            room = omega (arith, length-append (get s.queues c) (q ∷ []));
            waiting = All-append (IsWaiting c) (get s.queues c) (q ∷ []) lane.waiting (w, tt);
          });
          total = append_total s c q v.sound.total;
          bound = omega arith;
          capacity = v.sound.capacity;
        };
        busy = λ d.
            put_queue (λ _ conc _ act qs _. IsBusy conc act qs) {most = s.max_queue_size_by_class}
              {fl = s.in_flight} c d v.busy (inr full);
      }

admit-IsValid :
    (env : Env) (c : OperationClass) (task : ℕ) (signal deadline : Option ℕ) (s : Scheduler)
    → IsValid s
    → IsValid (admit env c task signal deadline s).0
unfolding admit install_cancellation
admit-IsValid env c task signal deadline s v = elim (Bool-cases (is_aborted env.aborted signal)) [
  | inl e ↦ rw e v
  | inr a ↦ elim (Bool-cases (is_past_deadline deadline (env.now 0))) [
    | inl e ↦ rw (a, e) v
    | inr p ↦ elim (Bool-cases (ltb (get s.active c) (get s.concurrency c))) [
      | inl e ↦ rw (a, p, e) (start_immediately-IsValid s c task v (ltb→lt _ _ e))
      | inr f ↦ elim (Bool-cases (leb s.max_queue_size s.total_queued)) [
        | inl e ↦ rw (a, p, f, e) v
        | inr g ↦
            elim (Bool-cases (leb (get s.max_queue_size_by_class c) (length (get s.queues c)))) [
              | inl e ↦ rw (a, p, f, g, e) v
              | inr r ↦
                  rw (a, p, f, g, r)
                    (enqueue-IsValid s c _ v
                      (record { own_class = refl; idle = refl; listens = refl; timed = refl })
                      (omega (arith, ltb→ge _ _ f, (v.sound.lanes c).within)) (leb→gt _ _ r)
                      (leb→gt _ _ g))
            ]
      ]
    ]
  ]
]

pub run-IsValid :
    (env : Env) (name : String) (task : ℕ) (options : ScheduleOptions) (s : Scheduler)
    → IsValid s
    → IsValid (run env name task options s).0
unfolding run
run-IsValid env name task options s v = elim (Option-cases (assert_operation_class name)) [
  | inl e ↦ rw (e, run) v
  | inr (c, e) ↦ elim (Option-cases (deadline_of options.deadline_at)) [
    | inl f ↦ rw (e, f, run) v
    | inr (deadline, f) ↦ rw (e, f, run) (admit-IsValid env c task options.signal deadline s v)
  ]
]
