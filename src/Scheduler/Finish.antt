-- ===== src/Scheduler/Finish.antt =====
-- A task that settles: its slot is freed, and the queue of its class moves up.
use desktop_remote.Common.{
  ℕ, ◌+◌, ◌-◌, ◌≡◌, subst, inl, inr, Bool, true, List, [], ◌∷◌, ◌==◌, Bool-cases, length, arith,
  any,
}
use desktop_remote.Scheduler.Classes.{OperationClass, class_eq, get, put, get-put, put-get}
use desktop_remote.Scheduler.State.{Scheduler, Env}
use desktop_remote.Scheduler.Lanes.{IsLane, put_lanes}
use desktop_remote.Scheduler.Invariant.{IsSound, IsValid, BusyAt}
use desktop_remote.Scheduler.Drain.{OthersBusy, IsDrained, drain-IsDrained}
use desktop_remote.Scheduler.{drain, finish, release, settle}

class_eq→eq : (c d : OperationClass) → class_eq c d ≡ true → c ≡ d
class_eq→eq c d e = ground arith

pub drain-IsValid :
    (env : Env) (c : OperationClass) (s : Scheduler)
    → IsSound s
    → OthersBusy c s
    → IsValid (drain env c s)
drain-IsValid env c s v o =
    let r = drain-IsDrained env c s v o in
    record {
      sound = r.sound;
      busy = λ d. elim (Bool-cases (class_eq c d)) [
        | inl e ↦ subst (BusyAt (drain env c s)) (class_eq→eq c d e) r.full
        | inr e ↦ r.others d e
      ];
    }

abbrev pub holds : ℕ → List ℕ → Bool
holds task = any (λ t. t == task)

length-settle :
    (task : ℕ) (ts : List ℕ) → holds task ts ≡ true → length (settle task ts) + 1 ≡ length ts
unfolding settle any
length-settle task [] h = cc
length-settle task (t ∷ ts) h = ground (arith, length-settle task ts)

module _ (c : OperationClass) (task : ℕ) (s : Scheduler) (h : holds task (get s.in_flight c) ≡ true)
    (v : IsValid s) where
  release-IsSound : IsSound (release c task s)
  unfolding release
  release-IsSound =
      let lane = v.sound.lanes c in
      record {
        lanes = λ d.
            subst
              (λ q.
                IsLane d (get s.concurrency d) (get s.max_queue_size_by_class d)
                  (get (put s.active c (get s.active c - 1)) d) (get q d)
                  (get (put s.in_flight c (settle task (get s.in_flight c))) d))
              (put-get s.queues c)
              (put_lanes IsLane c d v.sound.lanes (record {
                within = omega (arith, lane.within);
                counted = omega (arith, lane.counted, length-settle task (get s.in_flight c) h);
                room = lane.room;
                waiting = lane.waiting;
              }));
        total = v.sound.total;
        bound = v.sound.bound;
        capacity = v.sound.capacity;
      }

  release-OthersBusy : OthersBusy c (release c task s)
  unfolding release
  release-OthersBusy d e = rw (get-put, e) (v.busy d)

  pub finish-IsValid : (env : Env) → IsValid (finish env c task s)
  unfolding finish
  finish-IsValid env = drain-IsValid env c (release c task s) release-IsSound release-OthersBusy

  -- When a task in flight of a valid scheduler settles, its slot is freed and the oldest entries of
  -- the queue of its class are settled in their order, each as its signal and its deadline say,
  -- until the queue is empty or the class is full again; the invariant holds, and the other classes
  -- stay busy.
  pub finish-IsDrained :
      (env : Env)
      → IsDrained env 0 c (get (release c task s).queues c) (release c task s) (finish env c task s)
  unfolding finish
  finish-IsDrained env = drain-IsDrained env c (release c task s) release-IsSound release-OthersBusy
