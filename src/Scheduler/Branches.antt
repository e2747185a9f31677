-- ===== src/Scheduler/Branches.antt =====
-- How a call of `run` ends, and what the scheduler promises the waiting tasks.
use Prim.Native.String.{String}
use desktop_remote.Common.{
  ℕ, ◌+◌, ◌≤◌, ◌<◌, ◌≡◌, ◌≢◌, ◌↔◌, ap, ◌⊎◌, inl, inr, false, [], Option, some, Option-cases, length,
  arith,
}
use desktop_remote.Scheduler.Classes.{
  OperationClass, get, assert_operation_class, sum_counts, light, heavy, process, document,
}
use desktop_remote.Scheduler.State.{
  Scheduler, SchedulerOptions, create, Env, Error, busy, Limit, ScheduleOptions, global, class,
}
use desktop_remote.Scheduler.Steps.{Reach, Reach-IsValid}
use desktop_remote.Scheduler.{
  admit, run, deadline_of, is_aborted, is_past_deadline, threw, running, snapshot,
}

admit_throws :
    (env : Env) (c : OperationClass) (task : ℕ) (signal deadline : Option ℕ) (s : Scheduler)
    (error : Error)
    → (admit env c task signal deadline s).1 ≡ threw error
    → (admit env c task signal deadline s).0 ≡ s
unfolding admit
admit_throws env c task signal deadline s error e = ground arith

-- A call of `run` that throws, for whatever reason, leaves the scheduler as it was.
pub run_throws :
    (env : Env) (name : String) (task : ℕ) (options : ScheduleOptions) (s : Scheduler)
    (error : Error)
    → (run env name task options s).1 ≡ threw error
    → (run env name task options s).0 ≡ s
unfolding run
run_throws env name task options s error e = elim (Option-cases (assert_operation_class name)) [
  | inl n ↦ rw (n, run)
  | inr (c, n) ↦ elim (Option-cases (deadline_of options.deadline_at)) [
    | inl f ↦ rw (n, f, run)
    | inr (deadline, f) ↦
        rw (n, f, run)
          (admit_throws env c task options.signal deadline s error (rw (n, f, run) at e))
  ]
]

-- A submission that is neither cancelled nor late is refused as busy exactly when its class runs as
-- many tasks as it may and either the scheduler's queues together or the class's own are full; the
-- limit named is the global one whenever that is reached.
pub admit_busy_iff :
    (env : Env) (c : OperationClass) (task : ℕ) (signal deadline : Option ℕ) (s : Scheduler)
    (limit : Limit)
    → is_aborted env.aborted signal ≡ false
    → is_past_deadline deadline (env.now 0) ≡ false
    → ((admit env c task signal deadline s).1 ≡ threw (busy c limit)) ↔ (
        (get s.concurrency c ≤ get s.active c)
        × ((limit ≡ global) × (s.max_queue_size ≤ s.total_queued)
            ⊎ (limit ≡ class)
              × (s.total_queued < s.max_queue_size)
              × (get s.max_queue_size_by_class c ≤ length (get s.queues c))))
unfolding admit
admit_busy_iff env c task signal deadline s limit a p = (λ h. ground arith, λ h. ground arith)

-- In every state that a new scheduler can come to, a task that is started at once overtakes no
-- waiting task of its class.
pub admit_running :
    (options : SchedulerOptions) (s t : Scheduler)
    → create options ≡ some s
    → Reach s t
    → (env : Env) (c : OperationClass) (task : ℕ) (signal deadline : Option ℕ)
    → (admit env c task signal deadline t).1 ≡ running
    → get t.queues c ≡ []
unfolding admit
admit_running options s t e r env c task signal deadline h =
    let v = Reach-IsValid options s t e r in no_overtaking (v.busy c) (v.sound.lanes c).within
  where
    no_overtaking :
        (get t.queues c ≡ []) ⊎ (get t.active c ≡ get t.concurrency c)
        → get t.active c ≤ get t.concurrency c
        → get t.queues c ≡ []
    no_overtaking (inl n) w = n
    no_overtaking (inr full) w = ground arith

-- In every state that a new scheduler can come to, a waiting task has a running task of its class
-- whose end will look at the queue again: no task waits for ever for want of a wake-up.
pub Reach_wakes :
    (options : SchedulerOptions) (s t : Scheduler)
    → create options ≡ some s
    → Reach s t
    → (c : OperationClass) → get t.queues c ≢ []
    → get t.in_flight c ≢ []
Reach_wakes options s t e r c waits none_left =
    let v = Reach-IsValid options s t e r in clash (v.busy c)
  where
    clash : (get t.queues c ≡ []) ⊎ (get t.active c ≡ get t.concurrency c) → ⊥
    clash (inl n) = waits n
    clash (inr full) =
        let v = Reach-IsValid options s t e r in
        omega (arith, (v.sound.lanes c).counted, v.sound.capacity c, ap length none_left)

-- In every state that a new scheduler can come to, a snapshot is consistent: its total of queued
-- tasks is the sum over the classes, and its total of active tasks counts the promises in flight.
pub snapshot_consistent :
    (options : SchedulerOptions) (s t : Scheduler)
    → create options ≡ some s
    → Reach s t
    → ((snapshot t).total_queued ≡ sum_counts (snapshot t).queued)
      × ((snapshot t).total_active
          ≡ length t.in_flight.of_light
            + length t.in_flight.of_heavy
            + length t.in_flight.of_process
            + length t.in_flight.of_document)
unfolding snapshot sum_counts
snapshot_consistent options s t e r =
    let v = Reach-IsValid options s t e r in
    (
      unfold sum_counts in v.sound.total,
      omega (
        arith,
        (v.sound.lanes light).counted,
        (v.sound.lanes heavy).counted,
        (v.sound.lanes process).counted,
        (v.sound.lanes document).counted,
      ),
    )
