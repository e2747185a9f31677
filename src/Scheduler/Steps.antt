-- ===== src/Scheduler/Steps.antt =====
-- The scheduler as a state machine: every call keeps the invariant.
use Prim.Native.String.{String}
use desktop_remote.Common.{ℕ, ◌≡◌, true, some}
use desktop_remote.Scheduler.Classes.{OperationClass, get}
use desktop_remote.Scheduler.State.{
  Scheduler, SchedulerOptions, create, QueuedOperation, Env, Error, ScheduleOptions,
}
use desktop_remote.Scheduler.Invariant.{IsValid}
use desktop_remote.Scheduler.{finish, cancel, run}
use desktop_remote.Scheduler.Create.{create-IsValid}
use desktop_remote.Scheduler.Finish.{holds, finish-IsValid}
use desktop_remote.Scheduler.Cancel.{cancel-IsValid}
use desktop_remote.Scheduler.Submit.{run-IsValid}

-- What can happen to a scheduler: a call of `run`, a started task that settles, and a cancellation
-- by an abort listener or a timer, each with what the outside says at that moment.
pub data Step (s : Scheduler) : Scheduler → Type 0 where
  submits :
      (env : Env) (name : String) (task : ℕ) (options : ScheduleOptions)
      → Step s (run env name task options s).0
  settles :
      (env : Env) (c : OperationClass) (task : ℕ)
      → holds task (get s.in_flight c) ≡ true
      → Step s (finish env c task s)
  cancels : (queued : QueuedOperation) (error : Error) → Step s (cancel queued error s)

pub data Reach (s : Scheduler) : Scheduler → Type 0 where
  here : Reach s s
  next : {t u : Scheduler} → Reach s t → Step t u → Reach s u

pub Step-IsValid : {s t : Scheduler} → Step s t → IsValid s → IsValid t
Step-IsValid {s} (submits env name task options) v = run-IsValid env name task options s v
Step-IsValid {s} (settles env c task h) v = finish-IsValid c task s h v env
Step-IsValid {s} (cancels queued error) v = cancel-IsValid queued error s v

-- In every state that a new scheduler can come to: no class runs more tasks than its limit, the
-- counters agree with the promises in flight and with the queues, no queue is over its limits,
-- every queued entry can still be cancelled, and no task waits while its class has capacity.
pub Reach-IsValid :
    (options : SchedulerOptions) (s t : Scheduler) → create options ≡ some s → Reach s t → IsValid t
Reach-IsValid options s t e here = create-IsValid options s e
Reach-IsValid options s t e (next {t = u} r st) = Step-IsValid st (Reach-IsValid options s u e r)
