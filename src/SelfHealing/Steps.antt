-- ===== src/SelfHealing/Steps.antt =====
-- The self-healing executor as a state machine.
use desktop_remote.Common.{ℕ, ◌≡◌, refl, true, false, Option, some, arith}
use desktop_remote.Events.{Text}
use desktop_remote.SelfHealing.{
  Call, Executor, find_call, create, execute, on_settled, on_timeout, check_deadlines,
}
use desktop_remote.SelfHealing.Valid.{IsInSync}
use desktop_remote.SelfHealing.Callbacks.{
  execute-IsInSync, on_settled-IsInSync, on_timeout-IsInSync, check_each-IsInSync,
}

-- A call of `execute`; the executor's promise settles, once for each call; the timeout of a call
-- fires; the watchdog, while it is on, checks the deadlines.
pub data Step (e : Executor) : Executor → Type 0 where
  executes : (name : Text) (now : ℕ) → Step e (execute name now e)
  settles :
      (c : Call) (now : ℕ)
      → find_call c.id e.calls ≡ some c
      → c.settled ≡ false
      → Step e (on_settled c now e)
  times_out : (c : Call) (now : ℕ) → find_call c.id e.calls ≡ some c → Step e (on_timeout c now e)
  ticks : (now : ℕ) → e.watchdog ≡ true → Step e (check_deadlines now e)

pub data Reach (e : Executor) : Executor → Type 0 where
  here : Reach e e
  next : {f g : Executor} → Reach e f → Step f g → Reach e g

Step-IsInSync : {e f : Executor} → Step e f → IsInSync e → IsInSync f
Step-IsInSync {e} (executes name now) v = execute-IsInSync name now e v
Step-IsInSync {e} (settles c now f u) v = on_settled-IsInSync c now e f u v
Step-IsInSync {e} (times_out c now f) v = on_timeout-IsInSync c now e f v
Step-IsInSync {e} (ticks now w) v =
    unfold check_deadlines in check_each-IsInSync now e.operations e v

create-IsInSync : (ms : Option ℕ) → IsInSync (create ms)
unfolding create
create-IsInSync ms = record {
  rising = omega arith;
  synced = refl;
  watched = refl;
  fair = tt;
  childless = tt;
  harmless = refl;
}

-- In every state that a new executor can come to: the map holds exactly the operations whose call
-- has not settled, or was hung; the watchdog is on exactly while the map is not empty; a call has
-- ended with the timeout error exactly if it was hung, and otherwise as soon as the executor has
-- settled; no operation has a child process, and no process is ever told to die.
pub Reach-IsInSync : (ms : Option ℕ) (e : Executor) → Reach (create ms) e → IsInSync e
Reach-IsInSync ms e here = create-IsInSync ms
Reach-IsInSync ms e (next r st) = Step-IsInSync st (Reach-IsInSync ms _ r)
