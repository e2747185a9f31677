-- ===== src/SelfHealing/Tests.antt =====
-- The self-healing executor at concrete inputs: one operation that hangs.
use desktop_remote.Common.{◌+◌, ◌≡◌, refl, true, false, none, some, [], arith}
use desktop_remote.SelfHealing.Sync.{op_ids}
use desktop_remote.SelfHealing.Valid.{IsInSync, contains}
use desktop_remote.SelfHealing.Steps.{
  Reach, here, next, executes, settles, times_out, Reach-IsInSync,
}
use desktop_remote.SelfHealing.Hung.{hung_stays, hung_twice, hung_events}
use desktop_remote.SelfHealing.{
  Executor, Call, TrackedOperation, create, execute, on_timeout, on_settled, check_deadlines,
  timed_out, find_call,
}

abbrev begun : Executor
unfolding create execute
begun = execute [] 100 (create (some 50))

abbrev call : Call
call = record { id = 1; name = []; started_at = 100; hung = false; settled = false; outcome = none }

abbrev hung_call : Call
hung_call = record call { hung = true; outcome = some timed_out }

abbrev timed : Executor
unfolding create execute on_timeout
timed = on_timeout call 150 begun

abbrev late : Executor
unfolding create execute on_timeout on_settled
late = on_settled hung_call 400 timed

abbrev to_timed : Reach (create (some 50)) timed
unfolding create execute on_timeout find_call
to_timed = next (next here (executes [] 100)) (times_out call 150 refl)

abbrev to_late : Reach timed late
unfolding create execute on_timeout on_settled find_call
to_late = next here (settles hung_call 400 refl refl)

Reach-IsInSync_example : IsInSync timed
unfolding create execute on_timeout find_call
Reach-IsInSync_example = Reach-IsInSync (some 50) timed to_timed

hung_stays_example : (contains 1 (op_ids late.operations) ≡ true) × (late.watchdog ≡ true)
unfolding create execute on_timeout on_settled find_call
hung_stays_example = hung_stays (some 50) 1 timed late to_timed refl to_late

abbrev operation : TrackedOperation
operation = record {
  id = 1;
  operation_name = [];
  started_at = 100;
  deadline = 150;
  child_pid = none;
  aborted = false;
}

hung_twice_example :
    hung_events 1 (on_timeout call 151 (check_deadlines 150 begun)).events
    ≡ hung_events 1 begun.events + 2
unfolding create execute
hung_twice_example = hung_twice operation call 150 151 begun refl refl (omega arith) refl refl
