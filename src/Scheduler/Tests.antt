-- ===== src/Scheduler/Tests.antt =====
-- The scheduler at concrete inputs: a document class with one slot, and two tasks for it.
use desktop_remote.Common.{
  ◌≤◌, ◌<◌, ◌≡◌, ◌≢◌, ◌↔◌, refl, ◌⊎◌, ◌+◌, true, false, none, some, [], ◌∷◌, length, any,
}
use desktop_remote.Scheduler.Classes.{document, light, get, all_classes, sum_counts}
use desktop_remote.Scheduler.State.{
  Scheduler, SchedulerOptions, create, initial, Env, ScheduleOptions, busy, class, global,
  default_concurrency, default_max_queue_size, default_max_queue_size_by_class, cancelled, starts,
}
use desktop_remote.Scheduler.Invariant.{IsValid}
use desktop_remote.Scheduler.Drain.{IsDrained}
use desktop_remote.Scheduler.Finish.{finish-IsDrained}
use desktop_remote.Scheduler.Steps.{Reach, here, next, submits, Reach-IsValid}
use desktop_remote.Scheduler.Accounting.{occurrences, submissions-occurrences, submissions}
use desktop_remote.Scheduler.Branches.{
  run_throws, admit_busy_iff, admit_running, Reach_wakes, snapshot_consistent,
}
use desktop_remote.Scheduler.{run, admit, release, finish, snapshot, threw}

abbrev quiet : Env
quiet = record { aborted = λ _. false; now = λ _. 5 }

abbrev defaults : SchedulerOptions
defaults = record {
  concurrency = all_classes none;
  max_queue_size = none;
  max_queue_size_by_class = all_classes none;
}

abbrev fresh : Scheduler
fresh = initial default_concurrency default_max_queue_size default_max_queue_size_by_class

created : create defaults ≡ some fresh
unfolding create
created = refl

abbrev plain : ScheduleOptions
plain = record { signal = none; deadline_at = none }

abbrev two_submitted : Scheduler
unfolding run
two_submitted = (run quiet "document" 2 plain (run quiet "document" 1 plain fresh).0).0

abbrev history : Reach fresh two_submitted
unfolding run
history = next (next here (submits quiet "document" 1 plain)) (submits quiet "document" 2 plain)

Reach-IsValid_example : IsValid two_submitted
unfolding run
Reach-IsValid_example = Reach-IsValid defaults fresh two_submitted created history

second_waits : length two_submitted.queues.of_document ≡ 1
unfolding run
second_waits = refl

second_starts :
    (finish quiet document 1 two_submitted).log ≡ starts 1 document ∷ starts 2 document ∷ []
unfolding run finish
second_starts = refl

finish-IsDrained_example :
    IsDrained quiet 0 document
      (get (release document 1 two_submitted).queues document)
      (release document 1 two_submitted)
      (finish quiet document 1 two_submitted)
unfolding run
finish-IsDrained_example =
    finish-IsDrained document 1 two_submitted (unfold any in refl)
      (Reach-IsValid defaults fresh two_submitted created history) quiet

submissions-occurrences_example : occurrences 2 two_submitted ≡ submissions 2 history
unfolding run
submissions-occurrences_example =
    submissions-occurrences 2 defaults fresh two_submitted created history

abbrev aborting : Env
aborting = record { aborted = λ _. true; now = λ _. 5 }

abbrev with_signal : ScheduleOptions
with_signal = record { signal = some 7; deadline_at = none }

run_throws_example : (run aborting "light" 9 with_signal two_submitted).0 ≡ two_submitted
unfolding run
run_throws_example = run_throws aborting "light" 9 with_signal two_submitted cancelled refl

abbrev crowded : Scheduler
unfolding run
crowded = record two_submitted { max_queue_size_by_class = all_classes 1 }

admit_busy_iff_example :
    ((admit quiet document 3 none none crowded).1 ≡ threw (busy document class)) ↔ (
      (get crowded.concurrency document ≤ get crowded.active document)
      × ((class ≡ global) × (crowded.max_queue_size ≤ crowded.total_queued)
          ⊎ (class ≡ class)
            × (crowded.total_queued < crowded.max_queue_size)
            × (get crowded.max_queue_size_by_class document
                ≤ length (get crowded.queues document))))
unfolding run
admit_busy_iff_example = admit_busy_iff quiet document 3 none none crowded class refl refl

admit_running_example : get two_submitted.queues light ≡ []
unfolding run
admit_running_example =
    admit_running defaults fresh two_submitted created history quiet light 3 none none refl

Reach_wakes_example : get two_submitted.in_flight document ≢ []
unfolding run
Reach_wakes_example = Reach_wakes defaults fresh two_submitted created history document (λ e. cc)

snapshot_consistent_example :
    ((snapshot two_submitted).total_queued ≡ sum_counts (snapshot two_submitted).queued)
    × ((snapshot two_submitted).total_active
        ≡ length two_submitted.in_flight.of_light
          + length two_submitted.in_flight.of_heavy
          + length two_submitted.in_flight.of_process
          + length two_submitted.in_flight.of_document)
unfolding run
snapshot_consistent_example = snapshot_consistent defaults fresh two_submitted created history
