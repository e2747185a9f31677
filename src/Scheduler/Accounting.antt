-- ===== src/Scheduler/Accounting.antt =====
-- No submitted task is lost, started twice, or settled both ways.
use Prim.Native.String.{String}
use desktop_remote.Common.{
  ℕ, suc, ◌+◌, ◌≡◌, refl, ap, ◌∙◌, inl, inr, Bool, true, false, List, [], ◌∷◌, ◌++◌, Option, some,
  ltb, leb, ◌==◌, Bool-cases, Option-cases, length, arith,
}
use desktop_remote.Scheduler.Classes.{
  OperationClass, light, heavy, process, document, get, put, assert_operation_class, sum_counts,
  PerClass, get-put_self,
}
use desktop_remote.Scheduler.State.{
  Scheduler, SchedulerOptions, create, initial, QueuedOperation, Env, Event, starts, rejects, Error,
  ScheduleOptions,
}
use desktop_remote.Scheduler.Create.{create-initial}
use desktop_remote.Scheduler.Steps.{Step, submits, settles, cancels, Reach, here, next}
use desktop_remote.Scheduler.{
  drain, drain_round, drain_loop, finish, splice, remove_queued, cancel, cleanup_queued, admit, run,
  deadline_of, is_aborted, is_past_deadline, start_immediately, install_cancellation, RunResult,
  threw, running, queued,
}

abbrev pub one_if : Bool → ℕ
one_if true = 1
one_if false = 0

module _ (task : ℕ) where
  abbrev pub waiting_in : List QueuedOperation → ℕ
  waiting_in [] = 0
  waiting_in (q ∷ qs) = one_if (q.task == task) + waiting_in qs

  abbrev pub logged_in : List Event → ℕ
  logged_in [] = 0
  logged_in (starts t c ∷ es) = one_if (t == task) + logged_in es
  logged_in (rejects q e ∷ es) = one_if (q.task == task) + logged_in es

  abbrev pub waiting : PerClass (List QueuedOperation) → ℕ
  waiting qs = sum_counts (record {
    of_light = waiting_in qs.of_light;
    of_heavy = waiting_in qs.of_heavy;
    of_process = waiting_in qs.of_process;
    of_document = waiting_in qs.of_document;
  })

  -- How often the task stands in a queue, or has been started or rejected.
  abbrev pub occurrences : Scheduler → ℕ
  occurrences s = waiting s.queues + logged_in s.log

  waiting-put :
      (qs : PerClass (List QueuedOperation)) (c : OperationClass) (q : List QueuedOperation)
      → waiting (put qs c q) + waiting_in (get qs c) ≡ waiting qs + waiting_in q
  unfolding sum_counts
  waiting-put qs light q = omega arith
  waiting-put qs heavy q = omega arith
  waiting-put qs process q = omega arith
  waiting-put qs document q = omega arith

  logged-append : (es fs : List Event) → logged_in (es ++ fs) ≡ logged_in es + logged_in fs
  logged-append [] fs = omega arith
  logged-append (starts t c ∷ es) fs = omega (arith, logged-append es fs)
  logged-append (rejects q e ∷ es) fs = omega (arith, logged-append es fs)

  waiting-append :
      (qs rs : List QueuedOperation) → waiting_in (qs ++ rs) ≡ waiting_in qs + waiting_in rs
  waiting-append [] rs = omega arith
  waiting-append (q ∷ qs) rs = omega (arith, waiting-append qs rs)

  module _ (s : Scheduler) (c : OperationClass) (q : QueuedOperation) (rest : List QueuedOperation)
      (e : get s.queues c ≡ q ∷ rest) where
    shift : waiting (put s.queues c rest) + one_if (q.task == task) ≡ waiting s.queues
    shift = omega (arith, waiting-put s.queues c rest, ap waiting_in e)

    round-occurrences :
        (aborted : ℕ → Bool) (now : ℕ)
        → (occurrences (drain_round aborted now c q rest s) ≡ occurrences s)
          × (get (drain_round aborted now c q rest s).queues c ≡ get (put s.queues c rest) c)
    unfolding drain_round cleanup_queued
    round-occurrences aborted now = elim (Bool-cases (is_aborted aborted q.signal)) [
      | inl a ↦ rw a (
        omega (arith, shift, logged-append s.log (rejects (cleanup_queued q) Error.cancelled ∷ [])),
        refl,
      )
      | inr a ↦ elim (Bool-cases (is_past_deadline q.deadline_at now)) [
        | inl p ↦
            rw (a, p)
              (
                omega (
                  arith,
                  shift,
                  logged-append s.log (rejects (cleanup_queued q) Error.deadline_exceeded ∷ []),
                ),
                refl,
              )
        | inr p ↦ rw (a, p) (omega (arith, shift, logged-append s.log (starts q.task c ∷ [])), refl)
      ]
    ]

  drain_loop-occurrences :
      (env : Env) (k : ℕ) (c : OperationClass) (qs : List QueuedOperation) (s : Scheduler)
      → get s.queues c ≡ qs
      → occurrences (drain_loop env k c qs s) ≡ occurrences s
  unfolding drain_loop
  drain_loop-occurrences env k c [] s e = refl
  drain_loop-occurrences env k c (q ∷ rest) s e =
      let now = round-occurrences s c q rest e env.aborted (env.now k) in
      elim (Bool-cases (ltb (get s.active c) (get s.concurrency c))) [
        | inl h ↦ rw h (
            drain_loop-occurrences env (suc k) c rest
              (drain_round env.aborted (env.now k) c q rest s)
              (now.1 ∙ get-put_self s.queues c rest)
            ∙ now.0)
        | inr h ↦ rw h refl
      ]

  finish-occurrences :
      (env : Env) (c : OperationClass) (t : ℕ) (s : Scheduler)
      → occurrences (finish env c t s) ≡ occurrences s
  unfolding finish drain
  finish-occurrences env c t s = drain_loop-occurrences env 0 c (get s.queues c) _ refl

  splice-waiting :
      (t : ℕ) (qs rest : List QueuedOperation)
      → splice t qs ≡ some rest
      → waiting_in rest + one_if (t == task) ≡ waiting_in qs
  unfolding splice
  splice-waiting t [] rest e = cc
  splice-waiting t (q ∷ qs) rest e = elim (Option-cases (splice t qs)) [
    | inl n ↦ ground arith
    | inr (r, f) ↦ ground (arith, splice-waiting t qs r f)
  ]

  cancel-occurrences :
      (q : QueuedOperation) (error : Error) (s : Scheduler)
      → occurrences (cancel q error s) ≡ occurrences s
  unfolding cancel cleanup_queued
  cancel-occurrences q error s = elim (Bool-cases q.started) [
    | inl b ↦ rw (b, cancel, remove_queued) refl
    | inr b ↦ elim (Option-cases (splice q.task (get s.queues q.operation_class))) [
      | inl n ↦ rw (b, n, cancel, remove_queued) refl
      | inr (rest, e) ↦
          rw (b, e, cancel, remove_queued)
            (omega (
              arith,
              splice-waiting q.task (get s.queues q.operation_class) rest e,
              waiting-put s.queues q.operation_class rest,
              logged-append s.log (rejects (cleanup_queued q) error ∷ []),
            ))
    ]
  ]

  -- What a call of `run` adds: the task, unless the call throws.
  abbrev pub added : ℕ → RunResult → ℕ
  added t (threw e) = 0
  added t running = one_if (t == task)
  added t queued = one_if (t == task)

  admit-occurrences :
      (env : Env) (c : OperationClass) (t : ℕ) (signal deadline : Option ℕ) (s : Scheduler)
      → occurrences (admit env c t signal deadline s).0
        ≡ occurrences s + added t (admit env c t signal deadline s).1
  unfolding admit start_immediately install_cancellation
  admit-occurrences env c t signal deadline s = elim (Bool-cases (is_aborted env.aborted signal)) [
    | inl e ↦ rw e (omega arith)
    | inr a ↦ elim (Bool-cases (is_past_deadline deadline (env.now 0))) [
      | inl e ↦ rw (a, e) (omega arith)
      | inr p ↦ elim (Bool-cases (ltb (get s.active c) (get s.concurrency c))) [
        | inl e ↦ rw (a, p, e) (omega (arith, logged-append s.log (starts t c ∷ [])))
        | inr f ↦ elim (Bool-cases (leb s.max_queue_size s.total_queued)) [
          | inl e ↦ rw (a, p, f, e) (omega arith)
          | inr g ↦
              elim (Bool-cases (leb (get s.max_queue_size_by_class c) (length (get s.queues c)))) [
                | inl e ↦ rw (a, p, f, g, e) (omega arith)
                | inr r ↦ rw (a, p, f, g, r) (enqueue t)
              ]
        ]
      ]
    ]
  ]
    where
      entry : ℕ → QueuedOperation
      entry u = install_cancellation (record {
        task = u;
        operation_class = c;
        signal = signal;
        on_abort = false;
        deadline_timer = false;
        deadline_at = deadline;
        started = false;
      })

      enqueue :
          (u : ℕ)
          → waiting (put s.queues c (get s.queues c ++ entry u ∷ [])) + logged_in s.log
            ≡ waiting s.queues + logged_in s.log + one_if (u == task)
      enqueue u = omega (
        arith,
        waiting-put s.queues c (get s.queues c ++ entry u ∷ []),
        waiting-append (get s.queues c) (entry u ∷ []),
      )

  run-occurrences :
      (env : Env) (name : String) (t : ℕ) (options : ScheduleOptions) (s : Scheduler)
      → occurrences (run env name t options s).0
        ≡ occurrences s + added t (run env name t options s).1
  unfolding run
  run-occurrences env name t options s = elim (Option-cases (assert_operation_class name)) [
    | inl e ↦ rw (e, run) (omega arith)
    | inr (c, e) ↦ elim (Option-cases (deadline_of options.deadline_at)) [
      | inl f ↦ rw (e, f, run) (omega arith)
      | inr (deadline, f) ↦ rw (e, f, run) (admit-occurrences env c t options.signal deadline s)
    ]
  ]

  -- How often the task was submitted by a call of `run` that did not throw.
  abbrev pub submitted : {s t : Scheduler} → Step s t → ℕ
  submitted {s} (submits env name t options) = added t (run env name t options s).1
  submitted (settles env c t h) = 0
  submitted (cancels q error) = 0

  abbrev pub submissions : {s t : Scheduler} → Reach s t → ℕ
  submissions here = 0
  submissions (next r st) = submissions r + submitted st

  Step-occurrences :
      {s t : Scheduler} (st : Step s t) → occurrences t ≡ occurrences s + submitted st
  Step-occurrences {s} (submits env name t options) = run-occurrences env name t options s
  Step-occurrences {s} (settles env c t h) = omega (arith, finish-occurrences env c t s)
  Step-occurrences {s} (cancels q error) = omega (arith, cancel-occurrences q error s)

  Reach-occurrences :
      {s t : Scheduler} (r : Reach s t) → occurrences t ≡ occurrences s + submissions r
  Reach-occurrences here = omega arith
  Reach-occurrences (next r st) = omega (arith, Step-occurrences st, Reach-occurrences r)

  initial-occurrences :
      (conc : PerClass ℕ) (m : ℕ) (by : PerClass ℕ) → occurrences (initial conc m by) ≡ 0
  unfolding sum_counts
  initial-occurrences conc m by = refl

  -- After any history of a new scheduler, each submission that `run` accepted is accounted for
  -- exactly once: the number of times that the task was accepted is the number of times that it
  -- stands in a queue, has been started, or has been rejected.
  pub submissions-occurrences :
      (options : SchedulerOptions) (s t : Scheduler)
      → create options ≡ some s
      → (r : Reach s t) → occurrences t ≡ submissions r
  submissions-occurrences options s t e r =
      let (conc, m, by, f, g) = create-initial options s e in
      omega (arith, Reach-occurrences r, initial-occurrences conc m by, ap occurrences g)
