-- ===== src/Scheduler/Drain.antt =====
-- What `drain` does with a queue: first come, first served, until the class is full.
use desktop_remote.Common.{
  ℕ, zero, suc, ◌+◌, ◌≡◌, refl, sym, ap, ◌∙◌, inl, inr, Bool, false, List, [], ◌∷◌, ◌++◌, ltb,
  ltb→lt, ltb→ge, if◌then◌else◌, Bool-cases, drop, arith,
}
use mathlib.Core.List.{append_assoc, append-nil}
use desktop_remote.Scheduler.Classes.{OperationClass, class_eq, get, get-put, get-put_self}
use desktop_remote.Scheduler.State.{
  Scheduler, QueuedOperation, Env, Event, starts, rejects, cancelled, deadline_exceeded,
}
use desktop_remote.Scheduler.Invariant.{IsSound, BusyAt, drain_round-IsSound}
use desktop_remote.Scheduler.{
  drain_round, drain_loop, drain, is_aborted, is_past_deadline, cleanup_queued,
}

-- The classes other than `c` have no idle capacity while something waits.
abbrev pub OthersBusy : OperationClass → Scheduler → Type 0
OthersBusy c s = (d : OperationClass) → class_eq c d ≡ false → BusyAt s d

-- What becomes of an entry that reaches the head of the queue when the clock says `now`.
pub fate : (ℕ → Bool) → ℕ → OperationClass → QueuedOperation → Event
fate aborted now c q =
    if is_aborted aborted q.signal
    then rejects (cleanup_queued q) cancelled
    else if is_past_deadline q.deadline_at now
    then rejects (cleanup_queued q) deadline_exceeded
    else starts q.task c

-- The fates of the first `n` entries, in their order.
pub fates : Env → ℕ → OperationClass → ℕ → List QueuedOperation → List Event
fates env k c zero qs = []
fates env k c (suc n) [] = []
fates env k c (suc n) (q ∷ qs) = fate env.aborted (env.now k) c q ∷ fates env (suc k) c n qs

abbrev pub start_count : List Event → ℕ
start_count [] = 0
start_count (starts task c ∷ es) = suc (start_count es)
start_count (rejects q e ∷ es) = start_count es

module _ (aborted : ℕ → Bool) (now : ℕ) (c : OperationClass) (q : QueuedOperation)
    (rest : List QueuedOperation) (s : Scheduler) where
  round-queue : get (drain_round aborted now c q rest s).queues c ≡ rest
  unfolding drain_round
  round-queue = ground (arith, get-put_self s.queues c rest)

  round-concurrency : (drain_round aborted now c q rest s).concurrency ≡ s.concurrency
  unfolding drain_round
  round-concurrency = ground arith

  round-log : (drain_round aborted now c q rest s).log ≡ s.log ++ fate aborted now c q ∷ []
  unfolding drain_round fate
  round-log = ground arith

  round-active :
      get (drain_round aborted now c q rest s).active c
      ≡ get s.active c + start_count (fate aborted now c q ∷ [])
  unfolding drain_round fate
  round-active = ground (arith, get-put_self s.active c (get s.active c + 1))

  round-other :
      (d : OperationClass)
      → class_eq c d ≡ false
      → (get (drain_round aborted now c q rest s).active d ≡ get s.active d)
        × (get (drain_round aborted now c q rest s).queues d ≡ get s.queues d)
  unfolding drain_round
  round-other d e =
      ground (arith, get-put s.active c d (get s.active c + 1), get-put s.queues c d rest)

-- The state `t` comes from `s` by draining the queue `qs` of class `c`, from the k-th reading of
-- the clock on.
pub record IsDrained (env : Env) (k : ℕ) (c : OperationClass) (qs : List QueuedOperation)
    (s t : Scheduler) : Type 0 where
  pub settled : ℕ
  pub queue : get t.queues c ≡ drop settled qs
  pub log : t.log ≡ s.log ++ fates env k c settled qs
  pub active : get t.active c ≡ get s.active c + start_count (fates env k c settled qs)
  pub full : BusyAt t c
  pub sound : IsSound t
  pub others : OthersBusy c t

round-others :
    (aborted : ℕ → Bool) (now : ℕ) (c : OperationClass) (q : QueuedOperation)
    (rest : List QueuedOperation) (s : Scheduler)
    → OthersBusy c s
    → OthersBusy c (drain_round aborted now c q rest s)
round-others aborted now c q rest s h d e =
    let other = round-other aborted now c q rest s d e in
    rw (round-concurrency aborted now c q rest s, other.0, other.1) (h d e)

start_count-cons :
    (e : Event) (es : List Event) → start_count (e ∷ es) ≡ start_count (e ∷ []) + start_count es
start_count-cons (starts task c) es = omega arith
start_count-cons (rejects q e) es = omega arith

module _ (env : Env) (c : OperationClass) where
  abbrev step : ℕ → QueuedOperation → List QueuedOperation → Scheduler → Scheduler
  step k q rest s = drain_round env.aborted (env.now k) c q rest s

  IsDrained-cons :
      (k : ℕ) (q : QueuedOperation) (rest : List QueuedOperation) (s t : Scheduler)
      → IsDrained env (suc k) c rest (step k q rest s) t
      → IsDrained env k c (q ∷ rest) s t
  unfolding fates
  IsDrained-cons k q rest s t r = record {
    settled = suc r.settled;
    queue = r.queue;
    log =
        r.log
        ∙ ap (λ l. l ++ fates env (suc k) c r.settled rest)
            (round-log env.aborted (env.now k) c q rest s)
        ∙ append_assoc s.log (fate env.aborted (env.now k) c q ∷ [])
            (fates env (suc k) c r.settled rest);
    active = omega (
      arith,
      r.active,
      round-active env.aborted (env.now k) c q rest s,
      start_count-cons (fate env.aborted (env.now k) c q) (fates env (suc k) c r.settled rest),
    );
    full = r.full;
    sound = r.sound;
    others = r.others;
  }

  stop-IsDrained :
      (k : ℕ) (qs : List QueuedOperation) (s : Scheduler)
      → get s.queues c ≡ qs
      → IsSound s
      → OthersBusy c s
      → BusyAt s c
      → IsDrained env k c qs s s
  unfolding fates
  stop-IsDrained k qs s e v o b = record {
    settled = 0;
    queue = e;
    log = sym (append-nil _);
    active = omega arith;
    full = b;
    sound = v;
    others = o;
  }

  drain_loop-IsDrained :
      (k : ℕ) (qs : List QueuedOperation) (s : Scheduler)
      → get s.queues c ≡ qs
      → IsSound s
      → OthersBusy c s
      → IsDrained env k c qs s (drain_loop env k c qs s)
  unfolding drain_loop
  drain_loop-IsDrained k [] s e v o = stop-IsDrained k [] s e v o (inl e)
  drain_loop-IsDrained k (q ∷ rest) s e v o =
      elim (Bool-cases (ltb (get s.active c) (get s.concurrency c))) [
        | inl h ↦ rw h (
            IsDrained-cons k q rest s _ (
              drain_loop-IsDrained (suc k) rest (step k q rest s)
                (round-queue env.aborted (env.now k) c q rest s)
                (drain_round-IsSound c q rest v e env.aborted (env.now k) (ltb→lt _ _ h))
                (round-others env.aborted (env.now k) c q rest s o)))
        | inr h ↦ rw h (
            stop-IsDrained k (q ∷ rest) s e v o
              (inr (omega (arith, ltb→ge _ _ h, (v.lanes c).within))))
      ]

pub drain-IsDrained :
    (env : Env) (c : OperationClass) (s : Scheduler)
    → IsSound s
    → OthersBusy c s
    → IsDrained env 0 c (get s.queues c) s (drain env c s)
unfolding drain
drain-IsDrained env c s v o = drain_loop-IsDrained env c 0 (get s.queues c) s refl v o
