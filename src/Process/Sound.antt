-- ===== src/Process/Sound.antt =====
-- What holds of the table of processes in every state.
use desktop_remote.Common.{
  ℕ, suc, ◌≤◌, ◌≡◌, refl, sym, ap, subst, ◌∙◌, Bool, true, false, not, Option, some, List, [], ◌∷◌,
  ◌++◌, or_default, ltb, if◌then◌else◌, length, is_some, Bool-cases, Option-cases, inl, inr, arith,
  ◌⊎◌, ◌==◌,
}
use desktop_remote.Common.Dict.{
  find, put, count_values, DistinctKeys, find-put, DistinctKeys-put, count_values-put,
  count_values-put_old,
}
use desktop_remote.Process.Table.{
  ProcessManager, ManagedProcess, is_running, is_completed, evict, evict_oldest,
  evict_completed_by_count, evict_expired_loop, is_expired, evict_expired_sessions, update, on_exit,
  on_output, on_timeout, after_grace, request_termination, Signal, sigterm, sigkill,
  completed_by_time, send_signal,
}
use desktop_remote.Process.Retention.{
  IsKnown, AllKnown, evict_before, evict-DistinctKeys, evict_settings, evict-count,
  evict_completed-retained,
}

-- The table is in order, at most `max_concurrent` processes run, and at most `max_retained` sessions
-- are kept after their end.
pub record IsSound (s : ProcessManager) : Type 0 where
  pub known : AllKnown s.processes
  pub distinct : DistinctKeys s.processes
  pub limited : count_values is_running s.processes ≤ s.max_concurrent
  pub retained : count_values is_completed s.processes ≤ s.max_retained

-- Nothing but evictions lies between two states.
record Shrinks (s t : ProcessManager) : Type 0 where
  pub before :
      (k : ℕ) (x : ManagedProcess) → find k t.processes ≡ some x → find k s.processes ≡ some x
  pub distinct : DistinctKeys t.processes
  pub fewer : (p : ManagedProcess → Bool) → count_values p t.processes ≤ count_values p s.processes
  pub same_retained : t.max_retained ≡ s.max_retained
  pub same_concurrent : t.max_concurrent ≡ s.max_concurrent

Shrinks-refl : (s : ProcessManager) → DistinctKeys s.processes → Shrinks s s
Shrinks-refl s d = record {
  before = λ k x e. e;
  distinct = d;
  fewer = λ p. omega arith;
  same_retained = refl;
  same_concurrent = refl;
}

Shrinks-trans : (s t u : ProcessManager) → Shrinks s t → Shrinks t u → Shrinks s u
Shrinks-trans s t u a b = record {
  before = λ k x e. a.before k x (b.before k x e);
  distinct = b.distinct;
  fewer = λ p. omega (arith, a.fewer p, b.fewer p);
  same_retained = b.same_retained ∙ a.same_retained;
  same_concurrent = b.same_concurrent ∙ a.same_concurrent;
}

evict-Shrinks :
    (m : ManagedProcess) (s : ProcessManager) → DistinctKeys s.processes → Shrinks s (evict m s)
evict-Shrinks m s d = record {
  before = λ k x e. evict_before m s k x d e;
  distinct = evict-DistinctKeys m s d;
  fewer = λ p. evict-count p m s;
  same_retained = (evict_settings m s).0;
  same_concurrent = (evict_settings m s).1;
}

evict_oldest-Shrinks :
    (ms : List ManagedProcess) (s : ProcessManager)
    → DistinctKeys s.processes
    → Shrinks s (evict_oldest ms s)
unfolding evict_oldest
evict_oldest-Shrinks [] s d = Shrinks-refl s d
evict_oldest-Shrinks (m ∷ ms) s d = elim (Bool-cases (ltb s.max_retained (suc (length ms)))) [
  | inl e ↦ rw e (
      Shrinks-trans s (evict m s) _ (evict-Shrinks m s d)
        (evict_oldest-Shrinks ms (evict m s) (evict-DistinctKeys m s d)))
  | inr e ↦ rw e (Shrinks-refl s d)
]

evict_completed_by_count-Shrinks :
    (s : ProcessManager) → DistinctKeys s.processes → Shrinks s (evict_completed_by_count s)
unfolding evict_completed_by_count
evict_completed_by_count-Shrinks s d = evict_oldest-Shrinks (completed_by_time s.processes) s d

evict_expired_loop-Shrinks :
    (now : ℕ) (entries : List (ℕ × ManagedProcess)) (s : ProcessManager)
    → DistinctKeys s.processes
    → Shrinks s (evict_expired_loop now entries s)
unfolding evict_expired_loop
evict_expired_loop-Shrinks now [] s d = Shrinks-refl s d
evict_expired_loop-Shrinks now ((k, m) ∷ rest) s d =
    elim (Bool-cases (is_expired s.completed_ttl now m)) [
      | inl e ↦ rw e (
          Shrinks-trans s (evict m s) _ (evict-Shrinks m s d)
            (evict_expired_loop-Shrinks now rest (evict m s) (evict-DistinctKeys m s d)))
      | inr e ↦ rw e (evict_expired_loop-Shrinks now rest s d)
    ]

evict_expired-Shrinks :
    (now : ℕ) (s : ProcessManager)
    → DistinctKeys s.processes
    → Shrinks s (evict_expired_sessions now s)
unfolding evict_expired_sessions
evict_expired-Shrinks now s d = evict_expired_loop-Shrinks now s.processes s d

Shrinks-IsSound : (s t : ProcessManager) → Shrinks s t → IsSound s → IsSound t
Shrinks-IsSound s t h v = record {
  known = λ k x e. v.known k x (h.before k x e);
  distinct = h.distinct;
  limited = omega (arith, h.fewer is_running, v.limited, h.same_concurrent);
  retained = omega (arith, h.fewer is_completed, v.retained, h.same_retained);
}

pub evict_expired-IsSound :
    (now : ℕ) (s : ProcessManager) → IsSound s → IsSound (evict_expired_sessions now s)
evict_expired-IsSound now s v = Shrinks-IsSound s _ (evict_expired-Shrinks now s v.distinct) v

-- A change of an object's fields: the entry that it touches, or nothing.
pub update_cases :
    (m : ManagedProcess) (change : ManagedProcess → ManagedProcess) (s : ProcessManager)
    → (update m change s ≡ s)
      ⊎ ((held : ManagedProcess) × (find m.pid s.processes ≡ some held)
          × (update m change s ≡ record s { processes = put m.pid (change held) s.processes }))
unfolding update
update_cases m change s = elim (Option-cases (find m.pid s.processes)) [
  | inl e ↦ inl (rw (e, update) refl)
  | inr (held, e) ↦ elim (Bool-cases (held.id == m.id)) [
    | inr f ↦ inl (rw (e, f, update) refl)
    | inl f ↦ inr (held, e, rw (e, f, update) refl)
  ]
]

==→eq : (a b : ℕ) → (a == b) ≡ true → a ≡ b
==→eq a b e = ground arith

pub put-AllKnown :
    (k : ℕ) (m : ManagedProcess) (processes : List (ℕ × ManagedProcess))
    → AllKnown processes
    → IsKnown k m
    → AllKnown (put k m processes)
put-AllKnown k m processes a n j x e = elim (Bool-cases (k == j)) [
  | inl f ↦
      let same : m ≡ x = cc (simp f at (sym (find-put k j m processes) ∙ e)) in
      subst (IsKnown j) same (subst (λ i. IsKnown i m) (==→eq k j f) n)
  | inr f ↦ a j x (simp f at (sym (find-put k j m processes) ∙ e))
]

-- Two states of a process with the same pid and the same progress.
abbrev pub SameProgress : ManagedProcess → ManagedProcess → Type 0
SameProgress y x =
    (y.pid ≡ x.pid) × (is_running y ≡ is_running x) × (is_completed y ≡ is_completed x)

abbrev pub Harmless : (ManagedProcess → ManagedProcess) → Type 0
Harmless change = (x : ManagedProcess) → SameProgress (change x) x

either_SameProgress :
    (b : Bool) (x y z : ManagedProcess)
    → SameProgress y x
    → SameProgress z x
    → SameProgress (if b then y else z) x
either_SameProgress true x y z h k = h
either_SameProgress false x y z h k = k

same_count :
    (p : ManagedProcess → Bool) (k : ℕ) (a b : ManagedProcess)
    (processes : List (ℕ × ManagedProcess))
    → find k processes ≡ some b
    → p a ≡ p b
    → count_values p (put k a processes) ≡ count_values p processes
same_count p k a b processes e same = ground (arith, count_values-put_old p k a b processes e, same)

pub update-IsSound :
    (m : ManagedProcess) (change : ManagedProcess → ManagedProcess) (s : ProcessManager)
    → Harmless change
    → IsSound s
    → IsSound (update m change s)
update-IsSound m change s h v = elim (update_cases m change s) [
  | inl same ↦ subst IsSound (sym same) v
  | inr (held, e, same) ↦ subst IsSound (sym same) (record {
    known = put-AllKnown m.pid (change held) s.processes v.known (record {
      same_pid = (h held).0 ∙ (v.known m.pid held e).same_pid;
      ended = (h held).2 ∙ (v.known m.pid held e).ended ∙ ap not (sym (h held).1);
    });
    distinct = DistinctKeys-put m.pid (change held) s.processes v.distinct;
    limited =
        omega (
          arith,
          v.limited,
          same_count is_running m.pid (change held) held s.processes e (h held).1,
        );
    retained = omega (
      arith,
      v.retained,
      same_count is_completed m.pid (change held) held s.processes e (h held).2,
    );
  })
]

pub output-Harmless : (is_stdout : Bool) (bytes : List ℕ) → Harmless (on_output is_stdout bytes)
unfolding on_output
output-Harmless true bytes x = (refl, refl, refl)
output-Harmless false bytes x = (refl, refl, refl)

send_signal-Harmless : (signal : Signal) → Harmless (send_signal signal)
unfolding send_signal
send_signal-Harmless signal x =
    either_SameProgress (is_running x) x (record x { signals = x.signals ++ signal ∷ [] }) x
      (refl, refl, refl) (refl, refl, refl)

pub request_termination-Harmless : Harmless request_termination
unfolding request_termination
request_termination-Harmless x =
    either_SameProgress x.termination_requested x x _ (refl, refl, refl)
      (send_signal-Harmless sigterm (record x { termination_requested = true }))

pub after_grace-Harmless : Harmless after_grace
unfolding after_grace
after_grace-Harmless x = send_signal-Harmless sigkill x

pub on_timeout-Harmless : Harmless on_timeout
unfolding on_timeout
on_timeout-Harmless x =
    either_SameProgress (is_some x.exit_code) x x _ (refl, refl, refl)
      (request_termination-Harmless (record x { timed_out = true }))

-- The state after the exit code and the time of the end have been noted.
noted : Option ℕ → ℕ → ManagedProcess → ManagedProcess
noted code now held = record held {
  exit_code = some (or_default code 1);
  timeout_timer = false;
  completed_at = some now;
}

-- All of the invariant but the limit on completed sessions.
record IsOrdered (s : ProcessManager) : Type 0 where
  pub known : AllKnown s.processes
  pub distinct : DistinctKeys s.processes
  pub limited : count_values is_running s.processes ≤ s.max_concurrent

noted-IsOrdered :
    (m : ManagedProcess) (code : Option ℕ) (now : ℕ) (s : ProcessManager)
    → IsSound s
    → IsOrdered (update m (noted code now) s)
unfolding noted
noted-IsOrdered m code now s v = elim (update_cases m (noted code now) s) [
  | inl same ↦
      subst IsOrdered (sym same)
        (record { known = v.known; distinct = v.distinct; limited = v.limited })
  | inr (held, e, same) ↦ subst IsOrdered (sym same) (record {
    known =
        put-AllKnown m.pid (noted code now held) s.processes v.known
          (record { same_pid = (v.known m.pid held e).same_pid; ended = refl });
    distinct = DistinctKeys-put m.pid (noted code now held) s.processes v.distinct;
    limited =
        omega
          (arith, v.limited, count_values-put is_running m.pid (noted code now held) s.processes);
  })
]

counted-IsSound : (s : ProcessManager) → IsOrdered s → IsSound (evict_completed_by_count s)
counted-IsSound s v =
    let h = evict_completed_by_count-Shrinks s v.distinct in
    record {
      known = λ k x e. v.known k x (h.before k x e);
      distinct = h.distinct;
      limited = omega (arith, h.fewer is_running, v.limited, h.same_concurrent);
      retained = omega (arith, evict_completed-retained s v.known v.distinct, h.same_retained);
    }

pub on_exit-IsSound :
    (m : ManagedProcess) (code : Option ℕ) (now : ℕ) (s : ProcessManager)
    → IsSound s
    → IsSound (on_exit m code now s)
unfolding on_exit noted
on_exit-IsSound m code now s v =
    let counted = evict_completed_by_count (update m (noted code now) s) in
    let w = counted-IsSound (update m (noted code now) s) (noted-IsOrdered m code now s v) in
    elim (Bool-cases (counted.completed_ttl == 0)) [
      | inl e ↦ rw e (Shrinks-IsSound counted _ (evict-Shrinks m counted w.distinct) w)
      | inr e ↦ rw e (update-IsSound m _ counted (λ x. (refl, refl, refl)) w)
    ]

pub evict-IsSound : (m : ManagedProcess) (s : ProcessManager) → IsSound s → IsSound (evict m s)
evict-IsSound m s v = Shrinks-IsSound s _ (evict-Shrinks m s v.distinct) v
