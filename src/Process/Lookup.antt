-- ===== src/Process/Lookup.antt =====
-- Which process a lookup finds.
use mathlib.Core.Bool.{false≢true}
use desktop_remote.Common.{
  ℕ, suc, ◌≡◌, sym, ap, subst, ◌∙◌, Bool, true, false, Option, some, List, [], ◌∷◌, leb, ltb,
  if◌then◌else◌, length, or_default, Bool-cases, inl, inr, arith, ◌==◌,
}
use desktop_remote.Events.{Text}
use desktop_remote.Common.Dict.{
  find, count_values, DistinctKeys, find-put, find-delete, DistinctKeys-put,
}
use desktop_remote.Process.Table.{
  ProcessManager, ManagedProcess, is_running, evict, evict_oldest, evict_completed_by_count,
  completed_by_time, evict_expired_loop, is_expired, evict_expired_sessions, update, on_exit, start,
  get_managed, new_process,
}
use desktop_remote.Process.Retention.{evict_cases, evict-DistinctKeys}
use desktop_remote.Process.Sound.{IsSound, update_cases}

==→eq : (a b : ℕ) → (a == b) ≡ true → a ≡ b
==→eq a b e = ground arith

-- A process that runs stays in the table.
abbrev Stays : ℕ → ManagedProcess → ProcessManager → Type 0
Stays pid x s = (find pid s.processes ≡ some x) × DistinctKeys s.processes

module _ (pid : ℕ) (x : ManagedProcess) (runs : is_running x ≡ true) where
  evict-Stays : (m : ManagedProcess) (s : ProcessManager) → Stays pid x s → Stays pid x (evict m s)
  evict-Stays m s (e, d) = (
    elim (evict_cases m s) [
      | inl same ↦ subst (λ t. find pid t.processes ≡ some x) (sym same) e
      | inr (gone, (held, f, over)) ↦
          subst (λ t. find pid t.processes ≡ some x) (sym gone)
            (find-delete m.pid pid s.processes d ∙ elim (Bool-cases (m.pid == pid)) [
              | inr g ↦ rw g e
              | inl g ↦ absurd (false≢true (sym over ∙ ap is_running (same_found held f g) ∙ runs))
            ])
    ],
    evict-DistinctKeys m s d,
  )
    where
      same_found :
          (held : ManagedProcess)
          → find m.pid s.processes ≡ some held
          → (m.pid == pid) ≡ true
          → held ≡ x
      same_found held f g = let same : m.pid ≡ pid = ==→eq m.pid pid g in cc

  evict_oldest-Stays :
      (ms : List ManagedProcess) (s : ProcessManager)
      → Stays pid x s
      → Stays pid x (evict_oldest ms s)
  unfolding evict_oldest
  evict_oldest-Stays [] s h = h
  evict_oldest-Stays (m ∷ ms) s h = elim (Bool-cases (ltb s.max_retained (suc (length ms)))) [
    | inl e ↦ rw e (evict_oldest-Stays ms (evict m s) (evict-Stays m s h))
    | inr e ↦ rw e h
  ]

  if_evict-Stays :
      (b : Bool) (m : ManagedProcess) (s : ProcessManager)
      → Stays pid x s
      → Stays pid x (if b then evict m s else s)
  if_evict-Stays true m s h = evict-Stays m s h
  if_evict-Stays false m s h = h

  evict_expired-Stays :
      (now : ℕ) (entries : List (ℕ × ManagedProcess)) (s : ProcessManager)
      → Stays pid x s
      → Stays pid x (evict_expired_loop now entries s)
  unfolding evict_expired_loop
  evict_expired-Stays now [] s h = h
  evict_expired-Stays now ((k, m) ∷ rest) s h =
      evict_expired-Stays now rest (if is_expired s.completed_ttl now m then evict m s else s)
        (if_evict-Stays (is_expired s.completed_ttl now m) m s h)

  update-Stays :
      (m : ManagedProcess) (change : ManagedProcess → ManagedProcess) (s : ProcessManager)
      → (m.pid == pid) ≡ false
      → Stays pid x s
      → Stays pid x (update m change s)
  update-Stays m change s g (e, d) = elim (update_cases m change s) [
    | inl same ↦ subst (Stays pid x) (sym same) (e, d)
    | inr (held, f, same) ↦ subst (Stays pid x) (sym same) (
      find-put m.pid pid (change held) s.processes ∙ rw g e,
      DistinctKeys-put m.pid (change held) s.processes d,
    )
  ]

  on_exit-Stays :
      (m : ManagedProcess) (code : Option ℕ) (now : ℕ) (s : ProcessManager)
      → (m.pid == pid) ≡ false
      → Stays pid x s
      → Stays pid x (on_exit m code now s)
  unfolding on_exit evict_completed_by_count
  on_exit-Stays m code now s g h = either (counted.completed_ttl == 0)
    where
      marked : ProcessManager
      marked =
          update m
            (λ held. record held {
              exit_code = some (or_default code 1);
              timeout_timer = false;
              completed_at = some now;
            })
            s

      counted : ProcessManager
      counted = evict_oldest (completed_by_time marked.processes) marked

      counted-Stays : Stays pid x counted
      counted-Stays =
          evict_oldest-Stays (completed_by_time marked.processes) marked (update-Stays m _ s g h)

      either :
          (b : Bool)
          → Stays pid x (
              if b
              then evict m counted
              else update m (λ held. record held { eviction_timer = true }) counted)
      either true = evict-Stays m counted counted-Stays
      either false =
          update-Stays m (λ held. record held { eviction_timer = true }) counted g counted-Stays

  -- In a table that is in order, a process that runs is found under its pid at any time, and it still
  -- is in the table after a process with another pid has ended.
  pub running_stays :
      (s : ProcessManager) (other : ManagedProcess) (code : Option ℕ) (now later : ℕ)
      → IsSound s
      → find pid s.processes ≡ some x
      → (other.pid == pid) ≡ false
      → ((get_managed later (inl pid) s).1 ≡ some x)
        × (find pid (on_exit other code now s).processes ≡ some x)
  unfolding get_managed evict_expired_sessions
  running_stays s other code now later v e g = (
    (evict_expired-Stays later s.processes s (e, v.distinct)).0,
    (on_exit-Stays other code now s g (e, v.distinct)).0,
  )

-- If the system gives a new process the pid to which the id of an older session still leads once the
-- expired sessions are gone, the new id is another one and there is room for the process, then after
-- `start` the id of the older session leads to the new process.
pub reused_pid :
    (s : ProcessManager) (old_id fresh pid now : ℕ) (cwd : Text) (timeout : Bool)
    → find old_id (evict_expired_sessions now s).ids ≡ some pid
    → (fresh == old_id) ≡ false
    → leb
        (evict_expired_sessions now s).max_concurrent
        (count_values is_running (evict_expired_sessions now s).processes)
      ≡ false
    → (find old_id (start now fresh (some pid) cwd timeout s).0.ids ≡ some pid)
      × (find pid (start now fresh (some pid) cwd timeout s).0.processes
          ≡ some (new_process fresh pid cwd timeout (evict_expired_sessions now s).max_output))
unfolding start
reused_pid s old_id fresh pid now cwd timeout e f room = rw room (
  find-put fresh old_id pid (evict_expired_sessions now s).ids ∙ rw f e,
  find-put pid pid (new_process fresh pid cwd timeout (evict_expired_sessions now s).max_output)
        (evict_expired_sessions now s).processes
      ∙ ground arith,
)
