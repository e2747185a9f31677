-- ===== src/Process/Steps.antt =====
-- The table of processes as a state machine.
use desktop_remote.Common.{
  ℕ, ◌≤◌, ◌<◌, ◌≡◌, refl, sym, subst, Bool, Option, none, some, List, [], leb, leb→gt, Bool-cases,
  Option-cases, inl, inr, arith, ◌⊎◌,
}
use desktop_remote.Events.{Text}
use desktop_remote.Common.Dict.{
  find, put, count_values, DistinctKeys, DistinctKeys-put, count_values-put,
}
use desktop_remote.Process.Table.{
  ProcessManager, ProcessManagerOptions, ManagedProcess, is_running, is_completed,
  evict_expired_sessions, update, on_exit, on_eviction, on_output, on_timeout, after_grace,
  request_termination, start, get_managed, terminate, create_manager, new_process,
}
use desktop_remote.Process.Sound.{
  IsSound, evict_expired-IsSound, put-AllKnown, update-IsSound, on_exit-IsSound, evict-IsSound,
  output-Harmless, on_timeout-Harmless, after_grace-Harmless, request_termination-Harmless,
}

none_found : (k : ℕ) (m : ManagedProcess) → find k [] ≡ some m → ⊥
unfolding find
none_found k m e = cc e

none_counted : (p : ManagedProcess → Bool) (n : ℕ) → count_values p [] ≤ n
unfolding count_values
none_counted p n = omega arith

started-IsSound :
    (fresh pid : ℕ) (cwd : Text) (timeout : Bool) (s : ProcessManager)
    → IsSound s
    → count_values is_running s.processes < s.max_concurrent
    → IsSound (record s {
      processes = put pid (new_process fresh pid cwd timeout s.max_output) s.processes;
      ids = put fresh pid s.ids;
    })
started-IsSound fresh pid cwd timeout s v room = record {
  known =
      put-AllKnown pid (new_process fresh pid cwd timeout s.max_output) s.processes v.known
        (record { same_pid = refl; ended = refl });
  distinct =
      DistinctKeys-put pid (new_process fresh pid cwd timeout s.max_output) s.processes v.distinct;
  limited = omega (
    arith,
    count_values-put is_running pid (new_process fresh pid cwd timeout s.max_output) s.processes,
    room,
  );
  retained = omega (
    arith,
    count_values-put is_completed pid (new_process fresh pid cwd timeout s.max_output) s.processes,
    v.retained,
  );
}

start-IsSound :
    (now fresh : ℕ) (spawned : Option ℕ) (cwd : Text) (timeout : Bool) (s : ProcessManager)
    → IsSound s
    → IsSound (start now fresh spawned cwd timeout s).0
unfolding start
start-IsSound now fresh none cwd timeout s v =
    elim (Bool-cases (
      leb (evict_expired_sessions now s).max_concurrent
        (count_values is_running (evict_expired_sessions now s).processes))) [
          | inl e ↦ rw e (evict_expired-IsSound now s v)
          | inr e ↦ rw e (evict_expired-IsSound now s v)
        ]
start-IsSound now fresh (some pid) cwd timeout s v =
    elim (Bool-cases (
      leb (evict_expired_sessions now s).max_concurrent
        (count_values is_running (evict_expired_sessions now s).processes))) [
          | inl e ↦ rw e (evict_expired-IsSound now s v)
          | inr e ↦ rw e (
              started-IsSound fresh pid cwd timeout (evict_expired_sessions now s)
                (evict_expired-IsSound now s v) (leb→gt _ _ e))
        ]

swept_state :
    (now : ℕ) (key : ℕ ⊎ ℕ) (s : ProcessManager)
    → (get_managed now key s).0 ≡ evict_expired_sessions now s
unfolding get_managed
swept_state now (inl pid) s = refl
swept_state now (inr id) s = refl

get_managed-IsSound :
    (now : ℕ) (key : ℕ ⊎ ℕ) (s : ProcessManager) → IsSound s → IsSound (get_managed now key s).0
get_managed-IsSound now key s v =
    subst IsSound (sym (swept_state now key s)) (evict_expired-IsSound now s v)

terminate-IsSound : (now pid : ℕ) (s : ProcessManager) → IsSound s → IsSound (terminate now pid s).0
unfolding terminate
terminate-IsSound now pid s v = elim (Option-cases (get_managed now (inl pid) s).1) [
  | inl e ↦ rw (e, terminate) (get_managed-IsSound now (inl pid) s v)
  | inr (m, e) ↦
      rw (e, terminate)
        (update-IsSound m request_termination _ request_termination-Harmless
          (get_managed-IsSound now (inl pid) s v))
]

-- The states of a manager from its construction on. A process may exit, write, or be timed out at any
-- time, and any pid may be given to a new one.
pub data Reach (options : ProcessManagerOptions) : ProcessManager → Type 0 where
  created : (s : ProcessManager) → create_manager options ≡ some s → Reach options s
  started :
      (now fresh : ℕ) (spawned : Option ℕ) (cwd : Text) (timeout : Bool) (s : ProcessManager)
      → Reach options s
      → Reach options (start now fresh spawned cwd timeout s).0
  exited :
      (m : ManagedProcess) (code : Option ℕ) (now : ℕ) (s : ProcessManager)
      → Reach options s
      → Reach options (on_exit m code now s)
  evicted :
      (m : ManagedProcess) (s : ProcessManager) → Reach options s → Reach options (on_eviction m s)
  wrote :
      (m : ManagedProcess) (is_stdout : Bool) (bytes : List ℕ) (s : ProcessManager)
      → Reach options s
      → Reach options (update m (on_output is_stdout bytes) s)
  timed :
      (m : ManagedProcess) (s : ProcessManager)
      → Reach options s
      → Reach options (update m on_timeout s)
  graced :
      (m : ManagedProcess) (s : ProcessManager)
      → Reach options s
      → Reach options (update m after_grace s)
  terminated :
      (now pid : ℕ) (s : ProcessManager) → Reach options s → Reach options (terminate now pid s).0
  looked_up :
      (now : ℕ) (key : ℕ ⊎ ℕ) (s : ProcessManager)
      → Reach options s
      → Reach options (get_managed now key s).0

created_empty :
    (options : ProcessManagerOptions) (s : ProcessManager)
    → create_manager options ≡ some s
    → s.processes ≡ []
unfolding create_manager
created_empty options s e = ground arith

empty-IsSound : (s : ProcessManager) → s.processes ≡ [] → IsSound s
empty-IsSound s e = record {
  known = λ k m f. absurd (none_found k m (subst (λ x. find k x ≡ some m) e f));
  distinct = subst DistinctKeys (sym e) tt;
  limited =
      subst (λ x. count_values is_running x ≤ s.max_concurrent) (sym e)
        (none_counted is_running s.max_concurrent);
  retained =
      subst (λ x. count_values is_completed x ≤ s.max_retained) (sym e)
        (none_counted is_completed s.max_retained);
}

created-IsSound :
    (options : ProcessManagerOptions) (s : ProcessManager)
    → create_manager options ≡ some s
    → IsSound s
created-IsSound options s e = empty-IsSound s (created_empty options s e)

-- In every state of a process manager at most `maxConcurrentProcesses` of its processes run, at most
-- `maxRetainedSessions` completed sessions are kept, each pid is in the table once with a process of
-- that pid, and a session counts as completed exactly if it has an exit code.
pub Reach-IsSound :
    (options : ProcessManagerOptions) (s : ProcessManager) → Reach options s → IsSound s
unfolding on_eviction
Reach-IsSound o s (created t e) = created-IsSound o s e
Reach-IsSound o s (started now fresh spawned cwd timeout t r) =
    start-IsSound now fresh spawned cwd timeout t (Reach-IsSound o t r)
Reach-IsSound o s (exited m code now t r) = on_exit-IsSound m code now t (Reach-IsSound o t r)
Reach-IsSound o s (evicted m t r) = evict-IsSound m t (Reach-IsSound o t r)
Reach-IsSound o s (wrote m b bytes t r) =
    update-IsSound m (on_output b bytes) t (output-Harmless b bytes) (Reach-IsSound o t r)
Reach-IsSound o s (timed m t r) =
    update-IsSound m on_timeout t on_timeout-Harmless (Reach-IsSound o t r)
Reach-IsSound o s (graced m t r) =
    update-IsSound m after_grace t after_grace-Harmless (Reach-IsSound o t r)
Reach-IsSound o s (terminated now pid t r) = terminate-IsSound now pid t (Reach-IsSound o t r)
Reach-IsSound o s (looked_up now key t r) = get_managed-IsSound now key t (Reach-IsSound o t r)
