-- ===== src/Process/Tests.antt =====
-- A manager with two processes, of which one has ended.
use desktop_remote.Common.{
  joined, leb, ℕ, ◌*◌, ◌≡◌, refl, true, false, none, some, List, [], ◌∷◌, inl,
}
use desktop_remote.Common.Int.{safe_integer, pos}
use desktop_remote.Common.Dict.{find, put, count_values}
use desktop_remote.Process.Buffer.{new_buffer, append, read}
use desktop_remote.Process.Retained.{Holds, append_all, append_all-new_buffer}
use desktop_remote.Process.Reading.{IsSlice, read-IsSlice}
use desktop_remote.Process.Table.{
  ProcessManager, ProcessManagerOptions, ManagedProcess, create_manager, start, on_exit,
  get_managed, new_process, evict_expired_sessions, is_running,
}
use desktop_remote.Process.Sound.{IsSound}
use desktop_remote.Process.Steps.{Reach, Reach-IsSound}
use desktop_remote.Process.Lookup.{running_stays, reused_pid}

-- "é" and "ab" in UTF-8.
abbrev pieces : List (List ℕ)
pieces = (195 ∷ 169 ∷ []) ∷ (97 ∷ 98 ∷ []) ∷ []

kept_end : joined ((append_all pieces (new_buffer 3)).chunks) ≡ 97 ∷ 98 ∷ []
unfolding append_all append new_buffer
kept_end = refl

append_all-new_buffer_example : Holds (append_all pieces (new_buffer 3)) (joined pieces)
append_all-new_buffer_example = append_all-new_buffer 3 pieces

read-IsSlice_example :
    IsSlice
      (append_all pieces (new_buffer 3))
      (joined pieces)
      (read (append_all pieces (new_buffer 3)) (some 1) (some 3))
read-IsSlice_example =
    read-IsSlice (append_all pieces (new_buffer 3)) (joined pieces) (some 1) (some 3)
      (append_all-new_buffer 3 pieces)

abbrev options : ProcessManagerOptions
options = record {
  max_concurrent_processes = some (safe_integer (pos 2));
  max_output_bytes = none;
  max_retained_sessions = some (safe_integer (pos 1));
  completed_session_ttl_ms = some (safe_integer (pos 100));
  session_ttl_ms = none;
  graceful_terminate_ms = none;
}

abbrev new_manager : ProcessManager
new_manager = record {
  processes = [];
  ids = [];
  max_concurrent = 2;
  max_output = 64 * 1024;
  max_retained = 1;
  completed_ttl = 100;
  graceful_terminate = 500;
}

manager_created : create_manager options ≡ some new_manager
unfolding create_manager
manager_created = refl

abbrev early_process : ManagedProcess
early_process = new_process 1 500 (b'/' ∷ []) false (64 * 1024)

abbrev one_started : ProcessManager
one_started = (start 0 1 (some 500) (b'/' ∷ []) false new_manager).0

abbrev two_started : ProcessManager
two_started = (start 0 2 (some 501) (b'/' ∷ []) true one_started).0

abbrev one_ended : ProcessManager
one_ended = on_exit early_process (some 0) 7 two_started

one_ended-Reach : Reach options one_ended
one_ended-Reach = Reach.exited early_process (some 0) 7 two_started (
    Reach.started 0 2 (some 501) (b'/' ∷ []) true one_started (
      Reach.started 0 1 (some 500) (b'/' ∷ []) false new_manager
        (Reach.created new_manager manager_created)))

Reach-IsSound_example : IsSound one_ended
Reach-IsSound_example = Reach-IsSound options one_ended one_ended-Reach

two_started-IsSound : IsSound two_started
two_started-IsSound = Reach-IsSound options two_started (
    Reach.started 0 2 (some 501) (b'/' ∷ []) true one_started (
      Reach.started 0 1 (some 500) (b'/' ∷ []) false new_manager
        (Reach.created new_manager manager_created)))

abbrev second : ManagedProcess
second = new_process 2 501 (b'/' ∷ []) true (64 * 1024)

second_found : find 501 two_started.processes ≡ some second
unfolding start find count_values put
second_found = refl

running_stays_example :
    ((get_managed 1000 (inl 501) two_started).1 ≡ some second)
    × (find 501 one_ended.processes ≡ some second)
running_stays_example =
    running_stays 501 second refl two_started early_process (some 0) 7 1000 two_started-IsSound
      second_found refl

old_id : find 1 (evict_expired_sessions 20 one_ended).ids ≡ some 500
unfolding evict_expired_sessions find on_exit start count_values put
old_id = refl

has_room :
    leb
      (evict_expired_sessions 20 one_ended).max_concurrent
      (count_values is_running (evict_expired_sessions 20 one_ended).processes)
    ≡ false
unfolding evict_expired_sessions count_values on_exit start find put
has_room = refl

reused_pid_example :
    (find 1 (start 20 3 (some 500) (b'~' ∷ []) false one_ended).0.ids ≡ some 500)
    × (find 500 (start 20 3 (some 500) (b'~' ∷ []) false one_ended).0.processes
        ≡ some
            (new_process 3 500 (b'~' ∷ []) false (evict_expired_sessions 20 one_ended).max_output))
reused_pid_example = reused_pid one_ended 1 3 500 20 (b'~' ∷ []) false old_id refl has_room
