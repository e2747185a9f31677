-- ===== src/Session.antt =====
-- src/session/runtime-store.ts: the session that a stream of events describes. `serialize` is
-- `JSON.stringify` with its fallback, `truncated` makes the object that stands for a value too large,
-- `or_empty value` is `value ?? {}`, where `none` is an absent row.
pub mod Types
pub mod Calls
pub mod Bounds
pub mod Evict
pub mod History
pub mod Reachable
pub mod Counts
pub mod Lost
pub mod Preview
pub mod Selection
pub mod Chosen
mod Tests
use desktop_remote.Common.{
  ℕ, zero, suc, ◌-◌, Bool, true, false, Option, none, some, List, [], ◌∷◌, ◌++◌, ltb, leb,
  if◌then◌else◌, length, drop, is_some, or_default, map, keep_if,
}
use desktop_remote.Common.Int.{ℤ, pos, negsuc}
use desktop_remote.Events.{
  Text, RuntimeEvent, auth_required, device_ready, tool_started, tool_completed, tool_failed,
  runtime_log, runtime_exited, runtime_error,
}
use desktop_remote.Bytes.{bound_text}
use Types.{
  ConnectionStatus, starting, auth, online, offline, error, ToolStatus, SessionDevice, SessionAuth,
  ToolCallRow, SessionCounts, RuntimeSessionSnapshot,
}
use Calls.{get_call, put_call, delete_call}
use Bounds.{
  bound_unknown, bound_runtime_event, control_text_max_bytes, argument_max_bytes,
  metadata_max_bytes, result_max_bytes, error_max_bytes,
}

pub record RuntimeSessionStore (V : Type 0) : Type 0 where
  pub connection : ConnectionStatus
  pub device : Option SessionDevice
  pub authentication : Option SessionAuth
  pub calls : List (Text × ToolCallRow V)
  pub order : List Text
  pub max_history : ℕ

-- `a - b` on numbers that need not be ordered.
abbrev pub minus : ℕ → ℕ → ℤ
minus a b = if leb b a then pos (a - b) else negsuc (b - a - 1)

abbrev pub is_running : ToolStatus → Bool
is_running ToolStatus.running = true
is_running _ = false

abbrev pub is_completed : ToolStatus → Bool
is_completed ToolStatus.completed = true
is_completed _ = false

abbrev pub is_failed : ToolStatus → Bool
is_failed ToolStatus.failed = true
is_failed _ = false

-- The truth of a string.
abbrev pub is_nonempty : Text → Bool
is_nonempty [] = false
is_nonempty (u ∷ us) = true

module _ {V : Type 0} where
  unfoldable pub new_store : ℕ → RuntimeSessionStore V
  new_store max_history = record {
    connection = starting;
    device = none;
    authentication = none;
    calls = [];
    order = [];
    max_history = max_history;
  }

  -- `while (this.order.length > this.maxHistory)`, on the calls and the order.
  unfoldable pub evict :
      ℕ → List (Text × ToolCallRow V) → List Text → List (Text × ToolCallRow V) × List Text
  evict max_history calls [] = (calls, [])
  evict max_history calls (removed ∷ order) =
      let rest =
        evict max_history (if is_nonempty removed then delete_call removed calls else calls)
          order in
      if ltb max_history (suc (length order)) then rest else (calls, removed ∷ order)

  unfoldable pub set_call : Text → ToolCallRow V → RuntimeSessionStore V → RuntimeSessionStore V
  unfolding evict
  set_call call_id row s = record s { calls = kept.0; order = kept.1 }
    where
      kept : List (Text × ToolCallRow V) × List Text
      kept =
          evict s.max_history (put_call call_id row s.calls)
            (if is_some (get_call call_id s.calls) then s.order else s.order ++ call_id ∷ [])

  -- `current?.startedAt ?? event.completedAt - (event.durationMs ?? 0)`.
  abbrev pub start_of : Option (ToolCallRow V) → Option ℕ → ℕ → ℤ
  start_of none duration_ms completed_at = minus completed_at (or_default duration_ms 0)
  start_of (some current) duration_ms completed_at = current.started_at

  -- The row of a call that has ended.
  unfoldable pub ended :
      (Option V → V)
      → ToolStatus
      → Option (ToolCallRow V)
      → Text
      → Text
      → Option ℕ
      → ℕ
      → Option Text
      → Option Text
      → ToolCallRow V
  ended or_empty status current call_id tool_name duration_ms completed_at result_text failure =
      record {
        call_id = call_id;
        tool_name = tool_name;
        args = or_empty (elim current [ none ↦ none | some row ↦ some row.args ]);
        metadata = or_empty (elim current [ none ↦ none | some row ↦ some row.metadata ]);
        status = status;
        started_at = start_of current duration_ms completed_at;
        completed_at = some completed_at;
        duration_ms = duration_ms;
        result_text = result_text;
        failure = failure;
      }

  -- `consume` behind its call of `boundRuntimeEvent`.
  unfoldable pub apply_event :
      (Option V → V) → RuntimeEvent V → RuntimeSessionStore V → RuntimeSessionStore V
  unfolding set_call ended
  apply_event or_empty (device_ready user device_id device_name at_ms) s = record s {
    connection = online;
    authentication = none;
    device = some (record { user = user; device_id = device_id; device_name = device_name });
  }
  apply_event or_empty (auth_required url code expires_in at_ms) s = record s {
    connection = auth;
    authentication = some (record { url = url; code = code; expires_in = expires_in });
  }
  apply_event or_empty (runtime_exited code signal at_ms) s = record s { connection = offline }
  apply_event or_empty (runtime_error message at_ms) s = record s { connection = error }
  apply_event or_empty (tool_started call_id tool_name args metadata started_at) s =
      set_call call_id
        (record {
          call_id = call_id;
          tool_name = tool_name;
          args = args;
          metadata = metadata;
          status = ToolStatus.running;
          started_at = pos started_at;
          completed_at = none;
          duration_ms = none;
          result_text = none;
          failure = none;
        })
        s
  apply_event or_empty (tool_completed call_id tool_name result_text duration_ms completed_at) s =
      set_call call_id
        (ended or_empty ToolStatus.completed (get_call call_id s.calls) call_id tool_name
          duration_ms completed_at (some result_text) none)
        s
  apply_event or_empty (tool_failed call_id tool_name failure duration_ms completed_at) s =
      set_call call_id
        (ended or_empty ToolStatus.failed (get_call call_id s.calls) call_id tool_name duration_ms
          completed_at none (some failure))
        s
  apply_event or_empty (runtime_log source message at_ms) s = s

  -- `rows.filter((row) => row !== undefined)`.
  unfoldable pub rows_of : List (Text × ToolCallRow V) → List Text → List (ToolCallRow V)
  rows_of calls [] = []
  rows_of calls (call_id ∷ order) = elim (get_call call_id calls) [
    | none ↦ rows_of calls order
    | some row ↦ row ∷ rows_of calls order
  ]

  unfoldable pub count_status : (ToolStatus → Bool) → List (ToolCallRow V) → ℕ
  unfolding keep_if
  count_status test rows = length (keep_if (λ row. test row.status) rows)

  unfoldable pub snapshot : RuntimeSessionStore V → RuntimeSessionSnapshot V
  unfolding rows_of count_status
  snapshot s = record {
    connection = s.connection;
    device = s.device;
    authentication = s.authentication;
    rows = rows;
    counts = record {
      total = length rows;
      of_running = count_status is_running rows;
      of_completed = count_status is_completed rows;
      of_failed = count_status is_failed rows;
    };
  }
    where
      rows : List (ToolCallRow V)
      rows = rows_of s.calls s.order

  -- `rows.slice(-n)`: with 0 for n, all of them.
  abbrev pub slice_end : ℕ → List (ToolCallRow V) → List (ToolCallRow V)
  slice_end zero rows = rows
  slice_end (suc n) rows = drop (length rows - suc n) rows

  module _ (serialize : V → Text) (truncated : ℕ → Text → V) (or_empty : Option V → V) where
    unfoldable pub consume : RuntimeEvent V → RuntimeSessionStore V → RuntimeSessionStore V
    unfolding apply_event
    consume event s = apply_event or_empty (bound_runtime_event serialize truncated event) s

    unfoldable pub bound_row : ToolCallRow V → ToolCallRow V
    bound_row row = record row {
      call_id = bound_text row.call_id control_text_max_bytes;
      tool_name = bound_text row.tool_name control_text_max_bytes;
      args = bound_unknown serialize truncated row.args argument_max_bytes;
      metadata = bound_unknown serialize truncated row.metadata metadata_max_bytes;
      result_text = elim row.result_text [
        | none ↦ none
        | some t ↦ some (bound_text t result_max_bytes)
      ];
      failure = elim row.failure [ none ↦ none | some t ↦ some (bound_text t error_max_bytes) ];
    }

    -- The loop of `restore`.
    unfoldable pub restore_rows :
        List (ToolCallRow V) → RuntimeSessionStore V → RuntimeSessionStore V
    unfolding set_call bound_row
    restore_rows [] s = s
    restore_rows (row ∷ rows) s = restore_rows rows (set_call row.call_id (bound_row row) s)

    unfoldable pub restore :
        RuntimeSessionSnapshot V → RuntimeSessionStore V → RuntimeSessionStore V
    unfolding restore_rows
    restore taken s = restore_rows (slice_end s.max_history taken.rows) (record s {
      connection = taken.connection;
      device = taken.device;
      authentication = taken.authentication;
      calls = [];
      order = [];
    })
