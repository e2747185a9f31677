-- ===== src/Session/Bounds.antt =====
-- src/session/bounds.ts: what the session keeps of a value and of an event. `serialize` is
-- `JSON.stringify` with its fallback, `truncated` makes the object that stands for a value too large.
use desktop_remote.Common.{
  ℕ, zero, suc, ◌-◌, ◌*◌, ◌/◌, Option, none, some, [], leb, ltb, if◌then◌else◌,
}
use desktop_remote.Events.{
  Text, RuntimeEvent, auth_required, device_ready, tool_started, tool_completed, tool_failed,
  runtime_log, runtime_exited, runtime_error,
}
use desktop_remote.Bytes.{byte_length, bound_text}

abbrev pub session_history_limit : ℕ
session_history_limit = 50

abbrev pub argument_max_bytes : ℕ
argument_max_bytes = 64 * 1024

abbrev pub metadata_max_bytes : ℕ
metadata_max_bytes = 32 * 1024

abbrev pub result_max_bytes : ℕ
result_max_bytes = 256 * 1024

abbrev pub error_max_bytes : ℕ
error_max_bytes = 32 * 1024

abbrev pub control_text_max_bytes : ℕ
control_text_max_bytes = 8 * 1024

abbrev pub runtime_log_max_bytes : ℕ
runtime_log_max_bytes = 64 * 1024

module _ {V : Type 0} (serialize : V → Text) (truncated : ℕ → Text → V) where
  -- The loop over `previewBudget` with what `boundUnknown` returns from it and after it; `text` is the
  -- serialized value. `none` if the loop has not ended in as many rounds as the fuel.
  unfoldable pub shrink_preview : ℕ → ℕ → Text → ℕ → Option V
  unfolding byte_length bound_text
  shrink_preview zero max_bytes text budget =
      if ltb 0 budget then none else some (truncated (byte_length text) [])
  shrink_preview (suc fuel) max_bytes text budget =
      let rest = shrink_preview fuel max_bytes text (budget * 4 / 5) in
      let candidate = truncated (byte_length text) (bound_text text budget) in
      if ltb 0 budget
      then (if leb (byte_length (serialize candidate)) max_bytes then some candidate else rest)
      else some (truncated (byte_length text) [])

  -- The fuel is the budget, since each round cuts it; the case `none` stands for no run of the code.
  unfoldable pub bound_unknown : V → ℕ → V
  unfolding shrink_preview
  bound_unknown value max_bytes =
      if leb (byte_length (serialize value)) max_bytes
      then value
      else elim (shrink_preview (max_bytes - 256) max_bytes (serialize value) (max_bytes - 256)) [
        | none ↦ value
        | some preview ↦ preview
      ]

  unfoldable pub bound_runtime_event : RuntimeEvent V → RuntimeEvent V
  unfolding bound_unknown
  bound_runtime_event (tool_started call_id tool_name args metadata started_at) =
      tool_started (bound_text call_id control_text_max_bytes)
        (bound_text tool_name control_text_max_bytes) (bound_unknown args argument_max_bytes)
        (bound_unknown metadata metadata_max_bytes) started_at
  bound_runtime_event (tool_completed call_id tool_name result_text duration_ms completed_at) =
      tool_completed call_id tool_name (bound_text result_text result_max_bytes) duration_ms
        completed_at
  bound_runtime_event (tool_failed call_id tool_name error duration_ms completed_at) =
      tool_failed call_id tool_name (bound_text error error_max_bytes) duration_ms completed_at
  bound_runtime_event (auth_required url code expires_in at_ms) =
      auth_required (bound_text url control_text_max_bytes) (bound_text code control_text_max_bytes)
        (bound_text expires_in control_text_max_bytes) at_ms
  bound_runtime_event (device_ready user device_id device_name at_ms) =
      device_ready (bound_text user control_text_max_bytes)
        (bound_text device_id control_text_max_bytes)
        (bound_text device_name control_text_max_bytes) at_ms
  bound_runtime_event (runtime_log source message at_ms) =
      runtime_log source (bound_text message runtime_log_max_bytes) at_ms
  bound_runtime_event (runtime_error message at_ms) =
      runtime_error (bound_text message runtime_log_max_bytes) at_ms
  bound_runtime_event (runtime_exited code signal at_ms) = runtime_exited code signal at_ms
