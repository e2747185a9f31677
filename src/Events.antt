-- ===== src/Events.antt =====
-- src/runtime/events.ts: the events of the managed process.
use desktop_remote.Common.{ℕ, List, Option}

-- A JavaScript string: its UTF-16 code units.
abbrev pub Text : Type 0
Text = List ℕ

pub data StreamSource : Type 0 where
  stdout stderr : StreamSource

-- `V` is the type of the values that the source leaves `unknown`. Times are whole milliseconds.
pub data RuntimeEvent (V : Type 0) : Type 0 where
  -- url, code, expiresIn, at
  auth_required : Text → Text → Text → ℕ → RuntimeEvent V
  -- user, deviceId, deviceName, at
  device_ready : Text → Text → Text → ℕ → RuntimeEvent V
  -- callId, toolName, args, metadata, startedAt
  tool_started : Text → Text → V → V → ℕ → RuntimeEvent V
  -- callId, toolName, resultText, durationMs, completedAt
  tool_completed : Text → Text → Text → Option ℕ → ℕ → RuntimeEvent V
  -- callId, toolName, error, durationMs, completedAt
  tool_failed : Text → Text → Text → Option ℕ → ℕ → RuntimeEvent V
  -- source, message, at
  runtime_log : StreamSource → Text → ℕ → RuntimeEvent V
  -- code, signal, at
  runtime_exited : Option ℕ → Option Text → ℕ → RuntimeEvent V
  -- message, at
  runtime_error : Text → ℕ → RuntimeEvent V
