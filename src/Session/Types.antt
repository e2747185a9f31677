-- ===== src/Session/Types.antt =====
-- src/session/types.ts: rows, snapshots and their parts.
use desktop_remote.Common.{ℕ, List, Option}
use desktop_remote.Common.Int.{ℤ}
use desktop_remote.Events.{Text}

pub data ConnectionStatus : Type 0 where
  starting auth online offline error : ConnectionStatus

pub data ToolStatus : Type 0 where
  running completed failed : ToolStatus

pub record SessionDevice : Type 0 where
  pub user : Text
  pub device_id : Text
  pub device_name : Text

pub record SessionAuth : Type 0 where
  pub url : Text
  pub code : Text
  pub expires_in : Text

-- `started_at` is computed from a duration and can be negative.
pub record ToolCallRow (V : Type 0) : Type 0 where
  pub call_id : Text
  pub tool_name : Text
  pub args : V
  pub metadata : V
  pub status : ToolStatus
  pub started_at : ℤ
  pub completed_at : Option ℕ
  pub duration_ms : Option ℕ
  pub result_text : Option Text
  pub failure : Option Text

pub record SessionCounts : Type 0 where
  pub total : ℕ
  pub of_running : ℕ
  pub of_completed : ℕ
  pub of_failed : ℕ

pub record RuntimeSessionSnapshot (V : Type 0) : Type 0 where
  pub connection : ConnectionStatus
  pub device : Option SessionDevice
  pub authentication : Option SessionAuth
  pub rows : List (ToolCallRow V)
  pub counts : SessionCounts
