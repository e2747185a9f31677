-- ===== src/Ipc/ServerMessages.antt =====
-- `parseServerMessage` of src/ipc/protocol.ts.
use Prim.Native.String.{String}
use text.Mathlib.Text.{◌==◌ as str_eq}
use desktop_remote.Common.{Option, none, some, List, [], ◌∷◌, if◌then◌else◌, ◌⊎◌, inl, inr}
use desktop_remote.Ipc.Protocol.{
  Json, object, ProtocolError, invalid, unknown_type, require_record, require_string,
  require_number, if_given, require_connection, require_versioned_record, checked,
}

pub data ServerKind : Type 0 where
  hello_ack attached snapshot_begin snapshot_call snapshot_end event status operation_response :
      ServerKind
  pong already_attached error : ServerKind

unfoldable pub server_kind : String → Option ServerKind
server_kind s =
    if str_eq s "hello.ack"
    then some hello_ack
    else if str_eq s "attached"
    then some attached
    else if str_eq s "snapshot.begin"
    then some snapshot_begin
    else if str_eq s "snapshot.call"
    then some snapshot_call
    else if str_eq s "snapshot.end"
    then some snapshot_end
    else if str_eq s "event"
    then some event
    else if str_eq s "status"
    then some status
    else if str_eq s "operation.response"
    then some operation_response
    else if str_eq s "pong"
    then some pong
    else if str_eq s "already-attached"
    then some already_attached
    else if str_eq s "error"
    then some error
    else none

-- The payload of an event is a record whose type is a string.
abbrev pub require_event : Json → Option ProtocolError
require_event (object payload) = require_string (payload "type")
require_event other = some invalid

unfoldable pub server_checks : ServerKind → (String → Json) → List (Option ProtocolError)
unfolding require_connection
server_checks hello_ack m = require_number (m "daemonPid") ∷ []
server_checks attached m = require_number (m "attachedSince") ∷ []
server_checks snapshot_begin m =
    require_connection (m "connection")
    ∷ require_record (m "counts")
    ∷ require_number (m "callCount")
    ∷ if_given require_record (m "device")
    ∷ if_given require_record (m "auth")
    ∷ []
server_checks snapshot_call m = require_record (m "row") ∷ []
server_checks snapshot_end m = []
server_checks event m = require_event (m "event") ∷ []
server_checks status m = require_string (m "requestId") ∷ require_record (m "status") ∷ []
server_checks operation_response m =
    require_string (m "requestId") ∷ if_given require_string (m "error") ∷ []
server_checks pong m = require_number (m "at") ∷ []
server_checks already_attached m = require_number (m "attachedSince") ∷ []
server_checks error m = require_string (m "code") ∷ require_string (m "message") ∷ []

unfoldable pub parse_server_message : Json → ProtocolError ⊎ (String → Json)
unfolding require_versioned_record server_kind server_checks checked
parse_server_message value = elim (require_versioned_record value) [
  | inl failure ↦ inl failure
  | inr (kind, m) ↦ elim (server_kind kind) [
    | none ↦ inl unknown_type
    | some k ↦ checked m (server_checks k m)
  ]
]
