-- ===== src/Ipc/MessageTests.antt =====
-- A request of a client, and a snapshot whose connection status stands in an array.
use Prim.Native.String.{String}
use text.Mathlib.Text.{◌==◌ as str_eq}
use desktop_remote.Common.{◌≡◌, refl, ◌↔◌, inr, if◌then◌else◌}
use desktop_remote.Common.Int.{pos}
use desktop_remote.Ipc.Protocol.{
  Json, missing, number, string, array, object, whole, fractional, parse_client_message,
}
use desktop_remote.Ipc.ServerMessages.{parse_server_message}
use desktop_remote.Ipc.ClientTypes.{IsClientMessage, parse_client_message-IsClientMessage}
use desktop_remote.Ipc.ServerTypes.{IsServerMessage, parse_server_message-IsServerMessage}

abbrev no_fields : String → Json
no_fields key = missing

abbrev request : String → Json
request key =
    if str_eq key "protocolVersion"
    then number (whole (pos 1))
    else if str_eq key "type"
    then string "operation.request"
    else if str_eq key "requestId"
    then string "r"
    else if str_eq key "name"
    then string "read_file"
    else if str_eq key "input"
    then object no_fields
    else if str_eq key "deadlineAt"
    then number fractional
    else missing

request_accepted : parse_client_message (object request) ≡ inr request
unfolding parse_client_message
request_accepted = refl

parse_client_message-IsClientMessage_example :
    (parse_client_message (object request) ≡ inr request) ↔ IsClientMessage (object request) request
parse_client_message-IsClientMessage_example =
    parse_client_message-IsClientMessage (object request) request

abbrev begins : String → Json
begins key =
    if str_eq key "protocolVersion"
    then number (whole (pos 1))
    else if str_eq key "type"
    then string "snapshot.begin"
    else if str_eq key "connection"
    then array 1 (λ n. string "online")
    else if str_eq key "counts"
    then object no_fields
    else if str_eq key "callCount"
    then number (whole (pos 0))
    else missing

begins_accepted : parse_server_message (object begins) ≡ inr begins
unfolding parse_server_message
begins_accepted = refl

parse_server_message-IsServerMessage_example :
    (parse_server_message (object begins) ≡ inr begins) ↔ IsServerMessage (object begins) begins
parse_server_message-IsServerMessage_example =
    parse_server_message-IsServerMessage (object begins) begins
