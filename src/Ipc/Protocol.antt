-- ===== src/Ipc/Protocol.antt =====
-- src/ipc/protocol.ts: which values the two parsers accept. A value is what JSON.parse can give; an
-- object is the function from its keys to their values, with `missing` for a key that it lacks. The
-- payloads that the parsers only pass on (rows, events, status) are values.
use Prim.Native.String.{String}
use text.Mathlib.Text.{◌==◌ as str_eq}
use desktop_remote.Common.{
  ℕ, zero, suc, Bool, true, false, ◌||◌, Option, none, some, List, [], ◌∷◌, if◌then◌else◌, ◌⊎◌, inl,
  inr,
}
use desktop_remote.Common.Int.{ℤ, pos}

-- `JSON.parse("1e999")` is infinite.
pub data JsonNumber : Type 0 where
  whole : ℤ → JsonNumber
  fractional infinite : JsonNumber

-- An array has its length and its elements.
pub data Json : Type 0 where
  missing null : Json
  boolean : Bool → Json
  number : JsonNumber → Json
  string : String → Json
  array : ℕ → (ℕ → Json) → Json
  object : (String → Json) → Json

pub data ProtocolError : Type 0 where
  invalid unsupported_version unknown_type : ProtocolError

-- The checks give the error that they throw.
abbrev pub require_record : Json → Option ProtocolError
require_record missing = some invalid
require_record null = some invalid
require_record (boolean b) = some invalid
require_record (number n) = some invalid
require_record (string s) = some invalid
require_record (array n elements) = some invalid
require_record (object m) = none

abbrev pub require_string : Json → Option ProtocolError
require_string missing = some invalid
require_string null = some invalid
require_string (boolean b) = some invalid
require_string (number n) = some invalid
require_string (string s) = none
require_string (array n elements) = some invalid
require_string (object m) = some invalid

abbrev pub require_number : Json → Option ProtocolError
require_number missing = some invalid
require_number null = some invalid
require_number (boolean b) = some invalid
require_number (number (whole n)) = none
require_number (number fractional) = none
require_number (number infinite) = some invalid
require_number (string s) = some invalid
require_number (array n elements) = some invalid
require_number (object m) = some invalid

-- `if (value !== undefined) check(value)`.
abbrev pub if_given : (Json → Option ProtocolError) → Json → Option ProtocolError
if_given check missing = none
if_given check null = check null
if_given check (boolean b) = check (boolean b)
if_given check (number n) = check (number n)
if_given check (string s) = check (string s)
if_given check (array n elements) = check (array n elements)
if_given check (object m) = check (object m)

abbrev pub connection_statuses : List String
connection_statuses = "starting" ∷ "auth" ∷ "online" ∷ "offline" ∷ "error" ∷ []

abbrev pub member : String → List String → Bool
member s [] = false
member s (t ∷ ts) = str_eq t s || member s ts

-- Whether `String(value)` is a connection status: that of an array with one element is that of the
-- element (of `null` it is empty), and no other value but a text gives one.
unfoldable pub is_connection : Json → Bool
is_connection missing = false
is_connection null = false
is_connection (boolean b) = false
is_connection (number n) = false
is_connection (string s) = member s connection_statuses
is_connection (array zero elements) = false
is_connection (array (suc zero) elements) = is_connection (elements 0)
is_connection (array (suc (suc n)) elements) = false
is_connection (object m) = false

unfoldable pub require_connection : Json → Option ProtocolError
unfolding is_connection
require_connection value = if is_connection value then none else some invalid

-- The first error of checks that are made in order.
unfoldable pub first_error : List (Option ProtocolError) → Option ProtocolError
first_error [] = none
first_error (none ∷ checks) = first_error checks
first_error (some error ∷ checks) = some error

-- `message.protocolVersion !== PROTOCOL_VERSION`.
unfoldable pub is_version : Json → Bool
is_version (number (whole (pos (suc zero)))) = true
is_version other = false

unfoldable pub text_of : Json → Option String
text_of (string s) = some s
text_of other = none

-- `requireVersionedRecord`, with the type of the message.
unfoldable pub require_versioned_record : Json → ProtocolError ⊎ (String × (String → Json))
unfolding is_version text_of
require_versioned_record (object m) =
    if is_version (m "protocolVersion")
    then elim (text_of (m "type")) [ none ↦ inl invalid | some kind ↦ inr (kind, m) ]
    else inl unsupported_version
require_versioned_record other = inl invalid

pub data ClientKind : Type 0 where
  hello attach snapshot_request subscribe status_request operation_request ping detach shutdown :
      ClientKind

unfoldable pub client_kind : String → Option ClientKind
client_kind s =
    if str_eq s "hello"
    then some hello
    else if str_eq s "attach"
    then some attach
    else if str_eq s "snapshot.request"
    then some snapshot_request
    else if str_eq s "subscribe"
    then some subscribe
    else if str_eq s "status.request"
    then some status_request
    else if str_eq s "operation.request"
    then some operation_request
    else if str_eq s "ping"
    then some ping
    else if str_eq s "detach"
    then some detach
    else if str_eq s "shutdown"
    then some shutdown
    else none

unfoldable pub require_client : Option String → Option ProtocolError
require_client none = some invalid
require_client (some s) = if str_eq s "visual" || str_eq s "admin" then none else some invalid

unfoldable pub client_checks : ClientKind → (String → Json) → List (Option ProtocolError)
unfolding require_client text_of
client_checks hello m = require_client (text_of (m "client")) ∷ []
client_checks attach m = []
client_checks snapshot_request m = []
client_checks subscribe m = []
client_checks status_request m = require_string (m "requestId") ∷ []
client_checks operation_request m =
    require_string (m "requestId")
    ∷ require_string (m "name")
    ∷ require_record (m "input")
    ∷ if_given require_number (m "deadlineAt")
    ∷ []
client_checks ping m = require_number (m "at") ∷ []
client_checks detach m = []
client_checks shutdown m = []

unfoldable pub checked :
    (String → Json) → List (Option ProtocolError) → ProtocolError ⊎ (String → Json)
unfolding first_error
checked m checks = elim (first_error checks) [ none ↦ inr m | some error ↦ inl error ]

unfoldable pub parse_client_message : Json → ProtocolError ⊎ (String → Json)
unfolding require_versioned_record client_kind client_checks checked
parse_client_message value = elim (require_versioned_record value) [
  | inl error ↦ inl error
  | inr (kind, m) ↦ elim (client_kind kind) [
    | none ↦ inl unknown_type
    | some k ↦ checked m (client_checks k m)
  ]
]
