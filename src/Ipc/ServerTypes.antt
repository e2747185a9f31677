-- ===== src/Ipc/ServerTypes.antt =====
-- `ServerMessage` of src/ipc/protocol.ts, as far as it is checked.
use Prim.Native.String.{String}
use desktop_remote.Common.{
  zero, suc, ◌≡◌, refl, sym, ap, subst, true, ◌||◌, none, some, List, [], ◌∷◌, ◌↔◌, ◌⊎◌, inl, inr,
  Bool-cases, Option-cases,
}
use text.Mathlib.Text.{◌==◌ as str_eq}
use text.Mathlib.TextEquality.{eq_iff}
use desktop_remote.Ipc.Protocol.{
  Json, string, array, object, ProtocolError, unknown_type, require_string, require_record,
  is_connection, require_connection, member, connection_statuses, first_error,
  require_versioned_record, checked,
}
use desktop_remote.Ipc.ServerMessages.{
  ServerKind, hello_ack, attached, snapshot_begin, snapshot_call, snapshot_end, event, status,
  operation_response, pong, already_attached, error, server_kind, require_event, server_checks,
  parse_server_message,
}
use desktop_remote.Ipc.Accepted.{
  IsString, IsRecord, IsFinite, IsOptional, IsVersioned, case_of, require_string-IsString,
  require_record-IsRecord, require_number-IsFinite, if_given-IsOptional, first_error-none,
  first_error-end, require_versioned_record-IsVersioned, IsVersioned-require_versioned_record,
  checked-none, none-checked,
}

abbrev pub server_type : ServerKind → String
server_type hello_ack = "hello.ack"
server_type attached = "attached"
server_type snapshot_begin = "snapshot.begin"
server_type snapshot_call = "snapshot.call"
server_type snapshot_end = "snapshot.end"
server_type event = "event"
server_type status = "status"
server_type operation_response = "operation.response"
server_type pong = "pong"
server_type already_attached = "already-attached"
server_type error = "error"

server_kind_type : (s : String) (k : ServerKind) → server_kind s ≡ some k → s ≡ server_type k
unfolding server_kind
server_kind_type s k = case_of server_type s hello_ack _ k (
    case_of server_type s attached _ k (
      case_of server_type s snapshot_begin _ k (
        case_of server_type s snapshot_call _ k (
          case_of server_type s snapshot_end _ k (
            case_of server_type s event _ k (
              case_of server_type s status _ k (
                case_of server_type s operation_response _ k (
                  case_of server_type s pong _ k (
                    case_of server_type s already_attached _ k
                      (case_of server_type s error none k (λ e. cc e)))))))))))

type_server_kind : (k : ServerKind) → server_kind (server_type k) ≡ some k
unfolding server_kind
type_server_kind hello_ack = refl
type_server_kind attached = refl
type_server_kind snapshot_begin = refl
type_server_kind snapshot_call = refl
type_server_kind snapshot_end = refl
type_server_kind event = refl
type_server_kind status = refl
type_server_kind operation_response = refl
type_server_kind pong = refl
type_server_kind already_attached = refl
type_server_kind error = refl

abbrev pub AnyOf : String → List String → Type 0
AnyOf s [] = ⊥
AnyOf s (t ∷ ts) = (s ≡ t) ⊎ AnyOf s ts

-- One of the statuses, or an array with one element that is so.
abbrev pub IsConnection : Json → Type 0
IsConnection (string s) = AnyOf s ("starting" ∷ "auth" ∷ "online" ∷ "offline" ∷ "error" ∷ [])
IsConnection (array (suc zero) elements) = IsConnection (elements 0)
IsConnection other = ⊥

member-AnyOf : (s : String) (ts : List String) → (member s ts ≡ true) ↔ AnyOf s ts
member-AnyOf s [] = (λ e. cc e, λ h. absurd h)
member-AnyOf s (t ∷ ts) = (
  λ e. elim (Bool-cases (str_eq t s)) [
    | inl same ↦ inl (sym ((eq_iff t s).0 same))
    | inr differs ↦ inr ((member-AnyOf s ts).0 (rw differs at e))
  ],
  λ h. elim h [
    | inl same ↦ ap (λ b. b || member s ts) ((eq_iff t s).1 (sym same))
    | inr p ↦ elim (Bool-cases (str_eq t s)) [
      | inl same ↦ rw same refl
      | inr differs ↦ rw differs ((member-AnyOf s ts).1 p)
    ]
  ],
)

is_connection-IsConnection : (x : Json) → (is_connection x ≡ true) ↔ IsConnection x
unfolding is_connection
is_connection-IsConnection (string s) = member-AnyOf s connection_statuses
is_connection-IsConnection (array (suc zero) elements) = is_connection-IsConnection (elements 0)
is_connection-IsConnection (array zero elements) = (λ e. cc e, λ h. absurd h)
is_connection-IsConnection x = (λ e. cc e, λ h. absurd h)

require_connection-IsConnection : (x : Json) → (require_connection x ≡ none) ↔ IsConnection x
unfolding require_connection
require_connection-IsConnection x = (
  λ e. elim (Bool-cases (is_connection x)) [
    | inl c ↦ (is_connection-IsConnection x).0 c
    | inr c ↦ let f = rw c at e in cc f
  ],
  λ h. rw ((is_connection-IsConnection x).1 h) refl,
)

-- A record whose type is a string.
abbrev pub IsEvent : Json → Type 0
IsEvent (object payload) = IsString (payload "type")
IsEvent other = ⊥

require_event-IsEvent : (x : Json) → (require_event x ≡ none) ↔ IsEvent x
require_event-IsEvent (object payload) = require_string-IsString (payload "type")
require_event-IsEvent x = (λ e. cc e, λ h. absurd h)

-- The fields of a message of each type; what the payloads hold is not checked, and `result` and
-- `traceId` may be anything.
abbrev pub HasServerFields : ServerKind → (String → Json) → Type 0
HasServerFields hello_ack m = IsFinite (m "daemonPid") × Unit {0}
HasServerFields attached m = IsFinite (m "attachedSince") × Unit {0}
HasServerFields snapshot_begin m =
    IsConnection (m "connection")
    × (IsRecord (m "counts")
        × (IsFinite (m "callCount")
            × (IsOptional IsRecord (m "device") × (IsOptional IsRecord (m "auth") × Unit {0}))))
HasServerFields snapshot_call m = IsRecord (m "row") × Unit {0}
HasServerFields snapshot_end m = Unit {0}
HasServerFields event m = IsEvent (m "event") × Unit {0}
HasServerFields status m = IsString (m "requestId") × (IsRecord (m "status") × Unit {0})
HasServerFields operation_response m =
    IsString (m "requestId") × (IsOptional IsString (m "error") × Unit {0})
HasServerFields pong m = IsFinite (m "at") × Unit {0}
HasServerFields already_attached m = IsFinite (m "attachedSince") × Unit {0}
HasServerFields error m = IsString (m "code") × (IsString (m "message") × Unit {0})

pub record IsServerMessage (value : Json) (m : String → Json) : Type 0 where
  pub kind : ServerKind
  pub versioned : IsVersioned value (server_type kind) m
  pub fields : HasServerFields kind m

checks-HasServerFields :
    (k : ServerKind) (m : String → Json)
    → (first_error (server_checks k m) ≡ none) ↔ HasServerFields k m
unfolding server_checks
checks-HasServerFields hello_ack m =
    first_error-none _ _ _ _ (require_number-IsFinite (m "daemonPid")) first_error-end
checks-HasServerFields attached m =
    first_error-none _ _ _ _ (require_number-IsFinite (m "attachedSince")) first_error-end
checks-HasServerFields snapshot_begin m =
    first_error-none _ _ _ _ (require_connection-IsConnection (m "connection")) (
      first_error-none _ _ _ _ (require_record-IsRecord (m "counts")) (
        first_error-none _ _ _ _ (require_number-IsFinite (m "callCount")) (
          first_error-none _ _ _ _
            (if_given-IsOptional require_record IsRecord require_record-IsRecord (m "device"))
            (first_error-none _ _ _ _
              (if_given-IsOptional require_record IsRecord require_record-IsRecord (m "auth"))
              first_error-end))))
checks-HasServerFields snapshot_call m =
    first_error-none _ _ _ _ (require_record-IsRecord (m "row")) first_error-end
checks-HasServerFields snapshot_end m = first_error-end
checks-HasServerFields event m =
    first_error-none _ _ _ _ (require_event-IsEvent (m "event")) first_error-end
checks-HasServerFields status m =
    first_error-none _ _ _ _ (require_string-IsString (m "requestId"))
      (first_error-none _ _ _ _ (require_record-IsRecord (m "status")) first_error-end)
checks-HasServerFields operation_response m =
    first_error-none _ _ _ _ (require_string-IsString (m "requestId")) (
      first_error-none _ _ _ _
        (if_given-IsOptional require_string IsString require_string-IsString (m "error"))
        first_error-end)
checks-HasServerFields pong m =
    first_error-none _ _ _ _ (require_number-IsFinite (m "at")) first_error-end
checks-HasServerFields already_attached m =
    first_error-none _ _ _ _ (require_number-IsFinite (m "attachedSince")) first_error-end
checks-HasServerFields error m =
    first_error-none _ _ _ _ (require_string-IsString (m "code"))
      (first_error-none _ _ _ _ (require_string-IsString (m "message")) first_error-end)

accepted_kind :
    (kind : String) (n m : String → Json) (value : Json)
    → IsVersioned value kind n
    → (elim (server_kind kind) as (λ x. ProtocolError ⊎ (String → Json)) [
      | none ↦ inl unknown_type
      | some k ↦ checked n (server_checks k n)
    ])
      ≡ inr m
    → IsServerMessage value m
accepted_kind kind n m value v e = elim (Option-cases (server_kind kind)) [
  | inl f ↦ let g = rw f at e in cc g
  | inr (k, f) ↦
      let g : checked n (server_checks k n) ≡ inr m = rw f at e in
      let c = checked-none n m (server_checks k n) g in
      subst (λ r. IsServerMessage value r) c.0
        (record {
          kind = k;
          versioned = subst (λ s. IsVersioned value s n) (server_kind_type kind k f) v;
          fields = (checks-HasServerFields k n).0 c.1;
        })
]

accepted :
    (value : Json) (m : String → Json)
    → parse_server_message value ≡ inr m
    → IsServerMessage value m
unfolding parse_server_message
accepted value m e = go (require_versioned_record value) refl
  where
    go :
        (r : ProtocolError ⊎ (String × (String → Json)))
        → require_versioned_record value ≡ r
        → IsServerMessage value m
    go (inl failure) f = let g = rw (f, parse_server_message) at e in cc g
    go (inr (kind, n)) f =
        accepted_kind kind n m value (require_versioned_record-IsVersioned value kind n f)
          (rw (f, parse_server_message) at e)

accepts :
    (value : Json) (m : String → Json)
    → IsServerMessage value m
    → parse_server_message value ≡ inr m
unfolding parse_server_message
accepts value m v =
    rw
      (
        IsVersioned-require_versioned_record value (server_type v.kind) m v.versioned,
        parse_server_message,
      )
      (rw (type_server_kind v.kind)
        (none-checked m (server_checks v.kind m) ((checks-HasServerFields v.kind m).1 v.fields)))

-- A value is accepted as a message of the server exactly if it is a record with protocol version 1, one
-- of the types of `ServerMessage`, and the fields of that type as far as `HasServerFields` tells; a
-- connection status may stand in an array of its own, and in further such arrays.
pub parse_server_message-IsServerMessage :
    (value : Json) (m : String → Json)
    → (parse_server_message value ≡ inr m) ↔ IsServerMessage value m
parse_server_message-IsServerMessage value m = (λ e. accepted value m e, λ h. accepts value m h)
