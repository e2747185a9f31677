-- ===== src/Ipc/ClientTypes.antt =====
-- `ClientMessage` of src/ipc/protocol.ts.
use Prim.Native.String.{String}
use desktop_remote.Common.{
  ◌≡◌, refl, ap, subst, none, some, [], ◌↔◌, ◌⊎◌, inl, inr, Bool-cases, Option-cases,
}
use text.Mathlib.Text.{◌==◌ as str_eq}
use text.Mathlib.TextEquality.{eq_iff}
use desktop_remote.Ipc.Protocol.{
  Json, string, ProtocolError, unknown_type, require_number, first_error, text_of,
  require_versioned_record, ClientKind, hello, attach, snapshot_request, subscribe, status_request,
  operation_request, ping, detach, shutdown, client_kind, require_client, client_checks, checked,
  parse_client_message,
}
use desktop_remote.Ipc.Accepted.{
  IsString, IsRecord, IsFinite, IsOptional, IsVersioned, case_of, require_string-IsString,
  require_record-IsRecord, require_number-IsFinite, if_given-IsOptional, first_error-none,
  first_error-end, require_versioned_record-IsVersioned, IsVersioned-require_versioned_record,
  checked-none, none-checked,
}

abbrev pub client_type : ClientKind → String
client_type hello = "hello"
client_type attach = "attach"
client_type snapshot_request = "snapshot.request"
client_type subscribe = "subscribe"
client_type status_request = "status.request"
client_type operation_request = "operation.request"
client_type ping = "ping"
client_type detach = "detach"
client_type shutdown = "shutdown"

client_kind_type : (s : String) (k : ClientKind) → client_kind s ≡ some k → s ≡ client_type k
unfolding client_kind
client_kind_type s k = case_of client_type s hello _ k (
    case_of client_type s attach _ k (
      case_of client_type s snapshot_request _ k (
        case_of client_type s subscribe _ k (
          case_of client_type s status_request _ k (
            case_of client_type s operation_request _ k (
              case_of client_type s ping _ k (
                case_of client_type s detach _ k
                  (case_of client_type s shutdown none k (λ e. cc e)))))))))

type_client_kind : (k : ClientKind) → client_kind (client_type k) ≡ some k
unfolding client_kind
type_client_kind hello = refl
type_client_kind attach = refl
type_client_kind snapshot_request = refl
type_client_kind subscribe = refl
type_client_kind status_request = refl
type_client_kind operation_request = refl
type_client_kind ping = refl
type_client_kind detach = refl
type_client_kind shutdown = refl

-- The fields of a message of each type but `traceId`, which is not checked.
abbrev pub HasClientFields : ClientKind → (String → Json) → Type 0
HasClientFields hello m =
    ((m "client" ≡ string "visual") ⊎ (m "client" ≡ string "admin")) × Unit {0}
HasClientFields attach m = Unit {0}
HasClientFields snapshot_request m = Unit {0}
HasClientFields subscribe m = Unit {0}
HasClientFields status_request m = IsString (m "requestId") × Unit {0}
HasClientFields operation_request m =
    IsString (m "requestId")
    × (IsString (m "name")
        × (IsRecord (m "input") × (IsOptional IsFinite (m "deadlineAt") × Unit {0})))
HasClientFields ping m = IsFinite (m "at") × Unit {0}
HasClientFields detach m = Unit {0}
HasClientFields shutdown m = Unit {0}

pub record IsClientMessage (value : Json) (m : String → Json) : Type 0 where
  pub kind : ClientKind
  pub versioned : IsVersioned value (client_type kind) m
  pub fields : HasClientFields kind m

a_mode : (s : String) → require_client (some s) ≡ none → (s ≡ "visual") ⊎ (s ≡ "admin")
unfolding require_client
a_mode s e = elim (Bool-cases (str_eq s "visual")) [
  | inl v ↦ inl ((eq_iff s "visual").0 v)
  | inr v ↦ elim (Bool-cases (str_eq s "admin")) [
    | inl a ↦ inr ((eq_iff s "admin").0 a)
    | inr a ↦ let f = rw (v, a) at e in cc f
  ]
]

client-IsMode :
    (x : Json)
    → (require_client (text_of x) ≡ none) ↔ ((x ≡ string "visual") ⊎ (x ≡ string "admin"))
unfolding require_client text_of
client-IsMode (string s) = (
  λ e. elim (a_mode s e) [ inl v ↦ inl (ap string v) | inr a ↦ inr (ap string a) ],
  λ h. elim h [
    | inl v ↦ ap (λ x. require_client (text_of x)) v
    | inr a ↦ ap (λ x. require_client (text_of x)) a
  ],
)
client-IsMode x = (
  λ e. cc e,
  λ h. elim h [
    | inl v ↦ ap (λ x. require_client (text_of x)) v
    | inr a ↦ ap (λ x. require_client (text_of x)) a
  ],
)

checks-HasClientFields :
    (k : ClientKind) (m : String → Json)
    → (first_error (client_checks k m) ≡ none) ↔ HasClientFields k m
unfolding client_checks
checks-HasClientFields hello m =
    first_error-none _ [] _ _ (client-IsMode (m "client")) first_error-end
checks-HasClientFields attach m = first_error-end
checks-HasClientFields snapshot_request m = first_error-end
checks-HasClientFields subscribe m = first_error-end
checks-HasClientFields status_request m =
    first_error-none _ [] _ _ (require_string-IsString (m "requestId")) first_error-end
checks-HasClientFields operation_request m =
    first_error-none _ _ _ _ (require_string-IsString (m "requestId")) (
      first_error-none _ _ _ _ (require_string-IsString (m "name")) (
        first_error-none _ _ _ _ (require_record-IsRecord (m "input")) (
          first_error-none _ _ _ _
            (if_given-IsOptional require_number IsFinite require_number-IsFinite (m "deadlineAt"))
            first_error-end)))
checks-HasClientFields ping m =
    first_error-none _ [] _ _ (require_number-IsFinite (m "at")) first_error-end
checks-HasClientFields detach m = first_error-end
checks-HasClientFields shutdown m = first_error-end

accepted_kind :
    (kind : String) (n m : String → Json) (value : Json)
    → IsVersioned value kind n
    → (elim (client_kind kind) as (λ x. ProtocolError ⊎ (String → Json)) [
      | none ↦ inl unknown_type
      | some k ↦ checked n (client_checks k n)
    ])
      ≡ inr m
    → IsClientMessage value m
accepted_kind kind n m value v e = elim (Option-cases (client_kind kind)) [
  | inl f ↦ let g = rw f at e in cc g
  | inr (k, f) ↦
      let g : checked n (client_checks k n) ≡ inr m = rw f at e in
      let c = checked-none n m (client_checks k n) g in
      subst (λ r. IsClientMessage value r) c.0
        (record {
          kind = k;
          versioned = subst (λ s. IsVersioned value s n) (client_kind_type kind k f) v;
          fields = (checks-HasClientFields k n).0 c.1;
        })
]

accepted :
    (value : Json) (m : String → Json)
    → parse_client_message value ≡ inr m
    → IsClientMessage value m
unfolding parse_client_message
accepted value m e = go (require_versioned_record value) refl
  where
    go :
        (r : ProtocolError ⊎ (String × (String → Json)))
        → require_versioned_record value ≡ r
        → IsClientMessage value m
    go (inl error) f = let g = rw (f, parse_client_message) at e in cc g
    go (inr (kind, n)) f =
        accepted_kind kind n m value (require_versioned_record-IsVersioned value kind n f)
          (rw (f, parse_client_message) at e)

accepts :
    (value : Json) (m : String → Json)
    → IsClientMessage value m
    → parse_client_message value ≡ inr m
unfolding parse_client_message
accepts value m v =
    rw
      (
        IsVersioned-require_versioned_record value (client_type v.kind) m v.versioned,
        parse_client_message,
      )
      (rw (type_client_kind v.kind)
        (none-checked m (client_checks v.kind m) ((checks-HasClientFields v.kind m).1 v.fields)))

-- A value is accepted as a message of a client exactly if it is a record with protocol version 1, one
-- of the types of `ClientMessage`, and the fields of that type, except that `traceId` may be anything;
-- and then it is returned as it is.
pub parse_client_message-IsClientMessage :
    (value : Json) (m : String → Json)
    → (parse_client_message value ≡ inr m) ↔ IsClientMessage value m
parse_client_message-IsClientMessage value m = (λ e. accepted value m e, λ h. accepts value m h)
