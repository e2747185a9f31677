-- ===== src/Ipc/Accepted.antt =====
-- Which messages the parsers accept.
use mathlib.Core.Option.{some-injective}
use Prim.Native.String.{String}
use text.Mathlib.Text.{◌==◌ as str_eq}
use text.Mathlib.TextEquality.{eq_iff}
use desktop_remote.Common.{
  zero, suc, ◌≡◌, refl, sym, ap, subst, ◌∙◌, true, Option, none, some, List, [], ◌∷◌, ◌↔◌, ◌⊎◌, inl,
  inr, if◌then◌else◌, Bool-cases, Option-cases,
}
use desktop_remote.Common.Int.{ℤ, pos}
use desktop_remote.Ipc.Protocol.{
  Json, missing, null, boolean, number, string, array, object, whole, fractional, infinite,
  ProtocolError, invalid, require_record, require_string, require_number, if_given, first_error,
  is_version, text_of, require_versioned_record, checked,
}

-- The types of src/ipc/protocol.ts.
abbrev pub IsString : Json → Type 0
IsString x = (s : String) × (x ≡ string s)

abbrev pub IsRecord : Json → Type 0
IsRecord x = (m : String → Json) × (x ≡ object m)

pub data IsFinite (x : Json) : Type 0 where
  an_integer : (n : ℤ) → x ≡ number (whole n) → IsFinite x
  a_fraction : x ≡ number fractional → IsFinite x

abbrev pub IsOptional : (Json → Type 0) → Json → Type 0
IsOptional P x = (x ≡ missing) ⊎ P x

-- One case of a switch over strings.
pub case_of :
    {K : Type 0} (name : K → String) (s : String) (a : K) (rest : Option K) (k : K)
    → (rest ≡ some k → s ≡ name k)
    → (if str_eq s (name a) then some a else rest) ≡ some k
    → s ≡ name k
case_of name s a rest k otherwise e = elim (Bool-cases (str_eq s (name a))) [
  | inl same ↦
      (eq_iff s (name a)).0 same
      ∙ ap name (some-injective a k (subst (λ b. (if b then some a else rest) ≡ some k) same e))
  | inr differs ↦ otherwise (subst (λ b. (if b then some a else rest) ≡ some k) differs e)
]

pub require_string-IsString : (x : Json) → (require_string x ≡ none) ↔ IsString x
require_string-IsString missing = (λ e. cc e, λ (s, e). cc e)
require_string-IsString (string s) = (λ e. (s, refl), λ h. refl)
require_string-IsString x = (λ e. cc e, λ (s, e). cc e)

pub require_record-IsRecord : (x : Json) → (require_record x ≡ none) ↔ IsRecord x
require_record-IsRecord missing = (λ e. cc e, λ (m, e). cc e)
require_record-IsRecord (object m) = (λ e. (m, refl), λ h. refl)
require_record-IsRecord x = (λ e. cc e, λ (m, e). cc e)

not_finite : (x : Json) → require_number x ≡ some invalid → IsFinite x → require_number x ≡ none
not_finite x e (an_integer n f) = ap require_number f
not_finite x e (a_fraction f) = ap require_number f

pub require_number-IsFinite : (x : Json) → (require_number x ≡ none) ↔ IsFinite x
require_number-IsFinite missing = (λ e. cc e, not_finite missing refl)
require_number-IsFinite (number (whole n)) = (λ e. an_integer n refl, λ h. refl)
require_number-IsFinite (number fractional) = (λ e. a_fraction refl, λ h. refl)
require_number-IsFinite (number infinite) = (λ e. cc e, not_finite (number infinite) refl)
require_number-IsFinite x = (λ e. cc e, not_finite x refl)

given :
    (check : Json → Option ProtocolError) (P : Json → Type 0)
    → ((x : Json) → (check x ≡ none) ↔ P x)
    → (x : Json) → if_given check x ≡ check x
    → ¬ (x ≡ missing)
    → IsOptional P x
    → if_given check x ≡ none
given check P valid x same there (inl e) = absurd (there e)
given check P valid x same there (inr p) = same ∙ (valid x).1 p

absurd_error : {A : Type 0} (error : ProtocolError) → some error ≡ none → A
absurd_error error e = cc e

pub if_given-IsOptional :
    (check : Json → Option ProtocolError) (P : Json → Type 0)
    → ((x : Json) → (check x ≡ none) ↔ P x)
    → (x : Json) → (if_given check x ≡ none) ↔ IsOptional P x
if_given-IsOptional check P valid missing = (λ e. inl refl, λ h. refl)
if_given-IsOptional check P valid null =
    (λ e. inr ((valid null).0 e), given check P valid null refl (λ e. cc e))
if_given-IsOptional check P valid (boolean b) =
    (λ e. inr ((valid (boolean b)).0 e), given check P valid (boolean b) refl (λ e. cc e))
if_given-IsOptional check P valid (number n) =
    (λ e. inr ((valid (number n)).0 e), given check P valid (number n) refl (λ e. cc e))
if_given-IsOptional check P valid (string s) =
    (λ e. inr ((valid (string s)).0 e), given check P valid (string s) refl (λ e. cc e))
if_given-IsOptional check P valid (array n xs) =
    (λ e. inr ((valid (array n xs)).0 e), given check P valid (array n xs) refl (λ e. cc e))
if_given-IsOptional check P valid (object m) =
    (λ e. inr ((valid (object m)).0 e), given check P valid (object m) refl (λ e. cc e))

pub first_error-none :
    (check : Option ProtocolError) (checks : List (Option ProtocolError)) (P Q : Type 0)
    → (check ≡ none) ↔ P
    → (first_error checks ≡ none) ↔ Q
    → (first_error (check ∷ checks) ≡ none) ↔ (P × Q)
unfolding first_error
first_error-none none checks P Q (f, g) (h, k) = (λ e. (f refl, h e), λ (p, q). k q)
first_error-none (some error) checks P Q (f, g) (h, k) =
    (λ e. cc e, λ (p, q). absurd_error error (g p))

pub first_error-end : (first_error [] ≡ none) ↔ Unit {0}
unfolding first_error
first_error-end = (λ e. tt, λ u. refl)

-- The version, the type and the fields that every message has.
pub record IsVersioned (value : Json) (kind : String) (m : String → Json) : Type 0 where
  pub is_record : value ≡ object m
  pub version : m "protocolVersion" ≡ number (whole (pos 1))
  pub typed : m "type" ≡ string kind

is_version-one : (x : Json) → is_version x ≡ true → x ≡ number (whole (pos 1))
unfolding is_version
is_version-one (number (whole (pos (suc zero)))) e = refl
is_version-one x e = cc e

pub text_of-string : (x : Json) (s : String) → text_of x ≡ some s → x ≡ string s
unfolding text_of
text_of-string (string t) s e = ap string (some-injective t s e)
text_of-string x s e = cc e

-- What `requireVersionedRecord` accepts.
pub require_versioned_record-IsVersioned :
    (value : Json) (kind : String) (m : String → Json)
    → require_versioned_record value ≡ inr (kind, m)
    → IsVersioned value kind m
unfolding require_versioned_record
require_versioned_record-IsVersioned (object n) kind m e =
    elim (Bool-cases (is_version (n "protocolVersion"))) [
      | inr v ↦ let f = rw v at e in cc f
      | inl v ↦ elim (Option-cases (text_of (n "type"))) [
        | inl t ↦ let f = rw (v, t) at e in cc f
        | inr (s, t) ↦
            let f = rw (v, t) at e in
            let same_kind : s ≡ kind = cc f in
            let same_record : n ≡ m = cc f in
            record {
              is_record = ap object same_record;
              version =
                  ap (λ r. r "protocolVersion") (sym same_record)
                  ∙ is_version-one (n "protocolVersion") v;
              typed =
                  ap (λ r. r "type") (sym same_record)
                  ∙ text_of-string (n "type") s t
                  ∙ ap string same_kind;
            }
      ]
    ]
require_versioned_record-IsVersioned x kind m e = cc e

pub IsVersioned-require_versioned_record :
    (value : Json) (kind : String) (m : String → Json)
    → IsVersioned value kind m
    → require_versioned_record value ≡ inr (kind, m)
unfolding require_versioned_record is_version text_of
IsVersioned-require_versioned_record value kind m v =
    rw v.is_record (rw v.version (rw v.typed refl))

pub checked-none :
    (m n : String → Json) (checks : List (Option ProtocolError))
    → checked m checks ≡ inr n
    → (m ≡ n) × (first_error checks ≡ none)
unfolding checked
checked-none m n checks e = elim (Option-cases (first_error checks)) [
  | inl f ↦ let g = rw (f, checked) at e in (cc g, f)
  | inr (error, f) ↦ let g = rw (f, checked) at e in cc g
]

pub none-checked :
    (m : String → Json) (checks : List (Option ProtocolError))
    → first_error checks ≡ none
    → checked m checks ≡ inr m
unfolding checked
none-checked m checks e = rw (e, checked) refl
