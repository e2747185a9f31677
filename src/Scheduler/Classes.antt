-- ===== src/Scheduler/Classes.antt =====
-- src/core/operation-scheduler.ts: the operation classes and `Record<OperationClass, T>`.
use text.Mathlib.Text.{◌==◌ as str_eq}
use Prim.Native.String.{String}
use desktop_remote.Common.{ℕ, ◌+◌, ◌≡◌, refl, Option, none, some, Bool, true, false, if◌then◌else◌}

pub data OperationClass : Type 0 where
  light heavy process document : OperationClass

abbrev pub class_eq : OperationClass → OperationClass → Bool
class_eq light light = true
class_eq heavy heavy = true
class_eq process process = true
class_eq document document = true
class_eq _ _ = false

-- `Record<OperationClass, A>`.
pub record PerClass {ℓ} (A : Type ℓ) : Type ℓ where
  pub of_light : A
  pub of_heavy : A
  pub of_process : A
  pub of_document : A

module _ {ℓ} {A : Type ℓ} where
  abbrev pub get : PerClass A → OperationClass → A
  get r light = r.of_light
  get r heavy = r.of_heavy
  get r process = r.of_process
  get r document = r.of_document

  abbrev pub put : PerClass A → OperationClass → A → PerClass A
  put r light a = record r { of_light = a }
  put r heavy a = record r { of_heavy = a }
  put r process a = record r { of_process = a }
  put r document a = record r { of_document = a }

  abbrev pub all_classes : A → PerClass A
  all_classes a = record { of_light = a; of_heavy = a; of_process = a; of_document = a }

  pub get-put :
      (r : PerClass A) (c d : OperationClass) (a : A)
      → get (put r c a) d ≡ (if class_eq c d then a else get r d)
  get-put r light light a = refl
  get-put r light heavy a = refl
  get-put r light process a = refl
  get-put r light document a = refl
  get-put r heavy light a = refl
  get-put r heavy heavy a = refl
  get-put r heavy process a = refl
  get-put r heavy document a = refl
  get-put r process light a = refl
  get-put r process heavy a = refl
  get-put r process process a = refl
  get-put r process document a = refl
  get-put r document light a = refl
  get-put r document heavy a = refl
  get-put r document process a = refl
  get-put r document document a = refl

  pub get-put_self : (r : PerClass A) (c : OperationClass) (a : A) → get (put r c a) c ≡ a
  get-put_self r light a = refl
  get-put_self r heavy a = refl
  get-put_self r process a = refl
  get-put_self r document a = refl

  pub put-get : (r : PerClass A) (c : OperationClass) → put r c (get r c) ≡ r
  put-get r light = refl
  put-get r heavy = refl
  put-get r process = refl
  put-get r document = refl

-- `OPERATION_CLASSES.includes(value)`: the class that a string names.
unfoldable pub assert_operation_class : String → Option OperationClass
assert_operation_class value =
    if str_eq value "light"
    then some light
    else if str_eq value "heavy"
    then some heavy
    else if str_eq value "process"
    then some process
    else if str_eq value "document"
    then some document
    else none

unfoldable pub sum_counts : PerClass ℕ → ℕ
sum_counts counts = counts.of_light + counts.of_heavy + counts.of_process + counts.of_document
