-- ===== src/Scheduler/Create.antt =====
-- The constructor of the scheduler.
use desktop_remote.Common.{ℕ, ◌<◌, ◌≡◌, refl, subst, inl, true, false, [], Option, some, arith}
use desktop_remote.Scheduler.Classes.{
  OperationClass, light, heavy, process, document, get, sum_counts, all_classes, PerClass,
}
use desktop_remote.Scheduler.State.{Scheduler, SchedulerOptions, create}
use desktop_remote.Scheduler.Lanes.{sum_lengths}
use desktop_remote.Scheduler.Invariant.{IsValid, LaneAt, BusyAt}
use desktop_remote.Scheduler.State.{
  limit_or, create_limits, validate_limit, initial, default_concurrency, default_max_queue_size,
  default_max_queue_size_by_class,
}
use desktop_remote.Common.{>>=-eq-some}
use mathlib.Core.Option.{some-injective}
use desktop_remote.Common.Int.{Number, safe_integer, pos, negsuc, other}

validate_limit_pos : (n : Number) (k : ℕ) → validate_limit n false ≡ some k → 0 < k
unfolding validate_limit
validate_limit_pos (safe_integer (pos n)) k e = ground arith
validate_limit_pos (safe_integer (negsuc n)) k e = cc
validate_limit_pos other k e = cc

each :
    (l h p o : ℕ)
    → 0 < l
    → 0 < h
    → 0 < p
    → 0 < o
    → (d : OperationClass)
    → 0 < get (record { of_light = l; of_heavy = h; of_process = p; of_document = o }) d
each l h p o hl hh hp ho light = hl
each l h p o hl hh hp ho heavy = hh
each l h p o hl hh hp ho process = hp
each l h p o hl hh hp ho document = ho

create_limits_pos :
    (defaults : PerClass ℕ) (overrides : PerClass (Option Number)) (limits : PerClass ℕ)
    → create_limits defaults overrides false ≡ some limits
    → (d : OperationClass) → 0 < get limits d
unfolding create_limits
create_limits_pos defaults overrides limits e d =
    let (l, el, e1) =
      >>=-eq-some (validate_limit (limit_or overrides.of_light defaults.of_light) false) _ e in
    let (h, eh, e2) =
      >>=-eq-some (validate_limit (limit_or overrides.of_heavy defaults.of_heavy) false) _ e1 in
    let (p, ep, e3) =
      >>=-eq-some (validate_limit (limit_or overrides.of_process defaults.of_process) false) _ e2 in
    let (o, eo, e4) =
      >>=-eq-some (validate_limit (limit_or overrides.of_document defaults.of_document) false) _
        e3 in
    let same : record { of_light = l; of_heavy = h; of_process = p; of_document = o } ≡ limits =
      some-injective _ _ e4 in
    subst (λ r. 0 < get r d) same
      (each l h p o (validate_limit_pos (limit_or overrides.of_light defaults.of_light) l el)
        (validate_limit_pos (limit_or overrides.of_heavy defaults.of_heavy) h eh)
        (validate_limit_pos (limit_or overrides.of_process defaults.of_process) p ep)
        (validate_limit_pos (limit_or overrides.of_document defaults.of_document) o eo) d)

initial-IsValid :
    (concurrency : PerClass ℕ) (most : ℕ) (by_class : PerClass ℕ)
    → ((d : OperationClass) → 0 < get concurrency d)
    → IsValid (initial concurrency most by_class)
initial-IsValid concurrency most by_class h = record {
  sound = record { lanes = lane; total = sum_zero; bound = omega arith; capacity = h };
  busy = busy;
}
  where
    sum_zero : 0 ≡ sum_lengths (all_classes [])
    sum_zero = unfold sum_counts in refl

    lane : (d : OperationClass) → LaneAt (initial concurrency most by_class) d
    lane light = record { within = omega arith; counted = refl; room = omega arith; waiting = tt }
    lane heavy = record { within = omega arith; counted = refl; room = omega arith; waiting = tt }
    lane process = record { within = omega arith; counted = refl; room = omega arith; waiting = tt }
    lane document = record {
      within = omega arith;
      counted = refl;
      room = omega arith;
      waiting = tt;
    }

    busy : (d : OperationClass) → BusyAt (initial concurrency most by_class) d
    busy light = inl refl
    busy heavy = inl refl
    busy process = inl refl
    busy document = inl refl

pub create-initial :
    (options : SchedulerOptions) (s : Scheduler)
    → create options ≡ some s
    → (concurrency : PerClass ℕ) × (most : ℕ) × (by_class : PerClass ℕ) × (create_limits
          default_concurrency options.concurrency false
        ≡ some concurrency)
      × (initial concurrency most by_class ≡ s)
unfolding create
create-initial options s e =
    let (c, ec, e1) =
      >>=-eq-some (create_limits default_concurrency options.concurrency false) _ e in
    let (m, em, e2) =
      >>=-eq-some (validate_limit (limit_or options.max_queue_size default_max_queue_size) true) _
        e1 in
    let (b, eb, e3) =
      >>=-eq-some
        (create_limits default_max_queue_size_by_class options.max_queue_size_by_class true) _ e2 in
    (c, m, b, ec, some-injective _ _ e3)

-- A new scheduler satisfies the invariant.
pub create-IsValid :
    (options : SchedulerOptions) (s : Scheduler) → create options ≡ some s → IsValid s
create-IsValid options s e =
    let (concurrency, most, by_class, f, g) = create-initial options s e in
    subst IsValid g (
      initial-IsValid concurrency most by_class
        (create_limits_pos default_concurrency options.concurrency concurrency f))
