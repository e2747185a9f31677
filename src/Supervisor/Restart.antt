-- ===== src/Supervisor/Restart.antt =====
-- src/daemon/restart-policy.ts: `RestartPolicy`.
use desktop_remote.Common.{
  ℕ, zero, suc, ◌+◌, ◌-◌, ◌≤◌, ◌<◌, ◌≡◌, ◌↔◌, refl, Bool, true, false, List, [], ◌∷◌, leb,
  if◌then◌else◌, get_or, length, min, ◌*◌, arith, Bool-cases, inl, inr, All, leb→le, leb→gt,
}
use native.Mathlib.Numerals.{towards_suc}

abbrev pub healthy_reset_ms : ℕ
healthy_reset_ms = 5 * 60 * 1000

abbrev pub degraded_after_failures : ℕ
degraded_after_failures = 10

abbrev pub degraded_retry_ms : ℕ
degraded_retry_ms = 5 * 60 * 1000

abbrev pub normal_delays_ms : List ℕ
normal_delays_ms = 1000 ∷ 2000 ∷ 5000 ∷ 10000 ∷ 30000 ∷ 60000 ∷ []

pub record RestartDecision : Type 0 where
  pub delay_ms : ℕ
  pub degraded : Bool
  pub consecutive_failures : ℕ

pub record RestartPolicy : Type 0 where
  pub consecutive_failures : ℕ
  pub degraded : Bool

unfoldable pub reset : RestartPolicy
reset = record { consecutive_failures = 0; degraded = false }

-- The delay after that many failures; the default of the table's reading is never taken.
unfoldable pub delay_after : ℕ → ℕ
delay_after failures =
    if leb degraded_after_failures failures
    then degraded_retry_ms
    else get_or normal_delays_ms (min (failures - 1) 5) 0

unfoldable pub next_after_exit : ℕ → RestartPolicy → RestartPolicy × RestartDecision
unfolding delay_after reset
next_after_exit run_duration_ms policy = (
  record { consecutive_failures = failures; degraded = leb degraded_after_failures failures },
  record {
    delay_ms = delay_after failures;
    degraded = leb degraded_after_failures failures;
    consecutive_failures = failures;
  },
)
  where
    current : RestartPolicy
    current = if leb healthy_reset_ms run_duration_ms then reset else policy

    failures : ℕ
    failures = current.consecutive_failures + 1

-- The delays by number of failures.
table : (f : ℕ) → delay_after (suc f) ≤ delay_after (suc (suc f))
unfolding delay_after
table zero = omega arith
table (suc zero) = omega arith
table (suc (suc zero)) = omega arith
table (suc (suc (suc zero))) = omega arith
table (suc (suc (suc (suc zero)))) = omega arith
table (suc (suc (suc (suc (suc zero))))) = omega arith
table (suc (suc (suc (suc (suc (suc zero)))))) = omega arith
table (suc (suc (suc (suc (suc (suc (suc zero))))))) = omega arith
table (suc (suc (suc (suc (suc (suc (suc (suc zero)))))))) = omega arith
table (suc (suc (suc (suc (suc (suc (suc (suc (suc f))))))))) = ground arith

in_table :
    (i : ℕ) → i ≤ 5 → (1000 ≤ get_or normal_delays_ms i 0) × (get_or normal_delays_ms i 0 ≤ 60000)
in_table zero h = omega arith
in_table (suc zero) h = omega arith
in_table (suc (suc zero)) h = omega arith
in_table (suc (suc (suc zero))) h = omega arith
in_table (suc (suc (suc (suc zero)))) h = omega arith
in_table (suc (suc (suc (suc (suc zero))))) h = omega arith
in_table (suc (suc (suc (suc (suc (suc i)))))) h = absurd (omega arith)

-- Every delay lies between a second and five minutes; the longest is given from the tenth failure
-- in a row on, and before that no delay is above a minute.
pub delay_after_bounds :
    (f : ℕ)
    → (1000 ≤ delay_after f)
      × (delay_after f ≤ degraded_retry_ms)
      × ((delay_after f ≡ degraded_retry_ms) ↔ (degraded_after_failures ≤ f))
unfolding delay_after
delay_after_bounds f =
    let t = in_table (min (f - 1) 5) (omega arith) in
    elim (Bool-cases (leb degraded_after_failures f)) [
      | inl h ↦ rw h (omega arith, omega arith, (λ _. leb→le _ _ h, λ _. refl))
      | inr h ↦ rw h (
        omega (arith, t),
        omega (arith, t),
        (λ e. absurd (omega (arith, e, t)), λ e. absurd (omega (arith, leb→gt _ _ h))),
      )
    ]

-- A run of exits: what the policy decides for each, from the first on.
pub decisions : List ℕ → RestartPolicy → List RestartDecision
decisions [] policy = []
decisions (d ∷ ds) policy = (next_after_exit d policy).1 ∷ decisions ds (next_after_exit d policy).0

-- The delays never get shorter along the list.
abbrev pub Escalates : ℕ → List RestartDecision → Type 0
Escalates least [] = Unit {0}
Escalates least (d ∷ ds) = (least ≤ d.delay_ms) × Escalates d.delay_ms ds

delay_after_mono : (f : ℕ) → 0 < f → delay_after f ≤ delay_after (f + 1)
delay_after_mono zero h = absurd (omega arith)
delay_after_mono (suc f) h = simp towards_suc (table f)

is_short : (d : ℕ) → d < healthy_reset_ms → leb healthy_reset_ms d ≡ false
is_short d h = ground arith

short_run :
    (ds : List ℕ) (policy : RestartPolicy)
    → All (λ d. d < healthy_reset_ms) ds
    → 0 < policy.consecutive_failures
    → Escalates (delay_after policy.consecutive_failures) (decisions ds policy)
unfolding decisions next_after_exit
short_run [] policy h p = tt
short_run (d ∷ ds) policy (s, h) p = rw (is_short d s) (
  delay_after_mono policy.consecutive_failures p,
  short_run ds
      (record {
        consecutive_failures = policy.consecutive_failures + 1;
        degraded = leb degraded_after_failures (policy.consecutive_failures + 1);
      })
      h (omega arith),
)

pub failures_after : List ℕ → RestartPolicy → ℕ
failures_after [] policy = policy.consecutive_failures
failures_after (d ∷ ds) policy = failures_after ds (next_after_exit d policy).0

short_failures :
    (ds : List ℕ) (policy : RestartPolicy)
    → All (λ d. d < healthy_reset_ms) ds
    → failures_after ds policy ≡ policy.consecutive_failures + length ds
unfolding failures_after next_after_exit
short_failures [] policy h = omega arith
short_failures (d ∷ ds) policy (s, h) = rw (is_short d s) (
    omega (
      arith,
      short_failures ds
          (record {
            consecutive_failures = policy.consecutive_failures + 1;
            degraded = leb degraded_after_failures (policy.consecutive_failures + 1);
          })
          h,
    ))

first-Escalates :
    (ds : List ℕ) (policy : RestartPolicy)
    → All (λ d. d < healthy_reset_ms) ds
    → Escalates 0 (decisions ds policy)
unfolding decisions next_after_exit
first-Escalates [] policy h = tt
first-Escalates (d ∷ ds) policy (s, h) = rw (is_short d s) (
  omega arith,
  short_run ds
      (record {
        consecutive_failures = policy.consecutive_failures + 1;
        degraded = leb degraded_after_failures (policy.consecutive_failures + 1);
      })
      h (omega arith),
)

-- A run of exits that each come before the healthy time: the delays never get shorter, and the
-- policy counts every one of them.
pub decisions_escalate :
    (ds : List ℕ) (policy : RestartPolicy)
    → All (λ d. d < healthy_reset_ms) ds
    → Escalates 0 (decisions ds policy)
      × (failures_after ds policy ≡ policy.consecutive_failures + length ds)
decisions_escalate ds policy h = (first-Escalates ds policy h, short_failures ds policy h)

-- An exit after the healthy time starts the count anew, whatever went before: the next delay is the
-- shortest, and the policy is not degraded.
pub next_after_healthy :
    (d : ℕ) (policy : RestartPolicy)
    → healthy_reset_ms ≤ d
    → next_after_exit d policy ≡ (
      record { consecutive_failures = 1; degraded = false },
      record { delay_ms = 1000; degraded = false; consecutive_failures = 1 },
    )
unfolding next_after_exit
next_after_healthy d policy h = let e : leb healthy_reset_ms d ≡ true = ground arith in rw e refl
