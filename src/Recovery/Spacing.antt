-- ===== src/Recovery/Spacing.antt =====
-- Restarts over a run of observations: each decision gets the history that the one before it left.
use desktop_remote.Common.{
  ℕ, zero, suc, ◌+◌, ◌-◌, ◌≤◌, ◌<◌, ◌≡◌, refl, ◌∙◌, subst, ◌⊎◌, inl, inr, Bool, true, false, Option,
  none, some, List, [], ◌∷◌, ◌++◌, leb, ◌==◌, if◌then◌else◌, length, drop, last?, keep_if, arith,
  Bool-cases, Option-cases, leb→le,
}
use desktop_remote.Recovery.{
  RecoveryAction, restart_tunnel, RecoveryObservation, RecoveryPolicyOptions, RecoveryDecision,
  Policy, with_defaults, is, is_locally_healthy, is_locally_repairable, recent_restarts, slice_last,
  repair, decide, evaluate_recovery, cooling, in_window, keep, is_unavailable,
  has_been_healthy_long_enough,
}

abbrev pub restarts_now : RecoveryAction → Bool
restarts_now restart_tunnel = true
restarts_now _ = false

-- The times at which the tunnel is restarted.
unfoldable pub restarts : RecoveryPolicyOptions → List RecoveryObservation → List ℕ → List ℕ
restarts options [] times = []
restarts options (o ∷ os) times =
    let d = evaluate_recovery o times options in
    let rest = restarts options os d.restart_times in
    if restarts_now d.action then o.now ∷ rest else rest

-- The clock does not go back.
abbrev pub Ascends : ℕ → List RecoveryObservation → Type 0
Ascends now [] = Unit {0}
Ascends now (o ∷ os) = (now ≤ o.now) × Ascends o.now os

-- Each time is at least `gap` after the one before it, the first after `last`.
abbrev pub Spaced : ℕ → Option ℕ → List ℕ → Type 0
Spaced gap last [] = Unit {0}
Spaced gap none (t ∷ ts) = Spaced gap (some t) ts
Spaced gap (some last) (t ∷ ts) = (last + gap ≤ t) × Spaced gap (some t) ts

-- The history ends with the last restart, or that lies at least `gap` back.
abbrev Remembers : ℕ → List ℕ → ℕ → Option ℕ → Type 0
Remembers gap times now none = Unit {0}
Remembers gap times now (some last) =
    ((last? times ≡ some last) × (last ≤ now)) ⊎ (last + gap ≤ now)

last-append : (xs : List ℕ) (x : ℕ) → last? (xs ++ x ∷ []) ≡ some x
last-append [] x = refl
last-append (y ∷ []) x = refl
last-append (y ∷ z ∷ xs) x = last-append (z ∷ xs) x

last-cons : (x : ℕ) (xs : List ℕ) (t : ℕ) → last? xs ≡ some t → last? (x ∷ xs) ≡ some t
last-cons x [] t e = cc
last-cons x (y ∷ xs) t e = e

last-keep_if :
    (p : ℕ → Bool) (xs : List ℕ) (t : ℕ)
    → p t ≡ true
    → last? xs ≡ some t
    → last? (keep_if p xs) ≡ some t
unfolding keep_if
last-keep_if p [] t h e = cc
last-keep_if p (x ∷ []) t h e = ground arith
last-keep_if p (x ∷ y ∷ xs) t h e = elim (Bool-cases (p x)) [
  | inl k ↦ rw k (last-cons x (keep_if p (y ∷ xs)) t (last-keep_if p (y ∷ xs) t h e))
  | inr k ↦ rw k (last-keep_if p (y ∷ xs) t h e)
]

last-drop : (k : ℕ) (xs : List ℕ) → k < length xs → last? (drop k xs) ≡ last? xs
last-drop zero xs h = refl
last-drop (suc k) [] h = absurd (omega arith)
last-drop (suc k) (x ∷ []) h = absurd (omega arith)
last-drop (suc k) (x ∷ y ∷ xs) h = last-drop k (y ∷ xs) (omega arith)

last-slice_last :
    (n : ℕ) (xs : List ℕ) (t : ℕ) → last? xs ≡ some t → last? (slice_last n xs) ≡ some t
unfolding slice_last
last-slice_last n [] t e = cc
last-slice_last n (x ∷ xs) t e = elim (Bool-cases (n == 0)) [
  | inl z ↦ rw z e
  | inr z ↦ rw z (last-drop (length (x ∷ xs) - n) (x ∷ xs) (ground arith) ∙ e)
]

cooled :
    (policy : Policy) (l now : ℕ)
    → l ≤ now
    → cooling policy now (some l) ≡ none
    → l + policy.cooldown_ms ≤ now
unfolding cooling
cooled policy l now h e = ground arith

module _ (policy : Policy) (wide : policy.cooldown_ms ≤ policy.window_ms)
    (patient : policy.cooldown_ms ≤ policy.healthy_reset_ms) where
  recent-Remembers :
      (times : List ℕ) (before now : ℕ) (last : Option ℕ)
      → before ≤ now
      → Remembers policy.cooldown_ms times before last
      → Remembers policy.cooldown_ms (recent_restarts policy now times) now last
  unfolding recent_restarts
  recent-Remembers times before now none h r = tt
  recent-Remembers times before now (some last) h (inr far) = inr (omega arith)
  recent-Remembers times before now (some last) h (inl (e, past)) =
      elim (Bool-cases (in_window now policy.window_ms last)) [
        | inl inside ↦ inl (
          last-slice_last policy.max_restarts _ last
              (last-keep_if (in_window now policy.window_ms) times last inside e),
          omega arith,
        )
        | inr outside ↦ inr (ground arith)
      ]

  -- What a decision leaves: a restart comes late enough and is remembered, anything else forgets
  -- no restart that is less than the cooldown old.
  abbrev Follows : ℕ → Option ℕ → RecoveryDecision → Type 0
  Follows now last d =
      (restarts_now d.action ≡ true)
        × (last? d.restart_times ≡ some now)
        × Spaced policy.cooldown_ms last (now ∷ [])
      ⊎ (restarts_now d.action ≡ false) × Remembers policy.cooldown_ms d.restart_times now last

  late_enough :
      (recent : List ℕ) (now : ℕ) (last : Option ℕ)
      → Remembers policy.cooldown_ms recent now last
      → cooling policy now (last? recent) ≡ none
      → Spaced policy.cooldown_ms last (now ∷ [])
  late_enough recent now none r e = tt
  late_enough recent now (some last) (inr far) e = (far, tt)
  late_enough recent now (some last) (inl (f, past)) e =
      (cooled policy last now past (subst (λ o. cooling policy now o ≡ none) f e), tt)

  forget :
      (recent : List ℕ) (now : ℕ) (last : Option ℕ)
      → Remembers policy.cooldown_ms recent now last
      → has_been_healthy_long_enough now (last? recent) policy.healthy_reset_ms ≡ true
      → Remembers policy.cooldown_ms [] now last
  unfolding has_been_healthy_long_enough
  forget recent now none r e = tt
  forget recent now (some last) (inr far) e = inr far
  forget recent now (some last) (inl (f, past)) e =
      let g : leb policy.healthy_reset_ms (now - last) ≡ true =
        subst (λ o. has_been_healthy_long_enough now o policy.healthy_reset_ms ≡ true) f e in
      inr (omega (arith, leb→le _ _ g))

  repair-Follows :
      (o : RecoveryObservation) (recent : List ℕ) (last : Option ℕ)
      → Remembers policy.cooldown_ms recent o.now last
      → Follows o.now last (repair policy o recent)
  unfolding repair
  repair-Follows o recent last r = elim (Bool-cases (leb policy.max_restarts (length recent))) [
    | inl e ↦ rw e (inr (refl, r))
    | inr e ↦ elim (Option-cases (cooling policy o.now (last? recent))) [
      | inl f ↦ rw (e, f) (inl (refl, last-append recent o.now, late_enough recent o.now last r f))
      | inr (w, f) ↦ rw (e, f) (inr (refl, r))
    ]
  ]

  keep-Follows :
      (o : RecoveryObservation) (recent : List ℕ) (last : Option ℕ)
      → Remembers policy.cooldown_ms recent o.now last
      → Follows o.now last (keep policy o recent)
  unfolding keep
  keep-Follows o recent last r = elim (Bool-cases (is_unavailable o.control_plane)) [
    | inl e ↦ rw e (inr (refl, r))
    | inr e ↦
        elim (Bool-cases
          (has_been_healthy_long_enough o.now (last? recent) policy.healthy_reset_ms)) [
            | inl f ↦ rw (e, f) (inr (refl, forget recent o.now last r f))
            | inr f ↦ rw (e, f) (inr (refl, r))
          ]
  ]

  decide-Follows :
      (o : RecoveryObservation) (recent : List ℕ) (last : Option ℕ)
      → Remembers policy.cooldown_ms recent o.now last
      → Follows o.now last (decide policy o recent)
  unfolding decide
  decide-Follows o recent last r = elim (Bool-cases (is false o.local.configured)) [
    | inl a ↦ rw a (inr (refl, r))
    | inr a ↦ elim (Bool-cases (is_locally_healthy o.local)) [
      | inl b ↦ rw (a, b) (keep-Follows o recent last r)
      | inr b ↦ elim (Bool-cases (is_locally_repairable o.local)) [
        | inl c ↦ rw (a, b, c) (repair-Follows o recent last r)
        | inr c ↦ rw (a, b, c) (inr (refl, r))
      ]
    ]
  ]

Spaced-cons :
    (gap : ℕ) (last : Option ℕ) (t : ℕ) (ts : List ℕ)
    → Spaced gap last (t ∷ [])
    → Spaced gap (some t) ts
    → Spaced gap last (t ∷ ts)
Spaced-cons gap none t ts h k = k
Spaced-cons gap (some l) t ts (h, _) k = (h, k)

module _ (options : RecoveryPolicyOptions) where
  abbrev gap : ℕ
  gap = (with_defaults options).cooldown_ms

  module _ (wide : gap ≤ (with_defaults options).window_ms)
      (patient : gap ≤ (with_defaults options).healthy_reset_ms) where
    run-Spaced :
        (os : List RecoveryObservation) (now : ℕ) (times : List ℕ) (last : Option ℕ)
        → Ascends now os
        → Remembers gap times now last
        → Spaced gap last (restarts options os times)
    unfolding restarts evaluate_recovery
    run-Spaced [] now times last a r = tt
    run-Spaced (o ∷ os) now times last (h, a) r =
        elim (decide-Follows (with_defaults options) wide patient o
          (recent_restarts (with_defaults options) o.now times) last
          (recent-Remembers (with_defaults options) wide patient times now o.now last h r)) [
            | inl (e, f, g) ↦ rw e (
                Spaced-cons gap last o.now _ g
                  (run-Spaced os o.now _ (some o.now) a (inl (f, omega arith))))
            | inr (e, f) ↦ rw e (run-Spaced os o.now _ last a f)
          ]

-- Whatever is observed, while the clock does not go back: two restarts of the tunnel are at least
-- the cooldown apart, provided the cooldown is no longer than the window and the healthy time that
-- clears the history.
pub restarts-Spaced :
    (options : RecoveryPolicyOptions) (os : List RecoveryObservation)
    → (with_defaults options).cooldown_ms ≤ (with_defaults options).window_ms
    → (with_defaults options).cooldown_ms ≤ (with_defaults options).healthy_reset_ms
    → Ascends 0 os
    → Spaced (with_defaults options).cooldown_ms none (restarts options os [])
restarts-Spaced options os wide patient a = run-Spaced options wide patient os 0 [] none a tt
