-- ===== src/Recovery/Decision.antt =====
-- What a decision of the recovery policy means.
use desktop_remote.Common.{
  ℕ, ◌-◌, ◌≤◌, ◌<◌, ◌≡◌, ◌↔◌, refl, inl, inr, true, false, Option, none, some, List, [], ◌∷◌, leb,
  length, length-drop, length-append, last?, drop, keep_if, ◌+◌, ◌==◌, ◌⊎◌, ◌||◌, ap, not, Bool,
  arith, Bool-cases, Option-cases, leb→le, leb→gt, sym, ◌∙◌, ◌≢◌,
}
use mathlib.Core.Option.{none-ne-some}
use desktop_remote.Recovery.{
  RecoveryLocalObservation, restart_tunnel, RecoveryObservation, RecoveryPolicyOptions, Policy,
  with_defaults, is, is_locally_healthy, is_locally_repairable, recent_restarts, slice_last, repair,
  decide, evaluate_recovery, cooling, keep, in_window,
}

-- The last of the recent restarts lies at least the cooldown back.
abbrev pub IsCool : ℕ → ℕ → Option ℕ → Type 0
IsCool cooldown now none = Unit {0}
IsCool cooldown now (some last) = cooldown ≤ now - last

cooling_iff :
    (policy : Policy) (now : ℕ) (last : Option ℕ)
    → (cooling policy now last ≡ none) ↔ IsCool policy.cooldown_ms now last
unfolding cooling
cooling_iff policy now none = (λ _. tt, λ _. refl)
cooling_iff policy now (some last) = (λ e. ground arith, λ h. ground arith)

repair_iff :
    (policy : Policy) (o : RecoveryObservation) (recent : List ℕ)
    → ((repair policy o recent).action ≡ restart_tunnel)
      ↔ ((length recent < policy.max_restarts) × IsCool policy.cooldown_ms o.now (last? recent))
unfolding repair
repair_iff policy o recent =
    let c = cooling_iff policy o.now (last? recent) in
    elim (Bool-cases (leb policy.max_restarts (length recent))) [
      | inl e ↦ rw e (λ f. cc, λ (h, _). absurd (omega (arith, leb→le _ _ e)))
      | inr e ↦ elim (Option-cases (cooling policy o.now (last? recent))) [
        | inl f ↦ rw (e, f) (λ _. (leb→gt _ _ e, c.0 f), λ _. refl)
        | inr (w, f) ↦ rw (e, f) (λ g. cc, λ (_, h). absurd (none-ne-some w (sym (c.1 h) ∙ f)))
      ]
    ]

keep_observes :
    (policy : Policy) (o : RecoveryObservation) (recent : List ℕ)
    → (keep policy o recent).action ≢ restart_tunnel
unfolding keep
keep_observes policy o recent = ground arith

healthy_not_repairable :
    (l : RecoveryLocalObservation) → is_locally_healthy l ≡ true → is_locally_repairable l ≡ false
unfolding is_locally_healthy is_locally_repairable
healthy_not_repairable l h = ground arith

decide_iff :
    (policy : Policy) (o : RecoveryObservation) (recent : List ℕ)
    → ((decide policy o recent).action ≡ restart_tunnel) ↔ (
        (is false o.local.configured ≡ false)
        × (is_locally_repairable o.local ≡ true)
        × (length recent < policy.max_restarts)
        × IsCool policy.cooldown_ms o.now (last? recent))
unfolding decide
decide_iff policy o recent =
    let r = repair_iff policy o recent in
    elim (Bool-cases (is false o.local.configured)) [
      | inl a ↦ rw a (λ e. cc, λ (f, _, _, _). cc)
      | inr a ↦ elim (Bool-cases (is_locally_healthy o.local)) [
        | inl b ↦
            rw (a, b)
              (
                λ e. absurd (keep_observes policy o recent e),
                λ (_, f, _, _). cc (healthy_not_repairable o.local b),
              )
        | inr b ↦ elim (Bool-cases (is_locally_repairable o.local)) [
          | inl c ↦
              rw (a, b, c)
                (λ e. let (n, k) = r.0 e in (refl, refl, n, k), λ (_, _, n, k). r.1 (n, k))
          | inr c ↦ rw (a, b, c) (λ e. cc, λ (_, f, _, _). cc)
        ]
      ]
    ]

-- The times of `kept` are those of `times` that lie in the window before `now`, in their order.
pub data Within (now window : ℕ) : List ℕ → List ℕ → Type 0 where
  none_left : Within now window [] []
  inside :
      (t : ℕ) (ts kept : List ℕ)
      → t ≤ now
      → now ≤ t + window
      → Within now window ts kept
      → Within now window (t ∷ ts) (t ∷ kept)
  ahead :
      (t : ℕ) (ts kept : List ℕ)
      → now < t
      → Within now window ts kept
      → Within now window (t ∷ ts) kept
  too_old :
      (t : ℕ) (ts kept : List ℕ)
      → t + window < now
      → Within now window ts kept
      → Within now window (t ∷ ts) kept

-- The tunnel is stuck, not live, or its process is dead.
abbrev pub HasFailed : RecoveryLocalObservation → Type 0
HasFailed local =
    (local.stuck ≡ some true) ⊎ ((local.liveness ≡ false) ⊎ (local.process_alive ≡ some false))

keep_if-Within :
    (now window : ℕ) (times : List ℕ)
    → Within now window times (keep_if (in_window now window) times)
unfolding keep_if
keep_if-Within now window [] = none_left
keep_if-Within now window (t ∷ ts) = elim (Bool-cases (leb t now)) [
  | inr e ↦ rw e (ahead t ts _ (leb→gt t now e) (keep_if-Within now window ts))
  | inl e ↦ elim (Bool-cases (leb (now - t) window)) [
    | inl f ↦
        rw (e, f)
          (inside t ts _ (leb→le t now e) (omega (arith, leb→le (now - t) window f))
            (keep_if-Within now window ts))
    | inr f ↦
        rw (e, f)
          (too_old t ts _ (omega (arith, leb→gt (now - t) window f)) (keep_if-Within now window ts))
  ]
]

slice_last-few : (n : ℕ) (xs : List ℕ) → length xs < n → slice_last n xs ≡ xs
unfolding slice_last
slice_last-few n xs h =
    let some_kept : (n == 0) ≡ false = ground (arith, h) in
    let all_kept : length xs - n ≡ 0 = omega (arith, h) in
    rw some_kept (ap (λ k. drop k xs) all_kept)

slice_last-many : (n : ℕ) (xs : List ℕ) → n ≤ length xs → n ≤ length (slice_last n xs)
unfolding slice_last
slice_last-many n xs h = ground (arith, h, length-drop (length xs - n) xs)

failure_proven :
    (stuck : Option Bool) (live : Bool) (alive : Option Bool)
    → (is true stuck || not live || is false alive) ≡ true
    → (stuck ≡ some true) ⊎ ((live ≡ false) ⊎ (alive ≡ some false))
failure_proven (some true) live alive e = inl refl
failure_proven none false alive e = inr (inl refl)
failure_proven (some false) false alive e = inr (inl refl)
failure_proven none true (some false) e = inr (inr refl)
failure_proven (some false) true (some false) e = inr (inr refl)
failure_proven none true none e = cc e
failure_proven none true (some true) e = cc e
failure_proven (some false) true none e = cc e
failure_proven (some false) true (some true) e = cc e

proven_failure :
    (stuck : Option Bool) (live : Bool) (alive : Option Bool)
    → (stuck ≡ some true) ⊎ ((live ≡ false) ⊎ (alive ≡ some false))
    → (is true stuck || not live || is false alive) ≡ true
proven_failure stuck live alive (inl e) = ap (λ s. is true s || not live || is false alive) e
proven_failure stuck live alive (inr (inl e)) = rw e (ground arith)
proven_failure stuck live alive (inr (inr e)) = rw e (ground arith)

repairable_iff :
    (local : RecoveryLocalObservation) → (is_locally_repairable local ≡ true) ↔ HasFailed local
unfolding is_locally_repairable
repairable_iff local = (
  failure_proven local.stuck local.liveness local.process_alive,
  proven_failure local.stuck local.liveness local.process_alive,
)

configured_iff :
    (configured : Option Bool) → (is false configured ≡ false) ↔ (configured ≢ some false)
configured_iff none = (λ e f. cc f, λ h. refl)
configured_iff (some true) = (λ e f. cc f, λ h. refl)
configured_iff (some false) = (λ e. cc e, λ h. absurd (h refl))

decide_sliced_iff :
    (policy : Policy) (o : RecoveryObservation) (kept : List ℕ)
    → ((decide policy o (slice_last policy.max_restarts kept)).action ≡ restart_tunnel) ↔ (
        (is false o.local.configured ≡ false)
        × (is_locally_repairable o.local ≡ true)
        × (length kept < policy.max_restarts)
        × IsCool policy.cooldown_ms o.now (last? kept))
decide_sliced_iff policy o kept = elim (Bool-cases (leb policy.max_restarts (length kept))) [
  | inr e ↦ rw (slice_last-few policy.max_restarts kept (leb→gt _ _ e)) (decide_iff policy o kept)
  | inl e ↦
      let many = slice_last-many policy.max_restarts kept (leb→le _ _ e) in
      (
        λ f.
            let (_, _, few, _) = (decide_iff policy o (slice_last policy.max_restarts kept)).0 f in
            absurd (omega (arith, many, few)),
        λ (_, _, few, _). absurd (omega (arith, few, leb→le _ _ e)),
      )
]

-- The tunnel is restarted exactly when it is not known to be unconfigured, it has failed locally (it is
-- stuck, not live, or its process is dead), fewer restarts than the budget lie in the window, and the
-- last of these, if there is one, lies at least the cooldown back. The control plane alone never
-- causes a restart.
pub evaluate_restart_iff :
    (o : RecoveryObservation) (times : List ℕ) (options : RecoveryPolicyOptions)
    → let policy = with_defaults options in
      (kept : List ℕ) × Within o.now policy.window_ms times kept
      × (((evaluate_recovery o times options).action ≡ restart_tunnel) ↔ (
          (o.local.configured ≢ some false)
          × HasFailed o.local
          × (length kept < policy.max_restarts)
          × IsCool policy.cooldown_ms o.now (last? kept)))
unfolding evaluate_recovery recent_restarts
evaluate_restart_iff o times options =
    let policy = with_defaults options in
    let kept = keep_if (in_window o.now policy.window_ms) times in
    let (restarts, may_restart) = decide_sliced_iff policy o kept in
    (
      kept,
      keep_if-Within o.now policy.window_ms times,
      (
        λ e.
            let (c, f, n, k) = restarts e in
            ((configured_iff o.local.configured).0 c, (repairable_iff o.local).0 f, n, k),
        λ (c, f, n, k).
            may_restart
              ((configured_iff o.local.configured).1 c, (repairable_iff o.local).1 f, n, k),
      ),
    )

length-slice_last-le : (n : ℕ) (xs : List ℕ) → 0 < n → length (slice_last n xs) ≤ n
unfolding slice_last
length-slice_last-le n xs h = ground (arith, length-drop (length xs - n) xs)

repair_budget :
    (policy : Policy) (o : RecoveryObservation) (recent : List ℕ)
    → length recent ≤ policy.max_restarts
    → length (repair policy o recent).restart_times ≤ policy.max_restarts
unfolding repair
repair_budget policy o recent h = ground (arith, length-append recent (o.now ∷ []))

decide_budget :
    (policy : Policy) (o : RecoveryObservation) (recent : List ℕ)
    → length recent ≤ policy.max_restarts
    → length (decide policy o recent).restart_times ≤ policy.max_restarts
unfolding decide keep
decide_budget policy o recent h = ground (arith, repair_budget policy o recent)

-- The history never holds more restarts than the budget, if that is not 0.
pub evaluate_budget :
    (o : RecoveryObservation) (times : List ℕ) (options : RecoveryPolicyOptions)
    → 0 < (with_defaults options).max_restarts
    → length (evaluate_recovery o times options).restart_times
      ≤ (with_defaults options).max_restarts
unfolding evaluate_recovery recent_restarts
evaluate_budget o times options h =
    decide_budget (with_defaults options) o (recent_restarts (with_defaults options) o.now times)
      (length-slice_last-le (with_defaults options).max_restarts _ h)
