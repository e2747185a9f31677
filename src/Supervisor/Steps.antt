-- ===== src/Supervisor/Steps.antt =====
-- The supervisor as a state machine, from its constructor on.
use desktop_remote.Common.{
  ℕ, ◌+◌, ◌≤◌, ◌≡◌, refl, ap, ◌∙◌, subst, Bool, true, false, not, ◌&&◌, ◌||◌, Option, none, List,
  ◌∷◌, ◌++◌, ◌==◌, is_some, ltb, All, arith, Bool-cases, inl, inr,
}
use mathlib.Core.Bool.{false≢true}
use desktop_remote.Events.{Text, RuntimeEvent}
use desktop_remote.Supervisor.Phase.{IsSteady, IsSound, Phase, off, up, down, live, one_if}
use desktop_remote.Supervisor.{
  Supervisor, Timer, initial, handle_runtime_event, start_runtime, start, stop, restart_after,
  is_stopped,
}
use desktop_remote.Supervisor.Methods.{
  live_middle, past_middle, start-IsSteady, stop-IsSteady, event-IsSteady, start_runtime-IsSteady,
}

no_runtime : (k : ℕ) → 0 ≡ one_if (ltb k 0)
no_runtime k = ground arith

module _ {V : Type 0} where
  -- The state in which a sleeping `restartAfter` goes on.
  abbrev pub awake : List Timer → List Timer → Supervisor V → Supervisor V
  awake pre post s = record s { timers = pre ++ post }

  abbrev too_late : ℕ → Supervisor V → Bool
  too_late generation s =
      not s.desired_running || not (generation == s.lifecycle_generation) || is_some s.current

  module _ (pre : List Timer) (t : Timer) (post : List Timer) (s : Supervisor V) (v : IsSteady s)
      (e : s.timers ≡ pre ++ t ∷ post) where
    abbrev rest_live : ℕ
    rest_live = live s.lifecycle_generation (pre ++ post)

    split_live :
        live s.lifecycle_generation s.timers
        ≡ rest_live + one_if (t.generation == s.lifecycle_generation)
    split_live = ap (live s.lifecycle_generation) e ∙ live_middle s.lifecycle_generation pre t post

    awake-IsSound : IsSound (awake pre post s)
    awake-IsSound = record {
      past =
          past_middle s.lifecycle_generation pre t post
            (subst (All (λ u. u.generation ≤ s.lifecycle_generation)) e v.sound.past);
      listens = v.sound.listens;
      accounted = v.sound.accounted;
    }

    late-Phase : too_late t.generation s ≡ true → Phase s → Phase (awake pre post s)
    late-Phase h (off d c st l) = off d c st (omega (arith, split_live))
    late-Phase h (up r d c u l) = up r d c u (omega (arith, split_live))
    late-Phase h (down d c u l) =
        let stale : (t.generation == s.lifecycle_generation) ≡ false = ground arith in
        down d c u (omega (arith, split_live, ap one_if stale))

    woken-IsSteady :
        (clock : ℕ → ℕ) (failure : Option Text)
        → too_late t.generation s ≡ false
        → Phase s
        → IsSteady (start_runtime true clock failure (awake pre post s))
    woken-IsSteady clock failure h (off d c st l) = absurd (false≢true (ground arith))
    woken-IsSteady clock failure h (up r d c u l) = absurd (false≢true (ground arith))
    woken-IsSteady clock failure h (down d c u l) =
        let live_one : (t.generation == s.lifecycle_generation) ≡ true = ground arith in
        start_runtime-IsSteady true clock failure (awake pre post s) d c
          (omega (arith, split_live, ap one_if live_one)) awake-IsSound

    wake-IsSteady :
        (clock : ℕ → ℕ) (failure : Option Text)
        → IsSteady (restart_after t.generation clock failure (awake pre post s))
    unfolding restart_after
    wake-IsSteady clock failure = elim (Bool-cases (too_late t.generation s)) [
      | inl h ↦ rw h (record { sound = awake-IsSound; phase = late-Phase h v.phase })
      | inr h ↦ rw h (woken-IsSteady clock failure h v.phase)
    ]

  -- What can happen: `start` and `stop` are called, a runtime speaks, a restart's sleep is over.
  pub data Step (s : Supervisor V) : Supervisor V → Type 0 where
    starts : (clock : ℕ → ℕ) (failure : Option Text) → Step s (start clock failure s)
    stops : Step s (stop s)
    hears :
        (runtime : ℕ) (event : RuntimeEvent V) (clock : ℕ → ℕ)
        → Step s (handle_runtime_event runtime event clock s)
    wakes :
        (pre : List Timer) (t : Timer) (post : List Timer) (clock : ℕ → ℕ) (failure : Option Text)
        → s.timers ≡ pre ++ t ∷ post
        → Step s (restart_after t.generation clock failure (awake pre post s))

  pub data Reach (s : Supervisor V) : Supervisor V → Type 0 where
    here : Reach s s
    next : {t u : Supervisor V} → Reach s t → Step t u → Reach s u

  Step-IsSteady : {s t : Supervisor V} → Step s t → IsSteady s → IsSteady t
  Step-IsSteady {s} (starts clock failure) v = start-IsSteady clock failure s v
  Step-IsSteady {s} stops v = stop-IsSteady s v
  Step-IsSteady {s} (hears runtime event clock) v = event-IsSteady runtime event clock s v
  Step-IsSteady {s} (wakes pre t post clock failure e) v =
      wake-IsSteady pre t post s v e clock failure

  initial-IsSteady : IsSteady {V = V} initial
  unfolding initial
  initial-IsSteady = record {
    sound = record { past = tt; listens = refl; accounted = λ k. no_runtime k };
    phase = off refl refl refl (omega arith);
  }

  -- In every state that a new supervisor can come to, each runtime ever made is either the current one,
  -- or its exit has been handled, or it has been told to stop: exactly one of these, exactly once; and
  -- a runtime that was not made is none of them. The supervisor is in one of three situations: switched
  -- off, with no current runtime and no restart that can still take effect; running the current
  -- runtime, with no such restart; or between two runtimes, with exactly one restart pending that will
  -- take effect.
  pub Reach-IsSteady : (s : Supervisor V) → Reach initial s → IsSteady s
  Reach-IsSteady s here = initial-IsSteady
  Reach-IsSteady s (next r st) = Step-IsSteady st (Reach-IsSteady _ r)

  abbrev pub is_start : {s t : Supervisor V} → Step s t → Bool
  is_start (starts clock failure) = true
  is_start _ = false

  -- Histories in which nobody calls `start`.
  pub data Quiet (s : Supervisor V) : Supervisor V → Type 0 where
    here : Quiet s s
    next : {t u : Supervisor V} → Quiet s t → (st : Step t u) → is_start st ≡ false → Quiet s u

  abbrev pub IsOff : ℕ → Supervisor V → Type 0
  IsOff created s = (s.desired_running ≡ false) × (s.current ≡ none) × (s.created ≡ created)

  stop-IsOff : (s : Supervisor V) → IsSteady s → IsOff s.created (stop s)
  unfolding stop
  stop-IsOff s v = elim (Bool-cases (not s.desired_running && is_stopped s.state)) [
    | inl e ↦ rw e (from v.phase e)
    | inr e ↦ rw e (refl, refl, refl)
  ]
    where
      from : Phase s → (not s.desired_running && is_stopped s.state) ≡ true → IsOff s.created s
      from (off d c st l) e = (d, c, refl)
      from (up r d c u l) e = absurd (false≢true (ground arith))
      from (down d c u l) e = absurd (false≢true (ground arith))

  Step-IsOff :
      (created : ℕ) {s t : Supervisor V} (st : Step s t)
      → is_start st ≡ false
      → IsOff created s
      → IsOff created t
  unfolding stop handle_runtime_event restart_after
  Step-IsOff created (starts clock failure) n o = cc
  Step-IsOff created stops n (d, c, k) = ground arith
  Step-IsOff created (hears runtime event clock) n (d, c, k) = ground arith
  Step-IsOff created (wakes pre t post clock failure e) n (d, c, k) = ground arith

  -- After a call of `stop` in a state that a new supervisor can come to, no runtime runs and none is
  -- made until `start` is called again, whatever restarts were pending and whatever old runtimes
  -- say.
  pub stop_lasts :
      (s : Supervisor V)
      → Reach initial s
      → (t : Supervisor V) → Quiet (stop s) t
      → (t.desired_running ≡ false) × (t.current ≡ none) × (t.created ≡ s.created)
  stop_lasts s r t here = stop-IsOff s (Reach-IsSteady s r)
  stop_lasts s r t (next q st n) = Step-IsOff s.created st n (stop_lasts s r _ q)
