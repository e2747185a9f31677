-- ===== src/Supervisor/Methods.antt =====
-- Every method and callback of the supervisor keeps the invariant.
use desktop_remote.Common.{
  ℕ, suc, ◌+◌, ◌-◌, ◌≤◌, ◌≡◌, refl, sym, ap, subst, Bool, true, false, not, ◌&&◌, Option, none,
  some, List, [], ◌∷◌, ◌++◌, ◌==◌, if◌then◌else◌, ltb, All, arith, Bool-cases, inl, inr,
}
use mathlib.Core.Bool.{false≢true}
use desktop_remote.Events.{
  Text, RuntimeEvent, auth_required, device_ready, tool_started, tool_completed, tool_failed,
  runtime_log, runtime_exited, runtime_error,
}
use desktop_remote.Supervisor.Restart.{reset}
use desktop_remote.Supervisor.Phase.{
  IsSteady, IsSound, Phase, off, up, down, live, one_if, count, count-append, exit-IsSteady,
}
use desktop_remote.Supervisor.{
  Supervisor, Timer, handle_runtime_exit, handle_runtime_event, react, is_current, emit_event,
  launch, start_runtime, start, stop, is_stopped, tell_to_stop,
}

current_self : (r : ℕ) → (r == r) ≡ true
current_self r = ground arith

-- No pending restart is of a generation yet to come.
live_next : (g : ℕ) (ts : List Timer) → All (λ t. t.generation ≤ g) ts → live (g + 1) ts ≡ 0
live_next g [] h = omega arith
live_next g (t ∷ ts) (p, h) = ground (arith, live_next g ts h)

past_next :
    (g : ℕ) (ts : List Timer) → All (λ t. t.generation ≤ g) ts → All (λ t. t.generation ≤ g + 1) ts
past_next g [] h = tt
past_next g (t ∷ ts) (p, h) = (omega arith, past_next g ts h)

count-tell_to_stop :
    (k : ℕ) (o : Option ℕ) (told : List ℕ)
    → count k (tell_to_stop o told) ≡ count k told + one_if (is_current k o)
count-tell_to_stop k none told = omega arith
count-tell_to_stop k (some r) told = omega (arith, count-append k told (r ∷ []))

-- The runtimes made, with one more.
one_more : (k n : ℕ) → one_if (ltb k (n + 1)) ≡ one_if (ltb k n) + one_if (k == n)
one_more k n = ground arith

pub live_middle :
    (g : ℕ) (pre : List Timer) (t : Timer) (post : List Timer)
    → live g (pre ++ t ∷ post) ≡ live g (pre ++ post) + one_if (t.generation == g)
live_middle g [] t post = omega arith
live_middle g (u ∷ pre) t post = omega (arith, live_middle g pre t post)

pub past_middle :
    (g : ℕ) (pre : List Timer) (t : Timer) (post : List Timer)
    → All (λ u. u.generation ≤ g) (pre ++ t ∷ post)
    → All (λ u. u.generation ≤ g) (pre ++ post)
past_middle g [] t post (p, h) = h
past_middle g (u ∷ pre) t post (p, h) = (p, past_middle g pre t post h)

module _ {V : Type 0} where
  launch-IsSound :
      (b : Bool) (now : ℕ) (s : Supervisor V)
      → s.current ≡ none
      → IsSound s
      → IsSound (launch b now s)
  unfolding launch
  launch-IsSound b now s c v = record {
    past = v.past;
    listens = refl;
    accounted = λ k.
        omega (arith, v.accounted k, one_more k s.created, ap (λ o. one_if (is_current k o)) c);
  }

  start_runtime_eq :
      (b : Bool) (clock : ℕ → ℕ) (failure : Option Text) (s : Supervisor V)
      → s.desired_running ≡ true
      → s.current ≡ none
      → start_runtime b clock failure s ≡ elim failure [
        | none ↦ launch b (clock 0) s
        | some message ↦
            handle_runtime_exit s.created 0
              (emit_event (runtime_error message (clock 1)) (launch b (clock 0) s))
      ]
  unfolding start_runtime
  start_runtime_eq b clock failure s d c = ground arith

  pub start_runtime-IsSteady :
      (b : Bool) (clock : ℕ → ℕ) (failure : Option Text) (s : Supervisor V)
      → s.desired_running ≡ true
      → s.current ≡ none
      → live s.lifecycle_generation s.timers ≡ 0
      → IsSound s
      → IsSteady (start_runtime b clock failure s)
  unfolding launch emit_event
  start_runtime-IsSteady b clock none s d c l v =
      rw (start_runtime_eq b clock none s d c)
        (record { sound = launch-IsSound b (clock 0) s c v; phase = up s.created d refl tt l })
  start_runtime-IsSteady b clock (some message) s d c l v =
      rw (start_runtime_eq b clock (some message) s d c) (
        exit-IsSteady s.created s.created 0 _ d refl (current_self s.created) l (
          let w = launch-IsSound b (clock 0) s c v in
          record { past = w.past; listens = w.listens; accounted = w.accounted }))

  -- What `start` sets before it starts the runtime.
  began : ℕ → Supervisor V → Supervisor V
  began now s = record s {
    desired_running = true;
    lifecycle_generation = s.lifecycle_generation + 1;
    policy = reset;
    restart_count = 0;
    last_restart_at = none;
    started_at = now;
  }

  start_eq :
      (clock : ℕ → ℕ) (failure : Option Text) (s : Supervisor V)
      → s.desired_running ≡ false
      → start clock failure s ≡ start_runtime false (λ k. clock (suc k)) failure (began (clock 0) s)
  unfolding start began
  start_eq clock failure s d = rw d refl

  pub start-IsSteady :
      (clock : ℕ → ℕ) (failure : Option Text) (s : Supervisor V)
      → IsSteady s
      → IsSteady (start clock failure s)
  unfolding start began
  start-IsSteady clock failure s v = elim (Bool-cases s.desired_running) [
    | inl d ↦
        subst IsSteady
          (λ i.
            if sym d i
            then s
            else start_runtime false (λ k. clock (suc k)) failure (began (clock 0) s))
          v
    | inr d ↦ rw (start_eq clock failure s d) (from_off d v.phase)
  ]
    where
      from_off :
          s.desired_running ≡ false
          → Phase s
          → IsSteady (start_runtime false (λ k. clock (suc k)) failure (began (clock 0) s))
      from_off d (off _ c st l) =
          start_runtime-IsSteady false (λ k. clock (suc k)) failure (began (clock 0) s) refl c
            (live_next s.lifecycle_generation s.timers v.sound.past)
            (record {
              past = past_next s.lifecycle_generation s.timers v.sound.past;
              listens = v.sound.listens;
              accounted = v.sound.accounted;
            })
      from_off d (up r d' c u l) = cc
      from_off d (down d' c u l) = cc

  pub stop-IsSteady : (s : Supervisor V) → IsSteady s → IsSteady (stop s)
  unfolding stop
  stop-IsSteady s v = elim (Bool-cases (not s.desired_running && is_stopped s.state)) [
    | inl e ↦ rw e v
    | inr e ↦ rw e (record {
      sound = record {
        past = past_next s.lifecycle_generation s.timers v.sound.past;
        listens = refl;
        accounted =
            λ k. omega (arith, v.sound.accounted k, count-tell_to_stop k s.current s.told_to_stop);
      };
      phase = off refl refl refl (live_next s.lifecycle_generation s.timers v.sound.past);
    })
  ]

  react-IsSteady :
      (runtime r : ℕ) (clock : ℕ → ℕ) (event : RuntimeEvent V) (s : Supervisor V)
      → is_current runtime s.current ≡ true
      → s.desired_running ≡ true
      → s.current ≡ some r
      → live s.lifecycle_generation s.timers ≡ 0
      → IsSteady s
      → IsSteady (react runtime clock event s)
  unfolding react
  react-IsSteady runtime r clock (auth_required _ _ _ _) s e d c l v = record {
    sound = record {
      past = v.sound.past;
      listens = v.sound.listens;
      accounted = v.sound.accounted;
    };
    phase = up r d c tt l;
  }
  react-IsSteady runtime r clock (device_ready _ _ _ _) s e d c l v = record {
    sound = record {
      past = v.sound.past;
      listens = v.sound.listens;
      accounted = v.sound.accounted;
    };
    phase = up r d c tt l;
  }
  react-IsSteady runtime r clock (runtime_exited _ _ _) s e d c l v =
      exit-IsSteady runtime r (clock 0 - s.runtime_started_at) s d c e l v.sound
  react-IsSteady runtime r clock (tool_started _ _ _ _ _) s e d c l v = v
  react-IsSteady runtime r clock (tool_completed _ _ _ _ _) s e d c l v = v
  react-IsSteady runtime r clock (tool_failed _ _ _ _ _) s e d c l v = v
  react-IsSteady runtime r clock (runtime_log _ _ _) s e d c l v = v
  react-IsSteady runtime r clock (runtime_error _ _) s e d c l v = v

  pub event-IsSteady :
      (runtime : ℕ) (event : RuntimeEvent V) (clock : ℕ → ℕ) (s : Supervisor V)
      → IsSteady s
      → IsSteady (handle_runtime_event runtime event clock s)
  unfolding handle_runtime_event emit_event
  event-IsSteady runtime event clock s v = elim (Bool-cases (is_current runtime s.current)) [
    | inr e ↦ rw e v
    | inl e ↦ rw e (heard e v.phase)
  ]
    where
      same : IsSound (emit_event event s)
      same =
          unfold emit_event in
          record { past = v.sound.past; listens = v.sound.listens; accounted = v.sound.accounted }

      heard :
          is_current runtime s.current ≡ true
          → Phase s
          → IsSteady (react runtime clock event (emit_event event s))
      heard e (off d c st l) = absurd (false≢true (subst (λ o. is_current runtime o ≡ true) c e))
      heard e (down d c st l) = absurd (false≢true (subst (λ o. is_current runtime o ≡ true) c e))
      heard e (up r d c u l) =
          react-IsSteady runtime r clock event (emit_event event s) (e) (d) (c) (l)
            (record { sound = same; phase = up r (d) (c) (u) (l) })
