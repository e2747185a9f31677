-- ===== src/Supervisor/Phase.antt =====
-- The supervisor's invariant: what became of each runtime, and one pending restart where one is due.
use desktop_remote.Common.{
  ℕ, ◌+◌, ◌≤◌, ◌≡◌, refl, ap, Bool, true, false, none, some, List, [], ◌∷◌, ◌++◌, ◌==◌, is_some,
  ltb, subst, All, All-append, arith,
}
use desktop_remote.Supervisor.Restart.{RestartPolicy, RestartDecision, next_after_exit}
use desktop_remote.Supervisor.{
  Supervisor, SupervisorState, starting, auth, online, recovering, degraded, stopped, Timer,
  state_after, schedule, detach_current, handle_runtime_exit, is_current, emit_status,
}

abbrev pub one_if : Bool → ℕ
one_if true = 1
one_if false = 0

-- The pending restarts that can still have an effect.
abbrev pub live : ℕ → List Timer → ℕ
live generation [] = 0
live generation (t ∷ ts) = one_if (t.generation == generation) + live generation ts

abbrev pub IsUp : SupervisorState → Type 0
IsUp starting = Unit {0}
IsUp auth = Unit {0}
IsUp online = Unit {0}
IsUp _ = ⊥

abbrev pub IsDown : SupervisorState → Type 0
IsDown recovering = Unit {0}
IsDown degraded = Unit {0}
IsDown _ = ⊥

-- How often a runtime stands in a list.
abbrev pub count : ℕ → List ℕ → ℕ
count k [] = 0
count k (r ∷ rs) = one_if (k == r) + count k rs

pub count-append : (k : ℕ) (rs ss : List ℕ) → count k (rs ++ ss) ≡ count k rs + count k ss
count-append k [] ss = omega arith
count-append k (r ∷ rs) ss = omega (arith, count-append k rs ss)

pub live-append : (g : ℕ) (ts us : List Timer) → live g (ts ++ us) ≡ live g ts + live g us
live-append g [] us = omega arith
live-append g (t ∷ ts) us = omega (arith, live-append g ts us)

pub self_eq : (g : ℕ) → one_if (g == g) ≡ 1
self_eq g = ground arith

same_runtime : (a b : ℕ) → (a == b) ≡ true → a ≡ b
same_runtime a b e = ground arith

state_after-IsDown : (b : Bool) → IsDown (state_after b)
state_after-IsDown true = tt
state_after-IsDown false = tt

module _ {V : Type 0} where
  -- The three situations of a supervisor between calls.
  pub data Phase (s : Supervisor V) : Type 0 where
    off :
        s.desired_running ≡ false
        → s.current ≡ none
        → s.state ≡ stopped
        → live s.lifecycle_generation s.timers ≡ 0
        → Phase s
    up :
        (runtime : ℕ)
        → s.desired_running ≡ true
        → s.current ≡ some runtime
        → IsUp s.state
        → live s.lifecycle_generation s.timers ≡ 0
        → Phase s
    down :
        s.desired_running ≡ true
        → s.current ≡ none
        → IsDown s.state
        → live s.lifecycle_generation s.timers ≡ 1
        → Phase s

  -- What holds at every moment.
  pub record IsSound (s : Supervisor V) : Type 0 where
    pub past : All (λ t. t.generation ≤ s.lifecycle_generation) s.timers
    pub listens : s.subscribed ≡ is_some s.current
    -- A runtime was made, or it was not.
    pub accounted :
        (k : ℕ)
        → count k s.exited + count k s.told_to_stop + one_if (is_current k s.current)
          ≡ one_if (ltb k s.created)

  pub record IsSteady (s : Supervisor V) : Type 0 where
    pub sound : IsSound s
    pub phase : Phase s

  schedule-IsSteady :
      (p : RestartPolicy × RestartDecision) (s : Supervisor V)
      → s.desired_running ≡ true
      → s.current ≡ none
      → live s.lifecycle_generation s.timers ≡ 0
      → IsSound s
      → IsSteady (schedule p s)
  unfolding schedule emit_status
  schedule-IsSteady (policy, decision) s d c l v = record {
    sound = record {
      past =
          All-append (λ t. t.generation ≤ s.lifecycle_generation) s.timers _ v.past
            (omega arith, tt);
      listens = v.listens;
      accounted = v.accounted;
    };
    phase = down d c (state_after-IsDown decision.degraded) (
        omega (
          arith,
          l,
          self_eq s.lifecycle_generation,
          live-append s.lifecycle_generation s.timers
              (record { delay_ms = decision.delay_ms; generation = s.lifecycle_generation } ∷ []),
        ));
  }

  gone : ℕ → Supervisor V → Supervisor V
  gone runtime s = record (detach_current s) { exited = s.exited ++ runtime ∷ [] }

  exit_eq :
      (runtime d : ℕ) (s : Supervisor V)
      → is_current runtime s.current ≡ true
      → s.desired_running ≡ true
      → handle_runtime_exit runtime d s ≡ schedule (next_after_exit d s.policy) (gone runtime s)
  unfolding handle_runtime_exit gone detach_current schedule
  exit_eq runtime d s e f = ground arith

  gone-IsSound :
      (runtime r : ℕ) (s : Supervisor V)
      → s.current ≡ some r
      → is_current runtime s.current ≡ true
      → IsSound s
      → IsSound (gone runtime s)
  unfolding gone detach_current
  gone-IsSound runtime r s c e v = record {
    past = v.past;
    listens = refl;
    accounted = λ k.
        let same = same_runtime runtime r (subst (λ o. is_current runtime o ≡ true) c e) in
        omega (
          arith,
          v.accounted k,
          count-append k s.exited (runtime ∷ []),
          ap (λ o. one_if (is_current k o)) c,
          ap (λ x. one_if (k == x)) same,
        );
  }

  -- The runtime that runs has ended: a restart is scheduled.
  pub exit-IsSteady :
      (runtime r d : ℕ) (s : Supervisor V)
      → s.desired_running ≡ true
      → s.current ≡ some r
      → is_current runtime s.current ≡ true
      → live s.lifecycle_generation s.timers ≡ 0
      → IsSound s
      → IsSteady (handle_runtime_exit runtime d s)
  exit-IsSteady runtime r d s f c e l v = rw (exit_eq runtime d s e f) (
      schedule-IsSteady (next_after_exit d s.policy) (gone runtime s)
        (unfold gone detach_current in f) (unfold gone detach_current in refl)
        (unfold gone detach_current in l) (gone-IsSound runtime r s c e v))
