-- ===== src/Process/Retention.antt =====
-- The eviction by count leaves at most as many completed sessions as the manager retains.
use mathlib.Core.Bool.{false≢true}
use desktop_remote.Common.{
  ℕ, suc, ◌≤◌, ◌≡◌, refl, sym, subst, ◌∙◌, Bool, true, false, not, ◌&&◌, none, some, List, [], ◌∷◌,
  ltb, ltb→ge, if◌then◌else◌, length, Bool-cases, Option-cases, inl, inr, arith, ◌⊎◌, ◌==◌,
}
use desktop_remote.Common.Dict.{
  find, delete, count_values, DistinctKeys, find-delete, DistinctKeys-delete, count_values-delete,
  count_values-le-delete,
}
use desktop_remote.Process.Table.{
  ProcessManager, ManagedProcess, is_running, is_completed, evict, insert_by_time,
  completed_by_time, evict_oldest, evict_completed_by_count,
}

-- The session under a pid is known by it, and is completed exactly if it has an exit code.
pub record IsKnown (pid : ℕ) (m : ManagedProcess) : Type 0 where
  pub same_pid : m.pid ≡ pid
  pub ended : is_completed m ≡ not (is_running m)

abbrev pub AllKnown : List (ℕ × ManagedProcess) → Type 0
AllKnown processes = (pid : ℕ) (m : ManagedProcess) → find pid processes ≡ some m → IsKnown pid m

-- Whether a list has the object with this pid and id.
lists : ℕ → ℕ → List ManagedProcess → Bool
lists pid id [] = false
lists pid id (m ∷ ms) = if m.pid == pid && m.id == id then true else lists pid id ms

-- Every completed session is in the list.
abbrev Covers : List ManagedProcess → List (ℕ × ManagedProcess) → Type 0
Covers ms processes =
    (pid : ℕ) (m : ManagedProcess)
    → find pid processes ≡ some m
    → is_completed m ≡ true
    → lists pid m.id ms ≡ true

lists-insert :
    (pid id : ℕ) (m : ManagedProcess) (ms : List ManagedProcess)
    → lists pid id (insert_by_time m ms) ≡ lists pid id (m ∷ ms)
unfolding lists insert_by_time
lists-insert pid id m [] = refl
lists-insert pid id m (n ∷ ns) = ground (arith, lists-insert pid id m ns)

module _ {A : Type 0} where
  nothing_found : (k : ℕ) (a : A) → find k [] ≡ some a → ⊥
  unfolding find
  nothing_found k a e = cc e

  first_found :
      (k j : ℕ) (b a : A) (rest : List (ℕ × A))
      → find k ((j, b) ∷ rest) ≡ some a
      → (j == k) ≡ true
      → b ≡ a
  unfolding find
  first_found k j b a rest e f = cc (simp f at e)

  not_first :
      (k j : ℕ) (b a : A) (rest : List (ℕ × A))
      → find k ((j, b) ∷ rest) ≡ some a
      → (j == k) ≡ false
      → find k rest ≡ some a
  unfolding find
  not_first k j b a rest e f = simp f at e

  find_first : (j : ℕ) (b : A) (rest : List (ℕ × A)) → find j ((j, b) ∷ rest) ≡ some b
  unfolding find
  find_first j b rest = ground arith

  find_rest :
      (j k : ℕ) (b a : A) (rest : List (ℕ × A))
      → find j rest ≡ none
      → find k rest ≡ some a
      → find k ((j, b) ∷ rest) ≡ some a
  unfolding find
  find_rest j k b a rest n e = ground arith

lists_first :
    (pid j : ℕ) (b : ManagedProcess) (rest : List (ℕ × ManagedProcess))
    → is_completed b ≡ true
    → (b.pid == pid) ≡ true
    → lists pid b.id (completed_by_time ((j, b) ∷ rest)) ≡ true
unfolding completed_by_time lists
lists_first pid j b rest c e =
    rw c (lists-insert pid b.id b (completed_by_time rest) ∙ ground arith)

lists_more :
    (pid id j : ℕ) (b : ManagedProcess) (rest : List (ℕ × ManagedProcess))
    → lists pid id (completed_by_time rest) ≡ true
    → lists pid id (completed_by_time ((j, b) ∷ rest)) ≡ true
unfolding completed_by_time lists
lists_more pid id j b rest h = elim (Bool-cases (is_completed b)) [
  | inl c ↦ rw c (lists-insert pid id b (completed_by_time rest) ∙ ground arith)
  | inr c ↦ rw c h
]

completed_by_time-Covers :
    (processes : List (ℕ × ManagedProcess))
    → AllKnown processes
    → DistinctKeys processes
    → Covers (completed_by_time processes) processes
completed_by_time-Covers [] a d pid m e c = absurd (nothing_found pid m e)
completed_by_time-Covers ((j, b) ∷ rest) a (n, d) pid m e c = elim (Bool-cases (j == pid)) [
  | inl f ↦
      let same = first_found pid j b m rest e f in
      subst (λ x. lists pid x.id (completed_by_time ((j, b) ∷ rest)) ≡ true) same
        (lists_first pid j b rest (subst (λ x. is_completed x ≡ true) (sym same) c)
          (ground (arith, (a j b (find_first j b rest)).same_pid)))
  | inr f ↦ lists_more pid m.id j b rest (
      completed_by_time-Covers rest (λ k x g. a k x (find_rest j k b x rest n g)) d pid m
        (not_first pid j b m rest e f) c)
]

pub evict_cases :
    (m : ManagedProcess) (s : ProcessManager)
    → (evict m s ≡ s)
      ⊎ ((evict m s ≡ record s { processes = delete m.pid s.processes; ids = delete m.id s.ids })
          × ((held : ManagedProcess) × (find m.pid s.processes ≡ some held)
              × (is_running held ≡ false)))
unfolding evict
evict_cases m s = elim (Option-cases (find m.pid s.processes)) [
  | inl e ↦ inl (rw (e, evict) refl)
  | inr (held, e) ↦ elim (Bool-cases (held.id == m.id)) [
    | inr f ↦ inl (rw (e, f, evict) refl)
    | inl f ↦ elim (Bool-cases (is_running held)) [
      | inl g ↦ inl (rw (e, f, g, evict) refl)
      | inr g ↦ inr (rw (e, f, g, evict) refl, (held, e, g))
    ]
  ]
]

evict_held :
    (m held : ManagedProcess) (s : ProcessManager)
    → find m.pid s.processes ≡ some held
    → (held.id == m.id) ≡ true
    → is_running held ≡ false
    → evict m s ≡ record s { processes = delete m.pid s.processes; ids = delete m.id s.ids }
unfolding evict
evict_held m held s e f g = rw (e, f, g, evict) refl

-- What is in the table after an eviction was there before it.
pub evict_before :
    (m : ManagedProcess) (s : ProcessManager) (pid : ℕ) (x : ManagedProcess)
    → DistinctKeys s.processes
    → find pid (evict m s).processes ≡ some x
    → find pid s.processes ≡ some x
evict_before m s pid x d e = elim (evict_cases m s) [
  | inl same ↦ subst (λ t. find pid t.processes ≡ some x) same e
  | inr (gone, _) ↦ elim (Bool-cases (m.pid == pid)) [
    | inl f ↦ absurd (cc (simp (gone, find-delete m.pid pid s.processes d, f) at e))
    | inr f ↦ simp (gone, find-delete m.pid pid s.processes d, f) at e
  ]
]

==→eq : (a b : ℕ) → (a == b) ≡ true → a ≡ b
==→eq a b e = ground arith

not-true : (b : Bool) → not b ≡ true → b ≡ false
not-true true e = absurd (false≢true e)
not-true false e = refl

and_left : (a b : Bool) → (a && b) ≡ true → a ≡ true
and_left true b e = refl
and_left false b e = e

and_right : (a b : Bool) → (a && b) ≡ true → b ≡ true
and_right true b e = e
and_right false b e = absurd (false≢true e)

-- The object that is evicted is not in the table after it.
evicted_head :
    {P : Type 0} (m x : ManagedProcess) (s : ProcessManager) (pid : ℕ)
    → (m.pid == pid) ≡ true
    → (m.id == x.id) ≡ true
    → find pid s.processes ≡ some x
    → DistinctKeys s.processes
    → is_running x ≡ false
    → find pid (evict m s).processes ≡ some x
    → P
evicted_head m x s pid f g before d r e =
    let gone =
      evict_held m x s (subst (λ k. find k s.processes ≡ some x) (sym (==→eq m.pid pid f)) before)
        (ground arith) r in
    absurd (cc (simp (gone, find-delete m.pid pid s.processes d, f) at e))

evict-Covers :
    (m : ManagedProcess) (ms : List ManagedProcess) (s : ProcessManager)
    → AllKnown s.processes
    → DistinctKeys s.processes
    → Covers (m ∷ ms) s.processes
    → Covers ms (evict m s).processes
unfolding lists
evict-Covers m ms s a d v pid x e c =
    let before = evict_before m s pid x d e in
    let listed = v pid x before c in
    elim (Bool-cases (m.pid == pid && m.id == x.id)) [
      | inr f ↦ simp f at listed
      | inl f ↦
          evicted_head m x s pid (and_left (m.pid == pid) (m.id == x.id) f)
            (and_right (m.pid == pid) (m.id == x.id) f) before d
            (not-true (is_running x) (sym (a pid x before).ended ∙ c)) e
    ]

uncovered :
    (processes : List (ℕ × ManagedProcess))
    → DistinctKeys processes
    → Covers [] processes
    → count_values is_completed processes ≡ 0
unfolding count_values
uncovered [] d v = refl
uncovered ((j, b) ∷ rest) (n, d) v = elim (Bool-cases (is_completed b)) [
  | inl c ↦ absurd (false≢true (unfold lists in (v j b (find_first j b rest) c)))
  | inr c ↦ rw c (omega (arith, uncovered rest d (λ k x e. v k x (find_rest j k b x rest n e))))
]

delete-Covers :
    (m : ManagedProcess) (ms : List ManagedProcess) (processes : List (ℕ × ManagedProcess))
    → DistinctKeys processes
    → Covers (m ∷ ms) processes
    → Covers ms (delete m.pid processes)
unfolding lists
delete-Covers m ms processes d v pid x e c = elim (Bool-cases (m.pid == pid)) [
  | inl f ↦ absurd (cc (simp (find-delete m.pid pid processes d, f) at e))
  | inr f ↦ simp f at (v pid x (simp (find-delete m.pid pid processes d, f) at e) c)
]

-- Completed sessions that a list covers are at most as many as it has elements.
count_covered :
    (ms : List ManagedProcess) (processes : List (ℕ × ManagedProcess))
    → DistinctKeys processes
    → Covers ms processes
    → count_values is_completed processes ≤ length ms
count_covered [] processes d v = omega (arith, uncovered processes d v)
count_covered (m ∷ ms) processes d v = omega (
  arith,
  count_values-le-delete is_completed m.pid processes,
  count_covered ms (delete m.pid processes) (DistinctKeys-delete m.pid processes d)
      (delete-Covers m ms processes d v),
)

pub evict-DistinctKeys :
    (m : ManagedProcess) (s : ProcessManager)
    → DistinctKeys s.processes
    → DistinctKeys (evict m s).processes
evict-DistinctKeys m s d = elim (evict_cases m s) [
  | inl same ↦ subst (λ t. DistinctKeys t.processes) (sym same) d
  | inr (gone, _) ↦
      subst (λ t. DistinctKeys t.processes) (sym gone) (DistinctKeys-delete m.pid s.processes d)
]

-- What an eviction leaves as it is.
pub evict_settings :
    (m : ManagedProcess) (s : ProcessManager)
    → ((evict m s).max_retained ≡ s.max_retained)
      × ((evict m s).max_concurrent ≡ s.max_concurrent)
      × ((evict m s).completed_ttl ≡ s.completed_ttl)
evict_settings m s = elim (evict_cases m s) [
  | inl same ↦ rw same (refl, refl, refl)
  | inr (gone, _) ↦ rw gone (refl, refl, refl)
]

pub evict-count :
    (p : ManagedProcess → Bool) (m : ManagedProcess) (s : ProcessManager)
    → count_values p (evict m s).processes ≤ count_values p s.processes
evict-count p m s = elim (evict_cases m s) [
  | inl same ↦ rw same (omega arith)
  | inr (gone, _) ↦ rw gone (count_values-delete p m.pid s.processes)
]

evict_oldest-retained :
    (ms : List ManagedProcess) (s : ProcessManager)
    → AllKnown s.processes
    → DistinctKeys s.processes
    → Covers ms s.processes
    → count_values is_completed (evict_oldest ms s).processes ≤ s.max_retained
unfolding evict_oldest
evict_oldest-retained [] s a d v = omega (arith, count_covered [] s.processes d v)
evict_oldest-retained (m ∷ ms) s a d v = elim (Bool-cases (ltb s.max_retained (suc (length ms)))) [
  | inr e ↦ rw e (
      omega
        (arith, count_covered (m ∷ ms) s.processes d v, ltb→ge s.max_retained (suc (length ms)) e))
  | inl e ↦ rw e (
      omega (
        arith,
        (evict_settings m s).0,
        evict_oldest-retained ms (evict m s) (λ k x f. a k x (evict_before m s k x d f))
            (evict-DistinctKeys m s d) (evict-Covers m ms s a d v),
      ))
]

pub evict_completed-retained :
    (s : ProcessManager)
    → AllKnown s.processes
    → DistinctKeys s.processes
    → count_values is_completed (evict_completed_by_count s).processes ≤ s.max_retained
unfolding evict_completed_by_count
evict_completed-retained s a d =
    evict_oldest-retained (completed_by_time s.processes) s a d
      (completed_by_time-Covers s.processes a d)
