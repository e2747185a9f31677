-- ===== src/Search/Streaming.antt =====
-- What reading a file line by line finds.
use mathlib.Core.List.{append-nil, append_assoc}
use desktop_remote.Common.{
  ℕ, zero, suc, ◌+◌, ◌-◌, ◌≤◌, ◌≡◌, refl, sym, ap, ◌∙◌, Bool, true, false, ◌||◌, List, [], ◌∷◌,
  ◌++◌, map, ltb, leb, take, leb→le, leb→gt, ltb→ge, none, All, Bool-cases, inl, inr, arith,
}
use desktop_remote.Events.{Text}
use desktop_remote.Search.Jobs.{
  SearchResult, content, SearchJob, NormalizedSearchOptions, contents, add_result,
}
use desktop_remote.Search.Content.{PendingMatch, push_after, emit_pending}

-- A search without a limit on its results and without early termination.
abbrev pub unlimited : Bool → ℕ → ℕ → NormalizedSearchOptions
unlimited hidden context timeout = record {
  search_type = contents;
  include_hidden = hidden;
  context_lines = context;
  max_results = none;
  timeout_ms = timeout;
  early_termination = false;
}

take-nil : (n : ℕ) → ◌≡◌ {A = List Text} (take n []) []
take-nil zero = refl
take-nil (suc n) = refl

module _ (hidden : Bool) (context timeout : ℕ) (file : Text) where
  abbrev pub found_with : PendingMatch → List Text → SearchResult
  found_with m after = content (record {
    path = file;
    line = m.line;
    column = m.column;
    matched = m.matched;
    before = m.before;
    after = after;
  })

  -- A pending match with the lines that are still to come after it.
  abbrev pub complete : ℕ → List Text → PendingMatch → SearchResult
  complete n rest m = found_with m (m.after ++ take (m.line + context - n) rest)

  -- What an emission leaves as it is.
  pub record IsEmission (n : ℕ) (rest : List Text) (pending : List PendingMatch) (job : SearchJob)
      (r : (List PendingMatch × SearchJob) × Bool) : Type 0 where
    pub goes_on : r.1 ≡ false
    pub same_total :
        r.0.1.results ++ map (complete n rest) r.0.0 ≡ job.results ++ map (complete n rest) pending
    pub same_status : r.0.1.status ≡ job.status
    pub same_start : r.0.1.start_time ≡ job.start_time
    pub kept_lines : All (λ m. m.line ≤ n) pending → All (λ m. m.line ≤ n) r.0.0

  -- The match as `emitReady` adds it.
  abbrev as_found : PendingMatch → SearchResult
  as_found m = found_with m m.after

  as_found-complete :
      (n : ℕ) (rest : List Text) (m : PendingMatch)
      → m.line + context ≤ n
      → as_found m ≡ complete n rest m
  as_found-complete n rest m h =
      let none_left : m.line + context - n ≡ 0 = omega (arith, h) in
      ap (found_with m)
        (sym (append-nil m.after) ∙ ap (λ k. m.after ++ take k rest) (sym none_left))

  abbrev adding : PendingMatch → SearchJob → SearchJob
  adding m job = record job {
    results = job.results ++ as_found m ∷ [];
    truncated = job.truncated || false;
  }

  first_emitted :
      (n : ℕ) (rest : List Text) (m : PendingMatch) (ms : List PendingMatch) (job : SearchJob)
      (r : (List PendingMatch × SearchJob) × Bool)
      → as_found m ≡ complete n rest m
      → IsEmission n rest ms (adding m job) r
      → IsEmission n rest (m ∷ ms) job r
  first_emitted n rest m ms job r e v = record {
    goes_on = v.goes_on;
    same_total =
        v.same_total
        ∙ append_assoc job.results (as_found m ∷ []) (map (complete n rest) ms)
        ∙ ap (λ x. job.results ++ x ∷ map (complete n rest) ms) e;
    same_status = v.same_status;
    same_start = v.same_start;
    kept_lines = λ h. v.kept_lines h.1;
  }

  none_emitted :
      (n : ℕ) (rest : List Text) (pending : List PendingMatch) (job : SearchJob)
      → IsEmission n rest pending job ((pending, job), false)
  none_emitted n rest pending job = record {
    goes_on = refl;
    same_total = refl;
    same_status = refl;
    same_start = refl;
    kept_lines = λ h. h;
  }

  pub emit-IsEmission :
      (n : ℕ) (rest : List Text) (pending : List PendingMatch) (job : SearchJob)
      → IsEmission n rest pending job
          (emit_pending (unlimited hidden context timeout) file false n pending job)
  unfolding emit_pending add_result
  emit-IsEmission n rest [] job = none_emitted n rest [] job
  emit-IsEmission n rest (m ∷ ms) job = elim (Bool-cases (ltb n (m.line + context))) [
    | inl e ↦ rw e (none_emitted n rest (m ∷ ms) job)
    | inr e ↦ rw e (
        first_emitted n rest m ms job _ (as_found-complete n rest m (ltb→ge n (m.line + context) e))
          (emit-IsEmission n rest ms (adding m job)))
  ]

  -- The end of the file emits all.
  pub emit_all :
      (n : ℕ) (pending : List PendingMatch) (job : SearchJob)
      → (emit_pending (unlimited hidden context timeout) file true n pending job).0.1.results
        ≡ job.results ++ map (complete n []) pending
  unfolding emit_pending add_result
  emit_all n [] job = sym (append-nil job.results)
  emit_all n (m ∷ ms) job =
      emit_all n ms (adding m job)
      ∙ append_assoc job.results (as_found m ∷ []) (map (complete n []) ms)
      ∙ ap (λ x. job.results ++ x ∷ map (complete n []) ms) (all_after m)
    where
      all_after : (m : PendingMatch) → as_found m ≡ complete n [] m
      all_after m = ap (found_with m) (
          sym (append-nil m.after) ∙ ap (λ x. m.after ++ x) (sym (take-nil (m.line + context - n))))

  pub push-complete :
      (n : ℕ) (line : Text) (rest : List Text) (m : PendingMatch)
      → m.line ≤ n
      → complete (n + 1) rest (push_after context (n + 1) line m) ≡ complete n (line ∷ rest) m
  unfolding push_after
  push-complete n line rest m h =
      let newer : ltb m.line (n + 1) ≡ true = ground (arith, h) in
      elim (Bool-cases (leb (n + 1) (m.line + context))) [
        | inl e ↦
            let left : m.line + context - n ≡ suc (m.line + context - (n + 1)) =
              omega (arith, leb→le (n + 1) (m.line + context) e) in
            rw newer (
              rw e (
                ap (found_with m) (
                  append_assoc m.after (line ∷ []) (take (m.line + context - (n + 1)) rest)
                  ∙ ap (λ k. m.after ++ take k (line ∷ rest)) (sym left))))
        | inr e ↦
            let none_left : m.line + context - n ≡ 0 =
              omega (arith, leb→gt (n + 1) (m.line + context) e) in
            let none_after : m.line + context - (n + 1) ≡ 0 =
              omega (arith, leb→gt (n + 1) (m.line + context) e) in
            rw newer (
              rw e (
                ap (found_with m) (
                  ap (λ k. m.after ++ take k rest) none_after
                  ∙ ap (λ k. m.after ++ take k (line ∷ rest)) (sym none_left))))
      ]

  pub push_line :
      (n : ℕ) (line : Text) (m : PendingMatch) → (push_after context n line m).line ≡ m.line
  unfolding push_after
  push_line n line m = ground arith
