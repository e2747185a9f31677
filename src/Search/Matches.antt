-- ===== src/Search/Matches.antt =====
-- Reading a file line by line finds what its lines have around them.
use mathlib.Core.List.{append_assoc, map-append}
use desktop_remote.Common.{
  ℕ, ◌+◌, ◌-◌, ◌≤◌, ◌≡◌, refl, sym, ap, ◌∙◌, Bool, true, false, List, [], ◌∷◌, ◌++◌, map, length,
  take, length-append, All, arith,
}
use desktop_remote.Events.{Text}
use desktop_remote.Search.Jobs.{SearchJob, is_running}
use desktop_remote.Search.Content.{
  LineMatch, PendingMatch, Reader, last_lines, push_after, emit_pending, emit_ready, with_pending,
  add_matches, new_pending, read_line, read_matches,
}
use desktop_remote.Search.Around.{found, last_lines-snoc}
use desktop_remote.Search.Streaming.{
  unlimited, found_with, complete, IsEmission, emit-IsEmission, push-complete,
}

module _ (hidden : Bool) (context timeout : ℕ) (file : Text) (find : Text → List LineMatch) where
  abbrev pub open_reader : SearchJob → List Text → List PendingMatch → Reader
  open_reader job seen pending = record {
    job = job;
    line_number = length seen;
    before = last_lines context seen;
    pending = pending;
    settled = false;
  }

  abbrev pub emission : ℕ → List PendingMatch → SearchJob → List PendingMatch × SearchJob
  emission n pending job =
      (emit_pending (unlimited hidden context timeout) file false n pending job).0

  emit_ready_open :
      (job : SearchJob) (n : ℕ) (before : List Text) (pending : List PendingMatch)
      → emit_ready (unlimited hidden context timeout) file (record {
        job = job;
        line_number = n;
        before = before;
        pending = pending;
        settled = false;
      })
        ≡ record {
          job = (emission n pending job).1;
          line_number = n;
          before = before;
          pending = (emission n pending job).0;
          settled = false;
        }
  unfolding emit_ready with_pending
  emit_ready_open job n before pending =
      rw ((emit-IsEmission hidden context timeout file n [] pending job).goes_on) refl

  add_matches_open :
      (job : SearchJob) (n : ℕ) (before : List Text) (pending : List PendingMatch) (line : Text)
      → let added =
          emission n
            (pending
              ++ map
                  (λ m. record {
                    line = n;
                    column = m.column;
                    matched = m.matched;
                    before = before;
                    after = [];
                  })
                  (find line))
            job in
        add_matches (unlimited hidden context timeout) file find line (record {
          job = job;
          line_number = n;
          before = before;
          pending = pending;
          settled = false;
        })
        ≡ record {
          job = added.1;
          line_number = n;
          before = last_lines context (before ++ line ∷ []);
          pending = added.0;
          settled = false;
        }
  unfolding add_matches new_pending
  add_matches_open job n before pending line =
      rw
        (emit_ready_open job n before (
          pending
          ++ map
              (λ m. record {
                line = n;
                column = m.column;
                matched = m.matched;
                before = before;
                after = [];
              })
              (find line)))
        refl

  read_matches_open :
      (job : SearchJob) (n : ℕ) (before : List Text) (pending : List PendingMatch) (line : Text)
      → is_running job.status ≡ true
      → let added =
          emission n
            (pending
              ++ map
                  (λ m. record {
                    line = n;
                    column = m.column;
                    matched = m.matched;
                    before = before;
                    after = [];
                  })
                  (find line))
            job in
        read_matches (unlimited hidden context timeout) file find line (record {
          job = job;
          line_number = n;
          before = before;
          pending = pending;
          settled = false;
        })
        ≡ record {
          job = added.1;
          line_number = n;
          before = last_lines context (before ++ line ∷ []);
          pending = added.0;
          settled = false;
        }
  unfolding read_matches
  read_matches_open job n before pending line runs =
      rw runs (add_matches_open job n before pending line)

  pushed_total :
      (n : ℕ) (line : Text) (rest : List Text) (pending : List PendingMatch)
      → All (λ m. m.line ≤ n) pending
      → map
          (complete hidden context timeout file (n + 1) rest)
          (map (push_after context (n + 1) line) pending)
        ≡ map (complete hidden context timeout file n (line ∷ rest)) pending
  pushed_total n line rest [] h = refl
  pushed_total n line rest (m ∷ ms) (h, hs) =
      let head = push-complete hidden context timeout file n line rest m h in
      let tail = pushed_total n line rest ms hs in λ i. head i ∷ tail i

  abbrev pub here : List Text → LineMatch → PendingMatch
  here seen m = record {
    line = length seen + 1;
    column = m.column;
    matched = m.matched;
    before = last_lines context seen;
    after = [];
  }

  here_total :
      (seen rest : List Text) (ms : List LineMatch)
      → map (complete hidden context timeout file (length seen + 1) rest) (map (here seen) ms)
        ≡ map (found context file find seen rest) ms
  here_total seen rest [] = refl
  here_total seen rest (m ∷ ms) =
      let all : length seen + 1 + context - (length seen + 1) ≡ context = omega arith in
      let head : complete hidden context timeout file (length seen + 1) rest (here seen m)
          ≡ found context file find seen rest m =
        ap (λ n. found_with hidden context timeout file (here seen m) (take n rest)) all in
      let tail = here_total seen rest ms in λ i. head i ∷ tail i

  -- The pending matches and the job after a line.
  module _ (job : SearchJob) (seen : List Text) (pending : List PendingMatch) (line : Text)
      (rest : List Text) where
    abbrev pub first_emission : List PendingMatch × SearchJob
    first_emission =
        emission (length seen + 1) (map (push_after context (length seen + 1) line) pending) job

    abbrev pub matches_here : List PendingMatch
    matches_here = map (here seen) (find line)

    abbrev pub second_emission : List PendingMatch × SearchJob
    second_emission = emission (length seen + 1) (first_emission.0 ++ matches_here) first_emission.1

    pub first_step :
        IsEmission hidden context timeout file
          (length seen + 1)
          rest
          (map (push_after context (length seen + 1) line) pending)
          job
          (emit_pending
            (unlimited hidden context timeout)
            file
            false
            (length seen + 1)
            (map (push_after context (length seen + 1) line) pending)
            job)
    first_step =
        emit-IsEmission hidden context timeout file (length seen + 1) rest
          (map (push_after context (length seen + 1) line) pending) job

    pub second_step :
        IsEmission hidden context timeout file
          (length seen + 1)
          rest
          (first_emission.0 ++ matches_here)
          first_emission.1
          (emit_pending
            (unlimited hidden context timeout)
            file
            false
            (length seen + 1)
            (first_emission.0 ++ matches_here)
            first_emission.1)
    second_step =
        emit-IsEmission hidden context timeout file (length seen + 1) rest
          (first_emission.0 ++ matches_here) first_emission.1

    pub read_line-open_reader :
        is_running job.status ≡ true
        → read_line (unlimited hidden context timeout) file find line (open_reader job seen pending)
          ≡ open_reader second_emission.1 (seen ++ line ∷ []) second_emission.0
    unfolding read_line
    read_line-open_reader runs =
        let still : is_running first_emission.1.status ≡ true =
          ap is_running first_step.same_status ∙ runs in
        ap (read_matches (unlimited hidden context timeout) file find line) (
          emit_ready_open job (length seen + 1) (last_lines context seen)
            (map (push_after context (length seen + 1) line) pending))
        ∙ read_matches_open first_emission.1 (length seen + 1) (last_lines context seen)
            first_emission.0 line still
        ∙ (rw (last_lines-snoc context seen line, length-append seen (line ∷ [])) refl)

    pub same_total_after :
        All (λ m. m.line ≤ length seen) pending
        → second_emission.1.results
            ++ map
                (complete hidden context timeout file (length (seen ++ line ∷ [])) rest)
                second_emission.0
          ≡ job.results
            ++ map (complete hidden context timeout file (length seen) (line ∷ rest)) pending
            ++ map (found context file find seen rest) (find line)
    same_total_after h =
        ap
          (λ n.
            second_emission.1.results
            ++ map (complete hidden context timeout file n rest) second_emission.0)
          (length-append seen (line ∷ []))
        ∙ second_step.same_total
        ∙ ap (λ x. first_emission.1.results ++ x)
            (map-append (complete hidden context timeout file (length seen + 1) rest)
              first_emission.0 matches_here)
        ∙ sym (
            append_assoc first_emission.1.results
              (map (complete hidden context timeout file (length seen + 1) rest) first_emission.0)
              _)
        ∙ ap
            (λ x.
              x ++ map (complete hidden context timeout file (length seen + 1) rest) matches_here)
            first_step.same_total
        ∙ ap
            (λ x.
              job.results
              ++ x
              ++ map (complete hidden context timeout file (length seen + 1) rest) matches_here)
            (pushed_total (length seen) line rest pending h)
        ∙ ap
            (λ x.
              job.results
              ++ map (complete hidden context timeout file (length seen) (line ∷ rest)) pending
              ++ x)
            (here_total seen rest (find line))
