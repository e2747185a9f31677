-- ===== src/Search/Completeness.antt =====
-- A file that is read to its end.
use mathlib.Core.List.{append-nil, append_assoc}
use desktop_remote.Common.{
  ℕ, zero, suc, ◌+◌, ◌≤◌, ◌≡◌, refl, sym, ap, subst, ◌∙◌, Bool, true, false, List, [], ◌∷◌, ◌++◌,
  map, ltb, length, length-append, drop-nil, All, All-append, arith,
}
use desktop_remote.Events.{Text}
use desktop_remote.Search.Jobs.{SearchResult, content, SearchJob, is_running, interrupt}
use desktop_remote.Search.Content.{
  LineMatch, PendingMatch, LineEvent, push_after, last_lines, close, read_line, on_line, on_lines,
  match_file_content, with_pending,
}
use desktop_remote.Search.Streaming.{unlimited, complete, emit_all, push_line}
use desktop_remote.Search.Around.{found_in}
use desktop_remote.Search.Matches.{
  open_reader, here, second_emission, first_step, second_step, read_line-open_reader,
  same_total_after,
}

-- A line that arrives while nobody stops the search.
abbrev pub arrived : ℕ × Text → LineEvent
arrived (now, line) = record { now = now; stopped_before = false; line = line }

abbrev pub line_of : ℕ × Text → Text
line_of (now, line) = line

module _ (hidden : Bool) (context timeout : ℕ) (file : Text) (find : Text → List LineMatch) where
  pushed_lines :
      (n : ℕ) (line : Text) (pending : List PendingMatch)
      → All (λ m. m.line ≤ n) pending
      → All (λ m. m.line ≤ n + 1) (map (push_after context (n + 1) line) pending)
  pushed_lines n line [] h = tt
  pushed_lines n line (m ∷ ms) (h, hs) = (
    omega (arith, push_line hidden context timeout file (n + 1) line m),
    pushed_lines n line ms hs,
  )

  here_lines :
      (seen : List Text) (ms : List LineMatch)
      → All (λ m. m.line ≤ length seen + 1) (map (here hidden context timeout file find seen) ms)
  here_lines seen [] = tt
  here_lines seen (m ∷ ms) = (omega arith, here_lines seen ms)

  on_line-open_reader :
      (now : ℕ) (line : Text) (job : SearchJob) (seen : List Text) (pending : List PendingMatch)
      → ltb now (job.start_time + timeout) ≡ true
      → is_running job.status ≡ true
      → on_line
          (unlimited hidden context timeout)
          file
          find
          (arrived (now, line))
          (open_reader hidden context timeout file find job seen pending)
        ≡ read_line
            (unlimited hidden context timeout)
            file
            find
            line
            (open_reader hidden context timeout file find job seen pending)
  unfolding on_line interrupt
  on_line-open_reader now line job seen pending early runs = rw runs (rw early refl)

  close-open_reader :
      (job : SearchJob) (seen : List Text) (pending : List PendingMatch)
      → (close
          (unlimited hidden context timeout)
          file
          (open_reader hidden context timeout file find job seen pending)).job.results
        ≡ job.results ++ map (complete hidden context timeout file (length seen) []) pending
  unfolding close with_pending
  close-open_reader job seen pending =
      emit_all hidden context timeout file (length seen) pending job

  read_to_end :
      (start : ℕ) (lines : List (ℕ × Text)) (job : SearchJob) (seen : List Text)
      (pending : List PendingMatch)
      → All (λ l. ltb l.0 (start + timeout) ≡ true) lines
      → job.start_time ≡ start
      → is_running job.status ≡ true
      → All (λ m. m.line ≤ length seen) pending
      → (close (unlimited hidden context timeout) file (
          on_lines
            (unlimited hidden context timeout)
            file
            find
            (map arrived lines)
            (open_reader hidden context timeout file find job seen pending))).job.results
        ≡ job.results
          ++ map (complete hidden context timeout file (length seen) (map line_of lines)) pending
          ++ found_in context file find seen (map line_of lines)
  unfolding on_lines found_in
  read_to_end start [] job seen pending early same runs within =
      close-open_reader job seen pending ∙ sym (append-nil _)
  read_to_end start ((now, line) ∷ lines) job seen pending (early, later) same runs within =
      let e1 = first_step hidden context timeout file find job seen pending line rest in
      let e2 = second_step hidden context timeout file find job seen pending line rest in
      ap
        (λ r.
          (close (unlimited hidden context timeout) file (
            on_lines (unlimited hidden context timeout) file find (map arrived lines)
              r)).job.results)
        (on_line-open_reader now line job seen pending
            (subst (λ t. ltb now (t + timeout) ≡ true) (sym same) early) runs
          ∙ read_line-open_reader hidden context timeout file find job seen pending line rest runs)
      ∙ read_to_end start lines then_job (seen ++ line ∷ []) then_pending later
          (e2.same_start ∙ e1.same_start ∙ same)
          (ap is_running (e2.same_status ∙ e1.same_status) ∙ runs)
          (subst (λ n. All (λ m. m.line ≤ n) then_pending) (sym (length-append seen (line ∷ [])))
            (e2.kept_lines (
              All-append (λ (m : PendingMatch). m.line ≤ length seen + 1) _ _
                (e1.kept_lines (pushed_lines (length seen) line pending within))
                (here_lines seen (find line)))))
      ∙ ap (λ x. x ++ found_in context file find (seen ++ line ∷ []) rest)
          (same_total_after hidden context timeout file find job seen pending line rest within)
      ∙ append_assoc
          (job.results
            ++ map (complete hidden context timeout file (length seen) (line ∷ rest)) pending)
          _ _
    where
      rest : List Text
      rest = map line_of lines

      then_job : SearchJob
      then_job = (second_emission hidden context timeout file find job seen pending line rest).1

      then_pending : List PendingMatch
      then_pending = (second_emission hidden context timeout file find job seen pending line rest).0

  -- If a running search has no limit on its results and no early termination, nobody stops it, and
  -- every line arrives before its timeout, then a file adds to its results each match in each line, in order, with
  -- the number of the line, the lines before it as `last_lines` takes them, and the next `contextLines`
  -- lines, as far as there are any.
  pub match_file_content-found_in :
      (lines : List (ℕ × Text)) (job : SearchJob)
      → All (λ l. ltb l.0 (job.start_time + timeout) ≡ true) lines
      → is_running job.status ≡ true
      → (match_file_content
          (unlimited hidden context timeout)
          file
          find
          (map arrived lines)
          job).results
        ≡ job.results ++ found_in context file find [] (map line_of lines)
  unfolding match_file_content last_lines
  match_file_content-found_in lines job early runs =
      ap
        (λ b.
          (close (unlimited hidden context timeout) file (
            on_lines (unlimited hidden context timeout) file find (map arrived lines) (record {
              job = job;
              line_number = 0;
              before = b;
              pending = [];
              settled = false;
            }))).job.results)
        (sym (nothing_before context))
      ∙ read_to_end job.start_time lines job [] [] early refl runs tt
      ∙ ap (λ x. x ++ found_in context file find [] (map line_of lines)) (append-nil job.results)
    where
      nothing_before : (n : ℕ) → last_lines n [] ≡ []
      nothing_before zero = refl
      nothing_before (suc n) = drop-nil _

-- Each match with all lines before it and no line after it.
unfoldable pub with_all_before :
    Text → (Text → List LineMatch) → List Text → List Text → List SearchResult
with_all_before file find seen [] = []
with_all_before file find seen (line ∷ rest) =
    map
      (λ m. content (record {
        path = file;
        line = length seen + 1;
        column = m.column;
        matched = m.matched;
        before = seen;
        after = [];
      }))
      (find line)
    ++ with_all_before file find (seen ++ line ∷ []) rest

found_in-zero :
    (file : Text) (find : Text → List LineMatch) (seen lines : List Text)
    → found_in zero file find seen lines ≡ with_all_before file find seen lines
unfolding found_in with_all_before last_lines
found_in-zero file find seen [] = refl
found_in-zero file find seen (line ∷ rest) =
    rw (found_in-zero file find (seen ++ line ∷ []) rest) refl

-- A running search for no lines of context, without a limit on its results and without early termination,
-- that nobody stops and whose lines arrive before its timeout, gives each match with all lines of the
-- file before it.
pub match_file_content-with_all_before :
    (hidden : Bool) (timeout : ℕ) (file : Text) (find : Text → List LineMatch)
    (lines : List (ℕ × Text)) (job : SearchJob)
    → All (λ l. ltb l.0 (job.start_time + timeout) ≡ true) lines
    → is_running job.status ≡ true
    → (match_file_content (unlimited hidden 0 timeout) file find (map arrived lines) job).results
      ≡ job.results ++ with_all_before file find [] (map line_of lines)
match_file_content-with_all_before hidden timeout file find lines job early runs =
    match_file_content-found_in hidden 0 timeout file find lines job early runs
    ∙ ap (λ x. job.results ++ x) (found_in-zero file find [] (map line_of lines))
