-- ===== src/Search/Names.antt =====
-- A search for file names.
use mathlib.Core.Bool.{false≢true}
use mathlib.Core.List.{append-nil, append_assoc}
use desktop_remote.Common.{
  ℕ, zero, suc, ◌+◌, ◌≤◌, ◌≡◌, refl, sym, ap, ◌∙◌, Bool, true, false, Option, none, some, List, [],
  ◌∷◌, ◌++◌, map, ltb, leb, length, take, length-append, keep_if, leb→le, leb→gt, All, Bool-cases,
  inl, inr, arith,
}
use desktop_remote.Events.{Text}
use desktop_remote.Search.Jobs.{
  SearchResult, file_path, running, completed, SearchJob, files, NormalizedSearchOptions, is_full,
  interrupt,
}
use desktop_remote.Search.Content.{LineMatch}
use desktop_remote.Search.Run.{FileVisit, run_loop, run, complete_running, allows_none}

-- A search for names without early termination.
abbrev pub names : Bool → ℕ → ℕ → Option ℕ → NormalizedSearchOptions
names hidden context timeout limit = record {
  search_type = files;
  include_hidden = hidden;
  context_lines = context;
  max_results = limit;
  timeout_ms = timeout;
  early_termination = false;
}

-- At most so many.
abbrev pub capped : Option ℕ → List SearchResult → List SearchResult
capped none results = results
capped (some limit) results = take limit results

-- A file that is visited while nobody stops the search.
abbrev pub visited : ℕ × Text → FileVisit
visited (now, path) = record { now = now; stopped_before = false; path = path; lines = [] }

abbrev pub path_of : ℕ × Text → Text
path_of (now, path) = path

abbrev running_job : ℕ → ℕ → List SearchResult → Bool → SearchJob
running_job id start results truncated = record {
  id = id;
  status = running;
  results = results;
  truncated = truncated;
  start_time = start;
}

ge_leb : (a b : ℕ) → a ≤ b → leb a b ≡ true
ge_leb a b h = ground (arith, h)

take_front : (n : ℕ) (xs ys : List SearchResult) → length xs ≡ n → take n (xs ++ ys) ≡ xs
take_front zero [] ys h = refl
take_front zero (x ∷ xs) ys h = absurd (omega (arith, h))
take_front (suc n) [] ys h = absurd (omega (arith, h))
take_front (suc n) (x ∷ xs) ys h = ap (λ zs. x ∷ zs) (take_front n xs ys (omega (arith, h)))

take_within : (n : ℕ) (xs : List SearchResult) → length xs ≤ n → take n xs ≡ xs
take_within zero [] h = refl
take_within zero (x ∷ xs) h = absurd (omega (arith, h))
take_within (suc n) [] h = refl
take_within (suc n) (x ∷ xs) h = ap (λ ys. x ∷ ys) (take_within n xs (omega (arith, h)))

open_capped :
    (limit : Option ℕ) (xs : List SearchResult) → is_full limit xs ≡ false → capped limit xs ≡ xs
open_capped none xs e = refl
open_capped (some n) xs e = take_within n xs (omega (arith, leb→gt n (length xs) e))

-- One more result that fills the search.
full_capped :
    (limit : Option ℕ) (xs : List SearchResult) (x : SearchResult) (ys : List SearchResult)
    → is_full limit xs ≡ false
    → is_full limit (xs ++ x ∷ []) ≡ true
    → capped limit (xs ++ x ∷ ys) ≡ xs ++ x ∷ []
full_capped none xs x ys e f = absurd (false≢true f)
full_capped (some n) xs x ys e f =
    ap (take n) (sym (append_assoc xs (x ∷ []) ys))
    ∙ take_front n (xs ++ x ∷ []) ys (
        omega (
          arith,
          leb→gt n (length xs) e,
          leb→le n (length (xs ++ x ∷ [])) f,
          length-append xs (x ∷ []),
        ))

still_full :
    (limit : Option ℕ) (xs : List SearchResult) (x : SearchResult) (ys : List SearchResult)
    → is_full limit (xs ++ x ∷ []) ≡ true
    → is_full limit (xs ++ x ∷ ys) ≡ true
still_full none xs x ys f = f
still_full (some n) xs x ys f = ge_leb n (length (xs ++ x ∷ ys)) (
    omega (
      arith,
      leb→le n (length (xs ++ x ∷ [])) f,
      length-append xs (x ∷ []),
      length-append xs (x ∷ ys),
    ))

nothing_found : (limit : Option ℕ) → allows_none limit ≡ false → is_full limit [] ≡ false
nothing_found none e = refl
nothing_found (some zero) e = cc e
nothing_found (some (suc n)) e = ground arith

module _ (hidden : Bool) (context timeout : ℕ) (limit : Option ℕ) (passes matches : Text → Bool)
    (find : Text → List LineMatch) where
  -- The files whose names are found.
  abbrev pub found_paths : List Text → List SearchResult
  found_paths paths = map file_path (keep_if matches (keep_if passes paths))

  -- The job, once the limit has been reached or not.
  abbrev ended_at : ℕ → ℕ → List SearchResult → SearchJob
  ended_at id start results = running_job id start (capped limit results) (is_full limit results)

  loop_lem :
      (id start : ℕ) (entries : List (ℕ × Text)) (results : List SearchResult)
      → All (λ entry. ltb entry.0 (start + timeout) ≡ true) entries
      → is_full limit results ≡ false
      → run_loop
          (names hidden context timeout limit)
          passes
          matches
          find
          (map visited entries)
          (running_job id start results false)
        ≡ ended_at id start (results ++ found_paths (map path_of entries))
  unfolding run_loop keep_if interrupt
  loop_lem id start [] results early room =
      ap (λ r. running_job id start r false)
        (sym (open_capped limit results room) ∙ ap (capped limit) (sym (append-nil results)))
      ∙ ap (running_job id start (capped limit (results ++ [])))
          (sym room ∙ ap (is_full limit) (sym (append-nil results)))
  loop_lem id start ((now, path) ∷ rest) results (early, later) room =
      rw early (elim (Bool-cases (passes path)) [
        | inr p ↦ rw p (loop_lem id start rest results later room)
        | inl p ↦ elim (Bool-cases (matches path)) [
          | inr m ↦ rw p (rw m (loop_lem id start rest results later room))
          | inl m ↦ rw p (
              rw m (
                rw room (elim (Bool-cases (is_full limit (results ++ file_path path ∷ []))) [
                  | inl f ↦ rw f (
                      ap (λ r. running_job id start r true)
                        (sym (
                          full_capped limit results (file_path path)
                            (found_paths (map path_of rest)) room f))
                      ∙ ap
                          (running_job id start (
                            capped limit
                              (results ++ file_path path ∷ found_paths (map path_of rest))))
                          (sym (
                            still_full limit results (file_path path)
                              (found_paths (map path_of rest)) f)))
                  | inr f ↦ rw f (
                      loop_lem id start rest (results ++ file_path path ∷ []) later f
                      ∙ ap (ended_at id start) (
                          append_assoc results (file_path path ∷ [])
                            (found_paths (map path_of rest))))
                ])))
        ]
      ])

  -- A search for names without early termination that nobody stops, whose files are all visited before
  -- its timeout and which allows at least one result completes; its results are the files that pass
  -- the file pattern and whose names match, in the order of the walk, the first `maxResults` of them
  -- if there is a limit; and it says `truncated` exactly if there are at least so many.
  pub run-found_paths :
      (id start : ℕ) (entries : List (ℕ × Text))
      → All (λ entry. ltb entry.0 (start + timeout) ≡ true) entries
      → allows_none limit ≡ false
      → run
          (names hidden context timeout limit)
          passes
          matches
          find
          (map visited entries)
          (running_job id start [] false)
        ≡ record (ended_at id start (found_paths (map path_of entries))) { status = completed }
  unfolding run complete_running
  run-found_paths id start entries early some_limit =
      rw some_limit
        (ap complete_running (loop_lem id start entries [] early (nothing_found limit some_limit)))
