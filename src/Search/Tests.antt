-- ===== src/Search/Tests.antt =====
-- A file of three lines, in which a search looks for its one-letter lines.
use desktop_remote.Common.{
  ℕ, ◌≡◌, refl, Bool, true, false, some, List, [], ◌∷◌, ◌++◌, map, length, keep_if, arith,
}
use desktop_remote.Events.{Text}
use desktop_remote.Search.Jobs.{file_path, running, completed, SearchJob}
use desktop_remote.Search.Content.{LineMatch, match_file_content}
use desktop_remote.Search.Streaming.{unlimited}
use desktop_remote.Search.Around.{found_in}
use desktop_remote.Search.Completeness.{
  arrived, line_of, with_all_before, match_file_content-found_in,
  match_file_content-with_all_before,
}
use desktop_remote.Search.Run.{
  Trees, leaf, directory, no_entries, entry, plain_file, walk_files, run,
}
use desktop_remote.Search.Paging.{read_search, read_search-results}
use desktop_remote.Search.Manager.{SearchManager, cleanup_expired}
use desktop_remote.Common.Dict.{find}
use desktop_remote.Search.Names.{names, visited, run-found_paths}

abbrev short_line : Text → List LineMatch
short_line [] = []
short_line (unit ∷ []) = record { matched = unit ∷ []; column = 1 } ∷ []
short_line (unit ∷ other ∷ units) = []

abbrev lines : List (ℕ × Text)
lines = (1, b'a' ∷ []) ∷ (2, b'b' ∷ b'b' ∷ []) ∷ (3, b'c' ∷ []) ∷ []

abbrev empty_job : SearchJob
empty_job = record { id = 1; status = running; results = []; truncated = false; start_time = 0 }

match_file_content-found_in_example :
    (match_file_content
      (unlimited false 1 10)
      (b'f' ∷ [])
      short_line
      (map arrived lines)
      empty_job).results
    ≡ found_in 1 (b'f' ∷ []) short_line [] (map line_of lines)
match_file_content-found_in_example =
    match_file_content-found_in false 1 10 (b'f' ∷ []) short_line lines empty_job
      (refl, (refl, (refl, tt))) refl

two_found : length (found_in 1 (b'f' ∷ []) short_line [] (map line_of lines)) ≡ 2
unfolding found_in
two_found = refl

match_file_content-with_all_before_example :
    (match_file_content
      (unlimited false 0 10)
      (b'f' ∷ [])
      short_line
      (map arrived lines)
      empty_job).results
    ≡ with_all_before (b'f' ∷ []) short_line [] (map line_of lines)
match_file_content-with_all_before_example =
    match_file_content-with_all_before false 10 (b'f' ∷ []) short_line lines empty_job
      (refl, (refl, (refl, tt))) refl

abbrev ended_job : SearchJob
ended_job = record {
  id = 1;
  status = completed;
  results = file_path (b'a' ∷ []) ∷ file_path (b'b' ∷ []) ∷ file_path (b'c' ∷ []) ∷ [];
  truncated = false;
  start_time = 0;
}

abbrev manager : SearchManager
manager = record { searches = (1, ended_job) ∷ []; session_ttl_ms = 1000 }

ended_found : find 1 (cleanup_expired 5 manager).searches ≡ some ended_job
unfolding find cleanup_expired
ended_found = refl

read_search-results_example : read_search 4 5 1 0 2 manager ≡ some ended_job.results
read_search-results_example =
    read_search-results 5 1 2 manager ended_job ended_found refl (omega arith)

abbrev join : Text → Text → Text
join path name = path ++ b'/' ∷ name

abbrev tree : Trees
tree = entry (leaf (b'.' ∷ b'x' ∷ []) plain_file) (
    entry (directory (b'd' ∷ []) (entry (leaf (b'a' ∷ []) plain_file) no_entries))
      (entry (leaf (b'b' ∷ []) plain_file) no_entries))

walked :
    walk_files join false (b'r' ∷ []) tree
    ≡ (b'r' ∷ b'/' ∷ b'd' ∷ b'/' ∷ b'a' ∷ []) ∷ (b'r' ∷ b'/' ∷ b'b' ∷ []) ∷ []
unfolding walk_files
walked = refl

abbrev any_text : Text → Bool
any_text text = true

abbrev found_files : List (ℕ × Text)
found_files = (1, b'a' ∷ []) ∷ (2, b'b' ∷ []) ∷ []

run-found_paths_example :
    run (names false 5 10 (some 1)) any_text any_text short_line (map visited found_files) empty_job
    ≡ record {
      id = 1;
      status = completed;
      results = file_path (b'a' ∷ []) ∷ [];
      truncated = true;
      start_time = 0;
    }
unfolding keep_if
run-found_paths_example =
    run-found_paths false 5 10 (some 1) any_text any_text short_line 1 0 found_files
      (refl, (refl, tt)) refl
