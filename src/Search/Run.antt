-- ===== src/Search/Run.antt =====
-- `run` of src/search/manager.ts: the files of a search one after the other. What the walk over the
-- directories yields is an argument; `passes` is the test of the file pattern on the relative path,
-- `matches` the test of the pattern on the base name, and `find` findLineMatches with the pattern.
use desktop_remote.Common.{
  ℕ, zero, suc, Bool, true, false, not, ◌&&◌, ◌||◌, Option, none, some, List, [], ◌∷◌, ◌++◌, ◌==◌,
  if◌then◌else◌,
}
use desktop_remote.Events.{Text}
use desktop_remote.Search.Jobs.{
  file_path, completed, SearchJob, SearchType, files, contents, NormalizedSearchOptions, is_running,
  has_results, add_result, interrupt, is_late,
}
use desktop_remote.Search.Content.{LineMatch, LineEvent, match_file_content}

-- A file that the walk yields: the time, whether the job has been stopped before, and the lines that
-- reading it gives.
pub record FileVisit : Type 0 where
  pub now : ℕ
  pub stopped_before : Bool
  pub path : Text
  pub lines : List LineEvent

-- `if (job.status === "running") job.status = "completed"`.
unfoldable pub complete_running : SearchJob → SearchJob
complete_running job = if is_running job.status then record job { status = completed } else job

-- `walkFiles` on a directory whose entries are sorted; `join` is that of node:path. A directory that
-- cannot be read is one without entries.
pub data Kind : Type 0 where
  plain_file other_kind : Kind

mutual
  pub data Tree : Type 0 where
    leaf : Text → Kind → Tree
    directory : Text → Trees → Tree

  pub data Trees : Type 0 where
    no_entries : Trees
    entry : Tree → Trees → Trees

abbrev pub name_of : Tree → Text
name_of (leaf name kind) = name
name_of (directory name _) = name

abbrev pub starts_with_dot : Text → Bool
starts_with_dot [] = false
starts_with_dot (unit ∷ units) = unit == b'.'

module _ (join : Text → Text → Text) (include_hidden : Bool) where
  unfoldable mutual
    pub walk_files : Text → Trees → List Text
    walk_files path no_entries = []
    walk_files path (entry tree rest) =
        let found = walk_entry path tree in
        let further = walk_files path rest in
        if not include_hidden && starts_with_dot (name_of tree) then further else found ++ further

    pub walk_entry : Text → Tree → List Text
    walk_entry path (leaf name plain_file) = join path name ∷ []
    walk_entry path (leaf name other_kind) = []
    walk_entry path (directory name inside) = walk_files (join path name) inside

-- `maxResults === 0`.
abbrev pub allows_none : Option ℕ → Bool
allows_none none = false
allows_none (some zero) = true
allows_none (some (suc limit)) = false

-- `job.status !== "running" || job.truncated || (options.earlyTermination && job.results.length > 0)`.
abbrev pub is_done : NormalizedSearchOptions → SearchJob → Bool
is_done options job =
    not (is_running job.status)
    || job.truncated
    || (options.early_termination && has_results job.results)

module _ (options : NormalizedSearchOptions) (passes : Text → Bool) (matches : Text → Bool)
    (find : Text → List LineMatch) where
  unfoldable pub visit_file : SearchType → FileVisit → SearchJob → SearchJob
  unfolding add_result match_file_content
  visit_file files visit job =
      if matches visit.path
      then (add_result options.max_results (file_path visit.path) job).0
      else job
  visit_file contents visit job = match_file_content options visit.path find visit.lines job

  unfoldable pub run_loop : List FileVisit → SearchJob → SearchJob
  unfolding visit_file interrupt
  run_loop [] job = job
  run_loop (visit ∷ visits) job =
      let found = interrupt visit.stopped_before job in
      let visited = visit_file options.search_type visit found in
      let next = run_loop visits visited in
      let skipped = run_loop visits found in
      if not (is_running found.status)
      then found
      else if is_late options.timeout_ms visit.now found
      then record found { truncated = true }
      else if not (passes visit.path)
      then skipped
      else if is_done options visited
      then visited
      else next

  unfoldable pub run : List FileVisit → SearchJob → SearchJob
  unfolding run_loop complete_running
  run visits job =
      if allows_none options.max_results
      then record job { truncated = true; status = completed }
      else complete_running (run_loop visits job)
