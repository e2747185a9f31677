-- ===== src/Search/Content.antt =====
-- `matchFileContent` of src/search/manager.ts: a file is read line by line. `find` is findLineMatches
-- with the pattern. `close` of a readline interface emits its event at once.
use desktop_remote.Common.{
  ℕ, zero, suc, ◌+◌, ◌-◌, Bool, true, false, not, ◌&&◌, ◌||◌, List, [], ◌∷◌, ◌++◌, map, ltb, leb,
  if◌then◌else◌, length, take, drop,
}
use desktop_remote.Events.{Text}
use desktop_remote.Search.Jobs.{
  SearchResult, content, SearchJob, NormalizedSearchOptions, is_running, has_results, add_result,
  interrupt, is_late,
}

pub record LineMatch : Type 0 where
  pub matched : Text
  pub column : ℕ

pub record PendingMatch : Type 0 where
  pub line : ℕ
  pub column : ℕ
  pub matched : Text
  pub before : List Text
  pub after : List Text

-- The variables of a call. `settled` is also that the interface is closed.
pub record Reader : Type 0 where
  pub job : SearchJob
  pub line_number : ℕ
  pub before : List Text
  pub pending : List PendingMatch
  pub settled : Bool

-- A line that arrives: the time, and whether the job has been stopped before.
pub record LineEvent : Type 0 where
  pub now : ℕ
  pub stopped_before : Bool
  pub line : Text

-- `lines.slice(-count)`, which is the whole list for 0.
unfoldable pub last_lines : ℕ → List Text → List Text
last_lines zero lines = lines
last_lines (suc count) lines = drop (length lines - suc count) lines

unfoldable pub push_after : ℕ → ℕ → Text → PendingMatch → PendingMatch
push_after context line_number line m =
    if ltb m.line line_number && leb line_number (m.line + context)
    then record m { after = m.after ++ line ∷ [] }
    else m

module _ (options : NormalizedSearchOptions) (file : Text) where
  abbrev pub emitted_match : PendingMatch → SearchResult
  emitted_match m = content (record {
    path = file;
    line = m.line;
    column = m.column;
    matched = m.matched;
    before = m.before;
    after = m.after;
  })

  -- The loop of `emitReady`: what stays pending, the job, and whether the interface is to be closed.
  unfoldable pub emit_pending :
      Bool → ℕ → List PendingMatch → SearchJob → (List PendingMatch × SearchJob) × Bool
  unfolding add_result
  emit_pending force current [] job = (([], job), false)
  emit_pending force current (m ∷ ms) job =
      let added = add_result options.max_results (emitted_match m) job in
      let further = emit_pending force current ms added.0 in
      if not force && ltb current (m.line + options.context_lines)
      then ((m ∷ ms, job), false)
      else if not added.1 || options.early_termination
      then ((ms, record added.0 { truncated = added.0.truncated || not added.1 }), true)
      else further

  unfoldable pub with_pending : List PendingMatch × SearchJob → Reader → Reader
  with_pending (pending, job) reader = record reader { pending = pending; job = job }

  -- `rl.close()`, with the handler of the event.
  unfoldable pub close : Reader → Reader
  unfolding emit_pending with_pending
  close reader =
      if reader.settled
      then reader
      else record (with_pending (emit_pending true reader.line_number reader.pending reader.job).0
          reader) { settled = true }

  -- `emitReady(false, lineNumber)`.
  unfoldable pub emit_ready : Reader → Reader
  unfolding emit_pending with_pending close
  emit_ready reader =
      let emitted = emit_pending false reader.line_number reader.pending reader.job in
      if emitted.1 then close (with_pending emitted.0 reader) else with_pending emitted.0 reader

  module _ (find : Text → List LineMatch) where
    unfoldable pub new_pending : Reader → Text → List PendingMatch
    new_pending reader line =
        map
          (λ m. record {
            line = reader.line_number;
            column = m.column;
            matched = m.matched;
            before = reader.before;
            after = [];
          })
          (if options.early_termination then take 1 (find line) else find line)

    -- The handler of a line behind its first emission.
    unfoldable pub add_matches : Text → Reader → Reader
    unfolding emit_ready close last_lines new_pending
    add_matches line reader =
        if options.early_termination && has_results remembered.job.results
        then close remembered
        else remembered
      where
        emitted : Reader
        emitted = emit_ready (record reader { pending = reader.pending ++ new_pending reader line })

        remembered : Reader
        remembered = record emitted {
          before = last_lines options.context_lines (emitted.before ++ line ∷ []);
        }

    -- What follows the first emission.
    unfoldable pub read_matches : Text → Reader → Reader
    unfolding add_matches
    read_matches line emitted =
        if emitted.settled || not (is_running emitted.job.status)
        then emitted
        else add_matches line emitted

    unfoldable pub read_line : Text → Reader → Reader
    unfolding emit_ready read_matches push_after
    read_line line reader = read_matches line (
        emit_ready (record reader {
          line_number = reader.line_number + 1;
          pending =
              map (push_after options.context_lines (reader.line_number + 1) line) reader.pending;
        }))

    -- The handler of a line.
    unfoldable pub on_line : LineEvent → Reader → Reader
    unfolding read_line close interrupt
    on_line event reader =
        if reader.settled
        then reader
        else if not (is_running job.status)
        then close (record reader { job = job })
        else if is_late options.timeout_ms event.now job
        then close (record reader { job = record job { truncated = true } })
        else read_line event.line reader
      where
        job : SearchJob
        job = interrupt event.stopped_before reader.job

    unfoldable pub on_lines : List LineEvent → Reader → Reader
    unfolding on_line
    on_lines [] reader = reader
    on_lines (event ∷ events) reader = on_lines events (on_line event reader)

    -- The job when the promise of a call resolves, all lines having been read.
    unfoldable pub match_file_content : List LineEvent → SearchJob → SearchJob
    unfolding on_lines close
    match_file_content events job =
        (close (
          on_lines events (record {
            job = job;
            line_number = 0;
            before = [];
            pending = [];
            settled = false;
          }))).job
