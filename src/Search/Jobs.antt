-- ===== src/Search/Jobs.antt =====
-- The jobs of src/search/manager.ts, and how a result is added to one. A path and a line are texts;
-- the callback `onResult` is outside.
use desktop_remote.Common.{
  ℕ, ◌+◌, Bool, true, false, not, ◌||◌, Option, none, some, List, [], ◌∷◌, ◌++◌, ltb, leb,
  if◌then◌else◌, length,
}
use desktop_remote.Events.{Text}

pub record ContentSearchMatch : Type 0 where
  pub path : Text
  pub line : ℕ
  pub column : ℕ
  pub matched : Text
  pub before : List Text
  pub after : List Text

pub data SearchResult : Type 0 where
  file_path : Text → SearchResult
  content : ContentSearchMatch → SearchResult

pub data SearchStatus : Type 0 where
  running completed stopped : SearchStatus

pub record SearchJob : Type 0 where
  pub id : ℕ
  pub status : SearchStatus
  pub results : List SearchResult
  pub truncated : Bool
  pub start_time : ℕ

pub data SearchType : Type 0 where
  files contents : SearchType

-- The patterns are parameters of the operations that use them. No `max_results` means no limit.
pub record NormalizedSearchOptions : Type 0 where
  pub search_type : SearchType
  pub include_hidden : Bool
  pub context_lines : ℕ
  pub max_results : Option ℕ
  pub timeout_ms : ℕ
  pub early_termination : Bool

abbrev pub is_running : SearchStatus → Bool
is_running running = true
is_running completed = false
is_running stopped = false

abbrev pub has_results : List SearchResult → Bool
has_results [] = false
has_results (result ∷ results) = true

-- `job.results.length >= maxResults`.
abbrev pub is_full : Option ℕ → List SearchResult → Bool
is_full none results = false
is_full (some limit) results = leb limit (length results)

unfoldable pub add_result : Option ℕ → SearchResult → SearchJob → SearchJob × Bool
add_result limit result job =
    if is_full limit job.results then (record job { truncated = true }, false) else (
      record job {
        results = job.results ++ result ∷ [];
        truncated = job.truncated || is_full limit (job.results ++ result ∷ []);
      },
      true,
    )

-- What another call does to the job while a search waits: `stop`, or `cleanupExpired`.
unfoldable pub interrupt : Bool → SearchJob → SearchJob
interrupt true job = record job { status = stopped }
interrupt false job = job

abbrev pub is_late : ℕ → ℕ → SearchJob → Bool
is_late timeout_ms now job = not (ltb now (job.start_time + timeout_ms))
