-- ===== src/Search/Manager.antt =====
-- The operations of `SearchManager` of src/search/manager.ts on its sessions. The clock, the fresh id
-- and whether the patterns are valid are arguments.
use desktop_remote.Common.{
  ℕ, zero, suc, ◌+◌, ◌*◌, Bool, true, false, not, ◌&&◌, ◌||◌, Option, none, some, List, [], ◌∷◌,
  map, ltb, leb, if◌then◌else◌, length, take, drop, or_default, ◌⊎◌, inl, inr,
}
use desktop_remote.Common.Dict.{find, put}
use desktop_remote.Common.Int.{ℤ, pos, negsuc}
use desktop_remote.Events.{Text}
use desktop_remote.Search.Jobs.{
  SearchResult, SearchStatus, running, stopped, SearchJob, SearchType, NormalizedSearchOptions,
  is_running,
}

-- A JavaScript number: an integer, a fraction with its floor, or neither.
pub data Amount : Type 0 where
  whole : ℤ → Amount
  fraction : ℤ → Amount
  not_finite : Amount

pub data RequestedType : Type 0 where
  known : SearchType → RequestedType
  unknown : RequestedType

pub record SearchOptions : Type 0 where
  pub path : Option Text
  pub pattern : Text
  pub search_type : Option RequestedType
  pub file_pattern : Option Text
  pub include_hidden : Option Bool
  pub context_lines : Option Amount
  pub max_results : Option Amount
  pub timeout_ms : Option Amount
  pub early_termination : Option Bool
  pub root : Option Text
  pub mode : Option RequestedType
  pub timeout_alias : Option Amount

pub record SearchManager : Type 0 where
  pub searches : List (ℕ × SearchJob)
  pub session_ttl_ms : ℕ

abbrev pub default_search_timeout_ms : ℕ
default_search_timeout_ms = 10000

abbrev pub default_session_ttl_ms : ℕ
default_session_ttl_ms = 5 * 60 * 1000

unfoldable pub first_of : {A : Type 0} → Option A → Option A → Option A
first_of none other = other
first_of (some a) other = some a

-- The constructor.
unfoldable pub session_ttl : Option Amount → ℕ
session_ttl (some (whole (pos (suc n)))) = suc n
session_ttl (some (fraction (pos n))) = n
session_ttl other = default_session_ttl_ms

unfoldable pub new_search_manager : Option Amount → Option Amount → SearchManager
unfolding session_ttl first_of
new_search_manager session_ttl_ms ttl_ms = record {
  searches = [];
  session_ttl_ms = session_ttl (first_of session_ttl_ms ttl_ms);
}

unfoldable pub normalize_non_negative : Amount → ℕ
normalize_non_negative (whole (pos n)) = n
normalize_non_negative (whole (negsuc n)) = zero
normalize_non_negative (fraction (pos n)) = n
normalize_non_negative (fraction (negsuc n)) = zero
normalize_non_negative not_finite = zero

unfoldable pub normalized_options : SearchType → SearchOptions → NormalizedSearchOptions
unfolding normalize_non_negative first_of
normalized_options kind options = record {
  search_type = kind;
  include_hidden = or_default options.include_hidden false;
  context_lines = normalize_non_negative (or_default options.context_lines (whole (pos 5)));
  max_results = elim options.max_results [
    | none ↦ none
    | some limit ↦ some (normalize_non_negative limit)
  ];
  timeout_ms = normalize_non_negative (
      or_default (first_of options.timeout_ms options.timeout_alias)
        (whole (pos default_search_timeout_ms)));
  early_termination = or_default options.early_termination false;
}

-- `now - job.startTime < this.sessionTtlMs`.
abbrev pub is_kept : ℕ → ℕ → SearchJob → Bool
is_kept now ttl job = ltb now (job.start_time + ttl)

unfoldable pub keep_fresh : ℕ → ℕ → List (ℕ × SearchJob) → List (ℕ × SearchJob)
keep_fresh now ttl [] = []
keep_fresh now ttl ((id, job) ∷ rest) =
    if is_kept now ttl job then (id, job) ∷ keep_fresh now ttl rest else keep_fresh now ttl rest

-- `cleanupExpired`; the run of an expired job is told by `interrupt`.
unfoldable pub cleanup_expired : ℕ → SearchManager → SearchManager
unfolding keep_fresh
cleanup_expired now s = record s { searches = keep_fresh now s.session_ttl_ms s.searches }

pub data SearchError : Type 0 where
  missing_argument unsupported_mode invalid_pattern search_not_found invalid_page : SearchError

abbrev pub is_given : Option Text → Bool
is_given none = false
is_given (some []) = false
is_given (some (unit ∷ units)) = true

abbrev new_job : ℕ → ℕ → SearchJob
new_job id now = record {
  id = id;
  status = running;
  results = [];
  truncated = false;
  start_time = now;
}

unfoldable pub requested_type : Option RequestedType → Option SearchType
requested_type (some (known kind)) = some kind
requested_type other = none

-- `start`: the new state, and the id with the options of the run that begins.
unfoldable pub start_search :
    ℕ
    → ℕ
    → Bool
    → SearchOptions
    → SearchManager
    → SearchManager × (SearchError ⊎ (ℕ × NormalizedSearchOptions))
unfolding cleanup_expired normalized_options requested_type first_of
start_search now fresh valid options s =
    if not (is_given (first_of options.path options.root)) || not (is_given (some options.pattern))
    then (cleanup_expired now s, inl missing_argument)
    else elim (requested_type (first_of options.search_type options.mode)) [
      | none ↦ (cleanup_expired now s, inl unsupported_mode)
      | some kind ↦ if not valid then (cleanup_expired now s, inl invalid_pattern) else (
        record s {
          searches = put fresh (new_job fresh now) (keep_fresh now s.session_ttl_ms s.searches);
        },
        inr (fresh, normalized_options kind options),
      )
    ]

pub record Page : Type 0 where
  pub results : List SearchResult
  pub total : ℕ
  pub done : Bool
  pub page_truncated : Bool

-- `slice` and the answer of `getMore`.
unfoldable pub page_of : ℕ → ℕ → SearchJob → Page
page_of offset count job = record {
  results = page;
  total = length job.results;
  done = not (is_running job.status) && leb (length job.results) (offset + length page);
  page_truncated = job.truncated;
}
  where
    page : List SearchResult
    page = take count (drop offset job.results)

unfoldable pub index : Amount → Option ℕ
index (whole (pos n)) = some n
index other = none

unfoldable pub get_more :
    ℕ → ℕ → Amount → Amount → SearchManager → SearchManager × (SearchError ⊎ Page)
unfolding cleanup_expired page_of index
get_more now id offset count s = (
  cleanup_expired now s,
  elim (find id (cleanup_expired now s).searches) [
    | none ↦ inl search_not_found
    | some job ↦ elim (index offset) [
      | none ↦ inl invalid_page
      | some n ↦ elim (index count) [ none ↦ inl invalid_page | some k ↦ inr (page_of n k job) ]
    ]
  ],
)

-- `stop`, up to its wait for the run.
unfoldable pub stop_search : ℕ → ℕ → SearchManager → SearchManager × Bool
unfolding cleanup_expired
stop_search now id s = elim (find id (cleanup_expired now s).searches) [
  | none ↦ (cleanup_expired now s, false)
  | some job ↦ (
    record s {
      searches =
          put id (record job { status = stopped }) (keep_fresh now s.session_ttl_ms s.searches);
    },
    true,
  )
]

unfoldable pub list_searches : ℕ → SearchManager → SearchManager × List (ℕ × SearchStatus)
unfolding cleanup_expired
list_searches now s = (
  cleanup_expired now s,
  map (λ entry. (entry.1.id, entry.1.status)) (cleanup_expired now s).searches,
)
