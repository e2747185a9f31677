-- ===== src/Search/Paging.antt =====
-- Reading the results of a search page by page.
use desktop_remote.Common.{
  ℕ, zero, suc, ◌+◌, ◌≤◌, ◌<◌, ◌≡◌, refl, sym, ap, ◌∙◌, false, Option, none, some, List, [], ◌∷◌,
  ◌++◌, leb, leb→le, leb→gt, if◌then◌else◌, length, take, drop, length-take, length-drop, drop-drop,
  take-append-drop, Bool-cases, inl, inr, arith,
}
use desktop_remote.Search.Jobs.{SearchResult, SearchJob, is_running}
use desktop_remote.Common.Int.{pos}
use desktop_remote.Common.Dict.{find}
use desktop_remote.Search.Manager.{page_of, SearchManager, whole, index, get_more, cleanup_expired}

-- A page and what the pages after it hold.
unfoldable pub followed_by :
    List SearchResult → Option (List SearchResult) → Option (List SearchResult)
followed_by page none = none
followed_by page (some more) = some (page ++ more)

-- A client that asks for the next page until one says `done`; `none` if none of as many pages as the
-- fuel does.
unfoldable pub read_pages : ℕ → ℕ → ℕ → SearchJob → Option (List SearchResult)
unfolding page_of followed_by
read_pages zero offset count job = none
read_pages (suc fuel) offset count job =
    let page = page_of offset count job in
    let rest = read_pages fuel (offset + length page.results) count job in
    if page.done then some page.results else followed_by page.results rest

take_all : (n : ℕ) (xs : List SearchResult) → length xs ≤ n → take n xs ≡ xs
take_all zero [] h = refl
take_all zero (x ∷ xs) h = absurd (omega (arith, h))
take_all (suc n) [] h = refl
take_all (suc n) (x ∷ xs) h = ap (λ ys. x ∷ ys) (take_all n xs (omega (arith, h)))

pages_from :
    (fuel offset count : ℕ) (job : SearchJob)
    → is_running job.status ≡ false
    → 0 < count
    → offset ≤ length job.results
    → length job.results < fuel + offset
    → read_pages fuel offset count job ≡ some (drop offset job.results)
unfolding read_pages page_of followed_by
pages_from zero offset count job ended some_count l h = absurd (omega (arith, l, h))
pages_from (suc fuel) offset count job ended some_count l h =
    let page_size = length-take count (drop offset job.results) in
    let left = length-drop offset job.results in
    elim (Bool-cases
      (leb (length job.results) (offset + length (take count (drop offset job.results))))) [
        | inl e ↦ rw ended (
            rw e (ap some (take_all count (drop offset job.results) (omega (arith, leb→le _ _ e)))))
        | inr e ↦
            let full : length (take count (drop offset job.results)) ≡ count =
              omega (arith, leb→gt _ _ e) in
            rw ended (
              rw e (
                ap (followed_by (take count (drop offset job.results))) (
                  pages_from fuel (offset + length (take count (drop offset job.results))) count job
                    ended some_count (omega (arith, leb→gt _ _ e)) (omega (arith, full, h))
                  ∙ ap (λ n. some (drop (offset + n) job.results)) full
                  ∙ ap some (sym (drop-drop offset count job.results)))
                ∙ ap some (take-append-drop count (drop offset job.results))))
      ]

-- The same client with `getMore` on the manager, before the session expires; `none` where a call
-- throws, too.
unfoldable pub read_search : ℕ → ℕ → ℕ → ℕ → ℕ → SearchManager → Option (List SearchResult)
unfolding get_more followed_by
read_search zero now id offset count s = none
read_search (suc fuel) now id offset count s =
    elim (get_more now id (whole (pos offset)) (whole (pos count)) s).1 [
      | inl failure ↦ none
      | inr page ↦
          let rest = read_search fuel now id (offset + length page.results) count s in
          if page.done then some page.results else followed_by page.results rest
    ]

get_more-page_of :
    (now id offset count : ℕ) (s : SearchManager) (job : SearchJob)
    → find id (cleanup_expired now s).searches ≡ some job
    → (get_more now id (whole (pos offset)) (whole (pos count)) s).1
      ≡ inr (page_of offset count job)
unfolding get_more index
get_more-page_of now id offset count s job e = rw (e, get_more) refl

read_search-read_pages :
    (fuel now id offset count : ℕ) (s : SearchManager) (job : SearchJob)
    → find id (cleanup_expired now s).searches ≡ some job
    → read_search fuel now id offset count s ≡ read_pages fuel offset count job
unfolding read_search read_pages
read_search-read_pages zero now id offset count s job e = refl
read_search-read_pages (suc fuel) now id offset count s job e =
    rw (get_more-page_of now id offset count s job e, read_search)
      (rw
        (read_search-read_pages fuel now id (offset + length (page_of offset count job).results)
          count s job e)
        refl)

-- When a search has ended and its session has not expired, a client that asks `getMore` for pages of
-- any positive length, each from where the last one ended, gets a page that says it is the last after
-- at most one page more than there are results, and has then read all results once and in order.
pub read_search-results :
    (now id count : ℕ) (s : SearchManager) (job : SearchJob)
    → find id (cleanup_expired now s).searches ≡ some job
    → is_running job.status ≡ false
    → 0 < count
    → read_search (length job.results + 1) now id 0 count s ≡ some job.results
read_search-results now id count s job e ended some_count =
    read_search-read_pages (length job.results + 1) now id 0 count s job e
    ∙ pages_from (length job.results + 1) 0 count job ended some_count (omega arith) (omega arith)
