-- ===== src/Search/Around.antt =====
-- The matches of a file with the lines around them.
use desktop_remote.Common.{
  ℕ, zero, suc, ◌+◌, ◌-◌, ◌≤◌, ◌≡◌, refl, sym, ap, ◌∙◌, List, [], ◌∷◌, ◌++◌, map, length, take,
  drop, drop-drop, length-append, length-drop, arith,
}
use desktop_remote.Events.{Text}
use desktop_remote.Search.Jobs.{SearchResult, content}
use desktop_remote.Search.Content.{LineMatch, last_lines}

module _ (context : ℕ) (file : Text) (find : Text → List LineMatch) where
  -- A match in a line, between the lines before it and those after it.
  abbrev pub found : List Text → List Text → LineMatch → SearchResult
  found seen rest m = content (record {
    path = file;
    line = length seen + 1;
    column = m.column;
    matched = m.matched;
    before = last_lines context seen;
    after = take context rest;
  })

  -- All matches of the lines that follow `seen`.
  unfoldable pub found_in : List Text → List Text → List SearchResult
  found_in seen [] = []
  found_in seen (line ∷ rest) =
      map (found seen rest) (find line) ++ found_in (seen ++ line ∷ []) rest

drop-front : (n : ℕ) (xs ys : List Text) → n ≤ length xs → drop n (xs ++ ys) ≡ drop n xs ++ ys
drop-front zero xs ys h = refl
drop-front (suc n) [] ys h = absurd (omega (arith, h))
drop-front (suc n) (x ∷ xs) ys h = drop-front n xs ys (omega (arith, h))

pub last_lines-snoc :
    (count : ℕ) (lines : List Text) (line : Text)
    → last_lines count (last_lines count lines ++ line ∷ []) ≡ last_lines count (lines ++ line ∷ [])
unfolding last_lines
last_lines-snoc zero lines line = refl
last_lines-snoc (suc count) lines line =
    ap (λ xs. drop (length xs - suc count) xs)
      (sym (drop-front before lines (line ∷ []) (omega arith)))
    ∙ drop-drop before (length (drop before (lines ++ line ∷ [])) - suc count) (lines ++ line ∷ [])
    ∙ ap (λ n. drop n (lines ++ line ∷ []))
        (omega (arith, length-drop before (lines ++ line ∷ []), length-append lines (line ∷ [])))
  where
    before : ℕ
    before = length lines - suc count
