-- ===== src/Runner/DiffFilter/Filtered.antt =====
-- packages/runner/src/diff-filter.ts: `applyPathFilters` on the parsed text, against the globs one by
-- one.
use review_agent.Common.{
  ◌≤◌, ◌<◌, ◌≡◌, ◌↔◌, refl, sym, ap, ◌∙◌, Bool, true, false, not, ◌||◌, any, List, [], ◌∷◌, ◌++◌,
  Text, All, filter, length, Result, ok, err, if◌then◌else◌,
}
use review_agent.Core.Glob.{Node, GlobError, glob_to_reg_exp, test}
use review_agent.Runner.DiffFilter.{
  ParsedDiff, ParsedDiffFile, compile_filters, apply_path_filters, is_excluded, parse_diff_by_file,
  reassemble_diff, count_diff_lines,
}
use review_agent.Runner.DiffFilter.Filters.{
  Filters, apply_path_filters-Filters, filtered-reread, count-filtered-le,
}

-- whether one glob compiles and matches
abbrev pub matched_by : Result GlobError (List Node) → Text → Bool
matched_by (ok m) path = test m path
matched_by (err e) path = false

abbrev pub is_filtered : List Text → ParsedDiffFile → Bool
is_filtered globs f = any (λ g. matched_by (glob_to_reg_exp g) f.path) globs

abbrev pub Compiles : Text → Type 0
Compiles g = (m : List Node) × (glob_to_reg_exp g ≡ ok m)

-- the first glob that does not compile
abbrev pub BreaksAt : List Text → GlobError → Type 0
BreaksAt globs e =
    (before : List Text) × (g : Text) × (after : List Text) × (globs ≡ before ++ (g ∷ after))
    × All Compiles before
    × (glob_to_reg_exp g ≡ err e)

abbrev Compiled : List Text → Result GlobError (List (List Node)) → Type 0
Compiled globs (err e) = BreaksAt globs e
Compiled globs (ok ms) =
    All Compiles globs × ((f : ParsedDiffFile) → is_excluded ms f ≡ is_filtered globs f)

module _ (g : Text) (globs : List Text) where
  rest-Compiled :
      (m : List Node)
      → glob_to_reg_exp g ≡ ok m
      → (r : Result GlobError (List (List Node))) → Compiled globs r
      → Compiled (g ∷ globs) (elim r [ err e ↦ err e | ok ms ↦ ok (m ∷ ms) ])
  rest-Compiled m h (err e) (before, g', more, q, all, bad) =
      (g ∷ before, g', more, ap (λ x. g ∷ x) q, ((m, h), all), bad)
  rest-Compiled m h (ok ms) (all, same) =
      (((m, h), all), λ f. rw h (ap (λ b. test m f.path || b) (same f)))

  first-Compiled :
      (c : Result GlobError (List Node)) (r : Result GlobError (List (List Node)))
      → glob_to_reg_exp g ≡ c
      → Compiled globs r
      → Compiled
          (g ∷ globs)
          (elim c [ err e ↦ err e | ok m ↦ elim r [ err e ↦ err e | ok ms ↦ ok (m ∷ ms) ] ])
  first-Compiled (err e) r h all = ([], g, globs, refl, tt, h)
  first-Compiled (ok m) r h all = rest-Compiled m h r all

compile_filters-Compiled : (globs : List Text) → Compiled globs (compile_filters globs)
unfolding compile_filters
compile_filters-Compiled [] = (tt, λ f. refl)
compile_filters-Compiled (g ∷ globs) =
    first-Compiled g globs (glob_to_reg_exp g) (compile_filters globs) refl
      (compile_filters-Compiled globs)

filter-same :
    (p q : ParsedDiffFile → Bool)
    → ((f : ParsedDiffFile) → p f ≡ q f)
    → (fs : List ParsedDiffFile) → filter (λ f. not (p f)) fs ≡ filter (λ f. not (q f)) fs
filter-same p q same [] = refl
filter-same p q same (f ∷ fs) =
    ap (λ b. if not b then f ∷ filter (λ x. not (p x)) fs else filter (λ x. not (p x)) fs) (same f)
    ∙ ap (λ r. if not (q f) then f ∷ r else r) (filter-same p q same fs)

module _ (t : Text) (globs : List Text) where
  abbrev pub whole : ParsedDiff
  whole = parse_diff_by_file t

  -- `d` is what the globs leave of the text, `new` whether that is less, and the text that is written
  -- of it is read back
  pub record IsFiltered (d : ParsedDiff) (new : Bool) : Type 0 where
    pub compile : All Compiles globs
    pub preamble : d.preamble ≡ whole.preamble
    pub files : d.files ≡ filter (λ f. not (is_filtered globs f)) whole.files
    pub shrinks : (new ≡ true) ↔ (length d.files < length whole.files)
    pub reread : parse_diff_by_file (reassemble_diff d) ≡ d
    pub changed_lines : count_diff_lines d ≤ count_diff_lines whole

  abbrev pub Ends : Result GlobError (ParsedDiff × Bool) → Type 0
  Ends (ok (d, new)) = IsFiltered d new
  Ends (err e) = BreaksAt globs e

  kept-Ends :
      (c : Result GlobError (List (List Node))) (r : Result GlobError (ParsedDiff × Bool))
      → apply_path_filters whole globs ≡ r
      → Compiled globs c
      → Filters whole c r
      → Ends r
  kept-Ends (ok ms) (ok (d, new)) e (all, same) k = record {
    compile = all;
    preamble = k.preamble;
    files = k.files ∙ filter-same (is_excluded ms) (is_filtered globs) same whole.files;
    shrinks = k.shrinks;
    reread = filtered-reread t globs e;
    changed_lines = count-filtered-le whole globs e;
  }
  kept-Ends (ok ms) (err x) e c k = absurd k
  kept-Ends (err x) (ok (d, new)) e c k = absurd k
  kept-Ends (err x) (err y) e (before, g, after, q, all, bad) k =
      (before, g, after, q, all, bad ∙ ap err (sym k))

  -- The path filters on the parsed text: if every glob compiles, the result has the preamble and
  -- exactly the files that no glob matches, in order, and is a new object exactly if a file was
  -- dropped; it has no more changed lines, and the text that is written of it is read back as the
  -- result. Otherwise the call throws the error of the first glob that does not compile.
  pub apply_path_filters-Ends : Ends (apply_path_filters whole globs)
  apply_path_filters-Ends =
      kept-Ends (compile_filters globs) (apply_path_filters whole globs) refl
        (compile_filters-Compiled globs) (apply_path_filters-Filters whole globs)
