-- ===== src/Runner/DiffFilter/Filters.antt =====
-- `applyPathFilters`, and what of a filtered diff is read back.
use review_agent.Common.{
  ◌≤◌, ◌<◌, ◌≡◌, ◌↔◌, refl, sym, ap, ◌∙◌, Bool, true, false, not, List, [], ◌∷◌, Text, arith,
  All-filter, filter, length, length-filter-le, Bool-cases, inl, inr, Result, ok, err, ◌==◌, ==_iff,
}
use review_agent.Core.Glob.{Node, GlobError}
use review_agent.Runner.DiffFilter.{
  ParsedDiff, ParsedDiffFile, compile_filters, apply_path_filters, keep, keep_compiled, is_excluded,
  parse_diff_by_file, reassemble_diff, count_diff_lines, count_files,
}
use review_agent.Runner.DiffFilter.Lines.{IsFile}
use review_agent.Runner.DiffFilter.Parsed.{parse-IsWellFormed}
use review_agent.Runner.DiffFilter.RoundTrip.{parse-reassemble}

abbrev pub kept_files : List (List Node) → List ParsedDiffFile → List ParsedDiffFile
kept_files matchers = filter (λ f. not (is_excluded matchers f))

-- a filter that keeps as many keeps all
filter_all :
    (p : ParsedDiffFile → Bool) (fs : List ParsedDiffFile)
    → length (filter p fs) ≡ length fs
    → filter p fs ≡ fs
filter_all p [] h = refl
filter_all p (f ∷ fs) h = ground (arith, filter_all p fs, length-filter-le p fs)

-- `d` is what the matchers leave of `p`, and `new` says whether that is less.
pub record IsKept (p : ParsedDiff) (ms : List (List Node)) (d : ParsedDiff) (new : Bool)
    : Type 0 where
  pub preamble : d.preamble ≡ p.preamble
  pub files : d.files ≡ kept_files ms p.files
  pub shrinks : (new ≡ true) ↔ (length d.files < length p.files)

keep-IsKept : (p : ParsedDiff) (ms : List (List Node)) → IsKept p ms (keep p ms).0 (keep p ms).1
keep-IsKept p ms = elim (Bool-cases (length (kept_files ms p.files) == length p.files)) [
  | inl e ↦ rw e (record {
    preamble = refl;
    files = sym (filter_all _ p.files ((==_iff _ _).0 e));
    shrinks = ground arith;
  })
  | inr e ↦ rw e (record {
    preamble = refl;
    files = refl;
    shrinks = ground (arith, length-filter-le (λ f. not (is_excluded ms f)) p.files);
  })
]

kept_files-nil : (fs : List ParsedDiffFile) → kept_files [] fs ≡ fs
kept_files-nil [] = refl
kept_files-nil (f ∷ fs) = ap (λ r. f ∷ r) (kept_files-nil fs)

-- The outcome of the filter, given that of compiling its globs.
abbrev pub Filters :
    ParsedDiff → Result GlobError (List (List Node)) → Result GlobError (ParsedDiff × Bool) → Type 0
Filters p (ok ms) (ok (d, new)) = IsKept p ms d new
Filters p (err e) (err e') = e' ≡ e
Filters p _ _ = ⊥

keep_compiled-Filters :
    (p : ParsedDiff) (r : Result GlobError (List (List Node))) → Filters p r (keep_compiled p r)
keep_compiled-Filters p (ok ms) = keep-IsKept p ms
keep_compiled-Filters p (err e) = refl

-- If every filter compiles, the result has the preamble and exactly the files that no filter
-- matches, in order, and is a new object exactly if a file was dropped. If one does not compile,
-- the call throws its error.
pub apply_path_filters-Filters :
    (p : ParsedDiff) (gs : List Text) → Filters p (compile_filters gs) (apply_path_filters p gs)
unfolding apply_path_filters
apply_path_filters-Filters p [] = record {
  preamble = refl;
  files = sym (kept_files-nil p.files);
  shrinks = (λ e. cc, λ h. absurd (omega arith));
}
apply_path_filters-Filters p (g ∷ gs) = keep_compiled-Filters p (compile_filters (g ∷ gs))

Filters-files :
    (p : ParsedDiff) (r : Result GlobError (List (List Node))) (d : ParsedDiff) (new : Bool)
    → Filters p r (ok (d, new))
    → (ms : List (List Node)) × (d.preamble ≡ p.preamble) × (d.files ≡ kept_files ms p.files)
Filters-files p (ok ms) d new h = (ms, h.preamble, h.files)
Filters-files p (err e) d new h = absurd h

-- The kept files, from a successful call.
filtered_files :
    (p : ParsedDiff) (gs : List Text) {d : ParsedDiff} {new : Bool}
    → apply_path_filters p gs ≡ ok (d, new)
    → (ms : List (List Node)) × (d.preamble ≡ p.preamble) × (d.files ≡ kept_files ms p.files)
filtered_files p gs {d} {new} e =
    Filters-files p (compile_filters gs) d new (rw e at (apply_path_filters-Filters p gs))

Filters-unchanged :
    (p : ParsedDiff) (r : Result GlobError (List (List Node))) (d : ParsedDiff)
    → Filters p r (ok (d, false))
    → d.files ≡ p.files
Filters-unchanged p (ok ms) d h =
    h.files
    ∙ filter_all _ p.files (
        ground (
          arith,
          h.shrinks,
          ap length h.files,
          length-filter-le (λ f. not (is_excluded ms f)) p.files,
        ))
Filters-unchanged p (err e) d h = absurd h

-- where the filters report no change, there is none
pub filtered-unchanged :
    (p : ParsedDiff) (gs : List Text) {d : ParsedDiff}
    → apply_path_filters p gs ≡ ok (d, false)
    → d.files ≡ p.files
filtered-unchanged p gs {d} e =
    Filters-unchanged p (compile_filters gs) d (rw e at (apply_path_filters-Filters p gs))

-- For every text and every filters that compile: the text that is written after filtering is read
-- back as the filtered diff, so that it holds the kept files with their bodies and no others.
pub filtered-reread :
    (t : Text) (gs : List Text) {d : ParsedDiff} {new : Bool}
    → apply_path_filters (parse_diff_by_file t) gs ≡ ok (d, new)
    → parse_diff_by_file (reassemble_diff d) ≡ d
filtered-reread t gs {d} e =
    let (ms, hp, hf) = filtered_files (parse_diff_by_file t) gs e in
    let w = parse-IsWellFormed t in
    parse-reassemble d
      (record { preamble = rw hp w.preamble; files = rw hf (All-filter IsFile _ _ w.files) })

count_files-filter :
    (p : ParsedDiffFile → Bool) (fs : List ParsedDiffFile)
    → count_files (filter p fs) ≤ count_files fs
unfolding count_files
count_files-filter p [] = omega arith
count_files-filter p (f ∷ fs) = ground (arith, count_files-filter p fs)

-- Filtering never raises the number of changed lines that the cap is compared with.
pub count-filtered-le :
    (p : ParsedDiff) (gs : List Text) {d : ParsedDiff} {new : Bool}
    → apply_path_filters p gs ≡ ok (d, new)
    → count_diff_lines d ≤ count_diff_lines p
unfolding count_diff_lines
count-filtered-le p gs e =
    let (ms, hp, hf) = filtered_files p gs e in rw hf (count_files-filter _ p.files)
