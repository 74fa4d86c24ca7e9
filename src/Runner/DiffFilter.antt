-- ===== src/Runner/DiffFilter.antt =====
-- packages/runner/src/diff-filter.ts. `applyPathFilters` also says whether it returned a new
-- object: its caller compares references.
pub mod Group
pub mod Headers
pub mod Lines
mod Parsed
mod Tests
pub mod RoundTrip
pub mod Filters
pub mod Filtered
use review_agent.Common.{
  ℕ, ◌+◌, Bool, true, false, ◌&&◌, ◌||◌, not, Option, none, some, List, [], ◌∷◌, ◌++◌, map, Text,
  text, ◌==◌, if◌then◌else◌, any, filter, length, starts_with, split, join, Result, ok, err,
}
use review_agent.Core.Glob.{Node, GlobError, glob_to_reg_exp, test, is_line_terminator}

pub record ParsedDiffFile : Type 0 where
  pub path : Text
  pub body : Text

pub record ParsedDiff : Type 0 where
  pub preamble : Text
  pub files : List ParsedDiffFile

-- `line.endsWith('\r') ? line.slice(0, -1) : line`
strip_cr : Text → Text
strip_cr [] = []
strip_cr (c ∷ []) = if c == 13 then [] else c ∷ []
strip_cr (c ∷ d ∷ t) = c ∷ strip_cr (d ∷ t)

after : Text → Text → Option Text
after [] t = some t
after (c ∷ p) [] = none
after (c ∷ p) (d ∷ t) = if c == d then after p t else none

abbrev pub marker : Text
marker = text "--- "

-- `(.+)$` : at least one character, none of them a line terminator
captured : Option Text → Option Text
captured none = none
captured (some []) = none
captured (some (c ∷ t)) = if any is_line_terminator (c ∷ t) then none else some (c ∷ t)

unfoldable pub header_path : Text → Option Text
unfolding strip_cr after captured
header_path line = captured (after marker (strip_cr line))

pub record Segment : Type 0 where
  pub path : Text
  pub body_lines : List Text

-- the variables of the loop; `current` is the last of the source's `files`
pub record Scan : Type 0 where
  pub preamble_lines : List Text
  pub closed : List Segment
  pub current : Option Segment

abbrev close : Option Segment → List Segment
close none = []
close (some f) = f ∷ []

abbrev push_line : Text → Scan → Option Segment → Scan
push_line line s none = record s { preamble_lines = s.preamble_lines ++ (line ∷ []) }
push_line line s (some f) = record s {
  current = some (record f { body_lines = f.body_lines ++ (line ∷ []) });
}

abbrev scan_line : Text → Scan → Option Text → Scan
scan_line line s none = push_line line s s.current
scan_line line s (some p) = record s {
  closed = s.closed ++ close s.current;
  current = some (record { path = p; body_lines = [] });
}

scan : Scan → List Text → Scan
scan s [] = s
scan s (line ∷ lines) = scan (scan_line line s (header_path line)) lines

abbrev start : Scan
start = record { preamble_lines = []; closed = []; current = none }

abbrev pub joined : Segment → ParsedDiffFile
joined f = record { path = f.path; body = join 10 f.body_lines }

finish : Scan → ParsedDiff
finish s = record {
  preamble = join 10 s.preamble_lines;
  files = map joined (s.closed ++ close s.current);
}

unfoldable pub parse_diff_by_file : Text → ParsedDiff
unfolding scan finish header_path split join
parse_diff_by_file [] = record { preamble = []; files = [] }
parse_diff_by_file (c ∷ t) = finish (scan start (split 10 (c ∷ t)))

-- `filters.map(globToRegExp)`, which throws at the first that does not compile
unfoldable pub compile_filters : List Text → Result GlobError (List (List Node))
compile_filters [] = ok []
compile_filters (g ∷ gs) = elim (glob_to_reg_exp g) [
  | err e ↦ err e
  | ok m ↦ elim (compile_filters gs) [ err e ↦ err e | ok ms ↦ ok (m ∷ ms) ]
]

abbrev pub is_excluded : List (List Node) → ParsedDiffFile → Bool
is_excluded matchers f = any (λ m. test m f.path) matchers

abbrev pub keep : ParsedDiff → List (List Node) → ParsedDiff × Bool
keep parsed matchers =
    let kept = filter (λ f. not (is_excluded matchers f)) parsed.files in
    if length kept == length parsed.files
    then (parsed, false)
    else (record { preamble = parsed.preamble; files = kept }, true)

abbrev pub keep_compiled :
    ParsedDiff → Result GlobError (List (List Node)) → Result GlobError (ParsedDiff × Bool)
keep_compiled parsed (ok matchers) = ok (keep parsed matchers)
keep_compiled parsed (err e) = err e

unfoldable pub apply_path_filters : ParsedDiff → List Text → Result GlobError (ParsedDiff × Bool)
unfolding compile_filters
apply_path_filters parsed [] = ok (parsed, false)
apply_path_filters parsed (g ∷ gs) = keep_compiled parsed (compile_filters (g ∷ gs))

unfoldable pub render_file : Text → Text → Text
render_file path [] = marker ++ path
render_file path (c ∷ t) = marker ++ path ++ (10 ∷ c ∷ t)

abbrev pub render : ParsedDiffFile → Text
render f = render_file f.path f.body

abbrev non_empty : Text → List Text
non_empty [] = []
non_empty (c ∷ t) = (c ∷ t) ∷ []

unfoldable pub reassemble_diff : ParsedDiff → Text
unfolding render_file join
reassemble_diff parsed = join 10 (non_empty parsed.preamble ++ map render parsed.files)

abbrev is_change : Text → Bool
is_change [] = false
is_change (c ∷ t) =
    (c == b'+' || c == b'-')
    && not (starts_with (text "+++ ") (c ∷ t) || starts_with (text "--- ") (c ∷ t))

abbrev changes : List Text → ℕ
changes lines = length (filter is_change lines)

count_files : List ParsedDiffFile → ℕ
count_files [] = 0
count_files (f ∷ files) = changes (split 10 f.body) + count_files files

unfoldable pub count_diff_lines : ParsedDiff → ℕ
unfolding count_files split starts_with
count_diff_lines parsed = count_files parsed.files
