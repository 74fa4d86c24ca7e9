-- ===== src/Action/Payload/Reads.antt =====
-- What the parser makes of a built text, and what writing it again loses.
use mathlib.Core.Path.{ap₂}
use mathlib.Core.List.{flatten}
use review_agent.Common.{
  ℕ, ◌+◌, ◌≡◌, ◌≢◌, refl, ap, ◌∙◌, List, [], ◌∷◌, ◌++◌, map, Text, split, join, split-join,
  join-split, join-cons-split, join-map-join, split-Lacks, All, All-append, Lacks, append-nil,
  length, length-append, arith, sym,
}
use review_agent.Runner.DiffFilter.{
  ParsedDiffFile, Segment, marker, joined, render, render_file, parse_diff_by_file, reassemble_diff,
}
use review_agent.Runner.DiffFilter.Headers.{IsPath, header_path-marker, IsPath-Lacks}
use review_agent.Runner.DiffFilter.Group.{group, shown, parse_diff_by_file-group}
use review_agent.Runner.DiffFilter.Lines.{IsPlain, marker-Lacks}
use review_agent.Runner.DiffFilter.RoundTrip.{group-plain}
use review_agent.Action.Payload.{DiffFile, patch_text, entry, diff_text}

-- The path fits on a header line, and no line of the patch is one.
pub record IsEntry (f : DiffFile) : Type 0 where
  pub path : IsPath f.path
  pub patch : IsPlain (split 10 (patch_text f))

abbrev pub parsed : DiffFile → ParsedDiffFile
parsed f = record { path = f.path; body = patch_text f }

abbrev entry_lines : DiffFile → List Text
entry_lines f = (marker ++ f.path) ∷ split 10 (patch_text f)

map-join-entry_lines : (fs : List DiffFile) → map (join 10) (map entry_lines fs) ≡ map entry fs
map-join-entry_lines [] = refl
map-join-entry_lines (f ∷ fs) =
    ap₂ (λ a b. a ∷ b) (join-cons-split 10 (marker ++ f.path) (patch_text f))
      (map-join-entry_lines fs)

entry_lines_non_empty : (fs : List DiffFile) → All (λ b. b ≢ []) (map entry_lines fs)
entry_lines_non_empty [] = tt
entry_lines_non_empty (f ∷ fs) = (λ e. cc, entry_lines_non_empty fs)

diff_text-lines : (fs : List DiffFile) → diff_text fs ≡ join 10 (flatten (map entry_lines fs))
unfolding diff_text
diff_text-lines fs =
    ap (join 10) (sym (map-join-entry_lines fs))
    ∙ join-map-join 10 (map entry_lines fs) (entry_lines_non_empty fs)

entries-Lacks :
    (fs : List DiffFile) → All IsEntry fs → All (Lacks 10) (flatten (map entry_lines fs))
unfolding flatten
entries-Lacks [] h = tt
entries-Lacks (f ∷ fs) (hf, h) = (
  marker-Lacks f.path (IsPath-Lacks f.path hf.path.on_one_line),
  All-append (Lacks 10) (split 10 (patch_text f)) (flatten (map entry_lines fs))
      (split-Lacks 10 (patch_text f)) (entries-Lacks fs h),
)

abbrev segment : DiffFile → Segment
segment f = record { path = f.path; body_lines = split 10 (patch_text f) }

group-entries :
    (fs : List DiffFile)
    → All IsEntry fs
    → group (flatten (map entry_lines fs)) ≡ record { before = []; segments = map segment fs }
unfolding group flatten
group-entries [] h = refl
group-entries (f ∷ fs) (hf, h) = rw (
  header_path-marker f.path hf.path,
  group-plain (split 10 (patch_text f)) (flatten (map entry_lines fs)) hf.patch,
  group-entries fs h,
  append-nil,
)

map-joined-segment : (fs : List DiffFile) → map joined (map segment fs) ≡ map parsed fs
map-joined-segment [] = refl
map-joined-segment (f ∷ fs) =
    ap₂ (λ b r. record { path = f.path; body = b } ∷ r) (join-split 10 (patch_text f))
      (map-joined-segment fs)

split-entries :
    (f : DiffFile) (fs : List DiffFile)
    → All IsEntry (f ∷ fs)
    → split 10 (join 10 (flatten (map entry_lines (f ∷ fs)))) ≡ flatten (map entry_lines (f ∷ fs))
unfolding flatten
split-entries f fs h =
    split-join 10 (marker ++ f.path) (split 10 (patch_text f) ++ flatten (map entry_lines fs))
      (entries-Lacks (f ∷ fs) h)

-- If every path fits on a header line and no line of a patch looks like a header, then the text
-- that is built from the changed files is parsed as exactly these files, in order, with their
-- patches as bodies (empty where there is no patch), and with no preamble.
pub parse-diff_text :
    (fs : List DiffFile)
    → All IsEntry fs
    → parse_diff_by_file (diff_text fs) ≡ record { preamble = []; files = map parsed fs }
unfolding diff_text parse_diff_by_file join
parse-diff_text [] h = refl
parse-diff_text (f ∷ fs) h =
    parse_diff_by_file-group (diff_text (f ∷ fs))
    ∙ ap (λ t. shown (group (split 10 t))) (diff_text-lines (f ∷ fs))
    ∙ ap (λ ls. shown (group ls)) (split-entries f fs h)
    ∙ ap shown (group-entries (f ∷ fs) h)
    ∙ ap (λ r. record { preamble = []; files = r }) (map-joined-segment (f ∷ fs))

-- the files without a patch
abbrev blank : Text → ℕ
blank [] = 1
blank (c ∷ t) = 0

unfoldable pub blanks : List DiffFile → ℕ
blanks [] = 0
blanks (f ∷ fs) = blank (patch_text f) + blanks fs

length-entry :
    (path patch : Text)
    → length (marker ++ path ++ (10 ∷ patch)) ≡ length (render_file path patch) + blank patch
unfolding render_file
length-entry path [] = omega (arith, length-append path (10 ∷ []))
length-entry path (c ∷ t) = omega arith

length-join-entries :
    (fs : List DiffFile)
    → length (join 10 (map entry fs)) ≡ length (join 10 (map render (map parsed fs))) + blanks fs
unfolding join blanks
length-join-entries [] = omega arith
length-join-entries (f ∷ []) = omega (arith, length-entry f.path (patch_text f))
length-join-entries (f ∷ g ∷ fs) = omega (
  arith,
  length-append (entry f) (10 ∷ join 10 (map entry (g ∷ fs))),
  length-append (render (parsed f)) (10 ∷ join 10 (map render (map parsed (g ∷ fs)))),
  length-entry f.path (patch_text f),
  length-join-entries (g ∷ fs),
)

-- Under the same conditions, parsing the text and writing it again loses one character, a newline,
-- for each changed file without a patch: so it gives the text back only where every file has one.
pub length-diff_text :
    (fs : List DiffFile)
    → All IsEntry fs
    → length (diff_text fs)
      ≡ length (reassemble_diff (parse_diff_by_file (diff_text fs))) + blanks fs
unfolding diff_text reassemble_diff
length-diff_text fs h = rw (parse-diff_text fs h) (length-join-entries fs)
