-- ===== src/Runner/DiffFilter/RoundTrip.antt =====
-- `parseDiffByFile` and `reassembleDiff` undo one another.
use mathlib.Core.Path.{ap₂}
use mathlib.Core.List.{flatten}
use review_agent.Common.{
  ◌≡◌, refl, ap, ◌∙◌, List, [], ◌∷◌, ◌++◌, map, Text, split, join, split-join, join-split, All,
  Lacks, append-nil, ◌≢◌, split-ne-nil,
}
use review_agent.Runner.DiffFilter.{
  ParsedDiff, ParsedDiffFile, Segment, header_path, joined, parse_diff_by_file, reassemble_diff,
}
use review_agent.Runner.DiffFilter.Headers.{header_path-marker}
use review_agent.Runner.DiffFilter.Group.{group, shown, parse_diff_by_file-group}
use review_agent.Runner.DiffFilter.Lines.{
  IsPlain, IsFile, IsWellFormed, lines_of, file_lines, preamble_block, blocks, join-lines_of,
  reassemble_diff-blocks, blocks-Lacks,
}

-- A well-formed diff is written as its lines.
abbrev written : List Text → List Text
written [] = [] ∷ []
written (l ∷ ls) = l ∷ ls

split-written : (ls : List Text) → All (Lacks 10) ls → split 10 (join 10 ls) ≡ written ls
unfolding split join
split-written [] h = refl
split-written (l ∷ ls) h = split-join 10 l ls h

pub group-plain :
    (ls rest : List Text)
    → IsPlain ls
    → group (ls ++ rest)
      ≡ record { before = ls ++ (group rest).before; segments = (group rest).segments }
unfolding group
group-plain [] rest h = refl
group-plain (l ∷ ls) rest (hl, h) = rw (hl, group-plain ls rest h)

abbrev segment : ParsedDiffFile → Segment
segment f = record { path = f.path; body_lines = lines_of f.body }

lines_of-IsPlain : (t : Text) → IsPlain (split 10 t) → IsPlain (lines_of t)
lines_of-IsPlain [] h = tt
lines_of-IsPlain (c ∷ t) h = h

group-files :
    (files : List ParsedDiffFile)
    → All IsFile files
    → group (flatten (map file_lines files)) ≡ record { before = []; segments = map segment files }
unfolding group flatten
group-files [] h = refl
group-files (f ∷ files) (hf, h) = rw (
  header_path-marker f.path hf.path,
  group-plain (lines_of f.body) (flatten (map file_lines files)) (lines_of-IsPlain f.body hf.body),
  group-files files h,
  append-nil,
)

map-joined-segment : (files : List ParsedDiffFile) → map joined (map segment files) ≡ files
map-joined-segment [] = refl
map-joined-segment (f ∷ files) =
    ap₂ (λ b fs. record { path = f.path; body = b } ∷ fs) (join-lines_of f.body)
      (map-joined-segment files)

written-append : (ls rest : List Text) → ls ≢ [] → written (ls ++ rest) ≡ ls ++ rest
written-append [] rest h = absurd (h refl)
written-append (l ∷ ls) rest h = refl

-- The groups of a well-formed diff's lines show the diff.
shown-blocks :
    (preamble : Text) (files : List ParsedDiffFile)
    → IsPlain (split 10 preamble)
    → All IsFile files
    → shown (group (written (flatten (preamble_block preamble ++ map file_lines files))))
      ≡ record { preamble = preamble; files = files }
unfolding group flatten header_path join
shown-blocks [] [] hp hf = refl
shown-blocks [] (f ∷ files) hp hf =
    ap shown (group-files (f ∷ files) hf)
    ∙ ap (λ fs. record { preamble = []; files = fs }) (map-joined-segment (f ∷ files))
shown-blocks (c ∷ t) files hp hf =
    ap (λ ls. shown (group ls))
      (written-append (split 10 (c ∷ t)) (flatten (map file_lines files)) (split-ne-nil 10 (c ∷ t)))
    ∙ ap shown (group-plain (split 10 (c ∷ t)) (flatten (map file_lines files)) hp)
    ∙ rw (group-files files hf, append-nil, join-split 10 (c ∷ t), map-joined-segment files)

-- A well-formed diff is read back from its text as it was.
pub parse-reassemble :
    (p : ParsedDiff) → IsWellFormed p → parse_diff_by_file (reassemble_diff p) ≡ p
parse-reassemble p h =
    parse_diff_by_file-group (reassemble_diff p)
    ∙ ap (λ t. shown (group (split 10 t))) (reassemble_diff-blocks p)
    ∙ ap (λ ls. shown (group ls))
        (split-written (flatten (blocks p)) (blocks-Lacks p.preamble p.files h.files))
    ∙ shown-blocks p.preamble p.files h.preamble h.files
