-- ===== src/Runner/DiffFilter/Lines.antt =====
-- `reassembleDiff` writes a diff as the lines of its preamble and of its files.
use mathlib.Core.Path.{ap₂}
use mathlib.Core.List.{flatten}
use review_agent.Common.{
  ◌≡◌, ◌≢◌, refl, sym, ap, ◌∙◌, none, List, [], ◌∷◌, ◌++◌, map, Text, split, join, join-split,
  join-map-join, All, Lacks, split-ne-nil, join-cons-split, split-Lacks, All-append, arith,
}
use review_agent.Runner.DiffFilter.{
  ParsedDiff, ParsedDiffFile, header_path, marker, render, render_file, non_empty, reassemble_diff,
}
use review_agent.Runner.DiffFilter.Headers.{IsPath, IsPath-Lacks}

-- no line opens a file
abbrev pub IsPlain : List Text → Type 0
IsPlain = All (λ line. header_path line ≡ none)

pub record IsFile (f : ParsedDiffFile) : Type 0 where
  pub path : IsPath f.path
  pub body : IsPlain (split 10 f.body)

pub record IsWellFormed (p : ParsedDiff) : Type 0 where
  pub preamble : IsPlain (split 10 p.preamble)
  pub files : All IsFile p.files

-- the lines of a text, none for the empty one
abbrev pub lines_of : Text → List Text
lines_of [] = []
lines_of (c ∷ t) = split 10 (c ∷ t)

abbrev pub file_lines : ParsedDiffFile → List Text
file_lines f = (marker ++ f.path) ∷ lines_of f.body

abbrev pub preamble_block : Text → List (List Text)
preamble_block [] = []
preamble_block (c ∷ t) = split 10 (c ∷ t) ∷ []

abbrev pub blocks : ParsedDiff → List (List Text)
blocks p = preamble_block p.preamble ++ map file_lines p.files

pub join-lines_of : (t : Text) → join 10 (lines_of t) ≡ t
unfolding join
join-lines_of [] = refl
join-lines_of (c ∷ t) = join-split 10 (c ∷ t)

join-file_lines :
    (path body : Text) → join 10 ((marker ++ path) ∷ lines_of body) ≡ render_file path body
unfolding join render_file
join-file_lines path [] = refl
join-file_lines path (c ∷ t) = join-cons-split 10 (marker ++ path) (c ∷ t)

map-join-file_lines :
    (files : List ParsedDiffFile) → map (join 10) (map file_lines files) ≡ map render files
map-join-file_lines [] = refl
map-join-file_lines (f ∷ files) =
    ap₂ (λ a b. a ∷ b) (join-file_lines f.path f.body) (map-join-file_lines files)

join-blocks :
    (preamble : Text) (files : List ParsedDiffFile)
    → map (join 10) (preamble_block preamble ++ map file_lines files)
      ≡ non_empty preamble ++ map render files
join-blocks [] files = map-join-file_lines files
join-blocks (c ∷ t) files = ap₂ (λ a b. a ∷ b) (join-split 10 (c ∷ t)) (map-join-file_lines files)

file_blocks_non_empty : (files : List ParsedDiffFile) → All (λ b. b ≢ []) (map file_lines files)
file_blocks_non_empty [] = tt
file_blocks_non_empty (f ∷ files) = ((λ e. cc), file_blocks_non_empty files)

blocks_non_empty :
    (preamble : Text) (files : List ParsedDiffFile)
    → All (λ b. b ≢ []) (preamble_block preamble ++ map file_lines files)
blocks_non_empty [] files = file_blocks_non_empty files
blocks_non_empty (c ∷ t) files = (split-ne-nil 10 (c ∷ t), file_blocks_non_empty files)

pub reassemble_diff-blocks : (p : ParsedDiff) → reassemble_diff p ≡ join 10 (flatten (blocks p))
unfolding reassemble_diff
reassemble_diff-blocks p =
    ap (join 10) (sym (join-blocks p.preamble p.files))
    ∙ join-map-join 10 (blocks p) (blocks_non_empty p.preamble p.files)

lines_of-Lacks : (t : Text) → All (Lacks 10) (lines_of t)
lines_of-Lacks [] = tt
lines_of-Lacks (c ∷ t) = split-Lacks 10 (c ∷ t)

pub marker-Lacks : (p : Text) → Lacks 10 p → Lacks 10 (marker ++ p)
marker-Lacks p h = (λ e. omega arith, (λ e. omega arith, (λ e. omega arith, (λ e. omega arith, h))))

files-Lacks :
    (files : List ParsedDiffFile)
    → All IsFile files
    → All (Lacks 10) (flatten (map file_lines files))
unfolding flatten
files-Lacks [] h = tt
files-Lacks (f ∷ files) (hf, h) = (
  marker-Lacks f.path (IsPath-Lacks f.path hf.path.on_one_line),
  All-append (Lacks 10) (lines_of f.body) (flatten (map file_lines files)) (lines_of-Lacks f.body)
      (files-Lacks files h),
)

pub blocks-Lacks :
    (preamble : Text) (files : List ParsedDiffFile)
    → All IsFile files
    → All (Lacks 10) (flatten (preamble_block preamble ++ map file_lines files))
unfolding flatten
blocks-Lacks [] files h = files-Lacks files h
blocks-Lacks (c ∷ t) files h =
    All-append (Lacks 10) (split 10 (c ∷ t)) (flatten (map file_lines files))
      (split-Lacks 10 (c ∷ t)) (files-Lacks files h)
