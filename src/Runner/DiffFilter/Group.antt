-- ===== src/Runner/DiffFilter/Group.antt =====
-- The loop of `parseDiffByFile` against a recursive description of its lines: those before the
-- first header, then one segment for each header.
use review_agent.Common.{
  ◌≡◌, refl, ◌∙◌, Option, none, some, List, [], ◌∷◌, ◌++◌, map, Text, split, join, append-nil,
  append_assoc,
}
use review_agent.Runner.DiffFilter.{
  ParsedDiff, Segment, header_path, scan_line, scan, finish, joined, parse_diff_by_file,
}

pub record Groups : Type 0 where
  pub before : List Text
  pub segments : List Segment

abbrev pub add_line : Text → Option Text → Groups → Groups
add_line line none g = record g { before = line ∷ g.before }
add_line line (some p) g = record {
  before = [];
  segments = record { path = p; body_lines = g.before } ∷ g.segments;
}

unfoldable pub group : List Text → Groups
group [] = record { before = []; segments = [] }
group (line ∷ lines) = add_line line (header_path line) (group lines)

abbrev pub shown : Groups → ParsedDiff
shown g = record { preamble = join 10 g.before; files = map joined g.segments }

-- the loop from any state: the lines before the next header go to the open segment
abbrev resumed : List Text → List Segment → Option Segment → Groups → Groups
resumed pre closed none g = record { before = pre ++ g.before; segments = closed ++ g.segments }
resumed pre closed (some f) g = record {
  before = pre;
  segments = closed ++ (record f { body_lines = f.body_lines ++ g.before } ∷ g.segments);
}

-- What `finish-scan` says of the lines after the first.
abbrev Resumes : List Text → Type 0
Resumes lines =
    (pre : List Text) (closed : List Segment) (cur : Option Segment)
    → finish (scan (record { preamble_lines = pre; closed = closed; current = cur }) lines)
      ≡ shown (resumed pre closed cur (group lines))

finish-scan_line :
    (line : Text) (lines : List Text)
    → Resumes lines
    → (o : Option Text) (pre : List Text) (closed : List Segment) (cur : Option Segment)
    → finish (
        scan
          (scan_line line (record { preamble_lines = pre; closed = closed; current = cur }) o)
          lines)
      ≡ shown (resumed pre closed cur (add_line line o (group lines)))
finish-scan_line line lines ih none pre closed none =
    ih (pre ++ (line ∷ [])) closed none ∙ simp append_assoc
finish-scan_line line lines ih none pre closed (some f) =
    ih pre closed (some (record f { body_lines = f.body_lines ++ (line ∷ []) })) ∙ simp append_assoc
finish-scan_line line lines ih (some p) pre closed none =
    ih pre (closed ++ []) (some (record { path = p; body_lines = [] })) ∙ simp append-nil
finish-scan_line line lines ih (some p) pre closed (some f) =
    ih pre (closed ++ (f ∷ [])) (some (record { path = p; body_lines = [] }))
    ∙ simp (append_assoc, append-nil)

finish-scan : (lines : List Text) → Resumes lines
unfolding scan finish group
finish-scan [] pre closed none = simp append-nil
finish-scan [] pre closed (some f) = simp append-nil
finish-scan (line ∷ lines) pre closed cur =
    finish-scan_line line lines (finish-scan lines) (header_path line) pre closed cur

-- The parser's result, by the recursive description.
pub parse_diff_by_file-group : (d : Text) → parse_diff_by_file d ≡ shown (group (split 10 d))
unfolding parse_diff_by_file group
parse_diff_by_file-group [] = refl
parse_diff_by_file-group (c ∷ t) = finish-scan (split 10 (c ∷ t)) [] [] none
