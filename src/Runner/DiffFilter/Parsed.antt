-- ===== src/Runner/DiffFilter/Parsed.antt =====
-- What `parseDiffByFile` returns is well formed.
use review_agent.Common.{
  ◌≡◌, refl, Option, none, some, List, [], ◌∷◌, map, Text, split, join, split-join, split-Lacks,
  All, Lacks,
}
use review_agent.Runner.DiffFilter.{Segment, header_path, joined, parse_diff_by_file}
use review_agent.Runner.DiffFilter.Headers.{IsPath, header_path-IsPath}
use review_agent.Runner.DiffFilter.Group.{Groups, group, add_line, shown, parse_diff_by_file-group}
use review_agent.Runner.DiffFilter.Lines.{IsPlain, IsFile, IsWellFormed}

record IsBlock (ls : List Text) : Type 0 where
  plain : IsPlain ls
  lacks : All (Lacks 10) ls

record IsSegment (f : Segment) : Type 0 where
  path : IsPath f.path
  block : IsBlock f.body_lines

record IsGrouped (g : Groups) : Type 0 where
  before : IsBlock g.before
  segments : All IsSegment g.segments

add_line-IsGrouped :
    (line : Text) (g : Groups) (o : Option Text)
    → header_path line ≡ o
    → Lacks 10 line
    → IsGrouped g
    → IsGrouped (add_line line o g)
add_line-IsGrouped line g none e l h = record {
  before = record { plain = (e, h.before.plain); lacks = (l, h.before.lacks) };
  segments = h.segments;
}
add_line-IsGrouped line g (some p) e l h = record {
  before = record { plain = tt; lacks = tt };
  segments = (record { path = header_path-IsPath line e; block = h.before }, h.segments);
}

group-IsGrouped : (ls : List Text) → All (Lacks 10) ls → IsGrouped (group ls)
unfolding group
group-IsGrouped [] h = record { before = record { plain = tt; lacks = tt }; segments = tt }
group-IsGrouped (line ∷ ls) (l, h) =
    add_line-IsGrouped line (group ls) (header_path line) refl l (group-IsGrouped ls h)

split-join-IsPlain : (ls : List Text) → IsBlock ls → IsPlain (split 10 (join 10 ls))
unfolding split join header_path
split-join-IsPlain [] h = (refl, tt)
split-join-IsPlain (l ∷ ls) h = rw (split-join 10 l ls h.lacks) h.plain

joined-IsFile : (fs : List Segment) → All IsSegment fs → All IsFile (map joined fs)
joined-IsFile [] h = tt
joined-IsFile (f ∷ fs) (hf, h) =
    (record { path = hf.path; body = split-join-IsPlain f.body_lines hf.block }, joined-IsFile fs h)

shown-IsWellFormed : (g : Groups) → IsGrouped g → IsWellFormed (shown g)
shown-IsWellFormed g h = record {
  preamble = split-join-IsPlain g.before h.before;
  files = joined-IsFile g.segments h.segments;
}

pub parse-IsWellFormed : (d : Text) → IsWellFormed (parse_diff_by_file d)
parse-IsWellFormed d =
    rw (parse_diff_by_file-group d)
      (shown-IsWellFormed (group (split 10 d)) (group-IsGrouped (split 10 d) (split-Lacks 10 d)))
