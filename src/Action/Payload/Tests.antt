-- ===== src/Action/Payload/Tests.antt =====
-- A file with a patch and one without.
use review_agent.Common.{◌≡◌, refl, none, some, List, [], ◌∷◌, map, text, All, split}
use review_agent.Runner.DiffFilter.{header_path, parse_diff_by_file}
use review_agent.Action.Payload.{DiffFile, diff_text}
use review_agent.Action.Payload.Reads.{IsEntry, parsed, parse-diff_text}

abbrev files : List DiffFile
files =
    record { path = text "a.ts"; patch = some (text "+x") }
    ∷ record { path = text "b.png"; patch = none }
    ∷ []

files-IsEntry : All IsEntry files
unfolding header_path split
files-IsEntry = (
  record {
    path = record { non_empty = λ e. cc; on_one_line = (refl, (refl, (refl, (refl, tt)))) };
    patch = (refl, tt);
  },
  (
    record {
      path = record {
        non_empty = λ e. cc;
        on_one_line = (refl, (refl, (refl, (refl, (refl, tt)))));
      };
      patch = (refl, tt);
    },
    tt,
  ),
)

parse-diff_text_example :
    parse_diff_by_file (diff_text files) ≡ record { preamble = []; files = map parsed files }
parse-diff_text_example = parse-diff_text files files-IsEntry
