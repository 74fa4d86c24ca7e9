-- ===== src/Runner/DiffFilter/Tests.antt =====
-- The diff filter on a small diff.
use review_agent.Common.{◌≡◌, refl, true, List, [], ◌∷◌, ◌++◌, Text, text, split, ok, err}
use review_agent.Core.Glob.{syntax_error, glob_to_reg_exp, test}
use review_agent.Runner.DiffFilter.{
  ParsedDiff, ParsedDiffFile, parse_diff_by_file, reassemble_diff, apply_path_filters, header_path,
}
use review_agent.Runner.DiffFilter.Lines.{IsFile, IsWellFormed}
use review_agent.Runner.DiffFilter.RoundTrip.{parse-reassemble}
use review_agent.Runner.DiffFilter.Filtered.{Ends, apply_path_filters-Ends}

abbrev source_file : ParsedDiffFile
source_file = record { path = text "a.ts"; body = text "@@" ++ (10 ∷ text "+x") }

abbrev vendor_file : ParsedDiffFile
vendor_file = record { path = text "v/b"; body = text "-y" }

abbrev two_files : ParsedDiff
two_files = record { preamble = text "diff"; files = source_file ∷ vendor_file ∷ [] }

abbrev one_file : ParsedDiff
one_file = record { preamble = text "diff"; files = source_file ∷ [] }

abbrev vendor_globs : List Text
vendor_globs = text "v/**" ∷ []

source_file-IsFile : IsFile source_file
unfolding header_path split
source_file-IsFile = record {
  path = record { non_empty = λ e. cc; on_one_line = (refl, (refl, (refl, (refl, tt)))) };
  body = (refl, (refl, tt));
}

vendor_file-IsFile : IsFile vendor_file
unfolding header_path split
vendor_file-IsFile = record {
  path = record { non_empty = λ e. cc; on_one_line = (refl, (refl, (refl, tt))) };
  body = (refl, tt);
}

two_files-IsWellFormed : IsWellFormed two_files
unfolding header_path split
two_files-IsWellFormed = record {
  preamble = (refl, tt);
  files = (source_file-IsFile, (vendor_file-IsFile, tt));
}

parse-reassemble_example : parse_diff_by_file (reassemble_diff two_files) ≡ two_files
parse-reassemble_example = parse-reassemble two_files two_files-IsWellFormed

abbrev two_files_text : Text
two_files_text = text "diff\n--- a.ts\n@@\n+x\n--- v/b\n-y"

apply_path_filters-Ends_example :
    Ends two_files_text vendor_globs
      (apply_path_filters (parse_diff_by_file two_files_text) vendor_globs)
apply_path_filters-Ends_example = apply_path_filters-Ends two_files_text vendor_globs

vendor_dropped : apply_path_filters two_files vendor_globs ≡ ok (one_file, true)
unfolding apply_path_filters glob_to_reg_exp test
vendor_dropped = refl

bad_glob : apply_path_filters two_files (text "?" ∷ []) ≡ err syntax_error
unfolding apply_path_filters glob_to_reg_exp test
bad_glob = refl

text_filtered :
    apply_path_filters (parse_diff_by_file (reassemble_diff two_files)) vendor_globs
    ≡ ok (one_file, true)
unfolding apply_path_filters parse_diff_by_file reassemble_diff glob_to_reg_exp test
text_filtered = refl
