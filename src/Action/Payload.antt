-- ===== src/Action/Payload.antt =====
-- The diff text that packages/action/src/run.ts and packages/cli/src/commands/review.ts build for
-- the agent, against the parser of packages/runner/src/diff-filter.ts.
mod Reads
mod Tests
use review_agent.Common.{ℕ, Option, List, map, ◌∷◌, ◌++◌, Text, text, join, or_default, []}

-- a changed file as the platform adapters report it; a binary or renamed file has no patch
pub record DiffFile : Type 0 where
  pub path : Text
  pub patch : Option Text

abbrev pub patch_text : DiffFile → Text
patch_text f = or_default f.patch []

abbrev pub entry : DiffFile → Text
entry f = text "--- " ++ f.path ++ (10 ∷ patch_text f)

unfoldable pub diff_text : List DiffFile → Text
unfolding join
diff_text files = join 10 (map entry files)
