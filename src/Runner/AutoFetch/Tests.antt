-- ===== src/Runner/AutoFetch/Tests.antt =====
-- One changed file with a test beside it.
use review_agent.Common.{
  ◌≡◌, refl, true, false, none, some, [], ◌∷◌, All, text, text_eq, starts_with, split, join, ok,
  err, if◌then◌else◌,
}
use review_agent.Runner.Tools.{ToolDeps, truncated}
use review_agent.Runner.AutoFetch.Candidates.{PosixPath, is_test}
use review_agent.Runner.AutoFetch.{
  CollectAutoFetchInput, budget_of, compile, collect_auto_fetch_context,
}
use review_agent.Runner.AutoFetch.Budget.{
  Within, tools_of, paths_of, collect_auto_fetch_context-Within,
}
use review_agent.Runner.AutoFetch.Complete.{Done, wanted, collect_auto_fetch_context-Done}

-- the parts of the one path of the tests
abbrev lib : PosixPath
lib = record {
  dirname = λ t. text "a";
  extname = λ t. text ".ts";
  basename = λ t e. text "b";
  join_segments = join b'/';
}

abbrev tool_deps : ToolDeps
tool_deps = record {
  is_symbolic_link = λ p. none;
  read_text = λ p.
      if text_eq (join b'/' p) (text "w/a/b.test.ts")
      then ok (text "content")
      else err (text "ENOENT");
}

abbrev input : CollectAutoFetchInput
input = record {
  changed_paths = text "a/b.ts" ∷ [];
  path_instructions =
      record {
        pattern = text "a/*";
        auto_fetch = some (record { tests = none; types = none; siblings = none });
      }
      ∷ [];
  workspace_dir = some (text "w" ∷ []);
  budget = record { max_files = none; max_bytes_per_file = none; max_total_bytes = none };
  tool_deps = tool_deps;
  deny_patterns = [];
}

test_is_fetched : paths_of (collect_auto_fetch_context lib input).files ≡ text "a/b.test.ts" ∷ []
unfolding collect_auto_fetch_context starts_with text_eq split join truncated
test_is_fetched = refl

limit_unreached : (collect_auto_fetch_context lib input).hit_budget_limit ≡ false
unfolding collect_auto_fetch_context starts_with text_eq split join truncated
limit_unreached = refl

tests_by_name : is_test (text "a.d/b.spec.ts") ≡ true
unfolding is_test
tests_by_name = refl

directories_are_none : is_test (text "a.test.d/b") ≡ false
unfolding is_test
directories_are_none = refl

collect_auto_fetch_context-Within_example :
    Within
      (tools_of input (text "w" ∷ []))
      (budget_of input.budget)
      (collect_auto_fetch_context lib input).files
      (collect_auto_fetch_context lib input).total_bytes
collect_auto_fetch_context-Within_example =
    collect_auto_fetch_context-Within lib input (text "w" ∷ []) refl

collect_auto_fetch_context-Done_example :
    All
      (Done
        (tools_of input (text "w" ∷ []))
        (budget_of input.budget)
        (collect_auto_fetch_context lib input).files)
      (wanted lib (compile input.path_instructions) input.changed_paths)
collect_auto_fetch_context-Done_example =
    collect_auto_fetch_context-Done lib input (text "w" ∷ []) refl limit_unreached
