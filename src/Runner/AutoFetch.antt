-- ===== src/Runner/AutoFetch.antt =====
-- packages/runner/src/auto-fetch.ts: the files that are read ahead of a review. The functions of the
-- path library are a parameter, and the file system is the one of the tools.
pub mod Candidates
pub mod Offered
pub mod Budget
pub mod Complete
mod Tests
use review_agent.Common.{
  ℕ, ◌+◌, ◌-◌, Bool, true, false, Option, none, some, or_default, List, [], ◌∷◌, ◌++◌, take, length,
  Text, text, has, decimal, Result, ok, err, leb, ltb, if◌then◌else◌,
}
use review_agent.Core.Glob.{Node, GlobError, glob_to_reg_exp, test}
use review_agent.Runner.Tools.{ToolDeps, ToolError, read_file}
use review_agent.Runner.AutoFetch.Candidates.{
  PosixPath, AutoFetchOptions, CandidateKind, Candidate, candidates_for,
}

-- the options of an instruction, each of which may be left out
pub record PartialOptions : Type 0 where
  pub tests : Option Bool
  pub types : Option Bool
  pub siblings : Option Bool

pub record PathInstructionWithFetch : Type 0 where
  pub pattern : Text
  pub auto_fetch : Option PartialOptions

pub record AutoFetchBudget : Type 0 where
  pub max_files : ℕ
  pub max_bytes_per_file : ℕ
  pub max_total_bytes : ℕ

pub record PartialBudget : Type 0 where
  pub max_files : Option ℕ
  pub max_bytes_per_file : Option ℕ
  pub max_total_bytes : Option ℕ

-- a workspace that is left out disables the fetch
pub record CollectAutoFetchInput : Type 0 where
  pub changed_paths : List Text
  pub path_instructions : List PathInstructionWithFetch
  pub workspace_dir : Option (List Text)
  pub budget : PartialBudget
  pub tool_deps : ToolDeps
  pub deny_patterns : List (Text → Bool)

pub record AutoFetchedFile : Type 0 where
  pub path : Text
  pub content : Text
  pub kind : CandidateKind
  pub originating_changed_path : Text

pub record AutoFetchResult : Type 0 where
  pub files : List AutoFetchedFile
  pub total_bytes : ℕ
  pub hit_budget_limit : Bool

abbrev pub empty_result : AutoFetchResult
empty_result = record { files = []; total_bytes = 0; hit_budget_limit = false }

abbrev pub with_defaults : PartialOptions → AutoFetchOptions
with_defaults o = record {
  tests = or_default o.tests true;
  types = or_default o.types true;
  siblings = or_default o.siblings false;
}

abbrev pub budget_of : PartialBudget → AutoFetchBudget
budget_of b = record {
  max_files = or_default b.max_files 5;
  max_bytes_per_file = or_default b.max_bytes_per_file 50000;
  max_total_bytes = or_default b.max_total_bytes 250000;
}

abbrev pub Compiled : Type 0
Compiled = List (List Node × AutoFetchOptions)

-- a pattern that does not compile is left out
abbrev pub try_compile : Result GlobError (List Node) → AutoFetchOptions → Compiled → Compiled
try_compile (ok regex) opts rest = (regex, opts) ∷ rest
try_compile (err e) opts rest = rest

abbrev pub with_fetch : Text → Option PartialOptions → Compiled → Compiled
with_fetch pattern none rest = rest
with_fetch pattern (some o) rest = try_compile (glob_to_reg_exp pattern) (with_defaults o) rest

unfoldable pub compile : List PathInstructionWithFetch → Compiled
unfolding glob_to_reg_exp
compile [] = []
compile (p ∷ ps) = with_fetch p.pattern p.auto_fetch (compile ps)

-- the first instruction that matches wins
unfoldable pub first_match : Compiled → (changed : Text) → Option AutoFetchOptions
unfolding test
first_match [] changed = none
first_match ((regex, opts) ∷ compiled) changed =
    let rest = first_match compiled changed in if test regex changed then some opts else rest

pub record Fetching : Type 0 where
  pub seen : List Text
  pub files : List AutoFetchedFile
  pub total_bytes : ℕ

-- `break outer` stops
pub data Walk : Type 0 where
  going stopped : Fetching → Walk

module _ (tools : Text → Result ToolError Text) (budget : AutoFetchBudget) where
  abbrev pub cut : Text → Text
  cut content =
      if ltb budget.max_bytes_per_file (length content)
      then take budget.max_bytes_per_file content
        ++ ((10 ∷ text "[...truncated at ")
            ++ (decimal budget.max_bytes_per_file ++ text " chars]"))
      else content

  abbrev pub read_or_skip : Result ToolError Text → Option Text
  read_or_skip (ok content) = some (cut content)
  read_or_skip (err e) = none

  unfoldable pub try_read_file : Text → Option Text
  try_read_file path = read_or_skip (tools path)

  abbrev pub remaining : Fetching → ℕ
  remaining s = budget.max_total_bytes - s.total_bytes

  -- the state after a file of which `trimmed` is kept
  abbrev pub pushed : (changed trimmed : Text) → Candidate → Fetching → Fetching
  pushed changed trimmed c s = record {
    seen = c.path ∷ s.seen;
    files =
        s.files
        ++ (record {
          path = c.path;
          content = trimmed;
          kind = c.kind;
          originating_changed_path = changed;
        }
            ∷ []);
    total_bytes = s.total_bytes + length trimmed;
  }

  abbrev pub with_content : (changed : Text) → Candidate → Fetching → Option Text → Walk
  with_content changed c s none = going (record s { seen = c.path ∷ s.seen })
  with_content changed c s (some content) =
      if ltb (remaining s) (length content)
      then stopped (pushed changed (take (remaining s) content) c s)
      else going (pushed changed content c s)

  unfoldable pub fetch_candidate : (changed : Text) → Candidate → Fetching → Walk
  unfolding try_read_file has
  fetch_candidate changed c s =
      if has s.seen c.path
      then going s
      else if leb budget.max_files (length s.files)
      then stopped s
      else if leb budget.max_total_bytes s.total_bytes
      then stopped s
      else with_content changed c s (try_read_file c.path)

  abbrev pub continue : Walk → (Fetching → Walk) → Walk
  continue (going s) next = next s
  continue (stopped s) next = stopped s

  unfoldable pub over_candidates : (changed : Text) → List Candidate → Fetching → Walk
  unfolding fetch_candidate
  over_candidates changed [] s = going s
  over_candidates changed (c ∷ cs) s =
      continue (fetch_candidate changed c s) (over_candidates changed cs)

  module _ (lib : PosixPath) (compiled : Compiled) where
    abbrev pub on_match : (changed : Text) → Option AutoFetchOptions → Fetching → Walk
    on_match changed none s = going s
    on_match changed (some opts) s = over_candidates changed (candidates_for lib changed opts) s

    unfoldable pub over_files : List Text → Fetching → Walk
    unfolding over_candidates candidates_for first_match
    over_files [] s = going s
    over_files (changed ∷ paths) s =
        continue (on_match changed (first_match compiled changed) s) (over_files paths)

abbrev pub finished : Walk → AutoFetchResult
finished (going s) = record {
  files = s.files;
  total_bytes = s.total_bytes;
  hit_budget_limit = false;
}
finished (stopped s) = record {
  files = s.files;
  total_bytes = s.total_bytes;
  hit_budget_limit = true;
}

abbrev pub start : Fetching
start = record { seen = []; files = []; total_bytes = 0 }

abbrev pub unless_none :
    PosixPath → CollectAutoFetchInput → (workspace : List Text) → Compiled → AutoFetchResult
unless_none lib input workspace [] = empty_result
unless_none lib input workspace (c ∷ compiled) = finished (
    over_files (read_file input.tool_deps workspace input.deny_patterns) (budget_of input.budget)
      lib (c ∷ compiled) input.changed_paths start)

abbrev pub in_workspace : PosixPath → CollectAutoFetchInput → Option (List Text) → AutoFetchResult
in_workspace lib input none = empty_result
in_workspace lib input (some workspace) =
    unless_none lib input workspace (compile input.path_instructions)

unfoldable pub collect_auto_fetch_context : PosixPath → CollectAutoFetchInput → AutoFetchResult
unfolding compile over_files read_file
collect_auto_fetch_context lib input = in_workspace lib input input.workspace_dir
