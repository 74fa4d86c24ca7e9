-- ===== src/Runner/AutoFetch/Budget.antt =====
-- packages/runner/src/auto-fetch.ts: the budget is kept, and what is fetched is what the tools give.
use review_agent.Common.{
  ℕ, ◌+◌, ◌≤◌, ◌<◌, ◌≡◌, refl, sym, true, false, Option, none, some, List, [], ◌∷◌, ◌++◌, map,
  map-append, append-nil, take, drop, length, length-append, length-take-le, All, All-append,
  All-mono, Distinct, Distinct-concat, Text, ok, text_eq, text_eq_refl, text_eq_iff, has, Result,
  leb, ltb, Bool-cases, inl, inr, arith,
}
use review_agent.Runner.Tools.{ToolError, read_file}
use review_agent.Runner.AutoFetch.Candidates.{
  PosixPath, Candidate, candidates_for, AutoFetchOptions,
}
use review_agent.Runner.AutoFetch.Offered.{
  take-append-drop, ltb→ge, IsOffered, Given, try_read_file-Given,
}
use review_agent.Runner.AutoFetch.{
  AutoFetchBudget, budget_of, CollectAutoFetchInput, AutoFetchedFile, Compiled, compile,
  first_match, Fetching, Walk, going, stopped, try_read_file, remaining, pushed, with_content,
  fetch_candidate, continue, over_candidates, on_match, over_files, finished, start, unless_none,
  collect_auto_fetch_context,
}

abbrev pub total_length : List AutoFetchedFile → ℕ
total_length [] = 0
total_length (f ∷ files) = length f.content + total_length files

total_length-append :
    (xs ys : List AutoFetchedFile) → total_length (xs ++ ys) ≡ total_length xs + total_length ys
total_length-append [] ys = omega arith
total_length-append (x ∷ xs) ys = omega (arith, total_length-append xs ys)

-- a list of files whose paths are distinct
abbrev pub paths_of : List AutoFetchedFile → List Text
paths_of = map (λ f. f.path)

has-paths :
    (seen : List Text) (files : List AutoFetchedFile) (p : Text)
    → All (λ f. has seen f.path ≡ true) files
    → has seen p ≡ false
    → has (paths_of files) p ≡ false
unfolding has
has-paths seen [] p h e = refl
has-paths seen (f ∷ files) p (hf, h) e = elim (Bool-cases (text_eq f.path p)) [
  | inl same ↦ let q : has seen p ≡ true = rw (← (text_eq_iff f.path p).0 same) hf in cc
  | inr other ↦ rw other (has-paths seen files p h e)
]

leb→gt : (a b : ℕ) → leb a b ≡ false → b < a
leb→gt a b h = ground arith

module _ (tools : Text → Result ToolError Text) (budget : AutoFetchBudget) where
  -- the content is the start of what is offered of the file that the read tool gives for the path
  abbrev pub Granted : AutoFetchedFile → Type 0
  Granted f =
      (full : Text) × (offered : Text) × (rest : Text) × (tools f.path ≡ ok full)
      × IsOffered budget full offered
      × (offered ≡ f.content ++ rest)

  pub record Within (files : List AutoFetchedFile) (total : ℕ) : Type 0 where
    pub count : length files ≤ budget.max_files
    pub sum : total ≡ total_length files
    pub bound : total ≤ budget.max_total_bytes
    pub distinct : Distinct (paths_of files)
    pub granted : All Granted files

  record Keeps (s : Fetching) : Type 0 where
    within : Within s.files s.total_bytes
    known : All (λ f. has s.seen f.path ≡ true) s.files

  abbrev Kept : Walk → Type 0
  Kept (going s) = Keeps s
  Kept (stopped s) = Within s.files s.total_bytes

  module _ (changed : Text) (c : Candidate) where
    known_more :
        (seen : List Text) (files : List AutoFetchedFile)
        → All (λ f. has seen f.path ≡ true) files
        → All (λ f. has (c.path ∷ seen) f.path ≡ true) files
    unfolding has
    known_more seen files h = All-mono (λ f e. ground (arith, e)) files h

    self_known : (seen : List Text) → has (c.path ∷ seen) c.path ≡ true
    unfolding has
    self_known seen = ground (arith, text_eq_refl c.path)

    pushed-Within :
        (content trimmed rest : Text) (s : Fetching)
        → Keeps s
        → has s.seen c.path ≡ false
        → length s.files < budget.max_files
        → Given tools budget c.path (some content)
        → content ≡ trimmed ++ rest
        → s.total_bytes + length trimmed ≤ budget.max_total_bytes
        → Within
            (pushed tools budget changed trimmed c s).files
            (pushed tools budget changed trimmed c s).total_bytes
    pushed-Within content trimmed rest s k new free (full, read, cut_at) split fits = record {
      count = omega (arith, length-append s.files (_ ∷ []), free);
      sum = omega (arith, total_length-append s.files (_ ∷ []), k.within.sum);
      bound = fits;
      distinct = rw (map-append) (
          Distinct-concat (paths_of s.files) c.path k.within.distinct
            (has-paths s.seen s.files c.path k.known new));
      granted =
          All-append Granted s.files (_ ∷ []) k.within.granted
            ((full, content, rest, read, cut_at, split), tt);
    }

    with_content-Kept :
        (s : Fetching) (o : Option Text)
        → Keeps s
        → has s.seen c.path ≡ false
        → length s.files < budget.max_files
        → Given tools budget c.path o
        → Kept (with_content tools budget changed c s o)
    with_content-Kept s none k new free read = record {
      within = k.within;
      known = known_more s.seen s.files k.known;
    }
    with_content-Kept s (some content) k new free read =
        elim (Bool-cases (ltb (remaining tools budget s) (length content))) [
          | inl over ↦ rw over (
              pushed-Within content (take (remaining tools budget s) content)
                (drop (remaining tools budget s) content) s k new free read
                (sym (take-append-drop (remaining tools budget s) content))
                (omega (arith, length-take-le (remaining tools budget s) content, k.within.bound)))
          | inr fits ↦ rw fits (record {
            within =
                pushed-Within content content [] s k new free read (sym (append-nil content))
                  (omega (arith, ltb→ge _ _ fits, k.within.bound));
            known =
                All-append _ s.files (_ ∷ []) (known_more s.seen s.files k.known)
                  (self_known s.seen, tt);
          })
        ]

    fetch_candidate-Kept :
        (s : Fetching) → Keeps s → Kept (fetch_candidate tools budget changed c s)
    unfolding fetch_candidate
    fetch_candidate-Kept s k = elim (Bool-cases (has s.seen c.path)) [
      | inl old ↦ rw old k
      | inr new ↦ elim (Bool-cases (leb budget.max_files (length s.files))) [
        | inl full ↦ rw (new, full) k.within
        | inr free ↦ elim (Bool-cases (leb budget.max_total_bytes s.total_bytes)) [
          | inl spent ↦ rw (new, free, spent) k.within
          | inr left ↦
              rw (new, free, left)
                (with_content-Kept s (try_read_file tools budget c.path) k new (leb→gt _ _ free)
                  (try_read_file-Given tools budget c.path))
        ]
      ]
    ]

  continue-Kept :
      (w : Walk) (next : Fetching → Walk)
      → Kept w
      → ((s : Fetching) → Keeps s → Kept (next s))
      → Kept (continue tools budget w next)
  continue-Kept (going s) next k h = h s k
  continue-Kept (stopped s) next k h = k

  over_candidates-Kept :
      (changed : Text) (cs : List Candidate) (s : Fetching)
      → Keeps s
      → Kept (over_candidates tools budget changed cs s)
  unfolding over_candidates
  over_candidates-Kept changed [] s k = k
  over_candidates-Kept changed (c ∷ cs) s k =
      continue-Kept (fetch_candidate tools budget changed c s)
        (over_candidates tools budget changed cs) (fetch_candidate-Kept changed c s k)
        (over_candidates-Kept changed cs)

  module _ (lib : PosixPath) (compiled : Compiled) where
    on_match-Kept :
        (changed : Text) (o : Option AutoFetchOptions) (s : Fetching)
        → Keeps s
        → Kept (on_match tools budget lib compiled changed o s)
    on_match-Kept changed none s k = k
    on_match-Kept changed (some opts) s k =
        over_candidates-Kept changed (candidates_for lib changed opts) s k

    over_files-Kept :
        (paths : List Text) (s : Fetching)
        → Keeps s
        → Kept (over_files tools budget lib compiled paths s)
    unfolding over_files
    over_files-Kept [] s k = k
    over_files-Kept (changed ∷ paths) s k =
        continue-Kept (on_match tools budget lib compiled changed (first_match compiled changed) s)
          (over_files tools budget lib compiled paths)
          (on_match-Kept changed (first_match compiled changed) s k) (over_files-Kept paths)

  Within-nil : Within [] 0
  Within-nil = record {
    count = omega arith;
    sum = refl;
    bound = omega arith;
    distinct = tt;
    granted = tt;
  }

  finished-Within : (w : Walk) → Kept w → Within (finished w).files (finished w).total_bytes
  finished-Within (going s) k = k.within
  finished-Within (stopped s) k = k

abbrev pub tools_of : CollectAutoFetchInput → List Text → Text → Result ToolError Text
tools_of input workspace = read_file input.tool_deps workspace input.deny_patterns

module _ (lib : PosixPath) (input : CollectAutoFetchInput) where
  unless_none-Within :
      (workspace : List Text) (compiled : Compiled)
      → Within
          (tools_of input workspace)
          (budget_of input.budget)
          (unless_none lib input workspace compiled).files
          (unless_none lib input workspace compiled).total_bytes
  unless_none-Within workspace [] = Within-nil (tools_of input workspace) (budget_of input.budget)
  unless_none-Within workspace (c ∷ compiled) =
      let tools = tools_of input workspace in
      let budget = budget_of input.budget in
      finished-Within tools budget _ (
        over_files-Kept tools budget lib (c ∷ compiled) input.changed_paths start
          (record { within = Within-nil tools budget; known = tt }))

  -- What is fetched in a workspace keeps within the budget: there are at most as many files as it
  -- allows, the size that is reported is the sum of their lengths and at most the total allowed, no
  -- path is fetched twice, and each content is the start of what the read tool gives for its path,
  -- cut at the limit for one file.
  pub collect_auto_fetch_context-Within :
      (workspace : List Text)
      → input.workspace_dir ≡ some workspace
      → Within
          (tools_of input workspace)
          (budget_of input.budget)
          (collect_auto_fetch_context lib input).files
          (collect_auto_fetch_context lib input).total_bytes
  unfolding collect_auto_fetch_context
  collect_auto_fetch_context-Within workspace h =
      rw h (unless_none-Within workspace (compile input.path_instructions))
