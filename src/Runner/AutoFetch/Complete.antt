-- ===== src/Runner/AutoFetch/Complete.antt =====
-- packages/runner/src/auto-fetch.ts: a fetch that does not report a hit of its budget has left
-- nothing out.
use review_agent.Common.{
  ◌≡◌, ◌⊎◌, refl, Bool, true, false, ◌||◌, Option, none, some, List, [], ◌∷◌, ◌++◌, map, map-append,
  All, All-append, Text, text_eq, text_eq_refl, text_eq_iff, has, has-append, Result, All-mono, leb,
  ltb, Bool-cases, inl, inr, arith, length,
}
use mathlib.Core.Path.{subst}
use review_agent.Runner.Tools.{ToolError}
use review_agent.Runner.AutoFetch.Candidates.{
  PosixPath, Candidate, candidates_for, AutoFetchOptions,
}
use review_agent.Runner.AutoFetch.{
  AutoFetchBudget, budget_of, CollectAutoFetchInput, AutoFetchedFile, Compiled, compile,
  first_match, Fetching, Walk, going, stopped, try_read_file, remaining, with_content,
  fetch_candidate, continue, over_candidates, on_match, over_files, finished, start, unless_none,
  collect_auto_fetch_context,
}
use review_agent.Runner.AutoFetch.Budget.{paths_of, tools_of}

-- the candidates of the changed files, by the instruction that applies to each
abbrev pub paths_of_match : PosixPath → (changed : Text) → Option AutoFetchOptions → List Text
paths_of_match lib changed none = []
paths_of_match lib changed (some opts) = map (λ c. c.path) (candidates_for lib changed opts)

abbrev pub wanted : PosixPath → Compiled → List Text → List Text
wanted lib compiled [] = []
wanted lib compiled (changed ∷ paths) =
    paths_of_match lib changed (first_match compiled changed) ++ wanted lib compiled paths

or_true : (a b : Bool) → (a || b) ≡ true → (a ≡ true) ⊎ (b ≡ true)
or_true true b h = inl refl
or_true false b h = inr h

module _ (tools : Text → Result ToolError Text) (budget : AutoFetchBudget) where
  -- the path cannot be read, or its file is fetched
  abbrev pub Done : List AutoFetchedFile → Text → Type 0
  Done files p = (try_read_file tools budget p ≡ none) ⊎ (has (paths_of files) p ≡ true)

  abbrev Settled : Fetching → Type 0
  Settled s = (p : Text) → has s.seen p ≡ true → Done s.files p

  record Covers (s : Fetching) (ps : List Text) (s' : Fetching) : Type 0 where
    settled : Settled s'
    grows : (p : Text) → has s.seen p ≡ true → has s'.seen p ≡ true
    covered : All (λ p. has s'.seen p ≡ true) ps

  abbrev Goes : Fetching → List Text → Walk → Type 0
  Goes s ps (going s') = Covers s ps s'
  Goes s ps (stopped s') = Unit

  Done-more : (files more : List AutoFetchedFile) (p : Text) → Done files p → Done (files ++ more) p
  Done-more files more p (inl unread) = inl unread
  Done-more files more p (inr there) =
      inr (rw (map-append) (rw (has-append (paths_of files) (paths_of more) p) (rw there refl)))

  module _ (changed : Text) (c : Candidate) where
    settles :
        (s : Fetching) (files : List AutoFetchedFile)
        → ((p : Text) → Done s.files p → Done files p)
        → Done files c.path
        → Settled s
        → (p : Text) → has (c.path ∷ s.seen) p ≡ true
        → Done files p
    unfolding has
    settles s files more d h p e = elim (or_true (text_eq c.path p) (has s.seen p) e) [
      | inl same ↦ subst (Done files) ((text_eq_iff c.path p).0 same) d
      | inr old ↦ more p (h p old)
    ]

    grown : (seen : List Text) (p : Text) → has seen p ≡ true → has (c.path ∷ seen) p ≡ true
    unfolding has
    grown seen p h = ground (arith, h)

    self : (seen : List Text) → has (c.path ∷ seen) c.path ≡ true
    unfolding has
    self seen = ground (arith, text_eq_refl c.path)

    with_content-Goes :
        (s : Fetching) (o : Option Text)
        → Settled s
        → try_read_file tools budget c.path ≡ o
        → Goes s (c.path ∷ []) (with_content tools budget changed c s o)
    with_content-Goes s none h read = record {
      settled = settles s s.files (λ p d. d) (inl read) h;
      grows = grown s.seen;
      covered = (self s.seen, tt);
    }
    with_content-Goes s (some content) h read =
        elim (Bool-cases (ltb (remaining tools budget s) (length content))) [
          | inl over ↦ rw over tt
          | inr fits ↦ rw fits (record {
            settled =
                settles s _ (λ p d. Done-more s.files (_ ∷ []) p d)
                  (inr (
                    rw (map-append) (
                      rw (has-append (paths_of s.files) (c.path ∷ []) c.path)
                        (last (has (paths_of s.files) c.path)))))
                  h;
            grows = grown s.seen;
            covered = (self s.seen, tt);
          })
        ]
      where
        last : (b : Bool) → (b || has (c.path ∷ []) c.path) ≡ true
        last true = refl
        last false = self []

    fetch_candidate-Goes :
        (s : Fetching) → Settled s → Goes s (c.path ∷ []) (fetch_candidate tools budget changed c s)
    unfolding fetch_candidate
    fetch_candidate-Goes s h = elim (Bool-cases (has s.seen c.path)) [
      | inl old ↦ rw old (record { settled = h; grows = λ p e. e; covered = (old, tt) })
      | inr new ↦ elim (Bool-cases (leb budget.max_files (length s.files))) [
        | inl full ↦ rw (new, full) tt
        | inr free ↦ elim (Bool-cases (leb budget.max_total_bytes s.total_bytes)) [
          | inl spent ↦ rw (new, free, spent) tt
          | inr left ↦
              rw (new, free, left) (with_content-Goes s (try_read_file tools budget c.path) h refl)
        ]
      ]
    ]

  chain-Covers :
      (s t u : Fetching) (ps qs : List Text) → Covers s ps t → Covers t qs u → Covers s (ps ++ qs) u
  chain-Covers s t u ps qs c d = record {
    settled = d.settled;
    grows = λ p e. d.grows p (c.grows p e);
    covered = All-append _ ps qs (All-mono d.grows ps c.covered) d.covered;
  }

  continue-Goes :
      (s : Fetching) (w : Walk) (next : Fetching → Walk) (ps qs : List Text)
      → Goes s ps w
      → ((t : Fetching) → Settled t → Goes t qs (next t))
      → Goes s (ps ++ qs) (continue tools budget w next)
  continue-Goes s (stopped t) next ps qs g h = tt
  continue-Goes s (going t) next ps qs g h = after (next t) (h t g.settled)
    where
      after : (w : Walk) → Goes t qs w → Goes s (ps ++ qs) w
      after (going u) d = chain-Covers s t u ps qs g d
      after (stopped u) d = tt

  over_candidates-Goes :
      (changed : Text) (cs : List Candidate) (s : Fetching)
      → Settled s
      → Goes s (map (λ c. c.path) cs) (over_candidates tools budget changed cs s)
  unfolding over_candidates
  over_candidates-Goes changed [] s h = record { settled = h; grows = λ p e. e; covered = tt }
  over_candidates-Goes changed (c ∷ cs) s h =
      continue-Goes s (fetch_candidate tools budget changed c s)
        (over_candidates tools budget changed cs) (c.path ∷ []) (map (λ d. d.path) cs)
        (fetch_candidate-Goes changed c s h) (over_candidates-Goes changed cs)

  module _ (lib : PosixPath) (compiled : Compiled) where
    on_match-Goes :
        (changed : Text) (o : Option AutoFetchOptions) (s : Fetching)
        → Settled s
        → Goes s (paths_of_match lib changed o) (on_match tools budget lib compiled changed o s)
    on_match-Goes changed none s h = record { settled = h; grows = λ p e. e; covered = tt }
    on_match-Goes changed (some opts) s h =
        over_candidates-Goes changed (candidates_for lib changed opts) s h

    over_files-Goes :
        (paths : List Text) (s : Fetching)
        → Settled s
        → Goes s (wanted lib compiled paths) (over_files tools budget lib compiled paths s)
    unfolding over_files
    over_files-Goes [] s h = record { settled = h; grows = λ p e. e; covered = tt }
    over_files-Goes (changed ∷ paths) s h =
        continue-Goes s
          (on_match tools budget lib compiled changed (first_match compiled changed) s)
          (over_files tools budget lib compiled paths)
          (paths_of_match lib changed (first_match compiled changed)) (wanted lib compiled paths)
          (on_match-Goes changed (first_match compiled changed) s h) (over_files-Goes paths)

  finished-Done :
      (s : Fetching) (ps : List Text) (w : Walk)
      → Goes s ps w
      → (finished w).hit_budget_limit ≡ false
      → All (Done (finished w).files) ps
  finished-Done s ps (going t) g e = All-mono g.settled ps g.covered
  finished-Done s ps (stopped t) g e = cc

module _ (lib : PosixPath) (input : CollectAutoFetchInput) (workspace : List Text) where
  no_candidates : (paths : List Text) → wanted lib [] paths ≡ []
  unfolding first_match
  no_candidates [] = refl
  no_candidates (changed ∷ paths) = no_candidates paths

  unless_none-Done :
      (compiled : Compiled)
      → (unless_none lib input workspace compiled).hit_budget_limit ≡ false
      → All
          (Done
            (tools_of input workspace)
            (budget_of input.budget)
            (unless_none lib input workspace compiled).files)
          (wanted lib compiled input.changed_paths)
  unfolding has
  unless_none-Done [] e = rw (no_candidates input.changed_paths) tt
  unless_none-Done (c ∷ compiled) e =
      let tools = tools_of input workspace in
      let budget = budget_of input.budget in
      finished-Done tools budget start (wanted lib (c ∷ compiled) input.changed_paths) _
        (over_files-Goes tools budget lib (c ∷ compiled) input.changed_paths start (λ p h. cc)) e

  -- If a fetch in a workspace does not report that it hit its budget, each candidate of each changed
  -- file, by the first instruction that matches the file, is among the files that are fetched, or
  -- cannot be read.
  pub collect_auto_fetch_context-Done :
      input.workspace_dir ≡ some workspace
      → (collect_auto_fetch_context lib input).hit_budget_limit ≡ false
      → All
          (Done
            (tools_of input workspace)
            (budget_of input.budget)
            (collect_auto_fetch_context lib input).files)
          (wanted lib (compile input.path_instructions) input.changed_paths)
  unfolding collect_auto_fetch_context
  collect_auto_fetch_context-Done h e =
      rw h (unless_none-Done (compile input.path_instructions) (rw h at e))
