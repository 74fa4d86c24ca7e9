-- ===== src/Runner/AutoFetch/Candidates.antt =====
-- packages/runner/src/auto-fetch.ts: the files that are fetched along with a changed one. The
-- functions of the path library are a parameter.
use review_agent.Common.{
  Bool, false, ◌&&◌, ◌||◌, not, List, [], ◌∷◌, ◌++◌, any, drop, Text, text, text_eq, starts_with,
  is_empty, ◌==◌, if◌then◌else◌,
}

pub record PosixPath : Type 0 where
  pub dirname : Text → Text
  pub extname : Text → Text
  pub basename : Text → (ext : Text) → Text
  pub join_segments : List Text → Text

pub record AutoFetchOptions : Type 0 where
  pub tests : Bool
  pub types : Bool
  pub siblings : Bool

pub data CandidateKind : Type 0 where
  test_file type_file sibling : CandidateKind

pub record Candidate : Type 0 where
  pub path : Text
  pub kind : CandidateKind

-- `t.endsWith(s)`
unfoldable pub ends_with : Text → Text → Bool
unfolding text_eq
ends_with s [] = text_eq s []
ends_with s (c ∷ t) = text_eq s (c ∷ t) || ends_with s t

-- `/\.(test|spec)\.[^/]+$/` at the start of a text
abbrev pub is_plain_name : Text → Bool
is_plain_name t = not (is_empty t) && not (any (λ c. c == b'/') t)

abbrev pub is_test_suffix : Text → Bool
is_test_suffix t =
    (starts_with (text ".test.") t || starts_with (text ".spec.") t) && is_plain_name (drop 6 t)

unfoldable pub is_test : Text → Bool
unfolding starts_with
is_test [] = false
is_test (c ∷ t) = is_test_suffix (c ∷ t) || is_test t

-- `/\.(t|j)sx?$/`
unfoldable pub is_script : Text → Bool
unfolding ends_with
is_script ext =
    any (λ s. ends_with s ext) (text ".ts" ∷ text ".tsx" ∷ text ".js" ∷ text ".jsx" ∷ [])

abbrev pub given : Bool → List Candidate → List Candidate
given b cs = if b then cs else []

abbrev candidate : CandidateKind → Text → Candidate
candidate kind path = record { path = path; kind = kind }

unfoldable pub candidates_for : PosixPath → (changed : Text) → AutoFetchOptions → List Candidate
unfolding is_test is_script ends_with
candidates_for lib changed opts =
    let dir = lib.dirname changed in
    let ext = lib.extname changed in
    let base = lib.basename changed ext in
    given (opts.tests && not (is_test changed)) (
      candidate test_file (lib.join_segments (dir ∷ (base ++ (text ".test" ++ ext)) ∷ []))
      ∷ candidate test_file (lib.join_segments (dir ∷ (base ++ (text ".spec" ++ ext)) ∷ []))
      ∷ candidate test_file
          (lib.join_segments (dir ∷ text "__tests__" ∷ (base ++ (text ".test" ++ ext)) ∷ []))
      ∷ [])
    ++ (given (opts.types && not (ends_with (text ".d.ts") changed) && is_script ext)
          (candidate type_file (lib.join_segments (dir ∷ (base ++ text ".d.ts") ∷ [])) ∷ [])
        ++ given opts.siblings
            (candidate sibling (lib.join_segments (dir ∷ (text "index" ++ ext) ∷ [])) ∷ []))
