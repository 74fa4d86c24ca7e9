-- ===== src/Runner/Tools/Search.antt =====
-- packages/runner/src/tools.ts: the tools that walk a directory, `glob` and `grep`. What the file
-- system holds below a directory is a finite tree, with the errors that it gives; the compiled
-- patterns are parameters. A path is relative to the root of the walk.
pub mod Listing
mod Tests
use review_agent.Common.{
  ℕ, ◌+◌, Bool, true, false, not, ◌&&◌, Option, none, some, List, [], ◌∷◌, ◌++◌, map, any, filter,
  length, Text, text, text_eq, starts_with, includes, split, is_empty, decimal, Result, ok, err,
  ltb, if◌then◌else◌,
}
use review_agent.Runner.Tools.{ToolError, refused, file_system, ToolDeps, resolve_safe_path}

pub data FsError : Type 0 where
  enoent eacces eperm eisdir : FsError
  other_error : Text → FsError

-- the listing of a directory, or the error of `readdir`; a file with the answer of `readFile`
pub data Entries : Type 0 where
  finished : Entries
  unreadable : FsError → Entries
  file : (name : Text) → Result FsError Text → Entries → Entries
  directory : (name : Text) → Entries → Entries → Entries
  other_entry : (name : Text) → Entries → Entries

abbrev pub child : Text → Text → Text
child [] name = name
child (c ∷ dir) name = (c ∷ dir) ++ (b'/' ∷ name)

module _ (deny : List (Text → Bool)) where
  abbrev pub is_denied : Text → Bool
  is_denied rel = any (λ p. p rel) deny

  -- the loop of `walk`
  unfoldable pub walk : (matches : Text → Bool) → Text → Entries → List Text
  walk matches dir finished = []
  walk matches dir (unreadable e) = []
  walk matches dir (file name r rest) =
      let more = walk matches dir rest in
      if is_denied (child dir name)
      then more
      else if matches (child dir name)
      then child dir name ∷ more
      else more
  walk matches dir (directory name inside rest) =
      let below = walk matches (child dir name) inside in
      let more = walk matches dir rest in if is_denied (child dir name) then more else below ++ more
  walk matches dir (other_entry name rest) = walk matches dir rest

  abbrev pub walk_if : Result Text (Text → Bool) → Entries → Result ToolError (List Text)
  walk_if (err e) tree = err (file_system e)
  walk_if (ok matches) tree = ok (walk matches [] tree)

  -- `compile` is `patternToRegExp`
  unfoldable pub glob :
      (compile : Text → Result Text (Text → Bool))
      → Entries
      → (pattern : Text) → Result ToolError (List Text)
  unfolding includes
  glob compile tree pattern =
      if is_empty pattern
      then err (refused (text "glob") (text "empty pattern"))
      else if includes (text "..") pattern
      then err (refused (text "glob") (text "traversal pattern: '" ++ (pattern ++ text "'")))
      else walk_if (compile pattern) tree

  -- what is found, then the rest of the walk, which may throw
  abbrev pub also : List Text → Result ToolError (List Text) → Result ToolError (List Text)
  also out (ok more) = ok (out ++ more)
  also out (err e) = err e

  abbrev pub then_also :
      Result ToolError (List Text) → Result ToolError (List Text) → Result ToolError (List Text)
  then_also (ok out) more = also out more
  then_also (err e) more = err e

  abbrev pub or_dot : Text → Text
  or_dot [] = text "."
  or_dot (c ∷ t) = c ∷ t

  -- the lines that match, numbered from 1
  unfoldable pub matching_lines : (Text → Bool) → Text → ℕ → List Text → List Text
  matching_lines matches rel n [] = []
  matching_lines matches rel n (line ∷ lines) =
      let more = matching_lines matches rel (n + 1) lines in
      if matches line then (rel ++ (b':' ∷ (decimal n ++ (text ": " ++ line)))) ∷ more else more

  abbrev pub directory_error : Text → FsError → Result ToolError (List Text)
  directory_error dir enoent = ok []
  directory_error dir eacces = ok ((or_dot dir ++ text ":0: [unreadable directory: EACCES]") ∷ [])
  directory_error dir eperm = ok ((or_dot dir ++ text ":0: [unreadable directory: EPERM]") ∷ [])
  directory_error dir eisdir = err (file_system (text "EISDIR"))
  directory_error dir (other_error e) = err (file_system e)

  abbrev pub file_lines : (Text → Bool) → Text → Result FsError Text → Result ToolError (List Text)
  file_lines matches rel (ok t) = ok (matching_lines matches rel 1 (split 10 t))
  file_lines matches rel (err enoent) = ok []
  file_lines matches rel (err eisdir) = ok []
  file_lines matches rel (err eacces) = ok ((rel ++ text ":0: [unreadable file: EACCES]") ∷ [])
  file_lines matches rel (err eperm) = ok ((rel ++ text ":0: [unreadable file: EPERM]") ∷ [])
  file_lines matches rel (err (other_error e)) = err (file_system e)

  unfoldable pub grep_in_dir :
      (matches : Text → Bool) → Text → Entries → Result ToolError (List Text)
  unfolding matching_lines split
  grep_in_dir matches dir finished = ok []
  grep_in_dir matches dir (unreadable e) = directory_error dir e
  grep_in_dir matches dir (file name r rest) =
      let more = grep_in_dir matches dir rest in
      if is_denied (child dir name)
      then more
      else then_also (file_lines matches (child dir name) r) more
  grep_in_dir matches dir (directory name inside rest) =
      let below = grep_in_dir matches (child dir name) inside in
      let more = grep_in_dir matches dir rest in
      if is_denied (child dir name) then more else then_also below more
  grep_in_dir matches dir (other_entry name rest) = grep_in_dir matches dir rest

abbrev pub max_grep_pattern_length : ℕ
max_grep_pattern_length = 200

module _ (deps : ToolDeps) (workspace : List Text) (deny : List (Text → Bool))
    (tree_at : List Text → Entries) where
  abbrev pub grep_at : (Text → Bool) → Result ToolError (List Text) → Result ToolError (List Text)
  grep_at matches (err e) = err e
  grep_at matches (ok target) = grep_in_dir deny matches [] (tree_at target)

  -- an absent and an empty scope mean the workspace
  abbrev pub target_of : Option Text → Result ToolError (List Text)
  target_of none = ok workspace
  target_of (some []) = ok workspace
  target_of (some (c ∷ scope)) = resolve_safe_path deps workspace deny (c ∷ scope)

  abbrev pub grep_if : Option (Text → Bool) → Text → Option Text → Result ToolError (List Text)
  grep_if none pattern scope =
      err (refused (text "grep") (text "invalid regex: '" ++ (pattern ++ text "'")))
  grep_if (some matches) pattern scope = grep_at matches (target_of scope)

  -- `compile` is `new RegExp(pattern)`, absent where it throws
  unfoldable pub grep :
      (compile : Text → Option (Text → Bool))
      → (pattern : Text) → (scope : Option Text) → Result ToolError (List Text)
  unfolding grep_in_dir
  grep compile pattern scope =
      if is_empty pattern
      then err (refused (text "grep") (text "empty pattern"))
      else if ltb max_grep_pattern_length (length pattern)
      then err
          (refused (text "grep") (text "pattern too long (max 200 chars) — defends against ReDoS"))
      else grep_if (compile pattern) pattern scope
