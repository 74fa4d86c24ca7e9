-- ===== src/Runner/Tools.antt =====
-- packages/runner/src/tools.ts: what a tool call of the model may read. The paths are those of a
-- system whose separator is `/`; an absolute path is the list of its segments, and the workspace is
-- one. The file system is a parameter: whether a path is a symbolic link (`lstat` may throw, which
-- counts as none), and the content of a file. The deny patterns are a parameter too, the built-in
-- ones first.
pub mod Safe
pub mod Search
mod Tests
use review_agent.Common.{
  ℕ, zero, suc, ◌+◌, Bool, true, false, ◌||◌, ◌&&◌, Option, none, some, or_default, List, [], ◌∷◌,
  ◌++◌, map, any, length, take, Text, text, text_eq, starts_with, has, split, join, is_empty,
  decimal, Result, ok, err, ltb, ◌==◌, if◌then◌else◌,
}

pub data ToolError : Type 0 where
  refused : (tool reason : Text) → ToolError
  file_system : Text → ToolError

pub record ToolDeps : Type 0 where
  pub is_symbolic_link : List Text → Option Bool
  pub read_text : List Text → Result Text Text

-- all segments but the last
abbrev pub init : List Text → List Text
init [] = []
init (x ∷ []) = []
init (x ∷ y ∷ xs) = x ∷ init (y ∷ xs)

abbrev pub enter : List Text → Text → List Text
enter dir s =
    if is_empty s || text_eq s (text ".")
    then dir
    else if text_eq s (text "..")
    then init dir
    else dir ++ (s ∷ [])

-- `path.resolve(dir, t)` for a relative `t`
abbrev pub enter_all : List Text → List Text → List Text
enter_all dir [] = dir
enter_all dir (s ∷ segments) = enter_all (enter dir s) segments

-- `path.relative(from, to)`: up from where they part, and down
unfoldable pub relative : List Text → List Text → List Text
unfolding text_eq
relative [] to = to
relative (f ∷ from) [] = map (λ s. text "..") (f ∷ from)
relative (f ∷ from) (t ∷ to) =
    let rest = relative from to in
    if text_eq f t then rest else map (λ s. text "..") (f ∷ from) ++ (t ∷ to)

abbrev pub max_file_size : ℕ
max_file_size = 1000000

unfoldable pub truncated : Text → Text
truncated content =
    if ltb max_file_size (length content)
    then take max_file_size content
      ++ ((10 ∷ text "[...truncated at ") ++ (decimal max_file_size ++ text " chars]"))
    else content

module _ (deps : ToolDeps) (workspace : List Text) (deny : List (Text → Bool)) where
  abbrev pub is_link : List Text → Bool
  is_link p = or_default (deps.is_symbolic_link p) false

  -- the segments of the relative path, one after another
  refuse_links : (rel : Text) → (cursor : List Text) → List Text → Result ToolError (Unit {0})
  refuse_links rel cursor [] = ok tt
  refuse_links rel cursor (s ∷ segments) =
      let same = refuse_links rel cursor segments in
      let below = refuse_links rel (cursor ++ (s ∷ [])) segments in
      if is_empty s
      then same
      else if is_link (cursor ++ (s ∷ []))
      then err
          (refused (text "read_file") (text "path traverses a symlink: '" ++ (rel ++ text "'")))
      else below

  abbrev pub unless_linked : List Text → Result ToolError (Unit {0}) → Result ToolError (List Text)
  unless_linked absolute (ok u) = ok absolute
  unless_linked absolute (err e) = err e

  inside : (requested : Text) → (absolute : List Text) → Text → Result ToolError (List Text)
  unfolding refuse_links starts_with
  inside requested absolute rel =
      if starts_with (text "..") rel || starts_with (text "/") rel
      then err
          (refused (text "read_file") (text "path escapes workspace: '" ++ (requested ++ text "'")))
      else if any (λ p. p rel) deny
      then err (refused (text "read_file") (text "path matches deny-list: '" ++ (rel ++ text "'")))
      else unless_linked absolute (refuse_links rel workspace (split b'/' rel))

  unfoldable pub resolve_safe_path : Text → Result ToolError (List Text)
  unfolding inside relative split
  resolve_safe_path requested =
      if is_empty requested
      then err (refused (text "read_file") (text "empty path"))
      else if any (λ c. c == 0) requested
      then err (refused (text "read_file") (text "path contains NUL byte"))
      else if starts_with (text "/") requested
      then err (refused (text "read_file") (text "absolute path: '" ++ (requested ++ text "'")))
      else if starts_with (text "~") requested
      then err
          (refused (text "read_file") (text "home-expanded path: '" ++ (requested ++ text "'")))
      else let absolute = enter_all workspace (split b'/' requested) in
        inside requested absolute (join b'/' (relative workspace absolute))

  abbrev pub content_of : Result Text Text → Result ToolError Text
  content_of (ok t) = ok (truncated t)
  content_of (err e) = err (file_system e)

  abbrev pub read_at : Result ToolError (List Text) → Result ToolError Text
  read_at (ok absolute) = content_of (deps.read_text absolute)
  read_at (err e) = err e

  unfoldable pub read_file : (requested : Text) → Result ToolError Text
  unfolding resolve_safe_path
  read_file requested = read_at (resolve_safe_path requested)
