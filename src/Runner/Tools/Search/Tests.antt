-- ===== src/Runner/Tools/Search/Tests.antt =====
-- A tree with a denied directory.
use review_agent.Common.{
  ◌≡◌, refl, Bool, true, false, none, some, List, [], ◌∷◌, map, filter, Text, text, text_eq,
  starts_with, includes, split, join, decimal, ok,
}
use review_agent.Runner.Tools.{ToolDeps, resolve_safe_path}
use review_agent.Runner.Tools.Search.{
  Entries, finished, unreadable, file, directory, eacces, walk, glob, grep, grep_in_dir,
  matching_lines,
}
use review_agent.Runner.Tools.Search.Listing.{all_files, is_listed, walk-eq-filter}

abbrev below : Entries
below = file (text "k") (ok (text "key")) finished

abbrev tree : Entries
tree =
    directory (text "s") below
      (file (text "a") (ok (text "no")) (directory (text "d") (unreadable eacces) finished))

abbrev deny : List (Text → Bool)
deny = starts_with (text "s/") ∷ []

abbrev all_match : Text → Bool
all_match t = true

walk-eq-filter_example :
    walk deny all_match [] tree
    ≡ map (λ f. f.path) (filter (is_listed deny all_match) (all_files [] [] tree))
walk-eq-filter_example = walk-eq-filter deny all_match tree

listing : glob deny (λ p. ok all_match) tree (text "**") ≡ ok (text "a" ∷ [])
unfolding glob walk starts_with includes
listing = refl

abbrev deps : ToolDeps
deps = record { is_symbolic_link = λ p. some false; read_text = λ p. ok [] }

abbrev workspace : List Text
workspace = text "w" ∷ []

from_root :
    grep deps workspace deny (λ target. tree) (λ p. some all_match) (text "x") none
    ≡ ok (text "a:1: no" ∷ text "d:0: [unreadable directory: EACCES]" ∷ [])
unfolding grep grep_in_dir starts_with matching_lines split decimal
from_root = refl

-- With a scope, the deny patterns are tried on the paths relative to the scope: the file `s/k`, which
-- the pattern denies from the root, is read.
from_scope :
    grep deps workspace deny (λ target. below) (λ p. some all_match) (text "x") (some (text "s"))
    ≡ ok (text "k:1: key" ∷ [])
unfolding grep grep_in_dir resolve_safe_path starts_with text_eq matching_lines split join decimal
from_scope = refl
