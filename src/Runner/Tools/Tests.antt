-- ===== src/Runner/Tools/Tests.antt =====
-- A workspace with one file and one link.
use review_agent.Common.{
  ◌≡◌, refl, Bool, some, List, [], ◌∷◌, All, Text, text, text_eq, starts_with, split, join, ok, err,
}
use review_agent.Runner.Tools.{ToolDeps, refused, resolve_safe_path, read_file, truncated}
use review_agent.Runner.Tools.Safe.{IsSegment, IsSafe, read_file-IsSafe}

abbrev workspace : List Text
workspace = text "w" ∷ []

abbrev deps : ToolDeps
deps = record {
  is_symbolic_link = λ p. some (text_eq (join b'/' p) (text "w/l"));
  read_text = λ p. ok (text "content");
}

abbrev deny : List (Text → Bool)
deny = text_eq (text ".env") ∷ []

plain : read_file deps workspace deny (text "a/../b/./c.ts") ≡ ok (text "content")
unfolding read_file truncated starts_with text_eq split join
plain = refl

escapes :
    resolve_safe_path deps workspace deny (text "a/../../x")
    ≡ err (refused (text "read_file") (text "path escapes workspace: 'a/../../x'"))
unfolding resolve_safe_path starts_with text_eq split join
escapes = refl

denied :
    resolve_safe_path deps workspace deny (text "a/../.env")
    ≡ err (refused (text "read_file") (text "path matches deny-list: '.env'"))
unfolding resolve_safe_path starts_with text_eq split join
denied = refl

linked :
    resolve_safe_path deps workspace deny (text "l/x")
    ≡ err (refused (text "read_file") (text "path traverses a symlink: 'l/x'"))
unfolding resolve_safe_path starts_with text_eq split join
linked = refl

workspace-All : All IsSegment workspace
unfolding text_eq
workspace-All = (((λ e. cc e, tt), refl, refl), tt)

read_file-IsSafe_example :
    (absolute : List Text) × (content : Text) × IsSafe deps workspace deny absolute
    × (deps.read_text absolute ≡ ok content)
    × (text "content" ≡ truncated content)
read_file-IsSafe_example =
    read_file-IsSafe deps workspace deny (text "a/../b/./c.ts") workspace-All plain
