-- ===== src/Config/Presets.antt =====
-- packages/config/src/preset-loader.ts: `deepMerge` and the presets that a configuration extends. A
-- parsed document is a tree; a scalar that is no text is written as one. What the parser makes of the
-- text of a bundled preset is a parameter.
pub mod Paths
pub mod Wins
mod Tests
use review_agent.Common.{
  Bool, true, false, ◌||◌, Option, none, some, List, [], ◌∷◌, ◌++◌, Text, text, text_eq, has,
  Result, ok, err, if◌then◌else◌,
}

mutual
  pub data Value : Type 0 where
    string other : Text → Value
    array : Items → Value
    object : Fields → Value

  pub data Items : Type 0 where
    nil : Items
    cons : Value → Items → Items

  pub data Fields : Type 0 where
    end : Fields
    field : (key : Text) → Value → Fields → Fields

unfoldable pub lookup : Text → Fields → Option Value
unfolding text_eq
lookup k end = none
lookup k (field j v fs) = let rest = lookup k fs in if text_eq j k then some v else rest

-- `o[k] = v`: a key that is there keeps its place
unfoldable pub set : Text → Value → Fields → Fields
unfolding text_eq
set k v end = field k v end
set k v (field j w fs) =
    let rest = set k v fs in if text_eq j k then field j v fs else field j w rest

unfoldable mutual
  unfolding lookup set

  -- one value of the source over what the target has under its key
  pub merged : Option Value → Value → Value
  merged (some (object t)) (object s) = object (merge_into t s t)
  merged (some (string x)) (object s) = object s
  merged (some (other x)) (object s) = object s
  merged (some (array x)) (object s) = object s
  merged none (object s) = object s
  merged o (string x) = string x
  merged o (other x) = other x
  merged o (array x) = array x

  -- the keys of the source, set in a result one after another
  pub merge_into : (target source result : Fields) → Fields
  merge_into target end result = result
  merge_into target (field k v source) result =
      merge_into target source (set k (merged (lookup k target) v) result)

unfoldable pub deep_merge : (target source : Fields) → Fields
unfolding merge_into
deep_merge target source = merge_into target source target

pub data ConfigError : Type 0 where
  preset_not_found : Text → ConfigError
  preset_cycle : List Text → ConfigError
  internal : Text → ConfigError

pub data Document : Type 0 where
  invalid no_object : Document
  fields : Fields → Document

abbrev pub bundled_preset_names : List Text
bundled_preset_names = text "recommended" ∷ text "security-focused" ∷ text "strict" ∷ []

abbrev pub document_fields : Text → Document → Result ConfigError Fields
document_fields name invalid =
    err (internal (text "Internal error: bundled preset '" ++ (name ++ text "' failed to parse")))
document_fields name no_object = err (
    internal
      (text "Internal error: bundled preset '" ++ (name ++ text "' did not parse as an object")))
document_fields name (fields fs) = ok fs

-- the first of the texts in an array that was visited
unfoldable pub visited_inner : (visited : List Text) → Items → Option Text
unfolding has
visited_inner visited nil = none
visited_inner visited (cons (string t) items) =
    let rest = visited_inner visited items in if has visited t then some t else rest
visited_inner visited (cons v items) = visited_inner visited items

abbrev pub inner_cycle : (visited : List Text) → Option Value → Option Text
inner_cycle visited (some (array items)) = visited_inner visited items
inner_cycle visited _ = none

module _ (parse_preset : Text → Document) where
  unfoldable pub load_bundled_preset_raw : Text → Result ConfigError Fields
  unfolding has
  load_bundled_preset_raw name =
      if has bundled_preset_names name
      then document_fields name (parse_preset name)
      else err (preset_not_found name)

  abbrev pub unless_cycle :
      (visited : List Text) → Option Text → Result ConfigError Fields → Result ConfigError Fields
  unless_cycle visited none next = next
  unless_cycle visited (some inner) next = err (preset_cycle (visited ++ (inner ∷ [])))

  -- a preset over the base, and then the names that are left
  abbrev pub over_base :
      (visited : List Text) (base : Fields)
      → Result ConfigError Fields
      → (Fields → Result ConfigError Fields)
      → Result ConfigError Fields
  over_base visited base (err e) next = err e
  over_base visited base (ok preset) next =
      unless_cycle visited (inner_cycle visited (lookup (text "extends") preset))
        (next (deep_merge base preset))

  unfoldable pub merge_presets :
      (visited names : List Text) → (base : Fields) → Result ConfigError Fields
  unfolding load_bundled_preset_raw visited_inner deep_merge lookup has text_eq
  merge_presets visited [] base = ok base
  merge_presets visited (name ∷ names) base =
      let next =
        over_base (visited ++ (name ∷ [])) base (load_bundled_preset_raw name)
          (merge_presets (visited ++ (name ∷ [])) names) in
      if text_eq name (text "org")
      then err (preset_not_found (text "org"))
      else if has visited name
      then err (preset_cycle (visited ++ (name ∷ [])))
      else next

  abbrev pub over_presets : (repo : Fields) → Result ConfigError Fields → Result ConfigError Fields
  over_presets repo (err e) = err e
  over_presets repo (ok base) = ok (deep_merge base repo)

  unfoldable pub resolve_extends_presets :
      (extends_value : List Text) → (repo_raw : Fields) → Result ConfigError Fields
  unfolding merge_presets deep_merge
  resolve_extends_presets extends_value repo_raw =
      over_presets repo_raw (merge_presets [] extends_value end)
