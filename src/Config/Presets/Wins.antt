-- ===== src/Config/Presets/Wins.antt =====
-- packages/config/src/preset-loader.ts: which names are resolved, and what the configuration of the
-- repository keeps.
use review_agent.Common.{
  ◌≡◌, refl, Bool, true, false, Option, none, some, List, [], ◌∷◌, ◌++◌, All, Distinct,
  Distinct-concat, append_assoc, append-nil, Text, text, text_eq, has, Result, ok, err,
  ok-injective, Bool-cases, inl, inr, if◌then◌else◌,
}
use mathlib.Core.Path.{subst}
use review_agent.Config.Presets.{
  Value, object, Fields, end, merged, deep_merge, ConfigError, Document, bundled_preset_names,
  load_bundled_preset_raw, inner_cycle, unless_cycle, over_base, merge_presets, over_presets,
  resolve_extends_presets, lookup,
}
use review_agent.Config.Presets.Paths.{get, IsLeaf, IsRecord, of_object, get-merged}

module _ (parse_preset : Text → Document) where
  load-bundled :
      (name : Text) (fs : Fields)
      → load_bundled_preset_raw parse_preset name ≡ ok fs
      → has bundled_preset_names name ≡ true
  unfolding load_bundled_preset_raw
  load-bundled name fs e = elim (Bool-cases (has bundled_preset_names name)) [
    | inl h ↦ h
    | inr h ↦
        let q : load_bundled_preset_raw parse_preset name
            ≡ err (ConfigError.preset_not_found name) =
          rw h refl in
        cc
  ]

  -- what a success says of the first preset and of the rest
  over_base-ok :
      (visited : List Text) (base config : Fields) (r : Result ConfigError Fields)
      (next : Fields → Result ConfigError Fields)
      → over_base parse_preset visited base r next ≡ ok config
      → (preset : Fields) × (r ≡ ok preset) × (next (deep_merge base preset) ≡ ok config)
  over_base-ok visited base config (err x) next e = cc
  over_base-ok visited base config (ok preset) next e =
      (preset, refl, unless (inner_cycle visited (lookup (text "extends") preset)) e)
    where
      unless :
          (o : Option Text)
          → unless_cycle parse_preset visited o (next (deep_merge base preset)) ≡ ok config
          → next (deep_merge base preset) ≡ ok config
      unless none q = q
      unless (some inner) q = cc

  after_guards :
      (a b : Bool) (x y : ConfigError) {z : Result ConfigError Fields} {config : Fields}
      → (if a then err x else if b then err y else z) ≡ ok config
      → (b ≡ false) × (z ≡ ok config)
  after_guards true b x y e = cc
  after_guards false true x y e = cc
  after_guards false false x y e = (refl, e)

  merge_presets-step :
      (visited names : List Text) (name : Text) (base config : Fields)
      → merge_presets parse_preset visited (name ∷ names) base ≡ ok config
      → (has visited name ≡ false)
        × (over_base parse_preset
              (visited ++ (name ∷ []))
              base
              (load_bundled_preset_raw parse_preset name)
              (merge_presets parse_preset (visited ++ (name ∷ [])) names)
            ≡ ok config)
  unfolding merge_presets
  merge_presets-step visited names name base config e =
      after_guards (text_eq name (text "org")) (has visited name)
        (ConfigError.preset_not_found (text "org"))
        (ConfigError.preset_cycle (visited ++ (name ∷ []))) e

  merge_presets-Distinct :
      (visited names : List Text) (base config : Fields)
      → Distinct visited
      → merge_presets parse_preset visited names base ≡ ok config
      → Distinct (visited ++ names) × All (λ n. has bundled_preset_names n ≡ true) names
  merge_presets-Distinct visited [] base config d e = (rw (append-nil) d, tt)
  merge_presets-Distinct visited (name ∷ names) base config d e =
      let (new, e1) = merge_presets-step visited names name base config e in
      let (preset, loaded, e2) =
        over_base-ok (visited ++ (name ∷ [])) base config
          (load_bundled_preset_raw parse_preset name)
          (merge_presets parse_preset (visited ++ (name ∷ [])) names) e1 in
      let (d', all) =
        merge_presets-Distinct (visited ++ (name ∷ [])) names (deep_merge base preset) config
          (Distinct-concat visited name d new) e2 in
      (
        subst Distinct (append_assoc visited (name ∷ []) names) d',
        (load-bundled name preset loaded, all),
      )

  over_presets-ok :
      (repo config : Fields) (r : Result ConfigError Fields)
      → over_presets parse_preset repo r ≡ ok config
      → (base : Fields) × (r ≡ ok base) × (deep_merge base repo ≡ config)
  over_presets-ok repo config (ok base) e = (base, refl, ok-injective e)
  over_presets-ok repo config (err x) e = cc

  module _ (names : List Text) (repo config : Fields)
      (resolved : resolve_extends_presets parse_preset names repo ≡ ok config) where
    -- If the presets of a configuration are resolved, its names are bundled ones and none is twice.
    pub resolve_extends_presets-Distinct :
        Distinct names × All (λ n. has bundled_preset_names n ≡ true) names
    unfolding resolve_extends_presets
    resolve_extends_presets-Distinct =
        let (base, e, m) =
          over_presets-ok repo config (merge_presets parse_preset [] names end) resolved in
        merge_presets-Distinct [] names end base tt e

    -- If the presets of a configuration are resolved, every value of the repository that is no
    -- object stands in the result at its path, whatever the presets say there.
    pub get-resolve_extends_presets :
        (path : List Text) (v : Value)
        → IsRecord repo
        → IsLeaf v
        → get path (object repo) ≡ some v
        → get path (object config) ≡ some v
    unfolding resolve_extends_presets
    get-resolve_extends_presets path v h leaf e =
        let (base, _, m) =
          over_presets-ok repo config (merge_presets parse_preset [] names end) resolved in
        subst (λ c. get path (object c) ≡ some v) m
          (unfold merged deep_merge in
            get-merged path (some (object base)) (object repo) v (of_object repo h) leaf e)
