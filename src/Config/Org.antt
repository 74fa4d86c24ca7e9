-- ===== src/Config/Org.antt =====
-- packages/config/src/org-config.ts, with the sections and the defaults of
-- packages/config/src/schema.ts: the configuration of an organization under the one of a repository.
-- The reading of a text into a validated configuration is a parameter, and so is the fetch of the
-- text; a provider is passed along as it is. Amounts are in a small unit.
pub mod Unions
pub mod Layers
mod Tests
use review_agent.Common.{
  ℕ, ◌+◌, Bool, true, false, not, Option, none, some, List, [], ◌∷◌, ◌++◌, Text, text, text_eq, has,
  Result, ok, err, ltb, filter, if◌then◌else◌,
}

pub record AutoReview : Type 0 where
  pub enabled : Bool
  pub drafts : Bool
  pub base_branches : List Text
  pub paths : List Text
  pub trigger_labels : List Text
  pub skip_labels : List Text

pub record AutoFetch : Type 0 where
  pub tests : Bool
  pub types : Bool
  pub siblings : Bool

pub record PathInstruction : Type 0 where
  pub path : Text
  pub instructions : Text
  pub auto_fetch : Option AutoFetch

pub record Reviews : Type 0 where
  pub auto_review : AutoReview
  pub path_filters : List Text
  pub path_instructions : List PathInstruction
  pub max_files : ℕ
  pub max_diff_lines : ℕ
  pub ignore_authors : List Text
  pub min_confidence : Text
  pub request_changes_on : Text
  pub max_steps : ℕ
  pub max_conversation_turns : ℕ

pub record Cost : Type 0 where
  pub max_usd_per_pr : ℕ
  pub hard_stop : Bool
  pub daily_cap_usd : ℕ

pub record Privacy : Type 0 where
  pub redact_patterns : List Text
  pub deny_paths : List Text
  pub allowed_url_prefixes : List Text

pub record Repo : Type 0 where
  pub submodules : Bool
  pub lfs : Bool

pub record Coordination : Type 0 where
  pub other_bots : Text
  pub other_bots_logins : List Text

pub record RulesetCategory : Type 0 where
  pub enabled : Bool
  pub min_severity : Text

abbrev pub Ruleset : Type 0
Ruleset = List (Text × RulesetCategory)

-- the value of `extends` that is asked for here, and any other
pub data Extends : Type 0 where
  org no_extends other_extends : Extends

pub record Config (Provider : Type 0) : Type 0 where
  pub extends : Extends
  pub language : Text
  pub profile : Text
  pub provider : Option Provider
  pub reviews : Reviews
  pub cost : Cost
  pub privacy : Privacy
  pub repo : Repo
  pub skills : List Text
  pub incremental_enabled : Bool
  pub coordination : Coordination
  pub workspace_strategy : Text
  pub approval_state : Text
  pub rules : Ruleset
  pub suppress_after : ℕ

-- the defaults of what the merge leaves out
abbrev pub default_min_confidence : Text
default_min_confidence = text "low"

abbrev pub default_request_changes_on : Text
default_request_changes_on = text "critical"

abbrev pub default_coordination : Coordination
default_coordination = record { other_bots = text "ignore"; other_bots_logins = [] }

abbrev pub default_workspace_strategy : Text
default_workspace_strategy = text "none"

abbrev pub default_approval_state : Text
default_approval_state = text "off"

-- `[...new Set(values)]`: the first of equal texts stays
dedup_from : (seen values : List Text) → List Text
unfolding has
dedup_from seen [] = []
dedup_from seen (v ∷ values) =
    let old = dedup_from seen values in
    let new = v ∷ dedup_from (v ∷ seen) values in if has seen v then old else new

unfoldable pub dedup : List Text → List Text
unfolding dedup_from
dedup values = dedup_from [] values

abbrev pub has_key : Text → Ruleset → Bool
has_key k [] = false
has_key k ((j, e) ∷ rules) = let rest = has_key k rules in if text_eq j k then true else rest

-- `{ ...org, ...repo }` on the rules of the categories, whose order has no meaning
abbrev pub spread_rules : (org_rules repo_rules : Ruleset) → Ruleset
spread_rules org_rules repo_rules =
    filter (λ r. not (has_key r.0 repo_rules)) org_rules ++ repo_rules

module _ {Provider : Type 0} where
  -- a validated section has every field, so that of two the second is what the spread gives; the
  -- sections that the merged input leaves out get their defaults when it is validated again
  unfoldable pub merge_org_into_repo : (org_config repo_config : Config Provider) → Config Provider
  unfolding dedup text_eq
  merge_org_into_repo o r = record {
    extends = no_extends;
    language = r.language;
    profile = r.profile;
    provider = elim r.provider [ some p ↦ some p | none ↦ o.provider ];
    reviews = record {
      auto_review = record r.reviews.auto_review {
        trigger_labels =
            dedup (o.reviews.auto_review.trigger_labels ++ r.reviews.auto_review.trigger_labels);
        skip_labels =
            dedup (o.reviews.auto_review.skip_labels ++ r.reviews.auto_review.skip_labels);
      };
      path_filters = dedup (o.reviews.path_filters ++ r.reviews.path_filters);
      path_instructions = o.reviews.path_instructions ++ r.reviews.path_instructions;
      max_files = r.reviews.max_files;
      max_diff_lines = r.reviews.max_diff_lines;
      ignore_authors = dedup (o.reviews.ignore_authors ++ r.reviews.ignore_authors);
      min_confidence = default_min_confidence;
      request_changes_on = default_request_changes_on;
      max_steps = r.reviews.max_steps;
      max_conversation_turns = r.reviews.max_conversation_turns;
    };
    cost = r.cost;
    privacy = record {
      redact_patterns = dedup (o.privacy.redact_patterns ++ r.privacy.redact_patterns);
      deny_paths = dedup (o.privacy.deny_paths ++ r.privacy.deny_paths);
      allowed_url_prefixes =
          dedup (o.privacy.allowed_url_prefixes ++ r.privacy.allowed_url_prefixes);
    };
    repo = r.repo;
    skills = o.skills ++ r.skills;
    incremental_enabled = r.incremental_enabled;
    coordination = default_coordination;
    workspace_strategy = default_workspace_strategy;
    approval_state = default_approval_state;
    rules = spread_rules o.rules r.rules;
    suppress_after = r.suppress_after;
  }

pub record CacheEntry : Type 0 where
  pub owner : Text
  pub content : Option Text
  pub expires : ℕ

abbrev pub Entries : Type 0
Entries = List CacheEntry

abbrev pub default_ttl_ms : ℕ
default_ttl_ms = 300000

-- the entry of an owner, the latest that was set
unfoldable pub find_entry : Text → Entries → Option CacheEntry
unfolding text_eq
find_entry owner [] = none
find_entry owner (e ∷ entries) =
    let rest = find_entry owner entries in if text_eq e.owner owner then some e else rest

module _ (fetch : (owner : Text) → (now : ℕ) → Result Text (Option Text)) (ttl : ℕ) where
  abbrev pub fetched :
      Text → (later : ℕ) → Entries → Result Text (Option Text) → Result Text (Option Text) × Entries
  fetched owner later entries (err e) = (err e, entries)
  fetched owner later entries (ok t) =
      (ok t, record { owner = owner; content = t; expires = later + ttl } ∷ entries)

  abbrev pub cached_or :
      Text → (now later : ℕ) → Entries → Option CacheEntry → Result Text (Option Text) × Entries
  cached_or owner now later entries none = fetched owner later entries (fetch owner now)
  cached_or owner now later entries (some c) =
      if ltb now c.expires
      then (ok c.content, entries)
      else fetched owner later entries (fetch owner now)

  -- the cache is read at `now` and set at `later`; a set entry hides an older one
  unfoldable pub get : Text → (now later : ℕ) → Entries → Result Text (Option Text) × Entries
  unfolding find_entry
  get owner now later entries = cached_or owner now later entries (find_entry owner entries)

abbrev pub invalidate : Option Text → Entries → Entries
invalidate none entries = []
invalidate (some owner) entries = filter (λ e. not (text_eq e.owner owner)) entries

pub data Source : Type 0 where
  repo_and_org repo_only org_only defaults : Source

abbrev pub wants_org : Extends → Bool
wants_org org = true
wants_org _ = false

module _ {Provider : Type 0} (load : Text → Result Text (Config Provider))
    (default_config : Config Provider) where
  abbrev pub Loaded : Type 0
  Loaded = Result Text (Config Provider × Source)

  abbrev pub load_optional : Option Text → Result Text (Option (Config Provider))
  load_optional none = ok none
  load_optional (some t) = elim (load t) [ ok c ↦ ok (some c) | err e ↦ err e ]

  abbrev pub not_found : Text → Text
  not_found owner =
      owner
      ++ (text "/.github/review-agent.yml not found, but "
          ++ (owner ++ text "'s repo config requested extends: org"))

  -- the organization is asked only where the repository has no configuration or extends it
  abbrev pub layered : Text → Option (Config Provider) → Option (Config Provider) → Loaded
  layered owner none none = ok (default_config, defaults)
  layered owner none (some o) = ok (o, org_only)
  layered owner (some r) none = err (not_found owner)
  layered owner (some r) (some o) = ok (merge_org_into_repo o r, repo_and_org)

  abbrev pub with_org :
      Text → Option (Config Provider) → Result Text (Option (Config Provider)) → Loaded
  with_org owner repo (err e) = err e
  with_org owner repo (ok o) = layered owner repo o

  abbrev pub org_answered :
      Text → Option (Config Provider) → Result Text (Option Text) × Entries → Loaded × Entries
  org_answered owner repo (ok t, entries) = (with_org owner repo (load_optional t), entries)
  org_answered owner repo (err e, entries) = (err e, entries)

  abbrev pub ask_org :
      (Entries → Result Text (Option Text) × Entries)
      → Text
      → Option (Config Provider)
      → Entries
      → Loaded × Entries
  ask_org get_org owner repo entries = org_answered owner repo (get_org entries)

  abbrev pub with_repo :
      (Entries → Result Text (Option Text) × Entries)
      → Text
      → Result Text (Option (Config Provider))
      → Entries
      → Loaded × Entries
  with_repo get_org owner (err e) entries = (err e, entries)
  with_repo get_org owner (ok none) entries = ask_org get_org owner none entries
  with_repo get_org owner (ok (some r)) entries =
      if wants_org r.extends
      then ask_org get_org owner (some r) entries
      else (ok (r, repo_only), entries)

  unfoldable pub load_config_with_org_fallback :
      (Entries → Result Text (Option Text) × Entries)
      → (owner : Text) → (repo_yaml : Option Text) → Entries
      → Loaded × Entries
  unfolding merge_org_into_repo
  load_config_with_org_fallback get_org owner repo_yaml entries =
      with_repo get_org owner (load_optional repo_yaml) entries
