-- ===== src/Config/Org/Tests.antt =====
-- A repository that extends its organization.
use review_agent.Common.{
  ℕ, ◌≡◌, refl, true, false, Option, none, some, List, [], ◌∷◌, Text, text, text_eq, if◌then◌else◌,
  Result, ok, err,
}
use review_agent.Config.Org.{
  Config, Extends, org, no_extends, merge_org_into_repo, Entries, get, default_coordination,
  load_config_with_org_fallback,
}
use review_agent.Config.Org.Unions.{IsMerged, merge_org_into_repo-IsMerged}
use review_agent.Config.Org.Layers.{Comes, load_config_with_org_fallback-Comes}

abbrev config : Extends → Text → List Text → Config ℕ
config extends threshold denied = record {
  extends = extends;
  language = text "en-US";
  profile = text "chill";
  provider = none;
  reviews = record {
    auto_review = record {
      enabled = true;
      drafts = false;
      base_branches = [];
      paths = [];
      trigger_labels = [];
      skip_labels = [];
    };
    path_filters = [];
    path_instructions = [];
    max_files = 50;
    max_diff_lines = 3000;
    ignore_authors = [];
    min_confidence = text "high";
    request_changes_on = threshold;
    max_steps = 20;
    max_conversation_turns = 5;
  };
  cost = record { max_usd_per_pr = 100; hard_stop = true; daily_cap_usd = 5000 };
  privacy = record { redact_patterns = []; deny_paths = denied; allowed_url_prefixes = [] };
  repo = record { submodules = false; lfs = false };
  skills = [];
  incremental_enabled = true;
  coordination = default_coordination;
  workspace_strategy = text "none";
  approval_state = text "off";
  rules = [];
  suppress_after = 3;
}

abbrev of_org : Config ℕ
of_org = config no_extends (text "major") (text "a" ∷ text "b" ∷ [])

abbrev of_repo : Config ℕ
of_repo = config org (text "major") (text "b" ∷ text "c" ∷ [])

abbrev load : Text → Result Text (Config ℕ)
load t = ok (if text_eq t (text "repo") then of_repo else of_org)

denied_by_both :
    (merge_org_into_repo of_org of_repo).privacy.deny_paths ≡ text "a" ∷ text "b" ∷ text "c" ∷ []
unfolding merge_org_into_repo
denied_by_both = refl

-- both ask for changes on a major finding
threshold_is_lost :
    (merge_org_into_repo of_org of_repo).reviews.request_changes_on ≡ text "critical"
unfolding merge_org_into_repo
threshold_is_lost = refl

abbrev get_org : Entries → Result Text (Option Text) × Entries
get_org = get (λ owner now. ok (some (text "org"))) 300 (text "o") 10 11

-- within its time to live an entry is not fetched again
cached :
    (get (λ owner now. err (text "down")) 300 (text "o") 310 312 (get_org []).1).0
    ≡ ok (some (text "org"))
unfolding get
cached = refl

expired :
    (get (λ owner now. err (text "down")) 300 (text "o") 311 312 (get_org []).1).0
    ≡ err (text "down")
unfolding get
expired = refl

merge_org_into_repo-IsMerged_example : IsMerged of_org of_repo (merge_org_into_repo of_org of_repo)
merge_org_into_repo-IsMerged_example = merge_org_into_repo-IsMerged of_org of_repo

load_config_with_org_fallback-Comes_example :
    Comes load of_org get_org
      (text "o")
      (some (text "repo"))
      []
      (load_config_with_org_fallback load of_org get_org (text "o") (some (text "repo")) []).0
load_config_with_org_fallback-Comes_example =
    load_config_with_org_fallback-Comes load of_org get_org (text "o") (some (text "repo")) []
