-- ===== src/Config/Org/Layers.antt =====
-- packages/config/src/org-config.ts: where the effective configuration comes from, and what a merge
-- drops.
use review_agent.Common.{
  ◌≡◌, refl, true, false, Option, none, some, Text, Result, ok, err, Bool-cases, Result-cases, inl,
  inr,
}
use review_agent.Config.Org.{
  Config, merge_org_into_repo, Entries, Source, repo_and_org, repo_only, org_only, defaults,
  wants_org, load_optional, not_found, layered, with_org, org_answered, with_repo,
  load_config_with_org_fallback, default_min_confidence, default_request_changes_on,
  default_coordination, default_workspace_strategy, default_approval_state,
}

module _ {Provider : Type 0} (load : Text → Result Text (Config Provider))
    (default_config : Config Provider) where
  -- of the sections that the merge leaves out nothing of either configuration is left
  pub record IsReset (c : Config Provider) : Type 0 where
    pub min_confidence : c.reviews.min_confidence ≡ default_min_confidence
    pub request_changes_on : c.reviews.request_changes_on ≡ default_request_changes_on
    pub coordination : c.coordination ≡ default_coordination
    pub workspace_strategy : c.workspace_strategy ≡ default_workspace_strategy
    pub approval_state : c.approval_state ≡ default_approval_state

  -- a text that holds this configuration, or that there is none
  abbrev pub Says : (yaml : Option Text) → Option (Config Provider) → Type 0
  Says yaml none = yaml ≡ none
  Says yaml (some c) = (t : Text) × (yaml ≡ some t) × (load t ≡ ok c)

  -- a text that holds none
  abbrev pub Breaks : (yaml : Option Text) → (e : Text) → Type 0
  Breaks yaml e = (t : Text) × (yaml ≡ some t) × (load t ≡ err e)

  abbrev Reads : Option Text → Result Text (Option (Config Provider)) → Type 0
  Reads yaml (ok o) = Says yaml o
  Reads yaml (err e) = Breaks yaml e

  load_optional-Reads : (yaml : Option Text) → Reads yaml (load_optional load default_config yaml)
  load_optional-Reads none = refl
  load_optional-Reads (some t) = elim (Result-cases (load t)) [
    | inl (c, h) ↦ rw (h, load_optional) (t, refl, h)
    | inr (e, h) ↦ rw (h, load_optional) (t, refl, h)
  ]

  merge-IsReset : (o r : Config Provider) → IsReset (merge_org_into_repo o r)
  unfolding merge_org_into_repo
  merge-IsReset o r = record {
    min_confidence = refl;
    request_changes_on = refl;
    coordination = refl;
    workspace_strategy = refl;
    approval_state = refl;
  }

  module _ (get_org : Entries → Result Text (Option Text) × Entries) (owner : Text)
      (repo_yaml : Option Text) (entries : Entries) where
    -- the organization has a text that holds this configuration, or has none
    abbrev pub OrgSays : Option (Config Provider) → Type 0
    OrgSays o = (yaml : Option Text) × ((get_org entries).0 ≡ ok yaml) × Says yaml o

    -- why the organization is asked: the repository has no configuration, or one that extends it
    abbrev pub IsAsked : Option (Config Provider) → Type 0
    IsAsked none = Says repo_yaml none
    IsAsked (some r) = Says repo_yaml (some r) × (wants_org r.extends ≡ true)

    -- why there is no configuration: a text that holds none, an organization that does not answer,
    -- or one that the repository extends and that has none
    pub data Fails (e : Text) : Type 0 where
      repo_breaks : Breaks repo_yaml e → Fails e
      org_fails : (r : Option (Config Provider)) → IsAsked r → (get_org entries).0 ≡ err e → Fails e
      org_breaks :
          (r : Option (Config Provider)) (yaml : Option Text)
          → IsAsked r
          → (get_org entries).0 ≡ ok yaml
          → Breaks yaml e
          → Fails e
      org_missing :
          (r : Config Provider)
          → IsAsked (some r)
          → OrgSays none
          → e ≡ not_found load default_config owner
          → Fails e

    -- what the source of a configuration says of it
    abbrev pub Comes : Result Text (Config Provider × Source) → Type 0
    Comes (ok (c, repo_and_org)) =
        (r : Config Provider) × (o : Config Provider) × IsAsked (some r)
        × OrgSays (some o)
        × (c ≡ merge_org_into_repo o r)
        × IsReset c
    Comes (ok (c, repo_only)) = Says repo_yaml (some c) × (wants_org c.extends ≡ false)
    Comes (ok (c, org_only)) = Says repo_yaml none × OrgSays (some c)
    Comes (ok (c, defaults)) = Says repo_yaml none × OrgSays none × (c ≡ default_config)
    Comes (err e) = Fails e

    layered-Comes :
        (r o : Option (Config Provider))
        → IsAsked r
        → OrgSays o
        → Comes (layered load default_config owner r o)
    layered-Comes none none a says = (a, says, refl)
    layered-Comes none (some o) a says = (a, says)
    layered-Comes (some r) none a says = org_missing r a says refl
    layered-Comes (some r) (some o) a says = (r, o, a, says, refl, merge-IsReset o r)

    with_org-Comes :
        (r : Option (Config Provider)) (yaml : Option Text)
        (o : Result Text (Option (Config Provider)))
        → IsAsked r
        → (get_org entries).0 ≡ ok yaml
        → Reads yaml o
        → Comes (with_org load default_config owner r o)
    with_org-Comes r yaml (err x) a got reads = org_breaks r yaml a got reads
    with_org-Comes r yaml (ok o) a got reads = layered-Comes r o a (yaml, got, reads)

    org_answered-Comes :
        (r : Option (Config Provider)) (p : Result Text (Option Text) × Entries)
        → IsAsked r
        → (get_org entries).0 ≡ p.0
        → Comes (org_answered load default_config owner r p).0
    org_answered-Comes r (err x, left) a got = org_fails r a got
    org_answered-Comes r (ok yaml, left) a got =
        with_org-Comes r yaml (load_optional load default_config yaml) a got
          (load_optional-Reads yaml)

    with_repo-Comes :
        (r : Result Text (Option (Config Provider)))
        → Reads repo_yaml r
        → Comes (with_repo load default_config get_org owner r entries).0
    with_repo-Comes (err x) reads = repo_breaks reads
    with_repo-Comes (ok none) reads = org_answered-Comes none (get_org entries) reads refl
    with_repo-Comes (ok (some r)) reads = elim (Bool-cases (wants_org r.extends)) [
      | inl asked ↦ rw asked (org_answered-Comes (some r) (get_org entries) (reads, asked) refl)
      | inr alone ↦ rw alone (reads, alone)
    ]

    -- The source that is named with a configuration is where it comes from: the repository alone if
    -- it has a configuration that does not extend the organization; the merge of both if it extends
    -- it, in which the least confidence, the threshold for requesting changes, the coordination with
    -- other reviewers, the workspace and the state of approvals are the defaults, whatever either of
    -- them says; the organization if the repository has none; and the defaults if neither has one.
    -- An error is that of a text that holds no configuration, that of asking the organization, or
    -- that the repository extends an organization that has none.
    pub load_config_with_org_fallback-Comes :
        Comes (load_config_with_org_fallback load default_config get_org owner repo_yaml entries).0
    unfolding load_config_with_org_fallback
    load_config_with_org_fallback-Comes =
        with_repo-Comes (load_optional load default_config repo_yaml)
          (load_optional-Reads repo_yaml)
