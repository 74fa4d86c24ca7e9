-- ===== src/Config/Org/Unions.antt =====
-- packages/config/src/org-config.ts: the lists of a merged configuration.
use review_agent.Common.{
  ◌≡◌, refl, ◌∙◌, true, false, ◌||◌, List, [], ◌∷◌, ◌++◌, Distinct, Text, text_eq_iff, text_eq_refl,
  has, has-append, Bool-cases, inl, inr, arith,
}
use review_agent.Config.Org.{Config, dedup_from, dedup, merge_org_into_repo}

dedup_from-seen :
    (seen vs : List Text) (t : Text) → has seen t ≡ true → has (dedup_from seen vs) t ≡ false
unfolding dedup_from has
dedup_from-seen seen [] t h = refl
dedup_from-seen seen (v ∷ vs) t h =
    ground (arith, dedup_from-seen seen vs t h, dedup_from-seen (v ∷ seen) vs t, text_eq_iff v t)

has-dedup_from :
    (seen vs : List Text) (t : Text) → has seen t ≡ false → has (dedup_from seen vs) t ≡ has vs t
unfolding dedup_from has
has-dedup_from seen [] t h = refl
has-dedup_from seen (v ∷ vs) t h =
    ground (arith, has-dedup_from seen vs t h, has-dedup_from (v ∷ seen) vs t, text_eq_iff v t)

dedup_from-Distinct : (seen vs : List Text) → Distinct (dedup_from seen vs)
unfolding dedup_from
dedup_from-Distinct seen [] = tt
dedup_from-Distinct seen (v ∷ vs) = elim (Bool-cases (has seen v)) [
  | inl old ↦ rw old (dedup_from-Distinct seen vs)
  | inr new ↦ rw new (
    dedup_from-seen (v ∷ seen) vs v (unfold has in ground (arith, text_eq_refl v)),
    dedup_from-Distinct (v ∷ seen) vs,
  )
]

-- the texts of both lists, none twice
abbrev pub IsUnion : (xs ys zs : List Text) → Type 0
IsUnion xs ys zs = ((t : Text) → has zs t ≡ (has xs t || has ys t)) × Distinct zs

dedup-IsUnion : (xs ys : List Text) → IsUnion xs ys (dedup (xs ++ ys))
unfolding dedup
dedup-IsUnion xs ys = (
  λ t. has-dedup_from [] (xs ++ ys) t (unfold has in refl) ∙ has-append xs ys t,
  dedup_from-Distinct [] (xs ++ ys),
)

module _ {Provider : Type 0} (o r : Config Provider) where
  pub record IsMerged (m : Config Provider) : Type 0 where
    pub trigger_labels :
        IsUnion o.reviews.auto_review.trigger_labels r.reviews.auto_review.trigger_labels
          m.reviews.auto_review.trigger_labels
    pub skip_labels :
        IsUnion o.reviews.auto_review.skip_labels r.reviews.auto_review.skip_labels
          m.reviews.auto_review.skip_labels
    pub path_filters : IsUnion o.reviews.path_filters r.reviews.path_filters m.reviews.path_filters
    pub ignore_authors :
        IsUnion o.reviews.ignore_authors r.reviews.ignore_authors m.reviews.ignore_authors
    pub redact_patterns :
        IsUnion o.privacy.redact_patterns r.privacy.redact_patterns m.privacy.redact_patterns
    pub deny_paths : IsUnion o.privacy.deny_paths r.privacy.deny_paths m.privacy.deny_paths
    pub allowed_url_prefixes :
        IsUnion o.privacy.allowed_url_prefixes r.privacy.allowed_url_prefixes
          m.privacy.allowed_url_prefixes

  -- In the merge of two configurations each of the lists that may not hold an entry twice, the
  -- denied paths and the patterns to redact among them, has the entries of both, and none twice.
  pub merge_org_into_repo-IsMerged : IsMerged (merge_org_into_repo o r)
  unfolding merge_org_into_repo
  merge_org_into_repo-IsMerged = record {
    trigger_labels = dedup-IsUnion _ _;
    skip_labels = dedup-IsUnion _ _;
    path_filters = dedup-IsUnion _ _;
    ignore_authors = dedup-IsUnion _ _;
    redact_patterns = dedup-IsUnion _ _;
    deny_paths = dedup-IsUnion _ _;
    allowed_url_prefixes = dedup-IsUnion _ _;
  }
