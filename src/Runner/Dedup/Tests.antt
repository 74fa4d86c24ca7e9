-- ===== src/Runner/Dedup/Tests.antt =====
-- Three comments, of which one was rejected and two have the same place.
use review_agent.Common.{ℕ, ◌≡◌, refl, none, some, List, [], ◌∷◌, Text, text, text_eq}
use review_agent.Core.Review.{left, info, ReviewState}
use review_agent.Runner.Types.{ReviewOutputComment, FingerprintInput, with_fingerprint}
use review_agent.Runner.Dedup.{default_suggestion_type, dedup_comments}
use review_agent.Runner.Dedup.Fresh.{IsDeduped, dedup_comments-IsDeduped}

-- the line, for a fingerprint
abbrev by_line : FingerprintInput → Text
by_line i = i.line ∷ []

abbrev at_line : ℕ → ReviewOutputComment
at_line n = record {
  path = text "a.ts";
  line = n;
  side = left;
  body = text "b";
  severity = info;
  category = none;
  confidence = none;
  rule_id = none;
  suggestion = none;
}

abbrev found : List ReviewOutputComment
found = at_line 1 ∷ at_line 2 ∷ at_line 3 ∷ at_line 2 ∷ []

abbrev seen_before : ReviewState
seen_before = record {
  last_reviewed_sha = text "s";
  base_sha = text "t";
  reviewed_at = 0;
  model_used = text "m";
  total_tokens = 0;
  total_cost = 0;
  comment_fingerprints = (3 ∷ []) ∷ [];
}

one_left :
    dedup_comments by_line default_suggestion_type found (some seen_before) ((1 ∷ []) ∷ [])
    ≡ record {
      seen = (2 ∷ []) ∷ (3 ∷ []) ∷ [];
      kept = with_fingerprint (at_line 2) (2 ∷ []) ∷ [];
      dropped_count = 2;
      dropped_by_feedback = 1;
    }
unfolding dedup_comments text_eq
one_left = refl

dedup_comments-IsDeduped_example :
    IsDeduped by_line default_suggestion_type found
      ((3 ∷ []) ∷ [])
      ((1 ∷ []) ∷ [])
      (dedup_comments by_line default_suggestion_type found (some seen_before) ((1 ∷ []) ∷ []))
dedup_comments-IsDeduped_example =
    dedup_comments-IsDeduped by_line default_suggestion_type found (some seen_before)
      ((1 ∷ []) ∷ [])
