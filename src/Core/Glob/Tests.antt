-- ===== src/Core/Glob/Tests.antt =====
-- Runs of the compiler and the matcher.
use review_agent.Common.{◌≡◌, refl, true, false, text, err}
use review_agent.Core.Glob.{matches, glob_to_reg_exp, syntax_error}

vendor_tree : matches (text "vendor/**") (text "vendor/a/b.ts") ≡ true
unfolding matches
vendor_tree = refl

zero_segments : matches (text "src/**/foo.ts") (text "src/foo.ts") ≡ true
unfolding matches
zero_segments = refl

many_segments : matches (text "src/**/foo.ts") (text "src/a/b/foo.ts") ≡ true
unfolding matches
many_segments = refl

one_segment : matches (text "src/*.ts") (text "src/a/b.ts") ≡ false
unfolding matches
one_segment = refl

question_is_a_quantifier : matches (text "fo?.ts") (text "f.ts") ≡ true
unfolding matches
question_is_a_quantifier = refl

leading_question : glob_to_reg_exp (text "?.ts") ≡ err syntax_error
unfolding glob_to_reg_exp
leading_question = refl
