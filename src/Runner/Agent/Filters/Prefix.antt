-- ===== src/Runner/Agent/Filters/Prefix.antt =====
-- The prefix of a stored fact, read back.
use review_agent.Common.{◌≡◌, ◌≢◌, refl, true, some, [], ◌∷◌, ◌++◌, All, Text, text}
use review_agent.Runner.Agent.Filters.{is_hex, digits_to_bracket, extract_fingerprint, after_prefix}

digits_to_bracket-append :
    (fp rest : Text)
    → All (λ c. is_hex c ≡ true) fp
    → digits_to_bracket (fp ++ (b']' ∷ rest)) ≡ some fp
unfolding digits_to_bracket
digits_to_bracket-append [] rest h = refl
digits_to_bracket-append (c ∷ fp) rest (hc, h) =
    rw hc (rw (digits_to_bracket-append fp rest h) refl)

-- what is written before a fact
abbrev pub prefixed : Text → Text → Text
prefixed fp rest = text "[fp:" ++ (fp ++ (b']' ∷ rest))

-- Lower-case hexadecimal digits, at least one, are read back from the text that they prefix.
pub extract_fingerprint-prefixed :
    (fp rest : Text)
    → All (λ c. is_hex c ≡ true) fp
    → fp ≢ []
    → extract_fingerprint (prefixed fp rest) ≡ some fp
unfolding extract_fingerprint after_prefix
extract_fingerprint-prefixed [] rest h n = absurd (n refl)
extract_fingerprint-prefixed (c ∷ fp) rest h n = rw (digits_to_bracket-append (c ∷ fp) rest h) refl
