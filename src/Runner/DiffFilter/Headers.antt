-- ===== src/Runner/DiffFilter/Headers.antt =====
-- `FILE_HEADER_LINE`: which lines open a file, and with which path.
use review_agent.Common.{
  ◌≡◌, ◌≢◌, refl, ap, false, Option, none, some, [], ◌∷◌, ◌++◌, Text, arith, All, any, any-false,
  All-any, Bool-cases, inl, inr, Lacks,
}
use mathlib.Core.Path.{subst}
use mathlib.Core.Option.{some-injective}
use review_agent.Core.Glob.{is_line_terminator}
use review_agent.Runner.DiffFilter.{strip_cr, after, captured, header_path, marker}

-- the paths that a header can carry
pub record IsPath (p : Text) : Type 0 where
  pub non_empty : p ≢ []
  pub on_one_line : All (λ c. is_line_terminator c ≡ false) p

strip_cr_same : (t : Text) → All (λ c. is_line_terminator c ≡ false) t → strip_cr t ≡ t
unfolding strip_cr
strip_cr_same [] h = refl
strip_cr_same (c ∷ []) h = ground arith
strip_cr_same (c ∷ d ∷ t) (hc, h) = ap (λ r. c ∷ r) (strip_cr_same (d ∷ t) h)

captured-IsPath : {p : Text} (o : Option Text) → captured o ≡ some p → IsPath p
unfolding captured
captured-IsPath none h = cc
captured-IsPath (some []) h = cc
captured-IsPath {p} (some (c ∷ t)) h = elim (Bool-cases (any is_line_terminator (c ∷ t))) [
  | inl e ↦ cc (rw e at h)
  | inr e ↦
      subst IsPath (some-injective (c ∷ t) p (rw e at h))
        (record { non_empty = λ q. cc; on_one_line = any-false is_line_terminator (c ∷ t) e })
]

pub header_path-IsPath : {p : Text} (line : Text) → header_path line ≡ some p → IsPath p
unfolding header_path
header_path-IsPath line h = captured-IsPath (after marker (strip_cr line)) h

-- A line of the marker and such a path is a header with this path.
pub header_path-marker : (p : Text) → IsPath p → header_path (marker ++ p) ≡ some p
unfolding header_path
header_path-marker [] h = absurd (h.non_empty refl)
header_path-marker (c ∷ t) h =
    rw (strip_cr_same (c ∷ t) h.on_one_line, All-any is_line_terminator (c ∷ t) h.on_one_line)

pub IsPath-Lacks : (p : Text) → All (λ c. is_line_terminator c ≡ false) p → Lacks 10 p
IsPath-Lacks [] h = tt
IsPath-Lacks (c ∷ p) (hc, h) = (λ e. ground arith, IsPath-Lacks p h)
