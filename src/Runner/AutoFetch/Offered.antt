-- ===== src/Runner/AutoFetch/Offered.antt =====
-- packages/runner/src/auto-fetch.ts: what `tryReadFile` offers of a file.
use review_agent.Common.{
  ℕ, zero, suc, ◌≤◌, ◌<◌, ◌≡◌, ◌⊎◌, refl, sym, ap, true, false, Option, none, some, [], ◌∷◌, ◌++◌,
  take, drop, length, Text, text, decimal, Result, ok, err, ltb, Bool-cases, inl, inr, arith,
}
use review_agent.Runner.Tools.{ToolError}
use review_agent.Runner.AutoFetch.{AutoFetchBudget, cut, read_or_skip, try_read_file}

pub take-append-drop : (n : ℕ) (t : Text) → take n t ++ drop n t ≡ t
take-append-drop zero t = refl
take-append-drop (suc n) [] = refl
take-append-drop (suc n) (c ∷ t) = ap (λ r. c ∷ r) (take-append-drop n t)

length-take : (n : ℕ) (t : Text) → n ≤ length t → length (take n t) ≡ n
length-take zero t h = omega arith
length-take (suc n) [] h = absurd (omega arith)
length-take (suc n) (c ∷ t) h = omega (arith, length-take n t (omega arith))

length-drop_over : (n : ℕ) (t : Text) → n < length t → 1 ≤ length (drop n t)
length-drop_over zero t h = omega arith
length-drop_over (suc n) [] h = absurd (omega arith)
length-drop_over (suc n) (c ∷ t) h = length-drop_over n t (omega arith)

ltb→lt : (a b : ℕ) → ltb a b ≡ true → a < b
ltb→lt a b h = ground arith

pub ltb→ge : (a b : ℕ) → ltb a b ≡ false → b ≤ a
ltb→ge a b h = ground arith

module _ (budget : AutoFetchBudget) where
  -- the text that ends a file over the limit for one file
  abbrev pub notice : Text
  notice =
      b'\n' ∷ (text "[...truncated at " ++ (decimal budget.max_bytes_per_file ++ text " chars]"))

  -- what is offered of a file: all of it within the limit for one file, and else as much of its
  -- start as the limit allows, with the notice
  abbrev pub IsOffered : (full offered : Text) → Type 0
  IsOffered full offered =
      ((length full ≤ budget.max_bytes_per_file) × (offered ≡ full))
      ⊎ ((kept : Text) × (more : Text) × (full ≡ kept ++ more)
          × (length kept ≡ budget.max_bytes_per_file)
          × (1 ≤ length more)
          × (offered ≡ kept ++ notice))

module _ (tools : Text → Result ToolError Text) (budget : AutoFetchBudget) where
  abbrev pub Given : (path : Text) → Option Text → Type 0
  Given path none = Unit
  Given path (some offered) = (full : Text) × (tools path ≡ ok full) × IsOffered budget full offered

  cut-IsOffered : (full : Text) → IsOffered budget full (cut tools budget full)
  cut-IsOffered full = elim (Bool-cases (ltb budget.max_bytes_per_file (length full))) [
    | inl over ↦ rw over (
        inr (
          take budget.max_bytes_per_file full,
          drop budget.max_bytes_per_file full,
          sym (take-append-drop budget.max_bytes_per_file full),
          length-take _ full (omega (arith, ltb→lt _ _ over)),
          length-drop_over _ full (ltb→lt _ _ over),
          refl,
        ))
    | inr fits ↦ rw fits (inl (ltb→ge _ _ fits, refl))
  ]

  read_or_skip-Given :
      (path : Text) (r : Result ToolError Text)
      → tools path ≡ r
      → Given path (read_or_skip tools budget r)
  read_or_skip-Given path (ok full) e = (full, e, cut-IsOffered full)
  read_or_skip-Given path (err x) e = tt

  pub try_read_file-Given : (path : Text) → Given path (try_read_file tools budget path)
  unfolding try_read_file
  try_read_file-Given path = read_or_skip-Given path (tools path) refl
