-- ===== src/Common/Splitting.antt =====
-- `split` and `join` undo one another.
use Prim.Native.Nat.{ℕ}
use mathlib.Core.Path.{◌≡◌, refl, ap, sym, ◌∙◌}
use mathlib.Core.Logic.{◌≢◌, inl, inr}
use mathlib.Core.List.{List, [], ◌∷◌, ◌++◌, map, flatten, append-nil, append_assoc}
use native.Mathlib.Omega.{arith}
use review_agent.Common.Tests.{◌==◌, ==_iff, Bool-cases}
use review_agent.Common.Lists.{All}
use review_agent.Common.Strings.{Text, split_step, split, join, Lacks}

module _ (sep : ℕ) where
  pub split-ne-nil : (t : Text) → split sep t ≢ []
  unfolding split
  split-ne-nil [] h = cc
  split-ne-nil (c ∷ t) h = ground arith

  join-cons : (c : ℕ) (p : Text) (ps : List Text) → join sep ((c ∷ p) ∷ ps) ≡ c ∷ join sep (p ∷ ps)
  unfolding join
  join-cons c p [] = refl
  join-cons c p (q ∷ ps) = refl

  join-split_step :
      (c : ℕ) (parts : List Text)
      → parts ≢ []
      → join sep (split_step (c == sep) c parts) ≡ c ∷ join sep parts
  unfolding split join
  join-split_step c [] h = absurd (h refl)
  join-split_step c (p ∷ ps) h = elim (Bool-cases (c == sep)) [
    | inl e ↦ rw e (ap (λ d. d ∷ join sep (p ∷ ps)) (sym ((==_iff c sep).0 e)))
    | inr e ↦ rw e (join-cons c p ps)
  ]

  pub join-split : (t : Text) → join sep (split sep t) ≡ t
  unfolding split join
  join-split [] = refl
  join-split (c ∷ t) =
      join-split_step c (split sep t) (split-ne-nil t) ∙ ap (λ r. c ∷ r) (join-split t)

  pub split-Lacks : (t : Text) → All (Lacks sep) (split sep t)
  unfolding split
  split-Lacks [] = (tt, tt)
  split-Lacks (c ∷ t) = ground (arith, split-Lacks t, split-ne-nil t)

  split_one : (p : Text) → Lacks sep p → split sep p ≡ p ∷ []
  unfolding split
  split_one [] h = refl
  split_one (c ∷ p) (hc, h) = ground (arith, split_one p h)

  split-append : (p t : Text) → Lacks sep p → split sep (p ++ (sep ∷ t)) ≡ p ∷ split sep t
  unfolding split
  split-append [] t h = ground arith
  split-append (c ∷ p) t (hc, h) = ground (arith, split-append p t h)

  pub split-join :
      (p : Text) (ps : List Text)
      → All (Lacks sep) (p ∷ ps)
      → split sep (join sep (p ∷ ps)) ≡ p ∷ ps
  unfolding join
  split-join p [] (h, _) = split_one p h
  split-join p (q ∷ ps) (h, hs) =
      rw (split-append p (join sep (q ∷ ps)) h) (ap (λ l. p ∷ l) (split-join q ps hs))

  join-append :
      (x : Text) (xs : List Text) (y : Text) (ys : List Text)
      → join sep ((x ∷ xs) ++ (y ∷ ys)) ≡ join sep (x ∷ xs) ++ (sep ∷ join sep (y ∷ ys))
  unfolding join
  join-append x [] y ys = refl
  join-append x (x' ∷ xs) y ys = simp (join-append x' xs y ys, append_assoc)

  -- Blocks of lines joined one by one, and then with one another.
  pub join-map-join :
      (blocks : List (List Text))
      → All (λ b. b ≢ []) blocks
      → join sep (map (join sep) blocks) ≡ join sep (flatten blocks)
  unfolding join flatten
  join-map-join [] h = refl
  join-map-join (b ∷ []) h = simp append-nil
  join-map-join ([] ∷ c ∷ bs) h = absurd (h.0 refl)
  join-map-join (b ∷ [] ∷ bs) h = absurd (h.1.0 refl)
  join-map-join ((x ∷ xs) ∷ (y ∷ ys) ∷ bs) (hb, h) =
      ap (λ t. join sep (x ∷ xs) ++ (sep ∷ t)) (join-map-join ((y ∷ ys) ∷ bs) h)
      ∙ sym (join-append x xs y (ys ++ flatten bs))

  join-cons_ne :
      (p : Text) (ls : List Text) → ls ≢ [] → join sep (p ∷ ls) ≡ p ++ (sep ∷ join sep ls)
  unfolding join
  join-cons_ne p [] h = absurd (h refl)
  join-cons_ne p (l ∷ ls) h = refl

  pub join-cons-split : (p t : Text) → join sep (p ∷ split sep t) ≡ p ++ (sep ∷ t)
  join-cons-split p t =
      join-cons_ne p (split sep t) (split-ne-nil t) ∙ ap (λ r. p ++ (sep ∷ r)) (join-split t)
