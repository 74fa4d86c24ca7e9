-- ===== src/Common/Sets.antt =====
-- Lists of texts as sets: membership, and lists without repetition.
use mathlib.Core.Path.{◌≡◌, refl}
use mathlib.Core.Bool.{Bool, false, ◌||◌}
use mathlib.Core.List.{List, [], ◌∷◌, ◌++◌, map}
use mathlib.Core.Logic.{inl, inr}
use native.Mathlib.Omega.{arith}
use review_agent.Common.Tests.{Bool-cases}
use review_agent.Common.Lists.{filter}
use review_agent.Common.Strings.{Text, text_eq, has}

pub text_eq_sym : (a b : Text) → text_eq a b ≡ text_eq b a
unfolding text_eq
text_eq_sym [] [] = refl
text_eq_sym [] (d ∷ b) = refl
text_eq_sym (c ∷ a) [] = refl
text_eq_sym (c ∷ a) (d ∷ b) = ground (arith, text_eq_sym a b)

pub has-append : (xs ys : List Text) (t : Text) → has (xs ++ ys) t ≡ (has xs t || has ys t)
unfolding has
has-append [] ys t = refl
has-append (x ∷ xs) ys t = ground (arith, has-append xs ys t)

-- no text twice
abbrev pub Distinct : List Text → Type 0
Distinct [] = Unit
Distinct (x ∷ xs) = (has xs x ≡ false) × Distinct xs

pub Distinct-concat :
    (xs : List Text) (x : Text) → Distinct xs → has xs x ≡ false → Distinct (xs ++ (x ∷ []))
unfolding has
Distinct-concat [] x h e = (refl, tt)
Distinct-concat (y ∷ xs) x (hy, h) e = (
  ground (arith, has-append xs (x ∷ []) y, text_eq_sym x y),
  Distinct-concat xs x h (ground arith),
)

module _ {ℓ} {A : Type ℓ} (f : A → Text) (p : A → Bool) where
  has-map-filter :
      (xs : List A) (t : Text) → has (map f xs) t ≡ false → has (map f (filter p xs)) t ≡ false
  unfolding has
  has-map-filter [] t h = refl
  has-map-filter (x ∷ xs) t h = ground (arith, has-map-filter xs t)

  pub Distinct-map-filter : (xs : List A) → Distinct (map f xs) → Distinct (map f (filter p xs))
  Distinct-map-filter [] h = tt
  Distinct-map-filter (x ∷ xs) (hx, h) = elim (Bool-cases (p x)) [
    | inl e ↦ rw e (has-map-filter xs (f x) hx, Distinct-map-filter xs h)
    | inr e ↦ rw e (Distinct-map-filter xs h)
  ]
