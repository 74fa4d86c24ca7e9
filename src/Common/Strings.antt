-- ===== src/Common/Strings.antt =====
-- Texts. A JavaScript string is the list of its UTF-16 code units.
use Prim.Native.Nat.{ℕ, zero, suc, ◌+◌, ◌/◌, ◌%◌, ◌≤◌}
use Prim.Native.Char.{code}
use Prim.Native.String.{String}
use mathlib.Core.Path.{◌≡◌, refl}
use mathlib.Core.Logic.{◌↔◌, ◌≢◌}
use mathlib.Core.Bool.{Bool, true, false, ◌&&◌, ◌||◌}
use mathlib.Core.List.{List, [], ◌∷◌, ◌++◌}
use native.Mathlib.Omega.{arith}
use review_agent.Common.Tests.{◌==◌, ltb, if◌then◌else◌}
use review_agent.Common.Lists.{All, length}

abbrev pub Text : Type 0
Text = List ℕ

-- the code units of a literal of ASCII characters
abbrev pub text : String → Text
text String.[] = []
text (String.◌∷◌ c s) = code c ∷ text s

-- `a === b`
unfoldable pub text_eq : Text → Text → Bool
text_eq [] [] = true
text_eq [] (d ∷ b) = false
text_eq (c ∷ a) [] = false
text_eq (c ∷ a) (d ∷ b) = (c == d) && text_eq a b

pub text_eq_iff : (a b : Text) → (text_eq a b ≡ true) ↔ (a ≡ b)
unfolding text_eq
text_eq_iff [] [] = ground arith
text_eq_iff [] (d ∷ b) = ground arith
text_eq_iff (c ∷ a) [] = ground arith
text_eq_iff (c ∷ a) (d ∷ b) = ground (arith, text_eq_iff a b)

pub text_eq_refl : (a : Text) → text_eq a a ≡ true
text_eq_refl a = (text_eq_iff a a).1 refl

-- `t.startsWith(p)`, with the prefix first
unfoldable pub starts_with : Text → Text → Bool
starts_with [] t = true
starts_with (c ∷ p) [] = false
starts_with (c ∷ p) (d ∷ t) = (c == d) && starts_with p t

-- `new Set(texts).has(t)`, and `texts.includes(t)`
unfoldable pub has : List Text → Text → Bool
has [] t = false
has (s ∷ texts) t = text_eq s t || has texts t

pub split_step : Bool → ℕ → List Text → List Text
split_step true c parts = [] ∷ parts
split_step false c [] = (c ∷ []) ∷ []
split_step false c (p ∷ parts) = (c ∷ p) ∷ parts

-- `t.split(sep)` for one code unit
unfoldable pub split : ℕ → Text → List Text
unfolding split_step
split sep [] = [] ∷ []
split sep (c ∷ t) = split_step (c == sep) c (split sep t)

-- `parts.join(sep)`
unfoldable pub join : ℕ → List Text → Text
join sep [] = []
join sep (p ∷ []) = p
join sep (p ∷ q ∷ parts) = p ++ (sep ∷ join sep (q ∷ parts))

abbrev pub Lacks : ℕ → Text → Type 0
Lacks c t = All (λ d. d ≢ c) t

-- `c.repeat(n)` for one code unit
abbrev pub repeat : ℕ → ℕ → Text
repeat zero c = []
repeat (suc n) c = c ∷ repeat n c

-- `t.includes(part)`
unfoldable pub includes : Text → Text → Bool
unfolding starts_with
includes part [] = starts_with part []
includes part (c ∷ t) = starts_with part (c ∷ t) || includes part t

-- `a === ''`
abbrev pub is_empty : Text → Bool
is_empty [] = true
is_empty (c ∷ t) = false

-- the decimal digits of `n`, before `rest`; `n + 1` rounds are enough
digits_before : ℕ → ℕ → Text → Text
digits_before zero n rest = rest
digits_before (suc fuel) n rest =
    let digit = b'0' + n % 10 in
    let more = digits_before fuel (n / 10) (digit ∷ rest) in if ltb n 10 then digit ∷ rest else more

-- `String(n)` for a number without a sign and below the exponent form
unfoldable pub decimal : ℕ → Text
unfolding digits_before
decimal n = digits_before (suc n) n []

length-digits_before : (fuel n : ℕ) (rest : Text) → length rest ≤ length (digits_before fuel n rest)
unfolding digits_before
length-digits_before zero n rest = omega arith
length-digits_before (suc fuel) n rest =
    ground (arith, length-digits_before fuel (n / 10) ((b'0' + n % 10) ∷ rest))

pub length-decimal : (n : ℕ) → 1 ≤ length (decimal n)
unfolding decimal digits_before
length-decimal n = ground (arith, length-digits_before n (n / 10) ((b'0' + n % 10) ∷ []))

-- digits hold no colon
digits_before-Lacks :
    (fuel n : ℕ) (rest : Text) → Lacks b':' rest → Lacks b':' (digits_before fuel n rest)
unfolding digits_before
digits_before-Lacks zero n rest h = h
digits_before-Lacks (suc fuel) n rest h =
    let digit : Lacks b':' ((b'0' + n % 10) ∷ rest) = (omega arith, h) in
    elim (ltb n 10)
      as (λ b. Lacks b':' (
        if b
        then (b'0' + n % 10) ∷ rest
        else digits_before fuel (n / 10) ((b'0' + n % 10) ∷ rest))) [
          | true ↦ digit
          | false ↦ digits_before-Lacks fuel (n / 10) ((b'0' + n % 10) ∷ rest) digit
        ]

pub decimal-Lacks : (n : ℕ) → Lacks b':' (decimal n)
unfolding decimal
decimal-Lacks n = digits_before-Lacks (suc n) n [] tt
