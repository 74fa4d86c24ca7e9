-- ===== src/Config/Presets/Paths.antt =====
-- packages/config/src/preset-loader.ts: what `deepMerge` leaves at each path of keys.
use review_agent.Common.{
  ◌≡◌, refl, ap, sym, ◌∙◌, Option, none, some, List, [], ◌∷◌, Text, text_eq, text_eq_iff,
  Bool-cases, Option-cases, inl, inr, arith, if◌then◌else◌,
}
use mathlib.Core.Path.{subst}
use mathlib.Core.Option.{some-injective}
use review_agent.Config.Presets.{
  Value, string, other, array, object, Items, Fields, end, field, lookup, set, merged, merge_into,
  deep_merge,
}

-- the value at a path of keys
abbrev pub chain : Option Value → (Value → Option Value) → Option Value
chain none f = none
chain (some v) f = f v

abbrev pub get : List Text → Value → Option Value
get [] v = some v
get (k ∷ path) (object fs) = chain (lookup k fs) (get path)
get (k ∷ path) (string t) = none
get (k ∷ path) (other t) = none
get (k ∷ path) (array items) = none

-- no object
abbrev pub IsLeaf : Value → Type 0
IsLeaf (object fs) = ⊥
IsLeaf _ = Unit

-- no key twice in an object, at any depth, as an object has it
mutual
  pub data IsKeyed : Value → Type 0 where
    of_string : (t : Text) → IsKeyed (string t)
    of_other : (t : Text) → IsKeyed (other t)
    of_array : (items : Items) → IsKeyed (array items)
    of_object : (fs : Fields) → IsRecord fs → IsKeyed (object fs)

  pub data IsRecord : Fields → Type 0 where
    of_end : IsRecord end
    of_field :
        (k : Text) (v : Value) (fs : Fields)
        → lookup k fs ≡ none
        → IsKeyed v
        → IsRecord fs
        → IsRecord (field k v fs)

abbrev pub over : Option Value → Option Value → Option Value → Option Value
over target none result = result
over target (some v) result = some (merged target v)

lookup-set :
    (k j : Text) (v : Value) (fs : Fields)
    → lookup k (set j v fs) ≡ (if text_eq j k then some v else lookup k fs)
unfolding lookup set
lookup-set k j v end = refl
lookup-set k j v (field i w fs) =
    ground (arith, lookup-set k j v fs, text_eq_iff i j, text_eq_iff i k, text_eq_iff j k)

lookup-merge_into :
    (k : Text) (t s r : Fields)
    → IsRecord s
    → lookup k (merge_into t s r) ≡ over (lookup k t) (lookup k s) (lookup k r)
unfolding merge_into lookup
lookup-merge_into k t end r h = refl
lookup-merge_into k t (field j v s) r (of_field _ _ _ free _ h) = elim (Bool-cases (text_eq j k)) [
  | inl same ↦
      let e : j ≡ k = (text_eq_iff j k).0 same in
      let absent : lookup k s ≡ none = subst (λ i. lookup i s ≡ none) e free in
      rw (lookup-merge_into k t s (set j (merged (lookup j t) v) r) h) (
        rw absent (
          rw same (
            rw (lookup-set k j (merged (lookup j t) v) r)
              (rw same (ap (λ i. some (merged (lookup i t) v)) e)))))
  | inr differs ↦
      rw (lookup-merge_into k t s (set j (merged (lookup j t) v) r) h)
        (rw differs (rw (lookup-set k j (merged (lookup j t) v) r) (rw differs refl)))
]

pub lookup-deep_merge :
    (k : Text) (t s : Fields)
    → IsRecord s
    → lookup k (deep_merge t s) ≡ over (lookup k t) (lookup k s) (lookup k t)
unfolding deep_merge
lookup-deep_merge k t s h = lookup-merge_into k t s t h

lookup-IsKeyed :
    (k : Text) (fs : Fields) (v : Value) → IsRecord fs → lookup k fs ≡ some v → IsKeyed v
unfolding lookup
lookup-IsKeyed k end v h e = cc
lookup-IsKeyed k (field j w fs) v (of_field _ _ _ _ hw h) e = elim (Bool-cases (text_eq j k)) [
  | inl same ↦ subst IsKeyed (ground arith) hw
  | inr differs ↦ lookup-IsKeyed k fs v h (ground arith)
]

merged-leaf : (o : Option Value) (v : Value) → IsLeaf v → merged o v ≡ v
unfolding merged
merged-leaf o (string t) h = refl
merged-leaf o (other t) h = refl
merged-leaf o (array t) h = refl
merged-leaf o (object fs) h = absurd h

-- A value of the source that is no object stands in the merge, at every path.
pub get-merged :
    (path : List Text) (o : Option Value) (s v : Value)
    → IsKeyed s
    → IsLeaf v
    → get path s ≡ some v
    → get path (merged o s) ≡ some v
unfolding merged
get-merged [] o s v h leaf e =
    let q : s ≡ v = some-injective _ _ e in
    ap some (subst (λ x. merged o x ≡ x) (sym q) (merged-leaf o v leaf) ∙ q)
get-merged (k ∷ path) o (string t) v h leaf e = cc
get-merged (k ∷ path) o (other t) v h leaf e = cc
get-merged (k ∷ path) o (array items) v h leaf e = cc
get-merged (k ∷ path) none (object s) v h leaf e = e
get-merged (k ∷ path) (some (string t)) (object s) v h leaf e = e
get-merged (k ∷ path) (some (other t)) (object s) v h leaf e = e
get-merged (k ∷ path) (some (array items)) (object s) v h leaf e = e
get-merged (k ∷ path) (some (object t)) (object s) v (of_object _ h) leaf e =
    elim (Option-cases (lookup k s)) [
      | inl absent ↦ let q : get (k ∷ path) (object s) ≡ none = rw absent refl in cc
      | inr (w, there) ↦ rw (lookup-merge_into k t s t h) (
          rw there (
            get-merged path (lookup k t) w v (lookup-IsKeyed k s w h there) leaf
              (subst (λ x. chain x (get path) ≡ some v) there e)))
    ]
