-- ===== src/Runner/Tools/Safe.antt =====
-- What a tool call that is not refused may read.
use mathlib.Core.Path.{subst}
use review_agent.Common.{
  ◌≡◌, ◌≢◌, ◌⊎◌, inl, inr, refl, sym, ap, ◌∙◌, Bool, true, false, ◌||◌, ◌==◌, Bool-cases, List, [],
  ◌∷◌, ◌++◌, map, any, All, All-append, Text, text, text_eq, text_eq_iff, starts_with, Lacks, split,
  split-Lacks, split-join, join, is_empty, Result, ok, err, ok-injective, arith, if◌then◌else◌,
}
use review_agent.Runner.Tools.{
  ToolError, ToolDeps, init, enter, enter_all, relative, truncated, is_link, refuse_links,
  unless_linked, inside, resolve_safe_path, content_of, read_at, read_file,
}

-- a segment of a path that is neither empty nor a step up
abbrev pub IsSegment : Text → Type 0
IsSegment s = Lacks b'/' s × (is_empty s ≡ false) × (text_eq s (text "..") ≡ false)

init-All : (dir : List Text) → All IsSegment dir → All IsSegment (init dir)
init-All [] h = tt
init-All (x ∷ []) h = tt
init-All (x ∷ y ∷ xs) (hx, h) = (hx, init-All (y ∷ xs) h)

enter-All :
    (dir : List Text) (s : Text) → All IsSegment dir → Lacks b'/' s → All IsSegment (enter dir s)
enter-All dir s h l = elim (Bool-cases (is_empty s || text_eq s (text "."))) [
  | inl e ↦ rw e h
  | inr e ↦ rw e (elim (Bool-cases (text_eq s (text ".."))) [
    | inl f ↦ rw f (init-All dir h)
    | inr f ↦ rw f (All-append IsSegment dir (s ∷ []) h ((l, ground arith, f), tt))
  ])
]

enter_all-All :
    (dir segments : List Text)
    → All IsSegment dir
    → All (Lacks b'/') segments
    → All IsSegment (enter_all dir segments)
enter_all-All dir [] h l = h
enter_all-All dir (s ∷ segments) h (ls, l) =
    enter_all-All (enter dir s) segments (enter-All dir s h ls) l

All-Lacks : (xs : List Text) → All IsSegment xs → All (Lacks b'/') xs
All-Lacks [] h = tt
All-Lacks (x ∷ xs) (hx, h) = (hx.0, All-Lacks xs h)

All-right : (xs ys : List Text) → All IsSegment (xs ++ ys) → All IsSegment ys
All-right [] ys h = h
All-right (x ∷ xs) ys (hx, h) = All-right xs ys h

-- the relative path leads down from the start, or begins with a step up
relative-cases :
    (from to : List Text)
    → (to ≡ from ++ relative from to) ⊎ ((rest : List Text) × (relative from to ≡ text ".." ∷ rest))
unfolding relative
relative-cases [] to = inl refl
relative-cases (f ∷ from) [] = inr (map (λ s. text "..") from, refl)
relative-cases (f ∷ from) (t ∷ to) = elim (Bool-cases (text_eq f t)) [
  | inr e ↦ rw e (inr (map (λ s. text "..") from ++ (t ∷ to), refl))
  | inl e ↦ rw e (elim (relative-cases from to) [
    | inl p ↦ inl (ap (λ x. x ∷ to) (sym ((text_eq_iff f t).0 e)) ∙ ap (λ x. f ∷ x) p)
    | inr (rest, p) ↦ inr (rest, p)
  ])
]

join_up : (rest : List Text) → starts_with (text "..") (join b'/' (text ".." ∷ rest)) ≡ true
unfolding starts_with join
join_up [] = refl
join_up (r ∷ rest) = refl

clash : {b : Bool} → b ≡ true → b ≢ false
clash {b} p q = ground arith

relative_down :
    (from to : List Text)
    → starts_with (text "..") (join b'/' (relative from to)) ≡ false
    → to ≡ from ++ relative from to
relative_down from to h = elim (relative-cases from to) [
  | inl p ↦ p
  | inr (rest, p) ↦
      absurd (clash (ap (λ x. starts_with (text "..") (join b'/' x)) p ∙ join_up rest) h)
]

left_false : (a b : Bool) → (a || b) ≡ false → a ≡ false
left_false a b h = ground arith

if-err :
    {A : Type 0} (b : Bool) (e : ToolError) (m : Result ToolError A) {a : A}
    → (if b then err e else m) ≡ ok a
    → (b ≡ false) × (m ≡ ok a)
if-err true e m h = cc
if-err false e m h = (refl, h)

module _ (deps : ToolDeps) (workspace : List Text) (deny : List (Text → Bool)) where
  -- no directory on the way, nor the end of it, is a symbolic link
  abbrev pub NoLinks : List Text → List Text → Type 0
  NoLinks cursor [] = Unit
  NoLinks cursor (s ∷ segments) =
      (is_link deps workspace deny (cursor ++ (s ∷ [])) ≡ false)
      × NoLinks (cursor ++ (s ∷ [])) segments

  pub record IsSafe (absolute : List Text) : Type 0 where
    pub segments : List Text
    pub within : absolute ≡ workspace ++ segments
    pub proper : All IsSegment segments
    pub undenied : any (λ p. p (join b'/' segments)) deny ≡ false
    pub unlinked : NoLinks workspace segments

  refuse_links-NoLinks :
      (rel : Text) (cursor segments : List Text) {u : Unit {0}}
      → All IsSegment segments
      → refuse_links deps workspace deny rel cursor segments ≡ ok u
      → NoLinks cursor segments
  unfolding refuse_links
  refuse_links-NoLinks rel cursor [] h e = tt
  refuse_links-NoLinks rel cursor (s ∷ segments) (hs, h) e =
      let e' = rw (hs.1) at e in
      let (p, q) = if-err (is_link deps workspace deny (cursor ++ (s ∷ []))) _ _ e' in
      (p, refuse_links-NoLinks rel (cursor ++ (s ∷ [])) segments h q)

  unless_linked-ok :
      (absolute : List Text) (r : Result ToolError (Unit {0})) {a : List Text}
      → unless_linked deps workspace deny absolute r ≡ ok a
      → (r ≡ ok tt) × (absolute ≡ a)
  unless_linked-ok absolute (ok u) h = (refl, ok-injective h)
  unless_linked-ok absolute (err e) h = cc

  split-NoLinks :
      (rel : Text) (segments : List Text)
      → All IsSegment segments
      → refuse_links deps workspace deny rel workspace (split b'/' (join b'/' segments)) ≡ ok tt
      → NoLinks workspace segments
  split-NoLinks rel [] h e = tt
  split-NoLinks rel (s ∷ segments) h e = refuse_links-NoLinks rel workspace (s ∷ segments) h (
      subst (λ x. refuse_links deps workspace deny rel workspace x ≡ ok tt)
        (split-join b'/' s segments (All-Lacks (s ∷ segments) h)) e)

  inside-IsSafe :
      (requested : Text) (absolute : List Text) {a : List Text}
      → All IsSegment absolute
      → inside deps workspace deny requested absolute (join b'/' (relative workspace absolute))
        ≡ ok a
      → IsSafe a
  unfolding inside
  inside-IsSafe requested absolute h e =
      let segments = relative workspace absolute in
      let rel = join b'/' segments in
      let (p, e1) = if-err (starts_with (text "..") rel || starts_with (text "/") rel) _ _ e in
      let (q, e2) = if-err (any (λ p. p rel) deny) _ _ e1 in
      let (r, u) = unless_linked-ok absolute _ e2 in
      let down = relative_down workspace absolute (left_false _ _ p) in
      let proper = All-right workspace segments (subst (λ x. All IsSegment x) down h) in
      record {
        segments = segments;
        within = sym u ∙ down;
        proper = proper;
        undenied = q;
        unlinked = split-NoLinks rel segments proper r;
      }

  -- A path that a tool call resolves lies in the workspace, its relative path matches no deny
  -- pattern and has no step up, and nothing on the way to it is a symbolic link.
  pub resolve_safe_path-IsSafe :
      (requested : Text) {absolute : List Text}
      → All IsSegment workspace
      → resolve_safe_path deps workspace deny requested ≡ ok absolute
      → IsSafe absolute
  unfolding resolve_safe_path
  resolve_safe_path-IsSafe requested w e =
      let (p, e1) = if-err (is_empty requested) _ _ e in
      let (q, e2) = if-err (any (λ c. c == 0) requested) _ _ e1 in
      let (r, e3) = if-err (starts_with (text "/") requested) _ _ e2 in
      let (u, e4) = if-err (starts_with (text "~") requested) _ _ e3 in
      inside-IsSafe requested (enter_all workspace (split b'/' requested))
        (enter_all-All workspace (split b'/' requested) w (split-Lacks b'/' requested)) e4

  content-ok :
      (r : Result Text Text) {t : Text}
      → content_of deps workspace deny r ≡ ok t
      → (content : Text) × (r ≡ ok content) × (t ≡ truncated content)
  content-ok (ok content) h = (content, refl, sym (ok-injective h))
  content-ok (err e) h = cc

  read_at-ok :
      (r : Result ToolError (List Text)) {t : Text}
      → read_at deps workspace deny r ≡ ok t
      → (absolute : List Text) × (content : Text) × (r ≡ ok absolute)
        × (deps.read_text absolute ≡ ok content)
        × (t ≡ truncated content)
  read_at-ok (ok absolute) h =
      let (content, p, q) = content-ok (deps.read_text absolute) h in
      (absolute, content, refl, p, q)
  read_at-ok (err e) h = cc

  -- What `read_file` returns is the content, cut at the limit, of a file in the workspace that no deny
  -- pattern matches and that no symbolic link leads to, whatever path was asked for.
  pub read_file-IsSafe :
      (requested : Text) {t : Text}
      → All IsSegment workspace
      → read_file deps workspace deny requested ≡ ok t
      → (absolute : List Text) × (content : Text) × IsSafe absolute
        × (deps.read_text absolute ≡ ok content)
        × (t ≡ truncated content)
  unfolding read_file
  read_file-IsSafe requested w e =
      let (absolute, content, p, q, r) =
        read_at-ok (resolve_safe_path deps workspace deny requested) e in
      (absolute, content, resolve_safe_path-IsSafe requested w p, q, r)
