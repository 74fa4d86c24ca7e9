-- ===== src/Runner/Tools/Search/Listing.antt =====
-- The walk of `glob` against the list of all files.
use review_agent.Common.{
  ◌≡◌, refl, ap, ◌∙◌, Bool, true, false, not, ◌&&◌, Bool-cases, inl, inr, List, [], ◌∷◌, ◌++◌, map,
  map-append, any, filter, Text, arith,
}
use review_agent.Runner.Tools.Search.{
  Entries, finished, unreadable, file, directory, other_entry, child, is_denied, walk,
}

-- a file: its path, and the paths of the file and of the directories above it
pub record Found : Type 0 where
  pub path : Text
  pub chain : List Text

-- every file below a directory, in the order of the listings
pub all_files : (above : List Text) → Text → Entries → List Found
all_files above dir finished = []
all_files above dir (unreadable e) = []
all_files above dir (file name r rest) =
    record { path = child dir name; chain = child dir name ∷ above } ∷ all_files above dir rest
all_files above dir (directory name inside rest) =
    all_files (child dir name ∷ above) (child dir name) inside ++ all_files above dir rest
all_files above dir (other_entry name rest) = all_files above dir rest

filter-append :
    (p : Found → Bool) (xs ys : List Found) → filter p (xs ++ ys) ≡ filter p xs ++ filter p ys
filter-append p [] ys = refl
filter-append p (x ∷ xs) ys = elim (Bool-cases (p x)) [
  | inl e ↦ rw e (ap (λ l. x ∷ l) (filter-append p xs ys))
  | inr e ↦ rw e (filter-append p xs ys)
]

module _ (deny : List (Text → Bool)) (matches : Text → Bool) where
  -- a file that matches, and of which no directory is denied, nor itself
  abbrev pub is_listed : Found → Bool
  is_listed f = not (any (is_denied deny) f.chain) && matches f.path

  under :
      (above : List Text) (x : Text)
      → any (is_denied deny) above ≡ true
      → any (is_denied deny) (x ∷ above) ≡ true
  under above x h = ground arith

  -- below a denied directory nothing is listed
  hidden :
      (above : List Text) (dir : Text) (entries : Entries)
      → any (is_denied deny) above ≡ true
      → filter is_listed (all_files above dir entries) ≡ []
  unfolding all_files
  hidden above dir finished h = refl
  hidden above dir (unreadable e) h = refl
  hidden above dir (file name r rest) h = elim (Bool-cases (is_denied deny (child dir name))) [
    | inl e ↦ rw e (hidden above dir rest h)
    | inr e ↦ rw e (rw h (hidden above dir rest h))
  ]
  hidden above dir (directory name inside rest) h =
      filter-append is_listed (all_files (child dir name ∷ above) (child dir name) inside)
        (all_files above dir rest)
      ∙ rw
          (hidden (child dir name ∷ above) (child dir name) inside (under above (child dir name) h))
          (hidden above dir rest h)
  hidden above dir (other_entry name rest) h = hidden above dir rest h

  -- the directory itself is denied
  denied_below :
      (above : List Text) (x : Text)
      → is_denied deny x ≡ true
      → any (is_denied deny) (x ∷ above) ≡ true
  denied_below above x h = ground arith

  allowed_below :
      (above : List Text) (x : Text)
      → any (is_denied deny) above ≡ false
      → is_denied deny x ≡ false
      → any (is_denied deny) (x ∷ above) ≡ false
  allowed_below above x h e = ground arith

  abbrev listed : List Found → List Text
  listed fs = map (λ f. f.path) (filter is_listed fs)

  listed-append : (xs ys : List Found) → listed (xs ++ ys) ≡ listed xs ++ listed ys
  listed-append xs ys =
      ap (map (λ f. f.path)) (filter-append is_listed xs ys)
      ∙ map-append (λ f. f.path) (filter is_listed xs) (filter is_listed ys)

  walk-listed :
      (above : List Text) (dir : Text) (entries : Entries)
      → any (is_denied deny) above ≡ false
      → walk deny matches dir entries ≡ listed (all_files above dir entries)
  unfolding walk all_files
  walk-listed above dir finished h = refl
  walk-listed above dir (unreadable e) h = refl
  walk-listed above dir (file name r rest) h = elim (Bool-cases (is_denied deny (child dir name))) [
    | inl e ↦ rw e (walk-listed above dir rest h)
    | inr e ↦ rw e (
        rw h (elim (Bool-cases (matches (child dir name))) [
          | inl m ↦ rw m (ap (λ l. child dir name ∷ l) (walk-listed above dir rest h))
          | inr m ↦ rw m (walk-listed above dir rest h)
        ]))
  ]
  walk-listed above dir (directory name inside rest) h =
      rw
        (listed-append (all_files (child dir name ∷ above) (child dir name) inside)
          (all_files above dir rest))
        (elim (Bool-cases (is_denied deny (child dir name))) [
          | inl e ↦ rw e (
              rw
                (hidden (child dir name ∷ above) (child dir name) inside
                  (denied_below above (child dir name) e))
                (walk-listed above dir rest h))
          | inr e ↦ rw e (
              rw
                (walk-listed (child dir name ∷ above) (child dir name) inside
                  (allowed_below above (child dir name) h e))
                (ap (λ l. listed (all_files (child dir name ∷ above) (child dir name) inside) ++ l)
                  (walk-listed above dir rest h)))
        ])
  walk-listed above dir (other_entry name rest) h = walk-listed above dir rest h

  -- The walk lists exactly the files that match and that no deny pattern matches, neither themselves
  -- nor a directory above them, each once and in the order of the listings.
  pub walk-eq-filter :
      (tree : Entries)
      → walk deny matches [] tree ≡ map (λ f. f.path) (filter is_listed (all_files [] [] tree))
  walk-eq-filter tree = walk-listed [] [] tree refl
