-- ===== src/Core/Glob.antt =====
-- packages/core/src/glob.ts. A compiled expression is the list of its nodes, and `test` gives the
-- constructs that `globToRegExp` emits the meaning that they have in a regular expression. A
-- pattern that spells out one of the source's two marker texts (`§GLOBDOUBLE§`,
-- `§GLOBDOUBLEDIR§`) is left out.
mod Passes
mod Tests
use review_agent.Common.{
  ℕ, Bool, true, false, not, ◌&&◌, ◌||◌, Option, none, some, List, [], ◌∷◌, ◌++◌, Text, ◌==◌,
  if◌then◌else◌, any, Result, ok, err,
}
use Passes.{Piece, chr, double_dir, double, mark_double_dir, mark_double}

-- `lit c`: an escaped or plain character; `optional c`: `c?`; `any_seg`: `[^/]*`; `any_dir`:
-- `(?:.*/)?`; `any_path`: `.*`. A lazy quantifier (`*?`) matches the same texts.
pub data Node : Type 0 where
  lit optional : ℕ → Node
  any_seg any_dir any_path : Node

pub data GlobError : Type 0 where
  empty_pattern nul_byte syntax_error : GlobError

-- what a following `?` would apply to
pub data Pending : Type 0 where
  nothing quantified : Pending
  atom : ℕ → Pending

abbrev flush : Pending → List Node → List Node
flush (atom c) ns = lit c ∷ ns
flush _ ns = ns

-- `?` is not among the characters that the source escapes, so it quantifies what stands before
-- it: a character becomes optional, a quantifier becomes lazy (once), and anywhere else the
-- expression has nothing to repeat.
abbrev question : Pending → Option (List Node × Pending)
question nothing = none
question quantified = some ([], nothing)
question (atom c) = some (optional c ∷ [], quantified)

next : Pending → Piece → Option (List Node × Pending)
next p double_dir = some (flush p (any_dir ∷ []), quantified)
next p double = some (flush p (any_path ∷ []), quantified)
next p (chr c) =
    if c == b'?'
    then question p
    else if c == b'*'
    then some (flush p (any_seg ∷ []), quantified)
    else some (flush p [], atom c)

abbrev prepend : List Node → Option (List Node) → Option (List Node)
prepend out none = none
prepend out (some ns) = some (out ++ ns)

nodes : Pending → List Piece → Option (List Node)
nodes p [] = some (flush p [])
nodes p (piece ∷ ps) = elim (next p piece) [
  | none ↦ none
  | some (out, q) ↦ prepend out (nodes q ps)
]

abbrev compiled : Option (List Node) → Result GlobError (List Node)
compiled none = err syntax_error
compiled (some ns) = ok ns

abbrev is_nul : ℕ → Bool
is_nul c = c == 0

unfoldable pub glob_to_reg_exp : Text → Result GlobError (List Node)
unfolding next nodes mark_double_dir mark_double
glob_to_reg_exp [] = err empty_pattern
glob_to_reg_exp (c ∷ pattern) =
    if any is_nul (c ∷ pattern)
    then err nul_byte
    else compiled (nodes nothing (mark_double (mark_double_dir (c ∷ pattern))))

abbrev succeeded : Result GlobError (List Node) → Bool
succeeded (ok ns) = true
succeeded (err e) = false

unfoldable pub is_valid_glob : Text → Bool
unfolding glob_to_reg_exp
is_valid_glob pattern = succeeded (glob_to_reg_exp pattern)

-- `.` matches all but the line terminators
abbrev pub is_line_terminator : ℕ → Bool
is_line_terminator c = c == 10 || c == 13 || c == 0x2028 || c == 0x2029

abbrev dot : ℕ → Bool
dot c = not (is_line_terminator c)

abbrev not_slash : ℕ → Bool
not_slash c = not (c == b'/')

-- some number of characters of the class, then `k`
star : (ℕ → Bool) → (Text → Bool) → Text → Bool
star cls k [] = k []
star cls k (d ∷ t) = k (d ∷ t) || (cls d && star cls k t)

one : ℕ → (Text → Bool) → Text → Bool
one c k [] = false
one c k (d ∷ t) = (c == d) && k t

at_end : Text → Bool
at_end [] = true
at_end (c ∷ t) = false

-- `new RegExp('^' + s + '$').test(t)`
unfoldable pub test : List Node → Text → Bool
unfolding star one at_end
test [] t = at_end t
test (lit c ∷ ns) t = one c (test ns) t
test (optional c ∷ ns) t = test ns t || one c (test ns) t
test (any_seg ∷ ns) t = star not_slash (test ns) t
test (any_path ∷ ns) t = star dot (test ns) t
test (any_dir ∷ ns) t = test ns t || star dot (one b'/' (test ns)) t

-- `globToRegExp(pattern).test(path)`; a pattern that does not compile matches nothing here
unfoldable pub matches : Text → Text → Bool
unfolding glob_to_reg_exp test
matches pattern path = elim (glob_to_reg_exp pattern) [ ok ns ↦ test ns path | err e ↦ false ]
