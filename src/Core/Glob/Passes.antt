-- ===== src/Core/Glob/Passes.antt =====
-- The two `replace` passes of `globToRegExp` that set markers, each from left to right.
use review_agent.Common.{ℕ, ◌&&◌, List, [], ◌∷◌, Text, ◌==◌, if◌then◌else◌}

pub data Piece : Type 0 where
  chr : ℕ → Piece
  double_dir double : Piece

-- `s.replace(/\*\*\//g, '§GLOBDOUBLEDIR§')`
unfoldable pub mark_double_dir : Text → List Piece
mark_double_dir [] = []
mark_double_dir (c ∷ []) = chr c ∷ []
mark_double_dir (c ∷ d ∷ []) = chr c ∷ chr d ∷ []
mark_double_dir (c ∷ d ∷ e ∷ t) =
    let marked = double_dir ∷ mark_double_dir t in
    let kept = chr c ∷ mark_double_dir (d ∷ e ∷ t) in
    if c == b'*' && d == b'*' && e == b'/' then marked else kept

-- `s.replace(/\*\*/g, '§GLOBDOUBLE§')`
unfoldable pub mark_double : List Piece → List Piece
mark_double (chr c ∷ chr d ∷ ps) =
    let marked = double ∷ mark_double ps in
    let kept = chr c ∷ mark_double (chr d ∷ ps) in if c == b'*' && d == b'*' then marked else kept
mark_double [] = []
mark_double (p ∷ ps) = p ∷ mark_double ps
