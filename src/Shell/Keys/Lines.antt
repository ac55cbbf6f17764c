-- ===== src/Shell/Keys/Lines.antt =====
-- kernel/shell.h: the empty line and the lines of the history.
use samos.Base.{ℕ, zero, suc, arith, List, [], ◌∷◌, get_or, All}
use samos.Shell.Eval.History.{IsLine}

pub empty-IsLine : IsLine []
empty-IsLine = record { text_fits = omega arith; no_nul = tt }

pub get_or-IsLine : (hist : List (List ℕ)) (i : ℕ) → All IsLine hist → IsLine (get_or hist i [])
get_or-IsLine [] i h = empty-IsLine
get_or-IsLine (x ∷ hist) zero h = h.0
get_or-IsLine (x ∷ hist) (suc i) h = get_or-IsLine hist i h.1
