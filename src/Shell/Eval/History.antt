-- ===== src/Shell/Eval/History.antt =====
-- kernel/shell.h: the lines of the history.
use samos.Base.{
  ℕ, ◌<◌, ◌≤◌, ◌≡◌, refl, arith, if-cases, ltb, lt→ltb, Bool, true, false, List, [], ◌∷◌, ◌++◌,
  length, length-append, All, IsText,
}
use samos.Shell.{sh_cmd_max, sh_hist_max}
use samos.Shell.Eval.{
  Command, empty, help, cpu, mem, mode, res, setup, clear, reboot, unknown, run, save_history,
  saved, is_reboot,
}

-- A line of the shell: at most 79 characters, none of them a NUL.
abbrev pub IsLine : List ℕ → Type 0
IsLine line = IsText sh_cmd_max line

pub record IsHistory (hist : List (List ℕ)) : Type 0 where
  pub hist_fits : length hist ≤ sh_hist_max
  pub hist_lines : All IsLine hist

All-append :
    (hist : List (List ℕ)) (cmd : List ℕ)
    → All IsLine hist
    → IsLine cmd
    → All IsLine (hist ++ cmd ∷ [])
All-append [] cmd h l = (l, tt)
All-append (x ∷ hist) cmd h l = (h.0, All-append hist cmd h.1 l)

save_history-IsHistory :
    (hist : List (List ℕ)) (cmd : List ℕ)
    → IsHistory hist
    → IsLine cmd
    → IsHistory (save_history hist cmd)
unfolding save_history
save_history-IsHistory hist cmd h l =
    if-cases IsHistory (ltb (length hist) sh_hist_max)
      (λ e. record {
        hist_fits = let n = length-append hist (cmd ∷ []) in ground arith;
        hist_lines = All-append hist cmd h.hist_lines l;
      })
      (λ e. h)

pub saved-IsHistory :
    (c : Command) (hist : List (List ℕ)) (cmd : List ℕ)
    → IsHistory hist
    → IsLine cmd
    → IsHistory (saved c hist cmd)
unfolding saved
saved-IsHistory empty hist cmd h l = h
saved-IsHistory setup hist cmd h l = h
saved-IsHistory clear hist cmd h l = h
saved-IsHistory reboot hist cmd h l = h
saved-IsHistory help hist cmd h l = save_history-IsHistory hist cmd h l
saved-IsHistory cpu hist cmd h l = save_history-IsHistory hist cmd h l
saved-IsHistory mem hist cmd h l = save_history-IsHistory hist cmd h l
saved-IsHistory mode hist cmd h l = save_history-IsHistory hist cmd h l
saved-IsHistory res hist cmd h l = save_history-IsHistory hist cmd h l
saved-IsHistory unknown hist cmd h l = save_history-IsHistory hist cmd h l
saved-IsHistory (run args) hist cmd h l = save_history-IsHistory hist cmd h l

length-save_history :
    (hist : List (List ℕ)) (cmd : List ℕ) → length hist ≤ length (save_history hist cmd)
unfolding save_history
length-save_history hist cmd = ground (arith, length-append hist (cmd ∷ []))

pub length-saved :
    (c : Command) (hist : List (List ℕ)) (cmd : List ℕ) → length hist ≤ length (saved c hist cmd)
unfolding saved
length-saved empty hist cmd = omega arith
length-saved setup hist cmd = omega arith
length-saved clear hist cmd = omega arith
length-saved reboot hist cmd = omega arith
length-saved help hist cmd = length-save_history hist cmd
length-saved cpu hist cmd = length-save_history hist cmd
length-saved mem hist cmd = length-save_history hist cmd
length-saved mode hist cmd = length-save_history hist cmd
length-saved res hist cmd = length-save_history hist cmd
length-saved unknown hist cmd = length-save_history hist cmd
length-saved (run args) hist cmd = length-save_history hist cmd

-- The commands that are saved.
abbrev pub saves : Command → Bool
saves empty = false
saves setup = false
saves clear = false
saves reboot = false
saves other = true

pub saved-saves :
    (c : Command) (hist : List (List ℕ)) (cmd : List ℕ)
    → saves c ≡ true
    → (saved c hist cmd ≡ save_history hist cmd) × (is_reboot c ≡ false)
unfolding saved
saved-saves empty hist cmd h = cc
saved-saves setup hist cmd h = cc
saved-saves clear hist cmd h = cc
saved-saves reboot hist cmd h = cc
saved-saves help hist cmd h = (refl, refl)
saved-saves cpu hist cmd h = (refl, refl)
saved-saves mem hist cmd h = (refl, refl)
saved-saves mode hist cmd h = (refl, refl)
saved-saves res hist cmd h = (refl, refl)
saved-saves unknown hist cmd h = (refl, refl)
saved-saves (run args) hist cmd h = (refl, refl)

pub save_history-room :
    (hist : List (List ℕ)) (cmd : List ℕ)
    → length hist < sh_hist_max
    → save_history hist cmd ≡ hist ++ cmd ∷ []
unfolding save_history
save_history-room hist cmd h = rw (lt→ltb _ _ h)
