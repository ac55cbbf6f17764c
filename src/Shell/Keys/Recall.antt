-- ===== src/Shell/Keys/Recall.antt =====
-- kernel/shell.h: a line that is typed reaches the history, and the arrow key brings it back.
use samos.Base.{
  ℕ, suc, ◌-◌, ◌<◌, ◌≤◌, ◌≡◌, refl, sym, ap, ap₂, ◌∙◌, arith, true, false, ◌&&◌, if-cases, ltb,
  List, [], ◌∷◌, ◌++◌, map, length, length-append, All, get_or,
}
use mathlib.Core.Path.{subst}
use mathlib.Core.List.{append-nil}
use samos.Fb.{SamFb}
use samos.Mcp.Profile.{SamMcp}
use samos.Config.{SamBootConfig}
use samos.Shell.{sh_cmd_max, sh_hist_max}
use samos.Shell.Words.{skip_spaces}
use samos.Shell.Eval.{Calls, Shell, command, sh_eval, save_history}
use samos.Shell.Eval.History.{saves, saved-saves, save_history-room}
use samos.Shell.Keys.{
  key, extended, hide_cursor, recall, history_older, on_extended, on_enter, on_key, on_event,
  shell_loop, sc_enter, sc_up,
}
use samos.Shell.Keys.Typing.{
  IsPlain, text_of, hide_cursor-IsTyped, shell_loop-step, shell_loop-nil, shell_loop-append,
  shell_loop-IsTyped,
}

get_or-last {ℓ} : {A : Type ℓ} (xs : List A) (x d : A) → get_or (xs ++ x ∷ []) (length xs) d ≡ x
get_or-last [] x d = refl
get_or-last (y ∷ xs) x d = get_or-last xs x d

module _ (fb : SamFb) (mcp : SamMcp) (bcfg : SamBootConfig) (calls : Calls) where
  -- Enter, on a line that is saved.
  record IsEntered (m m' : Shell) : Type 0 where
    hist_saved : m'.hist ≡ save_history m.hist m.cmd
    back_reset : m'.hist_back ≡ 0
    live : m'.halted ≡ false

  on_enter-IsEntered :
      (m : Shell)
      → saves (command (skip_spaces m.cmd)) ≡ true
      → IsEntered m (on_enter fb mcp bcfg calls m)
  unfolding on_enter sh_eval
  on_enter-IsEntered m h =
      let s = saved-saves (command (skip_spaces m.cmd)) m.hist m.cmd h in
      rw s.1 (record { hist_saved = s.0; back_reset = refl; live = refl })

  -- Enter, as an event.
  enter-IsEntered :
      (m : Shell)
      → saves (command (skip_spaces m.cmd)) ≡ true
      → IsEntered m (on_event fb mcp bcfg calls m (key sc_enter))
  unfolding on_event on_key
  enter-IsEntered m h =
      let t = hide_cursor-IsTyped fb m in
      let line : (hide_cursor fb m).cmd ≡ m.cmd = t.cmd_typed ∙ append-nil m.cmd in
      let r =
        on_enter-IsEntered (hide_cursor fb m)
          (ap (λ l. saves (command (skip_spaces l))) line ∙ h) in
      record {
        hist_saved = r.hist_saved ∙ ap₂ save_history t.hist_kept line;
        back_reset = r.back_reset;
        live = r.live;
      }

  -- The up arrow, before any other, brings back the last line of the history.
  older_line :
      (m : Shell) (hist : List (List ℕ)) (text : List ℕ)
      → m.hist ≡ hist ++ text ∷ []
      → m.hist_back ≡ 0
      → (history_older fb m).cmd ≡ text
  unfolding history_older recall
  older_line m hist text e b =
      let n : length m.hist ≡ suc (length hist) =
        ap (λ l. length l) e ∙ (length-append hist (text ∷ []) ∙ omega arith) in
      let any : (ltb 0 (length m.hist) && ltb m.hist_back (length m.hist)) ≡ true = ground arith in
      let index : length m.hist - 1 - m.hist_back ≡ length hist = omega arith in
      rw any (ap₂ (λ l i. get_or l i []) e index ∙ get_or-last hist text [])

  history_older-hist : (m : Shell) → (history_older fb m).hist ≡ m.hist
  unfolding history_older recall
  history_older-hist m =
      if-cases (λ (q : Shell). q.hist ≡ m.hist)
        (ltb 0 (length m.hist) && ltb m.hist_back (length m.hist)) (λ h. refl) (λ h. refl)

  -- The up arrow, as an event.
  up-older :
      (m : Shell) (hist : List (List ℕ)) (text : List ℕ)
      → m.hist ≡ hist ++ text ∷ []
      → m.hist_back ≡ 0
      → let m' = on_event fb mcp bcfg calls m (extended sc_up) in
        (m'.cmd ≡ text) × (m'.hist ≡ hist ++ text ∷ [])
  unfolding on_event on_extended
  up-older m hist text e b =
      let t = hide_cursor-IsTyped fb m in
      let kept = t.hist_kept ∙ e in
      (
        older_line (hide_cursor fb m) hist text kept (t.back_kept ∙ b),
        history_older-hist (hide_cursor fb m) ∙ kept,
      )

  -- Enter and the up arrow, behind a state that does not change any more.
  enter_up :
      (m : Shell) (hist : List (List ℕ)) (text : List ℕ)
      → m.cmd ≡ text
      → m.hist ≡ hist
      → m.halted ≡ false
      → length hist < sh_hist_max
      → saves (command (skip_spaces text)) ≡ true
      → let m' = shell_loop fb mcp bcfg calls m (key sc_enter ∷ extended sc_up ∷ []) in
        (m'.cmd ≡ text) × (m'.hist ≡ hist ++ text ∷ [])
  enter_up m hist text line old live room h =
      let next = on_event fb mcp bcfg calls m (key sc_enter) in
      let e = enter-IsEntered m (ap (λ l. saves (command (skip_spaces l))) line ∙ h) in
      let saved_line : next.hist ≡ hist ++ text ∷ [] =
        e.hist_saved ∙ (ap₂ save_history old line ∙ save_history-room hist text room) in
      subst (λ q. (q.cmd ≡ text) × (q.hist ≡ hist ++ text ∷ []))
        (sym (
          shell_loop-step fb mcp bcfg calls m (key sc_enter) (extended sc_up ∷ []) live
          ∙ (shell_loop-step fb mcp bcfg calls next (extended sc_up) [] e.live
              ∙ shell_loop-nil fb mcp bcfg calls _)))
        (up-older next hist text saved_line e.back_reset)

  -- What has been typed is run by Enter and then brought back by the up arrow, unchanged: at an empty
  -- line, with room in the history, for plain keys whose characters fit in the line and make up a
  -- command that is saved (any but an empty line, `setup`, `clear` and `reboot`). It is then also
  -- the last line of the history.
  pub typed_line-recalled :
      (sh : Shell) (scs : List ℕ)
      → sh.cmd ≡ []
      → sh.halted ≡ false
      → length sh.hist < sh_hist_max
      → All IsPlain scs
      → length (text_of sh.shift sh.caps scs) ≤ sh_cmd_max
      → saves (command (skip_spaces (text_of sh.shift sh.caps scs))) ≡ true
      → let sh' =
          shell_loop fb mcp bcfg calls sh (map key scs ++ key sc_enter ∷ extended sc_up ∷ []) in
        (sh'.cmd ≡ text_of sh.shift sh.caps scs)
        × (sh'.hist ≡ sh.hist ++ text_of sh.shift sh.caps scs ∷ [])
  typed_line-recalled sh scs start live room p fits h =
      let text = text_of sh.shift sh.caps scs in
      let t =
        shell_loop-IsTyped fb mcp bcfg calls scs sh live p
          (omega (arith, ap (λ l. length l) start)) in
      subst (λ q. (q.cmd ≡ text) × (q.hist ≡ sh.hist ++ text ∷ []))
        (sym (
          shell_loop-append fb mcp bcfg calls sh (map key scs)
            (key sc_enter ∷ extended sc_up ∷ [])))
        (enter_up (shell_loop fb mcp bcfg calls sh (map key scs)) sh.hist text
          (t.cmd_typed ∙ ap (λ l. l ++ text) start) t.hist_kept (t.halted_kept ∙ live) room h)
