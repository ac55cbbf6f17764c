-- ===== src/Fb/Glyph.antt =====
-- `fb_draw_char` draws the bits of a glyph, and text output never leaves the screen.
use samos.Base.{
  ℕ, zero, suc, ◌+◌, ◌*◌, ◌<◌, ◌≤◌, ◌≡◌, ◌≢◌, ◌⊎◌, inl, inr, refl, sym, ap, ◌∙◌, arith, false, not,
  if-cases, ne→==, ==_refl, if◌then◌else◌, ◌||◌, leb, ltb, store8, u32, add32, List, [], ◌∷◌,
  get_or,
}
use samos.Fb.Font.{fb_font_8x16}
use samos.Fb.Ink.{Shows, ink, glyph_of-Shows, dot-ink}
use samos.Fb.Fill.{IsScreen, rows_apart}
use samos.Fb.{
  SamFb, Vram, fb_pixel, glyph_row, glyph_rows, fb_draw_char, draw_chars, fb_draw_str,
  fb_draw_str_centre, dot, glyph_of, dec_text, fb_draw_dec,
}

-- A memory cell that is no pixel of the screen.
abbrev pub Offscreen : SamFb → ℕ → Type 0
Offscreen fb p = (x y : ℕ) → x < fb.width → y < fb.height → p ≢ u32 (y * fb.pitch_px + x)

module _ (fb : SamFb) (p : ℕ) (off : Offscreen fb p) where
  pub fb_pixel-off : (v : Vram) (x y colour : ℕ) → fb_pixel fb v x y colour p ≡ v p
  unfolding fb_pixel
  fb_pixel-off v x y colour =
      if-cases (λ (r : Vram). r p ≡ v p) (not fb.ready || (leb fb.width x || leb fb.height y))
        (λ e. refl) (λ e. rw (ne→== _ _ (off x y (ground arith) (ground arith))) refl)

  glyph_row-off :
      (col left : ℕ) (v : Vram) (x y fg bg bits : ℕ)
      → glyph_row fb v x y fg bg bits col left p ≡ v p
  unfolding glyph_row
  glyph_row-off col zero v x y fg bg bits = refl
  glyph_row-off col (suc left) v x y fg bg bits =
      glyph_row-off (col + 1) left (fb_pixel fb v (add32 x col) y (dot fb fg bg bits col)) x y fg bg
        bits
      ∙ fb_pixel-off v (add32 x col) y (dot fb fg bg bits col)

  glyph_rows-off :
      (row left : ℕ) (v : Vram) (x y fg bg : ℕ) (glyph : List ℕ)
      → glyph_rows fb v x y fg bg glyph row left p ≡ v p
  unfolding glyph_rows
  glyph_rows-off row zero v x y fg bg glyph = refl
  glyph_rows-off row (suc left) v x y fg bg glyph =
      glyph_rows-off (row + 1) left (glyph_row fb v x (add32 y row) fg bg (get_or glyph row 0) 0 8)
        x y fg bg glyph
      ∙ glyph_row-off 0 8 v x (add32 y row) fg bg (get_or glyph row 0)

  fb_draw_char-off : (v : Vram) (x y c fg bg : ℕ) → fb_draw_char fb v x y c fg bg p ≡ v p
  unfolding fb_draw_char
  fb_draw_char-off v x y c fg bg =
      if-cases (λ (r : Vram). r p ≡ v p) (not fb.ready) (λ e. refl)
        (λ e. glyph_rows-off 0 16 v x y fg bg (glyph_of fb c))

  draw_chars-off : (s : List ℕ) (v : Vram) (x y fg bg : ℕ) → draw_chars fb v x y s fg bg p ≡ v p
  unfolding draw_chars
  draw_chars-off [] v x y fg bg = refl
  draw_chars-off (c ∷ s) v x y fg bg =
      if-cases (λ (r : Vram). r p ≡ v p) (ltb fb.width (add32 (add32 x 8) 8))
        (λ e. fb_draw_char-off v x y c fg bg)
        (λ e.
          draw_chars-off s (fb_draw_char fb v x y c fg bg) (add32 x 8) y fg bg
          ∙ fb_draw_char-off v x y c fg bg)

  -- Whatever text is drawn wherever, centred in a band or as a number too, no cell that is not a
  -- pixel of the screen changes.
  pub fb_draw_str-off :
      (v : Vram) (x y w n : ℕ) (s : List ℕ) (fg bg : ℕ)
      → (fb_draw_str fb v x y s fg bg p ≡ v p)
        × (fb_draw_str_centre fb v x y w s fg bg p ≡ v p)
        × ((fb_draw_dec fb v x y n fg bg).0 p ≡ v p)
  unfolding fb_draw_str fb_draw_str_centre fb_draw_dec
  fb_draw_str-off v x y w n s fg bg = (str x s, str _ s, str x (dec_text n))
    where
      str : (x : ℕ) (s : List ℕ) → (if not fb.ready then v else draw_chars fb v x y s fg bg) p ≡ v p
      str x s =
          if-cases (λ (r : Vram). r p ≡ v p) (not fb.ready) (λ e. refl)
            (λ e. draw_chars-off s v x y fg bg)

module _ (fb : SamFb) (s : IsScreen fb) where
  abbrev at : ℕ → ℕ → ℕ
  at col row = row * fb.pitch_px + col

  same_pixel :
      (a b q r : ℕ) → a < fb.pitch_px → q < fb.pitch_px → at a b ≡ at q r → (a ≡ q) × (b ≡ r)
  same_pixel a b q r ha hq e = elim (trichotomy b r) [
    | inl lt ↦ let d = rows_apart b r fb.pitch_px lt in absurd (omega arith)
    | inr (inl eq) ↦
        let f : b * fb.pitch_px ≡ r * fb.pitch_px = ap (λ t. t * fb.pitch_px) eq in
        (omega arith, eq)
    | inr (inr gt) ↦ let d = rows_apart r b fb.pitch_px gt in absurd (omega arith)
  ]
    where
      trichotomy : (b r : ℕ) → (b < r) ⊎ ((b ≡ r) ⊎ (r < b))
      trichotomy b r = omega arith

  -- A pixel on the screen, written and read.
  fb_pixel-at :
      (v : Vram) (x y colour : ℕ)
      → x < fb.width
      → y < fb.height
      → fb_pixel fb v x y colour ≡ store8 v (at x y) colour
  unfolding fb_pixel
  fb_pixel-at v x y colour hx hy =
      let e = rows_apart y fb.height fb.pitch_px hy in
      let exact : u32 (y * fb.pitch_px + x) ≡ at x y = omega (arith, s.row_fits, s.screen_fits) in
      let on : (not fb.ready || (leb fb.width x || leb fb.height y)) ≡ false =
        rw (s.is_ready) (ground arith) in
      rw (on, exact) refl

  module _ (x y fg bg bits : ℕ) (hx : x + 8 ≤ fb.width) (hy : y < fb.height) where
    abbrev step : Vram → ℕ → Vram
    step v col = fb_pixel fb v (add32 x col) y (dot fb fg bg bits col)

    step_eq :
        (v : Vram) (col : ℕ)
        → col < 8
        → step v col ≡ store8 v (at (x + col) y) (dot fb fg bg bits col)
    step_eq v col h =
        let e : add32 x col ≡ x + col = omega (arith, s.width_fits) in
        rw e (fb_pixel-at v (x + col) y (dot fb fg bg bits col) (omega arith) hy)

    glyph_row-other :
        (col left : ℕ) (v : Vram) (q r : ℕ)
        → col + left ≤ 8
        → q < fb.width
        → (r ≢ y) ⊎ ((q < x + col) ⊎ (x + col + left ≤ q))
        → glyph_row fb v x y fg bg bits col left (at q r) ≡ v (at q r)
    unfolding glyph_row
    glyph_row-other col zero v q r h hq o = refl
    glyph_row-other col (suc left) v q r h hq o =
        glyph_row-other (col + 1) left (step v col) q r (omega arith) hq (later o)
        ∙ ap (λ t. t (at q r)) (step_eq v col (omega arith))
        ∙ rw (ne→== (at q r) (at (x + col) y) apart) refl
      where
        later :
            (r ≢ y) ⊎ ((q < x + col) ⊎ (x + col + suc left ≤ q))
            → (r ≢ y) ⊎ ((q < x + (col + 1)) ⊎ (x + (col + 1) + left ≤ q))
        later (inl n) = inl n
        later (inr p) = inr (omega arith)

        apart : at q r ≢ at (x + col) y
        apart e =
            let b =
              same_pixel q r (x + col) y (omega (arith, s.row_fits)) (omega (arith, s.row_fits))
                e in
            elim o [ inl n ↦ n b.1 | inr p ↦ absurd (omega arith) ]

    glyph_row-dot :
        (col left : ℕ) (v : Vram) (i : ℕ)
        → col + left ≤ 8
        → col ≤ i
        → i < col + left
        → glyph_row fb v x y fg bg bits col left (at (x + i) y) ≡ dot fb fg bg bits i
    unfolding glyph_row
    glyph_row-dot col zero v i h l u = absurd (omega arith)
    glyph_row-dot col (suc left) v i h l u = elim (cases l) [
      | inl e ↦
          glyph_row-other (col + 1) left (step v col) (x + i) y (omega arith) (omega arith)
            (inr (inl (omega arith)))
          ∙ ap (λ t. t (at (x + i) y)) (step_eq v col (omega arith))
          ∙ ap (λ c. store8 v (at (x + c) y) (dot fb fg bg bits c) (at (x + i) y)) (sym e)
          ∙ rw (==_refl (at (x + i) y)) refl
      | inr lt ↦
          glyph_row-dot (col + 1) left (step v col) i (omega arith) (omega arith) (omega arith)
    ]
      where
        cases : {i col : ℕ} → col ≤ i → (i ≡ col) ⊎ (col + 1 ≤ i)
        cases l = omega arith

  module _ (x y fg bg : ℕ) (glyph : List ℕ) (hx : x + 8 ≤ fb.width) (hy : y + 16 ≤ fb.height) where
    row_eq : (row : ℕ) → row < 16 → add32 y row ≡ y + row
    row_eq row h = omega (arith, s.height_fits)

    abbrev row_step : Vram → ℕ → Vram
    row_step v row = glyph_row fb v x (add32 y row) fg bg (get_or glyph row 0) 0 8

    glyph_rows-other :
        (row left : ℕ) (v : Vram) (q r : ℕ)
        → row + left ≤ 16
        → q < fb.width
        → (q < x) ⊎ ((x + 8 ≤ q) ⊎ ((r < y + row) ⊎ (y + row + left ≤ r)))
        → glyph_rows fb v x y fg bg glyph row left (at q r) ≡ v (at q r)
    unfolding glyph_rows
    glyph_rows-other row zero v q r h hq o = refl
    glyph_rows-other row (suc left) v q r h hq o =
        glyph_rows-other (row + 1) left (row_step v row) q r (omega arith) hq (omega arith)
        ∙ glyph_row-other x (add32 y row) fg bg (get_or glyph row 0) hx (omega arith) 0 8 v q r
            (omega arith) hq (elsewhere o)
      where
        elsewhere :
            (q < x) ⊎ ((x + 8 ≤ q) ⊎ ((r < y + row) ⊎ (y + row + suc left ≤ r)))
            → (r ≢ add32 y row) ⊎ ((q < x + 0) ⊎ (x + 0 + 8 ≤ q))
        elsewhere (inl a) = inr (inl (omega arith))
        elsewhere (inr (inl b)) = inr (inr (omega arith))
        elsewhere (inr (inr c)) = inl (omega (arith, row_eq row))

    glyph_rows-dot :
        (row left : ℕ) (v : Vram) (i j : ℕ)
        → row + left ≤ 16
        → i < 8
        → row ≤ j
        → j < row + left
        → glyph_rows fb v x y fg bg glyph row left (at (x + i) (y + j))
          ≡ dot fb fg bg (get_or glyph j 0) i
    unfolding glyph_rows
    glyph_rows-dot row zero v i j h hi l u = absurd (omega arith)
    glyph_rows-dot row (suc left) v i j h hi l u = elim (cases l) [
      | inl e ↦
          glyph_rows-other (row + 1) left (row_step v row) (x + i) (y + j) (omega arith)
            (omega arith) (inr (inr (inl (omega arith))))
          ∙ ap (λ r. row_step v row (at (x + i) r)) (here e)
          ∙ glyph_row-dot x (add32 y row) fg bg (get_or glyph row 0) hx (omega (arith, row_eq row))
              0 8 v i (omega arith) (omega arith) hi
          ∙ ap (λ t. dot fb fg bg (get_or glyph t 0) i) (sym e)
      | inr lt ↦
          glyph_rows-dot (row + 1) left (row_step v row) i j (omega arith) hi (omega arith)
            (omega arith)
    ]
      where
        cases : {j row : ℕ} → row ≤ j → (j ≡ row) ⊎ (row + 1 ≤ j)
        cases l = omega arith

        here : j ≡ row → y + j ≡ add32 y row
        here e = omega (arith, row_eq row)

  -- A character whose cell of 8 by 16 pixels is on the screen is drawn as its glyph, that of the
  -- space if the font has none for it: a pixel of the cell has the foreground colour where the font
  -- has a bit, of the row's byte the one of place value 2 ^ (7 - i) for column i, and the background
  -- colour where it has none, and every other pixel of the screen keeps its colour.
  pub fb_draw_char-glyph :
      (v : Vram) (x y c k fg bg : ℕ)
      → Shows c k
      → x + 8 ≤ fb.width
      → y + 16 ≤ fb.height
      → ((i j : ℕ)
          → i < 8
          → j < 16
          → let drawn = fb_draw_char fb v x y c fg bg ((y + j) * fb.pitch_px + (x + i)) in
            (ink k i j ≡ 1 → drawn ≡ fg) × (ink k i j ≡ 0 → drawn ≡ bg))
        × ((q r : ℕ)
            → q < fb.width
            → (q < x) ⊎ ((x + 8 ≤ q) ⊎ ((r < y) ⊎ (y + 16 ≤ r)))
            → fb_draw_char fb v x y c fg bg (r * fb.pitch_px + q) ≡ v (r * fb.pitch_px + q))
  unfolding fb_draw_char
  fb_draw_char-glyph v x y c k fg bg shows hx hy =
      let row = λ (j : ℕ). get_or (get_or fb_font_8x16 k []) j 0 in
      let drawn = λ (i j : ℕ) (hi : i < 8) (hj : j < 16).
        glyph_rows-dot x y fg bg (glyph_of fb c) hx hy 0 16 v i j (omega arith) hi (omega arith)
          (omega arith)
        ∙ ap (λ g. dot fb fg bg (get_or g j 0) i) (glyph_of-Shows fb c k shows) in
      simp s.is_ready (
        λ i j hi hj. (
          λ one. drawn i j hi hj ∙ (dot-ink fb fg bg (row j) i hi).0 one,
          λ none. drawn i j hi hj ∙ (dot-ink fb fg bg (row j) i hi).1 none,
        ),
        λ q r hq o.
            glyph_rows-other x y fg bg (glyph_of fb c) hx hy 0 16 v q r (omega arith) hq
              (omega arith),
      )
