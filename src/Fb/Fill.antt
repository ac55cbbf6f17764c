-- ===== src/Fb/Fill.antt =====
-- What `fb_fill_rect` paints: exactly the part of the rectangle that is on the screen if its left
-- edge is, and far more if it is not.
use samos.Base.{
  ℕ, zero, suc, ◌+◌, ◌-◌, ◌*◌, ◌<◌, ◌≤◌, ◌^◌, ◌≡◌, ◌⊎◌, inl, inr, refl, sym, ap, ◌∙◌, arith, true,
  false, Bool, if-cases, if◌then◌else◌, ◌&&◌, leb, ltb, store8, u32, sub32,
}
use samos.Fb.{SamFb, Vram, fill_line, fill_rows, clip, fb_fill_rect}

pub fill_line-outside :
    (v : Vram) (line colour col n p : ℕ)
    → (p < line + col) ⊎ (line + col + n ≤ p)
    → fill_line v line colour col n p ≡ v p
unfolding fill_line
fill_line-outside v line colour col zero p h = refl
fill_line-outside v line colour col (suc n) p h =
    fill_line-outside (store8 v (line + col) colour) line colour (col + 1) n p (omega arith)
    ∙ ground arith

fill_line-inside :
    (v : Vram) (line colour col n p : ℕ)
    → line + col ≤ p
    → p < line + col + n
    → fill_line v line colour col n p ≡ colour
unfolding fill_line
fill_line-inside v line colour col zero p l u = absurd (omega arith)
fill_line-inside v line colour col (suc n) p l u = elim (cases p (line + col) l) [
  | inl e ↦
      fill_line-outside (store8 v (line + col) colour) line colour (col + 1) n p (omega arith)
      ∙ ground arith
  | inr lt ↦
      fill_line-inside (store8 v (line + col) colour) line colour (col + 1) n p (omega arith)
        (omega arith)
]
  where
    cases : (p a : ℕ) → a ≤ p → (p ≡ a) ⊎ (a < p)
    cases p a l = omega arith

-- The distance of the first pixel of a row's part of the rectangle from `g_fb.addr`.
abbrev pub row_start : SamFb → ℕ → ℕ → ℕ
row_start fb x row = u32 (row * fb.pitch_px) + x

module _ (fb : SamFb) (x cols colour : ℕ) where
  pub fill_rows-outside :
      (v : Vram) (row n p : ℕ)
      → ((r : ℕ) → row ≤ r → r < row + n → (p < row_start fb x r) ⊎ (row_start fb x r + cols ≤ p))
      → fill_rows fb v x cols colour row n p ≡ v p
  unfolding fill_rows
  fill_rows-outside v row zero p h = refl
  fill_rows-outside v row (suc n) p h =
      fill_rows-outside (fill_line v (row_start fb x row) colour 0 cols) (row + 1) n p
        (λ r l u. h r (omega arith) (omega arith))
      ∙ fill_line-outside v (row_start fb x row) colour 0 cols p
          (elim (h row (omega arith) (omega arith)) [
            | inl l ↦ inl (omega arith)
            | inr u ↦ inr (omega arith)
          ])

  -- A pixel of the colour stays so.
  fill_line-stays :
      (v : Vram) (line col n p : ℕ) → v p ≡ colour → fill_line v line colour col n p ≡ colour
  unfolding fill_line
  fill_line-stays v line col zero p e = e
  fill_line-stays v line col (suc n) p e =
      fill_line-stays (store8 v (line + col) colour) line (col + 1) n p (ground arith)

  fill_rows-stays :
      (v : Vram) (row n p : ℕ) → v p ≡ colour → fill_rows fb v x cols colour row n p ≡ colour
  unfolding fill_rows
  fill_rows-stays v row zero p e = e
  fill_rows-stays v row (suc n) p e =
      fill_rows-stays (fill_line v (row_start fb x row) colour 0 cols) (row + 1) n p
        (fill_line-stays v (row_start fb x row) 0 cols p e)

  pub fill_rows-inside :
      (v : Vram) (row n r p : ℕ)
      → row ≤ r
      → r < row + n
      → row_start fb x r ≤ p
      → p < row_start fb x r + cols
      → fill_rows fb v x cols colour row n p ≡ colour
  unfolding fill_rows
  fill_rows-inside v row zero r p l u a b = absurd (omega arith)
  fill_rows-inside v row (suc n) r p l u a b = elim (cases r row l) [
    | inl e ↦ fill_rows-stays (fill_line v (row_start fb x row) colour 0 cols) (row + 1) n p (
        ap (λ s. fill_line v (row_start fb x s) colour 0 cols p) (sym e)
        ∙ fill_line-inside v (row_start fb x r) colour 0 cols p (omega arith) (omega arith))
    | inr lt ↦
        fill_rows-inside (fill_line v (row_start fb x row) colour 0 cols) (row + 1) n r p
          (omega arith) (omega arith) a b
  ]
    where
      cases : (r a : ℕ) → a ≤ r → (r ≡ a) ⊎ (a < r)
      cases r a l = omega arith

-- A screen whose rows lie one behind the other in fewer than 2 ^ 32 pixels.
pub record IsScreen (fb : SamFb) : Type 0 where
  pub is_ready : fb.ready ≡ true
  pub row_fits : fb.width ≤ fb.pitch_px
  pub screen_fits : fb.height * fb.pitch_px < 2 ^ 32
  pub width_fits : fb.width < 2 ^ 32
  pub height_fits : fb.height < 2 ^ 32

-- The pixel (col, row) of the rectangle.
abbrev pub in_rect : ℕ → ℕ → ℕ → ℕ → ℕ → ℕ → Bool
in_rect x y w h col row = (leb x col && ltb col (x + w)) && (leb y row && ltb row (y + h))

pub rows_apart : (a b p : ℕ) → a < b → a * p + p ≤ b * p
rows_apart a b p h = grind arith

module _ (fb : SamFb) (s : IsScreen fb) where
  pub row_exact : (row : ℕ) → row < fb.height → u32 (row * fb.pitch_px) ≡ row * fb.pitch_px
  row_exact row h = omega (arith, rows_apart row fb.height fb.pitch_px h, s.screen_fits)

  clip_bounds :
      (limit a w : ℕ)
      → a + w < 2 ^ 32
      → (clip fb limit a w ≤ limit)
        × (clip fb limit a w ≤ a + w)
        × ((limit ≤ clip fb limit a w) ⊎ (a + w ≤ clip fb limit a w))
  clip_bounds limit a w h = ground arith

  module _ (v : Vram) (x y w h colour col row : ℕ) (hx : x ≤ fb.width) (hw : x + w < 2 ^ 32)
      (hh : y + h < 2 ^ 32) (hc : col < fb.pitch_px) (hr : row < fb.height) where
    abbrev cols : ℕ
    cols = sub32 (clip fb fb.width x w) x

    abbrev rows : ℕ
    rows = clip fb fb.height y h - y

    -- The columns painted in each row end at the rectangle's or the screen's edge.
    cols_exact :
        (x + cols ≤ fb.width) × (x + cols ≤ x + w) × ((fb.width ≤ x + cols) ⊎ (x + w ≤ x + cols))
    cols_exact =
        let b = clip_bounds fb.width x w hw in
        (omega (arith, s.width_fits), omega (arith, s.width_fits), omega (arith, s.width_fits))

    painted :
        (in_rect x y w h col row && ltb col fb.width) ≡ true
        → fill_rows fb v x cols colour y rows (row * fb.pitch_px + col) ≡ colour
    painted e =
        let b = clip_bounds fb.height y h hh in
        let c = cols_exact in
        let at = row_exact row hr in
        fill_rows-inside fb x cols colour v y rows row (row * fb.pitch_px + col) (ground arith)
          (ground arith) (ground arith) (ground arith)

    column_out :
        (in_rect x y w h col row && ltb col fb.width) ≡ false
        → y ≤ row
        → row < y + h
        → (col < x) ⊎ ((x + w ≤ col) ⊎ (fb.width ≤ col))
    column_out e l u = ground arith

    same_row :
        (in_rect x y w h col row && ltb col fb.width) ≡ false
        → y ≤ row
        → row < y + rows
        → (col < x) ⊎ (x + cols ≤ col)
    same_row e l u =
        let b = clip_bounds fb.height y h hh in
        let c = cols_exact in let o = column_out e l (omega arith) in omega arith

    on_screen : (r : ℕ) → y ≤ r → r < y + rows → r < fb.height
    on_screen r l u = let b = clip_bounds fb.height y h hh in omega arith

    other_row :
        (in_rect x y w h col row && ltb col fb.width) ≡ false
        → (r : ℕ) → y ≤ r
        → r < y + rows
        → (r < row) ⊎ ((r ≡ row) ⊎ (row < r))
        → (row * fb.pitch_px + col < row_start fb x r)
          ⊎ (row_start fb x r + cols ≤ row * fb.pitch_px + col)
    other_row e r l u (inl lt) =
        let at = row_exact r (on_screen r l u) in
        let c = cols_exact in
        let d = rows_apart r row fb.pitch_px lt in inr (omega (arith, s.row_fits))
    other_row e r l u (inr (inl eq)) =
        let at = row_exact row hr in
        let same : row_start fb x r ≡ row * fb.pitch_px + x =
          ap (λ q. row_start fb x q) eq ∙ ap (λ q. q + x) at in
        let o = same_row e (omega arith) (omega arith) in omega arith
    other_row e r l u (inr (inr gt)) =
        let at = row_exact r (on_screen r l u) in
        let d = rows_apart row r fb.pitch_px gt in inl (omega arith)

    trichotomy : (r : ℕ) → (r < row) ⊎ ((r ≡ row) ⊎ (row < r))
    trichotomy r = omega arith

    kept :
        (in_rect x y w h col row && ltb col fb.width) ≡ false
        → fill_rows fb v x cols colour y rows (row * fb.pitch_px + col)
          ≡ v (row * fb.pitch_px + col)
    kept e =
        fill_rows-outside fb x cols colour v y rows (row * fb.pitch_px + col)
          (λ r l u. other_row e r l u (trichotomy r))

  -- A rectangle whose left edge is on the screen and whose corners are `uint32_t`: on the screen,
  -- and in the rest of each row, exactly the pixels of the rectangle that are on the screen get
  -- the colour, and all others keep theirs.
  pub fb_fill_rect-painted :
      (v : Vram) (x y w h colour col row : ℕ)
      → x ≤ fb.width
      → x + w < 2 ^ 32
      → y + h < 2 ^ 32
      → col < fb.pitch_px
      → row < fb.height
      → fb_fill_rect fb v x y w h colour (row * fb.pitch_px + col) ≡ (
          if in_rect x y w h col row && ltb col fb.width
          then colour
          else v (row * fb.pitch_px + col))
  unfolding fb_fill_rect
  fb_fill_rect-painted v x y w h colour col row hx hw hh hc hr = simp s.is_ready (
      if-cases
        (λ c.
          fill_rows fb v x (sub32 (clip fb fb.width x w) x) colour y (clip fb fb.height y h - y)
            (row * fb.pitch_px + col)
          ≡ c)
        (in_rect x y w h col row && ltb col fb.width)
        (painted v x y w h colour col row hx hw hh hc hr)
        (kept v x y w h colour col row hx hw hh hc hr))

  -- A rectangle that lies wholly to the right of the screen is not skipped: the number of columns
  -- wraps round, and from the rectangle's left edge on, in its first row, 2 ^ 32 - (x - width)
  -- pixels get the colour, far behind the screen and its memory. The row is on the screen, the
  -- rectangle is not empty, and its corners are `uint32_t`.
  pub fb_fill_rect-wraps :
      (v : Vram) (x y w h colour c : ℕ)
      → fb.width < x
      → x + w < 2 ^ 32
      → y < fb.height
      → 0 < h
      → y + h < 2 ^ 32
      → c < 2 ^ 32 - (x - fb.width)
      → fb_fill_rect fb v x y w h colour (y * fb.pitch_px + x + c) ≡ colour
  unfolding fb_fill_rect
  fb_fill_rect-wraps v x y w h colour c hx hw hy hh hyh hc =
      let b = clip_bounds fb.height y h hyh in
      let at = row_exact y hy in
      let edge : clip fb fb.width x w ≡ fb.width = ground arith in
      let n : sub32 (clip fb fb.width x w) x ≡ 2 ^ 32 - (x - fb.width) = rw edge (omega arith) in
      simp s.is_ready (
        fill_rows-inside fb x (sub32 (clip fb fb.width x w) x) colour v y
          (clip fb fb.height y h - y) y (y * fb.pitch_px + x + c) (omega arith) (omega arith)
          (omega arith) (omega arith))

  -- A rectangle that ends in the first `rows` rows leaves everything behind them.
  pub fb_fill_rect-below :
      (v : Vram) (x y w h colour rows p : ℕ)
      → x ≤ fb.width
      → x + w < 2 ^ 32
      → y + h ≤ rows
      → rows ≤ fb.height
      → rows * fb.pitch_px ≤ p
      → fb_fill_rect fb v x y w h colour p ≡ v p
  unfolding fb_fill_rect
  fb_fill_rect-below v x y w h colour rows p hx hw hy hr hp =
      let b = clip_bounds fb.height y h (omega (arith, s.height_fits)) in
      let c = clip_bounds fb.width x w hw in
      let n : x + sub32 (clip fb fb.width x w) x ≤ fb.width = omega (arith, s.width_fits) in
      simp s.is_ready (
        fill_rows-outside fb x (sub32 (clip fb fb.width x w) x) colour v y
          (clip fb fb.height y h - y) p
          (λ r l u.
            let at = row_exact r (omega arith) in
            let d = rows_apart r rows fb.pitch_px (omega arith) in inr (omega (arith, s.row_fits))))
