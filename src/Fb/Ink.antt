-- ===== src/Fb/Ink.antt =====
-- kernel/fb.h: which pixels of a character's cell the font inks, read off the table by place value.
use samos.Base.{
  ℕ, zero, suc, ◌+◌, ◌-◌, ◌*◌, ◌/◌, ◌%◌, ◌^◌, ◌<◌, ◌≤◌, ◌≡◌, ◌⊎◌, refl, ap, ◌∙◌, arith, ltb, ◌||◌,
  if◌then◌else◌, [], get_or, bit_and, bit_and-mask, bit_and-shift, ◌>>>◌,
}
use native.Mathlib.Nat.{one-le-pow}
use samos.Fb.Font.{fb_font_8x16}
use samos.Fb.{SamFb, dot, glyph_of}

-- The table of the font begins with the space, 32, and has 96 glyphs. A code without a glyph is
-- shown as a space.
pub data Shows : ℕ → ℕ → Type 0 where
  has_glyph : (k : ℕ) → k < 96 → Shows (32 + k) k
  no_glyph : (c : ℕ) → (c < 32) ⊎ (127 < c) → Shows c 0

-- The pixel in column `i` and row `j` of glyph `k`: 1 if it is inked. A row is a byte, whose highest
-- digit is the leftmost pixel.
abbrev pub ink : ℕ → ℕ → ℕ → ℕ
ink k i j = get_or (get_or fb_font_8x16 k []) j 0 / 2 ^ (7 - i) % 2

pub glyph_of-Shows : (fb : SamFb) (c k : ℕ) → Shows c k → glyph_of fb c ≡ get_or fb_font_8x16 k []
glyph_of-Shows fb _ _ (has_glyph k h) =
    let n : (if ltb (32 + k) 32 || ltb 127 (32 + k) then 32 else 32 + k) - 32 ≡ k = ground arith in
    ap (λ t. get_or fb_font_8x16 t []) n
glyph_of-Shows fb _ _ (no_glyph c h) =
    let n : (if ltb c 32 || ltb 127 c then 32 else c) - 32 ≡ 0 = ground arith in
    ap (λ t. get_or fb_font_8x16 t []) n

mask_at : (i : ℕ) → i < 8 → 0x80 / 2 ^ i ≡ 1 * 2 ^ (7 - i)
mask_at zero h = refl
mask_at (suc zero) h = refl
mask_at (suc (suc zero)) h = refl
mask_at (suc (suc (suc zero))) h = refl
mask_at (suc (suc (suc (suc zero)))) h = refl
mask_at (suc (suc (suc (suc (suc zero))))) h = refl
mask_at (suc (suc (suc (suc (suc (suc zero)))))) h = refl
mask_at (suc (suc (suc (suc (suc (suc (suc zero))))))) h = refl
mask_at (suc (suc (suc (suc (suc (suc (suc (suc i)))))))) h = absurd (omega arith)

masked : (bits i : ℕ) → i < 8 → bit_and bits (0x80 >>> i) ≡ bits / 2 ^ (7 - i) % 2 * 2 ^ (7 - i)
masked bits i h =
    ap (bit_and bits) (mask_at i h)
    ∙ bit_and-shift (7 - i) bits 1
    ∙ ap (λ t. t * 2 ^ (7 - i)) (bit_and-mask 1 (bits / 2 ^ (7 - i)))

-- The foreground where the digit is 1, the background where it is 0.
pub dot-ink :
    (fb : SamFb) (fg bg bits i : ℕ)
    → i < 8
    → (bits / 2 ^ (7 - i) % 2 ≡ 1 → dot fb fg bg bits i ≡ fg)
      × (bits / 2 ^ (7 - i) % 2 ≡ 0 → dot fb fg bg bits i ≡ bg)
dot-ink fb fg bg bits i h =
    let pos : 1 ≤ 2 ^ (7 - i) = one-le-pow (7 - i) 2 (omega arith) in
    let m = masked bits i h in
    (
      λ one.
          let v : bit_and bits (0x80 >>> i) ≡ 2 ^ (7 - i) = m ∙ rw one (omega arith) in
          ground arith,
      λ none. let v : bit_and bits (0x80 >>> i) ≡ 0 = m ∙ rw none (omega arith) in ground arith,
    )
