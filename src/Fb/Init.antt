-- ===== src/Fb/Init.antt =====
-- `fb_init` over a list of multiboot2 tags, and numbers drawn as they are printed.
use samos.Base.{
  ℕ, zero, suc, ◌+◌, ◌*◌, ◌<◌, ◌^◌, ◌%◌, ◌/◌, ◌≡◌, ◌≢◌, refl, ap, arith, inl, inr, Option, some,
  none, Bool, true, false, Bool-cases, if◌then◌else◌, ◌==◌, Memory, load32, add64, List, [], ◌∷◌,
  length, ne→==,
}
use samos.Serial.{dec_digits, serial_putdec, serial_putchar}
use samos.Serial.Numbers.{serial_puts-digits, dec_digits-IsDigits}
use samos.Fb.{
  SamFb, ModeSet, Vram, tag_step, tag_screen, tag_walk, fb_init, fb_vbe_set_mode, fb_draw_str,
  dec_buf, dec_text, fb_draw_dec,
}

-- The tags at `p`: after `n` others comes the end tag, or a framebuffer tag at the address given.
pub data IsTags (m : Memory) : ℕ → ℕ → Option ℕ → Type 0 where
  end : {p : ℕ} → load32 m p ≡ 0 → IsTags m p 0 none
  framebuffer : {p : ℕ} → load32 m p ≡ 8 → IsTags m p 0 (some p)
  other :
      {p n : ℕ} {o : Option ℕ}
      → load32 m p ≢ 0
      → load32 m p ≢ 8
      → tag_step m p ≢ 0
      → IsTags m (add64 p (tag_step m p)) n o
      → IsTags m p (suc n) o

-- The mode that follows: that of a framebuffer tag with 32 bits a pixel, else that of the device.
abbrev pub mode_for : Memory → ℕ → SamFb → Option ℕ → ModeSet
mode_for m id fb none = fb_vbe_set_mode id 1024 768 fb
mode_for m id fb (some p) =
    if m (add64 p 28) == 32
    then record { fb = tag_screen m p; writes = []; code = 1 }
    else fb_vbe_set_mode id 1024 768 fb

some_if :
    {A : Type 0} (b : Bool) (x y : A) → (if b then some x else some y) ≡ some (if b then x else y)
some_if true x y = refl
some_if false x y = refl

module _ (m : Memory) (id : ℕ) (fb : SamFb) where
  tag_walk-IsTags :
      (fuel : ℕ) {p n : ℕ} {o : Option ℕ}
      → n < fuel
      → IsTags m p n o
      → tag_walk m id fb fuel p ≡ some (mode_for m id fb o)
  unfolding tag_walk
  tag_walk-IsTags zero h t = absurd (omega arith)
  tag_walk-IsTags (suc fuel) h (end e) = rw e refl
  tag_walk-IsTags (suc fuel) h (framebuffer {p = p} e) = rw e (some_if (m (add64 p 28) == 32) _ _)
  tag_walk-IsTags (suc fuel) h (other a b c t) =
      rw (ne→== _ _ a, ne→== _ _ b, ne→== _ _ c) (tag_walk-IsTags fuel (omega arith) t)

  -- With one round more than there are tags before the end tag or the first framebuffer tag,
  -- `fb_init` returns: with the mode of that tag if it has 32 bits a pixel, and else with the
  -- mode that it sets on the device, if there is one.
  pub fb_init-IsTags :
      (info n fuel : ℕ) (o : Option ℕ)
      → IsTags m (add64 info 8) n o
      → n < fuel
      → fb_init m id fb fuel info ≡ some (mode_for m id fb o)
  unfolding fb_init
  fb_init-IsTags info n fuel o t h = tag_walk-IsTags fuel h t

dec_buf-dec_digits : (n v : ℕ) (s : List ℕ) → dec_buf n v s ≡ dec_digits n v s
unfolding dec_buf dec_digits
dec_buf-dec_digits zero v s = refl
dec_buf-dec_digits (suc n) v s = elim (Bool-cases (v == 0)) [
  | inl e ↦ rw e refl
  | inr e ↦ rw e (dec_buf-dec_digits n (v / 10) ((48 + v % 10) ∷ s))
]

dec_text-serial_putdec : (v : ℕ) → dec_text v ≡ serial_putdec v
unfolding serial_putdec
dec_text-serial_putdec v = elim (Bool-cases (v == 0)) [
  | inl e ↦ rw e (unfold serial_putchar in refl)
  | inr e ↦
      rw
        (
          e,
          dec_buf-dec_digits 20 v [],
          serial_puts-digits (dec_digits 20 v []) (dec_digits-IsDigits 20 v [] tt),
        )
        refl
]

-- `fb_draw_dec` draws the text that `serial_putdec` sends for the same number, and returns the
-- column behind it, 8 pixels for each character of that text, in 32 bits.
pub fb_draw_dec-serial_putdec :
    (fb : SamFb) (v : Vram) (x y n fg bg : ℕ)
    → fb_draw_dec fb v x y n fg bg
      ≡ (fb_draw_str fb v x y (serial_putdec n) fg bg, (x + 8 * length (serial_putdec n)) % 2 ^ 32)
unfolding fb_draw_dec
fb_draw_dec-serial_putdec fb v x y n fg bg =
    rw (dec_text-serial_putdec n)
      (ap (λ c. (fb_draw_str fb v x y (serial_putdec n) fg bg, c)) (omega arith))
