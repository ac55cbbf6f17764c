-- ===== src/Acpi/Rsdp.antt =====
-- The search for the RSDP, against what an RSDP is.
use samos.Base.{
  ℕ, zero, suc, ◌+◌, ◌*◌, ◌<◌, ◌≤◌, ◌^◌, ◌≡◌, ◌⊎◌, inl, inr, refl, sym, ap, ◌∙◌, arith, true, false,
  ◌&&◌, leb, ltb, if-cases, Option, some, none, Memory, add32, IsBytes,
}
use mathlib.Core.Path.{subst}
use samos.Acpi.Signature.{IsRsdp, is_rsdp-IsRsdp, IsRsdp-is_rsdp}
use samos.Acpi.{is_rsdp, rsdp_loop, ebda_phys, or_bios, acpi_find_rsdp}

module _ (m : Memory) where
  -- What the code's search of `n` candidates from `a` on gives, in terms of its own test.
  Searched : ℕ → ℕ → Option ℕ → Type 0
  Searched a n (some r) =
      (k : ℕ) × (k < n)
      × (r ≡ a + 16 * k)
      × (is_rsdp m r ≡ true)
      × ((j : ℕ) → j < k → is_rsdp m (a + 16 * j) ≡ false)
  Searched a n none = (j : ℕ) → j < n → is_rsdp m (a + 16 * j) ≡ false

  at_first : (a : ℕ) → is_rsdp m (a + 16 * 0) ≡ is_rsdp m a
  at_first a = ap (is_rsdp m) (omega arith)

  earlier :
      (a : ℕ)
      → is_rsdp m a ≡ false
      → (j : ℕ) → ((i : ℕ) → suc i ≡ j → is_rsdp m (a + 16 + 16 * i) ≡ false)
      → is_rsdp m (a + 16 * j) ≡ false
  earlier a h zero later = at_first a ∙ h
  earlier a h (suc i) later = ap (is_rsdp m) (omega arith) ∙ later i refl

  Searched-next :
      (a n : ℕ) (o : Option ℕ) → is_rsdp m a ≡ false → Searched (a + 16) n o → Searched a (suc n) o
  unfolding Searched
  Searched-next a n none h f = λ j l. earlier a h j (λ i e. f i (omega arith))
  Searched-next a n (some r) h (k, l, e, is, first) =
      (suc k, omega arith, omega arith, is, λ j l'. earlier a h j (λ i e'. first i (omega arith)))

  rsdp_loop-Searched : (a n : ℕ) → a + 16 * n < 2 ^ 32 → Searched a n (rsdp_loop m a n)
  unfolding rsdp_loop Searched
  rsdp_loop-Searched a zero f = λ j l. absurd (omega arith)
  rsdp_loop-Searched a (suc n) f =
      if-cases (Searched a (suc n)) (is_rsdp m a)
        (λ e. (0, omega arith, omega arith, e, λ j l. absurd (omega arith)))
        (λ e. Searched-next a n (rsdp_loop m (add32 a 16) n) e (
          subst (λ b. Searched b n (rsdp_loop m (add32 a 16) n)) (omega arith)
            (rsdp_loop-Searched (add32 a 16) n (omega arith))))

  -- What a search of `n` addresses from `a` on, 16 bytes apart, is to find: the first at which an
  -- RSDP lies, or there is none.
  pub IsFirst : ℕ → ℕ → Option ℕ → Type 0
  IsFirst a n (some r) =
      (k : ℕ) × (k < n)
      × (r ≡ a + 16 * k)
      × IsRsdp m r
      × ((j : ℕ) → j < k → ¬ IsRsdp m (a + 16 * j))
  IsFirst a n none = (j : ℕ) → j < n → ¬ IsRsdp m (a + 16 * j)

  refuted : (r : ℕ) → r < 2 ^ 32 → is_rsdp m r ≡ false → ¬ IsRsdp m r
  refuted r h e is = different (sym e ∙ IsRsdp-is_rsdp m r (omega arith) is)
    where
      different : false ≡ true → ⊥
      different q = ground arith

  Searched-IsFirst : (a n : ℕ) (o : Option ℕ) → a + 16 * n < 2 ^ 32 → Searched a n o → IsFirst a n o
  unfolding Searched IsFirst
  Searched-IsFirst a n none f s = λ j l. refuted (a + 16 * j) (omega arith) (s j l)
  Searched-IsFirst a n (some r) f (k, l, e, is, first) = (
    k,
    l,
    e,
    is_rsdp-IsRsdp m r (omega arith) is,
    λ j h. refuted (a + 16 * j) (omega arith) (first j h),
  )

  rsdp_loop-IsFirst : (a n : ℕ) → a + 16 * n < 2 ^ 32 → IsFirst a n (rsdp_loop m a n)
  rsdp_loop-IsFirst a n f = Searched-IsFirst a n (rsdp_loop m a n) f (rsdp_loop-Searched a n f)

  -- The address of the EBDA: the BIOS keeps its segment in the word at 0x40E.
  abbrev pub ebda : ℕ
  ebda = (m 0x40E + 256 * m 0x40F) * 16

  -- It lies where an EBDA can lie.
  abbrev pub HasEbda : Type 0
  HasEbda = (0x80000 ≤ ebda) × (ebda < 0xA0000)

  abbrev pub InEbda : Option ℕ → Type 0
  InEbda none = ⊥
  InEbda (some r) = HasEbda × IsFirst ebda 64 (some r)

  abbrev pub InBios : Option ℕ → Type 0
  InBios o = (HasEbda → IsFirst ebda 64 none) × IsFirst 0xE0000 8192 o

  from_ebda :
      HasEbda → (o : Option ℕ) → IsFirst ebda 64 o → InEbda (or_bios m o) ⊎ InBios (or_bios m o)
  from_ebda h none f = inr (λ h'. f, rsdp_loop-IsFirst 0xE0000 8192 (omega arith))
  from_ebda h (some r) f = inl (h, f)

  -- In a memory of bytes, `acpi_find_rsdp` returns the first address, of those 16 bytes apart, that
  -- holds the eight characters of the signature and 20 bytes whose sum is a multiple of 256: in the
  -- first KiB of the EBDA if the BIOS names one between 512 KiB and 640 KiB, and else, if none is
  -- there, in the BIOS area from 0xE0000 to 1 MiB; NULL only if neither has one.
  pub acpi_find_rsdp-IsFirst : IsBytes m → InEbda (acpi_find_rsdp m) ⊎ InBios (acpi_find_rsdp m)
  unfolding acpi_find_rsdp
  acpi_find_rsdp-IsFirst is_byte =
      let at : ebda_phys m ≡ ebda = omega (arith, is_byte 0x40E, is_byte 0x40F) in
      if-cases (λ (o : Option ℕ). InEbda (or_bios m o) ⊎ InBios (or_bios m o))
        (leb 0x80000 (ebda_phys m) && ltb (ebda_phys m) 0xA0000)
        (λ e.
          let h : HasEbda = (ground arith, ground arith) in
          from_ebda h (rsdp_loop m (ebda_phys m) 64) (
            subst (λ b. IsFirst b 64 (rsdp_loop m (ebda_phys m) 64)) at
              (rsdp_loop-IsFirst (ebda_phys m) 64 (omega arith))))
        (λ e. inr (λ h. absurd (no_ebda at e h), rsdp_loop-IsFirst 0xE0000 8192 (omega arith)))
    where
      no_ebda :
          ebda_phys m ≡ ebda
          → (leb 0x80000 (ebda_phys m) && ltb (ebda_phys m) 0xA0000) ≡ false
          → HasEbda
          → ⊥
      no_ebda at e h = ground arith
