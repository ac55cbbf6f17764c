-- ===== src/Vmm/Space.antt =====
-- The entries of the tables that `vmm_create_user_as_at` builds in three fresh pages.
use samos.Base.{
  ℕ, zero, suc, ◌+◌, ◌*◌, ◌/◌, ◌%◌, ◌^◌, ◌≤◌, ◌<◌, ◌≡◌, ◌≢◌, inl, inr, arith, ◌∙◌, ap, ◌==◌, Bool,
  true, false, ltb, ◌||◌, Bool-cases, if◌then◌else◌, bit_or, bit_and, add64, sub64, bit_or-fields,
  bit_or-digit, bit_and-digit, bit_or-zero, bit_and-mask,
}
use samos.Vmm.{Words, store64, or_into, fill, kernel_entry, code_page, stack_page, build_tables}
use samos.Vmm.Fill.{store64-ne, store64-eq, fill-outside, fill-inside}
use samos.Vmm.Walk.{user_bit}

bit_or-seven : (x : ℕ) → x % 8 ≡ 0 → bit_or x 7 ≡ x + 7
bit_or-seven x h =
    let e : x ≡ x / 8 * 2 ^ 3 = omega arith in
    ap (λ t. bit_or t 7) e ∙ bit_or-fields 3 (x / 8) 7 (omega arith) ∙ omega arith

-- Setting bit 2 where the three low bits are known.
bit_or-four : (x : ℕ) → x % 8 ≡ 3 → bit_or x 4 ≡ x + 4
bit_or-four x h = omega (
  arith,
  bit_or-digit x 4,
  bit_or-digit (x / 2) 2,
  bit_or-digit (x / 2 / 2) 1,
  bit_or-zero (x / 2 / 2 / 2),
)

bit_or-four_set : (x : ℕ) → x % 8 ≡ 7 → bit_or x 4 ≡ x
bit_or-four_set x h = omega (
  arith,
  bit_or-digit x 4,
  bit_or-digit (x / 2) 2,
  bit_or-digit (x / 2 / 2) 1,
  bit_or-zero (x / 2 / 2 / 2),
)

bit_or-user :
    (b : Bool) (i : ℕ)
    → bit_or (i * 2 ^ 21 + 0x83 + (if b then 4 else 0)) 4
      ≡ i * 2 ^ 21 + 0x83 + (if b || true then 4 else 0)
bit_or-user true i = bit_or-four_set (i * 2 ^ 21 + 0x83 + 4) (omega arith)
bit_or-user false i = bit_or-four (i * 2 ^ 21 + 0x83 + 0) (omega arith) ∙ omega arith

-- `(e & ~4) | 3` has no user bit, whatever `e` is.
pub kernel_entry-user_bit : (t : ℕ) (w : Words) (i : ℕ) → user_bit (kernel_entry t w i) ≡ false
unfolding kernel_entry
kernel_entry-user_bit t w i = ground (
  arith,
  bit_or-digit (bit_and e 0xfffffffffffffffb) 3,
  bit_or-digit (bit_and e 0xfffffffffffffffb / 2) 1,
  bit_or-digit (bit_and e 0xfffffffffffffffb / 2 / 2) 0,
  bit_and-digit e 0xfffffffffffffffb,
  bit_and-digit (e / 2) 0x7ffffffffffffffd,
  bit_and-digit (e / 2 / 2) 0x3ffffffffffffffe,
)
  where
    e : ℕ
    e = w (t + 8 * i)

pub code_page-eq : (base : ℕ) → code_page base ≡ base / 2 ^ 21 % 512
unfolding code_page
code_page-eq base = bit_and-mask 9 (base / 2 ^ 21)

pub stack_page-eq :
    (base : ℕ) → base + 0x400000 < 2 ^ 64 → stack_page base ≡ (base + 0x3fffff) / 2 ^ 21 % 512
unfolding stack_page
stack_page-eq base h = bit_and-mask 9 _ ∙ ap (λ t. t / 2 ^ 21 % 512) (omega arith)

pub code_page_bound : (base : ℕ) → code_page base < 512
code_page_bound base = omega (arith, code_page-eq base)

pub stack_page_bound : (base : ℕ) → stack_page base < 512
unfolding stack_page
stack_page_bound base = omega (arith, bit_and-mask 9 (sub64 (add64 base 0x400000) 1 / 2 ^ 21))

or_into-ne : (w : Words) (a b x : ℕ) → x ≢ a → or_into w a b x ≡ w x
or_into-ne w a b x h = store64-ne w a (bit_or (w a) b) x h

or_into-eq : (w : Words) (a b : ℕ) → or_into w a b a ≡ bit_or (w a) b
or_into-eq w a b = store64-eq w a (bit_or (w a) b)

abbrev identity_value : Words → ℕ → ℕ
identity_value _ i = bit_or (i * 2 ^ 21) 0x83

-- `p` is the PML4, with the PDPT and the page directory in the two pages behind it, all zero.
module _ (t base p : ℕ) (w : Words) (aligned : p % 4096 ≡ 0)
    (zeroed : (x : ℕ) → p ≤ x → x < p + 12288 → x % 8 ≡ 0 → w x ≡ 0) where
  abbrev npdpt : ℕ
  npdpt = p + 4096

  abbrev npd : ℕ
  npd = p + 8192

  abbrev linked : Words
  linked = store64 (store64 w p (bit_or npdpt 0x07)) npdpt (bit_or npd 0x07)

  abbrev kernel : Words
  kernel = fill (kernel_entry t) npdpt 1 3 linked

  abbrev identity : Words
  identity = fill identity_value npd 0 512 kernel

  abbrev with_code : Words
  with_code = or_into identity (npd + 8 * code_page base) 0x04

  abbrev first_link : Words
  first_link = store64 w p (bit_or npdpt 0x07)

  abbrev built : Words
  built = build_tables t base p npdpt npd w

  code_page-lt : code_page base < 512
  code_page-lt = code_page_bound base

  stack_page-lt : stack_page base < 512
  stack_page-lt = stack_page_bound base

  below_pd : (x : ℕ) → x < npd → built x ≡ kernel x
  unfolding build_tables
  below_pd x h =
      or_into-ne with_code (npd + 8 * stack_page base) 4 x (omega arith)
      ∙ or_into-ne identity (npd + 8 * code_page base) 4 x (omega arith)
      ∙ fill-outside identity_value npd 0 512 kernel x (omega arith)

  pub pml4_first : built p ≡ npdpt + 7
  pml4_first =
      below_pd p (omega arith)
      ∙ fill-outside (kernel_entry t) npdpt 1 3 linked p (omega arith)
      ∙ store64-ne first_link npdpt (bit_or npd 7) p (omega arith)
      ∙ store64-eq w p (bit_or npdpt 7)
      ∙ bit_or-seven npdpt (omega arith)

  pub pml4_rest : (i : ℕ) → 0 < i → i < 512 → built (p + 8 * i) ≡ 0
  pml4_rest i l u =
      below_pd (p + 8 * i) (omega arith)
      ∙ fill-outside (kernel_entry t) npdpt 1 3 linked (p + 8 * i) (omega arith)
      ∙ store64-ne first_link npdpt (bit_or npd 7) (p + 8 * i) (omega arith)
      ∙ store64-ne w p (bit_or npdpt 7) (p + 8 * i) (omega arith)
      ∙ zeroed (p + 8 * i) (omega arith) (omega arith) (omega arith)

  pub pdpt_first : built npdpt ≡ npd + 7
  pdpt_first =
      below_pd npdpt (omega arith)
      ∙ fill-outside (kernel_entry t) npdpt 1 3 linked npdpt (omega arith)
      ∙ store64-eq first_link npdpt (bit_or npd 7)
      ∙ bit_or-seven npd (omega arith)

  -- The loop over the three kernel entries, whatever the boot tables hold.
  kernel_entries :
      (j n : ℕ) (v : Words) (i : ℕ)
      → j ≤ i
      → i < j + n
      → user_bit (fill (kernel_entry t) npdpt j n v (npdpt + 8 * i)) ≡ false
  unfolding fill
  kernel_entries j zero v i l u = absurd (omega arith)
  kernel_entries j (suc n) v i l u = elim (Bool-cases (i == j)) [
    | inl e ↦
        let e' : i ≡ j = ground arith in
        rw
          (
            e',
            fill-outside (kernel_entry t) npdpt (j + 1) n
                (store64 v (npdpt + 8 * j) (kernel_entry t v j)) (npdpt + 8 * j) (omega arith),
            store64-eq v (npdpt + 8 * j) (kernel_entry t v j),
          )
          (kernel_entry-user_bit t v j)
    | inr ne ↦
        kernel_entries (j + 1) n (store64 v (npdpt + 8 * j) (kernel_entry t v j)) i (ground arith)
          (omega arith)
  ]

  pub pdpt_rest : (i : ℕ) → 0 < i → i < 512 → user_bit (built (npdpt + 8 * i)) ≡ false
  pdpt_rest i l u = elim (Bool-cases (ltb i 4)) [
    | inl low ↦
        rw (below_pd (npdpt + 8 * i) (omega arith)) (kernel_entries 1 3 linked i l (ground arith))
    | inr high ↦ rw (zero_entry (ground arith))
  ]
    where
      zero_entry : 4 ≤ i → built (npdpt + 8 * i) ≡ 0
      zero_entry h =
          below_pd (npdpt + 8 * i) (omega arith)
          ∙ fill-outside (kernel_entry t) npdpt 1 3 linked (npdpt + 8 * i) (omega arith)
          ∙ store64-ne first_link npdpt (bit_or npd 7) (npdpt + 8 * i) (omega arith)
          ∙ store64-ne w p (bit_or npdpt 7) (npdpt + 8 * i) (omega arith)
          ∙ zeroed (npdpt + 8 * i) (omega arith) (omega arith) (omega arith)

  identity_entry : (i : ℕ) → i < 512 → identity (npd + 8 * i) ≡ i * 2 ^ 21 + 0x83
  identity_entry i h =
      fill-inside (λ j. bit_or (j * 2 ^ 21) 0x83) npd 0 512 kernel i (omega arith) (omega arith)
      ∙ bit_or-fields 21 i 0x83 (omega arith)

  with_code_entry :
      (i : ℕ)
      → i < 512
      → with_code (npd + 8 * i) ≡ i * 2 ^ 21 + 0x83 + (if i == code_page base then 4 else 0)
  with_code_entry i h = elim (Bool-cases (i == code_page base)) [
    | inl c ↦
        let c' : i ≡ code_page base = ground arith in
        rw (c, ← c')
          (or_into-eq identity (npd + 8 * i) 4
            ∙ rw (identity_entry i h) (bit_or-four (i * 2 ^ 21 + 0x83) (omega arith)))
    | inr c ↦ rw c (
        or_into-ne identity (npd + 8 * code_page base) 4 (npd + 8 * i) (ground arith)
        ∙ identity_entry i h
        ∙ omega arith)
  ]

  -- A page-directory entry: identity, 2 MiB, present and writable; user in the window's two pages.
  pub pd_entry :
      (i : ℕ)
      → i < 512
      → built (npd + 8 * i)
        ≡ i * 2 ^ 21 + 0x83 + (if i == code_page base || i == stack_page base then 4 else 0)
  unfolding build_tables
  pd_entry i h = elim (Bool-cases (i == stack_page base)) [
    | inl s ↦
        let s' : i ≡ stack_page base = ground arith in
        rw (s, ← s')
          (or_into-eq with_code (npd + 8 * i) 4
            ∙ rw (with_code_entry i h) (bit_or-user (i == code_page base) i))
    | inr s ↦ rw s (
        or_into-ne with_code (npd + 8 * stack_page base) 4 (npd + 8 * i) (ground arith)
        ∙ with_code_entry i h
        ∙ ground arith)
  ]
