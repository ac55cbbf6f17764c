-- ===== src/Vmm/Isolation.antt =====
-- What `vmm_create_user_as_at` promises: the new address space gives ring 3 its window and nothing
-- else, and the spaces built before stay as they are.
use samos.Base.{
  ℕ, ◌+◌, ◌*◌, ◌/◌, ◌%◌, ◌^◌, ◌≤◌, ◌<◌, ◌≡◌, ◌≢◌, ◌⊎◌, ◌↔◌, inl, inr, refl, arith, ◌∙◌, ap, sym,
  ◌==◌, Bool, bit_or, true, false, ltb, ◌||◌, Bool-cases, some,
}
use mathlib.Core.Path.{subst}
use samos.Vmm.{
  Words, Vmm, store64, or_into, kernel_entry, fill, vmm_alloc_pt, code_page, stack_page,
  build_tables, vmm_create_user_as_at, vmm_pool_base, vmm_pool_size,
}
use samos.Vmm.Fill.{store64-ne, fill-outside}
use samos.Vmm.Walk.{walk, user_access}
use samos.Vmm.Space.{code_page-eq, stack_page-eq, code_page_bound, stack_page_bound}
use samos.Vmm.Pool.{IsPool, three_pages, three_pages-zero, three_pages-outside, create-ok}
use samos.Vmm.Window.{walk_first_gib, walk_above}

-- The page of `va` is the first or the last page of the window from `base` on.
abbrev pub in_end_pages : ℕ → ℕ → Bool
in_end_pages base va = va / 2 ^ 21 == base / 2 ^ 21 || va / 2 ^ 21 == (base + 0x3fffff) / 2 ^ 21

build_tables-outside :
    (t base b : ℕ) (w : Words) (x : ℕ)
    → (x < b) ⊎ (b + 0x3000 ≤ x)
    → build_tables t base b (b + 0x1000) (b + 0x1000 + 0x1000) w x ≡ w x
unfolding build_tables
build_tables-outside t base b w x o =
    store64-ne code (npd + 8 * stack_page base) _ x (omega (arith, stack_page_small))
    ∙ store64-ne identity (npd + 8 * code_page base) _ x (omega (arith, code_page_small))
    ∙ fill-outside _ npd 0 512 kernel x (omega arith)
    ∙ fill-outside (kernel_entry t) npdpt 1 3 linked x (omega arith)
    ∙ store64-ne first npdpt _ x (omega arith)
    ∙ store64-ne w b _ x (omega arith)
  where
    npdpt : ℕ
    npdpt = b + 0x1000

    npd : ℕ
    npd = b + 0x1000 + 0x1000

    first : Words
    first = store64 w b (bit_or npdpt 0x07)

    linked : Words
    linked = store64 first npdpt (bit_or npd 0x07)

    kernel : Words
    kernel = fill (kernel_entry t) npdpt 1 3 linked

    identity : Words
    identity = fill (λ _ i. bit_or (i * 2 ^ 21) 0x83) npd 0 512 kernel

    code : Words
    code = or_into identity (npd + 8 * code_page base) 0x04

    code_page_small : code_page base < 512
    code_page_small = code_page_bound base

    stack_page_small : stack_page base < 512
    stack_page_small = stack_page_bound base

module _ (t : ℕ) (v : Vmm) (base : ℕ) (pool : IsPool v)
    (room : v.bump + 0x3000 ≤ vmm_pool_base + vmm_pool_size) (fits : base + 0x400000 ≤ 2 ^ 30) where
  abbrev space : Vmm
  space = (vmm_create_user_as_at t v base).0

  abbrev cr3 : ℕ
  cr3 = (vmm_create_user_as_at t v base).1

  space_words :
      (va : ℕ)
      → walk space.words cr3 va
        ≡ walk
            (build_tables t base v.bump
              (v.bump + 4096)
              (v.bump + 8192)
              (three_pages v.bump v.words))
            v.bump
            va
  space_words va =
      let e : v.bump + 0x1000 + 0x1000 ≡ v.bump + 8192 = omega arith in
      ap (λ (r : Vmm × ℕ). walk r.0.words r.1 va) (create-ok t v base pool room) ∙ rw e

  -- In the first GiB the new space is the identity map, and ring 3 has the first and the last
  -- 2 MiB page of the window, aligned or not. The pool has three pages left and the window lies in
  -- the first GiB.
  pub walk-space :
      (va : ℕ) → va < 2 ^ 30 → walk space.words cr3 va ≡ some (va, in_end_pages base va)
  walk-space va h =
      space_words va
      ∙ walk_first_gib t base v.bump (three_pages v.bump v.words) pool.aligned (omega arith)
          (λ x l u e. three_pages-zero v.bump v.words x pool.aligned l u e) va h
      ∙ rw (code_page-eq base, stack_page-eq base (omega arith), first, last)
    where
      first : base / 2 ^ 21 % 512 ≡ base / 2 ^ 21
      first = omega arith

      last : (base + 0x3fffff) / 2 ^ 21 % 512 ≡ (base + 0x3fffff) / 2 ^ 21
      last = omega arith

  no_access_above : (va : ℕ) → 2 ^ 30 ≤ va → va < 2 ^ 48 → user_access space.words cr3 va ≡ false
  no_access_above va l u = rw (space_words va) (
      walk_above t base v.bump (three_pages v.bump v.words) pool.aligned (omega arith)
        (λ x l u e. three_pages-zero v.bump v.words x pool.aligned l u e) va l u)

  -- Isolation: with `base` aligned to 2 MiB, ring 3 may touch exactly [base, base + 4 MiB) of the
  -- 48-bit address space. The pool has three pages left and the window lies in the first GiB.
  pub user_access_iff :
      (va : ℕ)
      → base % 2 ^ 21 ≡ 0
      → va < 2 ^ 48
      → (user_access space.words cr3 va ≡ true) ↔ ((base ≤ va) × (va < base + 0x400000))
  user_access_iff va a u = elim (Bool-cases (ltb va (2 ^ 30))) [
    | inl low ↦ let low' : va < 2 ^ 30 = ground arith in rw (walk-space va low') (ground arith)
    | inr high ↦
        let high' : 2 ^ 30 ≤ va = ground arith in rw (no_access_above va high' u) (ground arith)
  ]

  -- With `base` not aligned to 2 MiB the window has a hole of 2 MiB in its middle that ring 3 may
  -- not touch, and ring 3 may touch the addresses below `base` in the page of `base`. The pool has
  -- three pages left and the window lies in the first GiB.
  pub user_access_unaligned :
      base % 2 ^ 21 ≢ 0
      → ((va : ℕ)
          → va / 2 ^ 21 ≡ base / 2 ^ 21 + 1
          → (base ≤ va) × (va < base + 0x400000) × (user_access space.words cr3 va ≡ false))
        × ((va : ℕ)
            → base / 2 ^ 21 * 2 ^ 21 ≤ va
            → va < base
            → user_access space.words cr3 va ≡ true)
  user_access_unaligned a = (
    λ va h. (omega arith, omega arith, rw (walk-space va (omega arith)) (ground arith)),
    λ va l u. rw (walk-space va (omega arith)) (ground arith),
  )

  -- The pool stays well-formed, the new PML4 lies where the pool ended, and no word outside the
  -- three fresh pages changes: the spaces built before are intact. The pool has three pages left
  -- and the window lies in the first GiB.
  pub create-keeps :
      IsPool space
      × (cr3 ≡ v.bump)
      × (space.bump ≡ v.bump + 0x3000)
      × ((x : ℕ) → (x < v.bump) ⊎ (v.bump + 0x3000 ≤ x) → space.words x ≡ v.words x)
  create-keeps =
      subst
        (λ (r : Vmm × ℕ).
          IsPool r.0
          × (r.1 ≡ v.bump)
          × (r.0.bump ≡ v.bump + 0x3000)
          × ((x : ℕ) → (x < v.bump) ⊎ (v.bump + 0x3000 ≤ x) → r.0.words x ≡ v.words x))
        (sym (create-ok t v base pool room))
        (
          omega arith,
          refl,
          omega arith,
          λ x o.
              build_tables-outside t base v.bump (three_pages v.bump v.words) x o
              ∙ three_pages-outside v.bump v.words x (omega arith),
        )

-- Out of pages: with fewer than three left, `vmm_create_user_as_at` returns 0, and the pool stays
-- well-formed (the pages it could take are gone).
pub create-full :
    (t : ℕ) (v : Vmm) (base : ℕ)
    → IsPool v
    → vmm_pool_base + vmm_pool_size < v.bump + 0x3000
    → ((vmm_create_user_as_at t v base).1 ≡ 0) × IsPool (vmm_create_user_as_at t v base).0
unfolding vmm_create_user_as_at vmm_alloc_pt
create-full t v base pool h = ground arith
