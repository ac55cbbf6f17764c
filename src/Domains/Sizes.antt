-- ===== src/Domains/Sizes.antt =====
-- The layout that `compute_domain_sizes` gives for every amount of memory and every boot mode.
use samos.Base.{ℕ, ◌+◌, ◌≤◌, ◌<◌, ◌≡◌, refl, arith, true, inl, List, [], ◌∷◌, take}
use mathlib.Core.Path.{subst}
use samos.Elf.{user_code_base}
use samos.Domains.Disjoint.{IsTable, empty-IsTable, domain_alloc-IsTable, domain_alloc-free}
use samos.Domains.{
  Domain, AllocResult, allocated, domain_alloc, DomainSizes, mib, tier_sizes, compute_domain_sizes,
}

-- The sizes are those of the tiers, and the bases follow one another without wrapping.
pub record IsLayout (s : DomainSizes) : Type 0 where
  pub from_start : s.ai_base ≡ 0x200000
  pub game_next : s.game_base ≡ s.ai_base + s.ai_size
  pub general_next : s.general_base ≡ s.game_base + s.game_size
  pub ai_some : 0 < s.ai_size
  pub game_some : 0 < s.game_size
  pub general_some : 0 < s.general_size
  pub bounded : s.general_base + s.general_size ≤ 0x200000 + mib 1280

-- The three domains lie one behind the other from 2 MiB on, without a gap or an overlap; none is
-- empty and together they take at most 1280 MiB.
pub compute_domain_sizes-IsLayout : (ram_mb mode : ℕ) → IsLayout (compute_domain_sizes ram_mb mode)
unfolding compute_domain_sizes tier_sizes
compute_domain_sizes-IsLayout ram_mb mode = record {
  from_start = refl;
  game_next = ground arith;
  general_next = ground arith;
  ai_some = ground arith;
  game_some = ground arith;
  general_some = ground arith;
  bounded = ground arith;
}

-- With 1 GiB of memory or more, in every boot mode, the three domains together cover the address
-- at which user programs are loaded.
pub compute_domain_sizes-covers :
    (ram_mb mode : ℕ)
    → 1024 ≤ ram_mb
    → let s = compute_domain_sizes ram_mb mode in
      (s.ai_base ≤ user_code_base) × (user_code_base < s.general_base + s.general_size)
unfolding compute_domain_sizes tier_sizes
compute_domain_sizes-covers ram_mb mode h = ground arith

-- The domains as `kernel_main` registers them, one after the other.
abbrev pub register :
    DomainSizes
    → List ℕ
    → List ℕ
    → List ℕ
    → List Domain × (AllocResult × (AllocResult × AllocResult))
register s ai game general =
    let (t1, r1) = domain_alloc [] 0x10 s.ai_base s.ai_size ai in
    let (t2, r2) = domain_alloc t1 0x20 s.game_base s.game_size game in
    let (t3, r3) = domain_alloc t2 0x30 s.general_base s.general_size general in
    (t3, (r1, (r2, r3)))

abbrev pub entry : ℕ → ℕ → ℕ → List ℕ → Domain
entry id base size name = record {
  id = id;
  base = base;
  size = size;
  active = true;
  name = take 15 name;
}

layout-registers :
    (s : DomainSizes) (ai game general : List ℕ)
    → IsLayout s
    → register s ai game general ≡ (
      entry 0x10 s.ai_base s.ai_size ai
          ∷ entry 0x20 s.game_base s.game_size game
          ∷ entry 0x30 s.general_base s.general_size general
          ∷ [],
      (allocated, (allocated, allocated)),
    )
layout-registers s ai game general l = rw (first, second, third) refl
  where
    e1 : Domain
    e1 = entry 0x10 s.ai_base s.ai_size ai

    e2 : Domain
    e2 = entry 0x20 s.game_base s.game_size game

    first : domain_alloc [] 0x10 s.ai_base s.ai_size ai ≡ (e1 ∷ [], allocated)
    first =
        domain_alloc-free [] 0x10 s.ai_base s.ai_size ai empty-IsTable
          (omega (arith, l.from_start, l.game_next, l.general_next, l.bounded)) (omega arith) tt

    t1 : IsTable (e1 ∷ [])
    t1 =
        subst (λ (r : List Domain × AllocResult). IsTable r.0) first
          (domain_alloc-IsTable [] 0x10 s.ai_base s.ai_size ai empty-IsTable l.ai_some
            (omega (arith, l.from_start, l.game_next, l.general_next, l.bounded)))

    second : domain_alloc (e1 ∷ []) 0x20 s.game_base s.game_size game ≡ (e1 ∷ e2 ∷ [], allocated)
    second =
        domain_alloc-free (e1 ∷ []) 0x20 s.game_base s.game_size game t1
          (omega (arith, l.from_start, l.game_next, l.general_next, l.bounded)) (omega arith)
          (inl (omega (arith, l.game_next)), tt)

    t2 : IsTable (e1 ∷ e2 ∷ [])
    t2 =
        subst (λ (r : List Domain × AllocResult). IsTable r.0) second
          (domain_alloc-IsTable (e1 ∷ []) 0x20 s.game_base s.game_size game t1 l.game_some
            (omega (arith, l.from_start, l.game_next, l.general_next, l.bounded)))

    third :
        domain_alloc (e1 ∷ e2 ∷ []) 0x30 s.general_base s.general_size general
        ≡ (e1 ∷ e2 ∷ entry 0x30 s.general_base s.general_size general ∷ [], allocated)
    third =
        domain_alloc-free (e1 ∷ e2 ∷ []) 0x30 s.general_base s.general_size general t2
          (omega (arith, l.from_start, l.game_next, l.general_next, l.bounded)) (omega arith)
          (
            inl (omega (arith, l.game_next, l.general_next)),
            (inl (omega (arith, l.general_next)), tt),
          )

-- For every amount of memory and every boot mode, the three domains of the computed layout are all
-- accepted by `domain_alloc` when they are registered in order in an empty table, which then holds
-- exactly them.
pub compute_domain_sizes-registers :
    (ram_mb mode : ℕ) (ai game general : List ℕ)
    → let s = compute_domain_sizes ram_mb mode in
      register s ai game general ≡ (
        entry 0x10 s.ai_base s.ai_size ai
            ∷ entry 0x20 s.game_base s.game_size game
            ∷ entry 0x30 s.general_base s.general_size general
            ∷ [],
        (allocated, (allocated, allocated)),
      )
compute_domain_sizes-registers ram_mb mode ai game general =
    layout-registers (compute_domain_sizes ram_mb mode) ai game general
      (compute_domain_sizes-IsLayout ram_mb mode)
