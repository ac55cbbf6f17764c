-- ===== src/Domains.antt =====
-- The memory domains: the table of `domain_alloc` (kernel/main.c) and the sizes that
-- `compute_domain_sizes` (kernel/boot_config.h) gives them. The table is the list of its first
-- `domain_count` entries.
pub mod Disjoint
pub mod Sizes
mod Tests
use samos.Base.{
  ℕ, zero, suc, ◌+◌, ◌*◌, ◌^◌, Bool, true, false, ◌&&◌, not, ltb, leb, ◌==◌, if◌then◌else◌, List,
  [], ◌∷◌, ◌++◌, length, take, add64, u64,
}

-- MAX_DOMAINS
abbrev pub max_domains : ℕ
max_domains = 8

-- `sam_domain_t`
pub record Domain : Type 0 where
  pub id : ℕ
  pub base : ℕ
  pub size : ℕ
  pub active : Bool
  pub name : List ℕ

-- What `domain_alloc` returns: 0, -1 and -2.
pub data AllocResult : Type 0 where
  allocated table_full overlaps : AllocResult

-- The two ranges meet, as the loop of `domain_alloc` tests it, in 64 bits.
abbrev pub meets : ℕ → ℕ → Domain → Bool
meets base size d = ltb base (add64 d.base d.size) && ltb d.base (add64 base size)

-- The loop of `domain_alloc`: some active entry meets the range.
pub any_meets : ℕ → ℕ → List Domain → Bool
any_meets base size [] = false
any_meets base size (d ∷ ds) =
    let rest = any_meets base size ds in
    if not (Domain.active d) then rest else (if meets base size d then true else rest)

pub domain_alloc : List Domain → ℕ → ℕ → ℕ → List ℕ → List Domain × AllocResult
domain_alloc table id base size name =
    if leb max_domains (length table)
    then (table, table_full)
    else if any_meets base size table
    then (table, overlaps)
    else (
      table
          ++ (record { id = id; base = base; size = size; active = true; name = take 15 name }
              ∷ []),
      allocated,
    )

-- `domain_sizes_t`
pub record DomainSizes : Type 0 where
  pub ai_size : ℕ
  pub game_size : ℕ
  pub general_size : ℕ
  pub ai_base : ℕ
  pub game_base : ℕ
  pub general_base : ℕ

-- The BOOT_MODE_* numbers, DOMAIN_AI_BASE and MiB(n)
abbrev pub boot_mode_ai : ℕ
boot_mode_ai = 0

abbrev pub boot_mode_game : ℕ
boot_mode_game = 1

abbrev pub boot_mode_general : ℕ
boot_mode_general = 2

abbrev pub domain_ai_base : ℕ
domain_ai_base = 0x0200000

abbrev pub mib : ℕ → ℕ
mib n = n * 2 ^ 20

-- The sizes by tier, in the order AI, game, general.
pub tier_sizes : ℕ → ℕ × (ℕ × ℕ)
tier_sizes ram_mb =
    if ltb ram_mb 512
    then (mib 64, (mib 32, mib 32))
    else if ltb ram_mb 1024
    then (mib 128, (mib 64, mib 64))
    else if ltb ram_mb 2048
    then (mib 256, (mib 96, mib 96))
    else (mib 512, (mib 128, mib 128))

-- The primary domain of the mode is doubled.
abbrev pub boosted : ℕ → ℕ → ℕ → ℕ → ℕ
boosted ram_mb mode primary size =
    if leb 512 ram_mb && mode == primary then u64 (size * 2) else size

pub compute_domain_sizes : ℕ → ℕ → DomainSizes
compute_domain_sizes ram_mb mode =
    let (ai, (game, general)) = tier_sizes ram_mb in
    let ai' = boosted ram_mb mode boot_mode_ai ai in
    let game' = boosted ram_mb mode boot_mode_game game in
    record {
      ai_size = ai';
      game_size = game';
      general_size = boosted ram_mb mode boot_mode_general general;
      ai_base = domain_ai_base;
      game_base = add64 domain_ai_base ai';
      general_base = add64 (add64 domain_ai_base ai') game';
    }
