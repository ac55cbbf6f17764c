-- ===== src/Domains/Tests.antt =====
-- Domains registered by hand, and the layout of a machine with 512 MiB.
use samos.Base.{◌≡◌, refl, arith, List, [], ◌∷◌}
use samos.Domains.{
  Domain, allocated, overlaps, domain_alloc, any_meets, compute_domain_sizes, tier_sizes,
}
use samos.Domains.Disjoint.{IsTable, empty-IsTable, domain_alloc-IsTable}
use samos.Domains.Sizes.{compute_domain_sizes-registers, register, entry}

abbrev one : List Domain
one = entry 0x10 0x200000 0x4000000 (65 ∷ 73 ∷ []) ∷ []

one_runs :
    (domain_alloc [] 0x10 0x200000 0x4000000 (65 ∷ 73 ∷ []) ≡ (one, allocated))
    × (domain_alloc one 0x20 0x4100000 0x2000000 [] ≡ (one, overlaps))
unfolding domain_alloc any_meets
one_runs = (refl, refl)

one-IsTable : IsTable one
unfolding domain_alloc any_meets
one-IsTable =
    domain_alloc-IsTable [] 0x10 0x200000 0x4000000 (65 ∷ 73 ∷ []) empty-IsTable (omega arith)
      (omega arith)

domain_alloc-IsTable_example : IsTable (domain_alloc one 0x20 0x4100000 0x2000000 []).0
domain_alloc-IsTable_example =
    domain_alloc-IsTable one 0x20 0x4100000 0x2000000 [] one-IsTable (omega arith) (omega arith)

compute_domain_sizes-registers_example :
    register (compute_domain_sizes 512 0) (65 ∷ []) (71 ∷ []) (78 ∷ []) ≡ (
      entry 0x10 0x200000 0x10000000 (65 ∷ [])
          ∷ entry 0x20 0x10200000 0x4000000 (71 ∷ [])
          ∷ entry 0x30 0x14200000 0x4000000 (78 ∷ [])
          ∷ [],
      (allocated, (allocated, allocated)),
    )
unfolding compute_domain_sizes tier_sizes
compute_domain_sizes-registers_example =
    compute_domain_sizes-registers 512 0 (65 ∷ []) (71 ∷ []) (78 ∷ [])
