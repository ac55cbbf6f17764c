-- ===== src/Vmm/Tests.antt =====
-- Address spaces at concrete bases: the aligned one of the single task, and the second base of
-- `sam_run_pair`, which is not aligned to 2 MiB.
use samos.Base.{ℕ, ◌+◌, ◌*◌, ◌/◌, ◌^◌, ◌≤◌, ◌<◌, ◌≡◌, ◌⊎◌, ◌↔◌, refl, arith, true, false, some}
use samos.Vmm.{
  Vmm, fill, vmm_alloc_pt, code_page, stack_page, kernel_entry, build_tables, vmm_create_user_as_at,
}
use samos.Vmm.Walk.{walk, user_access}
use samos.Vmm.Pool.{IsPool}
use samos.Vmm.Isolation.{walk-space, user_access_iff, user_access_unaligned, create-keeps}

-- The boot tables at 0x5000, whose entries carry the user bit.
abbrev boot : Vmm
boot = record { bump = 0x18400000; words = λ x. 0x8007 }

abbrev full : Vmm
full = record { bump = 0x187fe000; words = λ x. 0 }

abbrev pair : ℕ → Vmm × ℕ
pair base = vmm_create_user_as_at 0x5000 boot base

walk_runs :
    let (v, cr3) = pair 0x19000000 in
    (cr3 ≡ 0x18400000)
    × (v.bump ≡ 0x18403000)
    × (walk v.words cr3 0x19000123 ≡ some (0x19000123, true))
    × (walk v.words cr3 0x100000 ≡ some (0x100000, false))
    × (user_access v.words cr3 0x40000000 ≡ false)
unfolding vmm_create_user_as_at vmm_alloc_pt fill build_tables code_page stack_page kernel_entry
    walk
walk_runs = (refl, refl, refl, refl, refl)

boot-IsPool : IsPool boot
boot-IsPool = omega arith

walk-space_example :
    let (v, cr3) = pair 0x19500000 in walk v.words cr3 0x19600000 ≡ some (0x19600000, false)
walk-space_example =
    walk-space 0x5000 boot 0x19500000 boot-IsPool (omega arith) (omega arith) 0x19600000
      (omega arith)

user_access_iff_example :
    let (v, cr3) = pair 0x19000000 in
    (user_access v.words cr3 0x193fffff ≡ true)
    ↔ ((0x19000000 ≤ 0x193fffff) × (0x193fffff < 0x19000000 + 0x400000))
user_access_iff_example =
    user_access_iff 0x5000 boot 0x19000000 boot-IsPool (omega arith) (omega arith) 0x193fffff refl
      (omega arith)

user_access_unaligned_example :
    let (v, cr3) = pair 0x19500000 in
    ((va : ℕ)
      → va / 2 ^ 21 ≡ 0x19500000 / 2 ^ 21 + 1
      → (0x19500000 ≤ va) × (va < 0x19500000 + 0x400000) × (user_access v.words cr3 va ≡ false))
    × ((va : ℕ)
        → 0x19500000 / 2 ^ 21 * 2 ^ 21 ≤ va
        → va < 0x19500000
        → user_access v.words cr3 va ≡ true)
user_access_unaligned_example =
    user_access_unaligned 0x5000 boot 0x19500000 boot-IsPool (omega arith) (omega arith)
      (omega arith)

create-keeps_example :
    let (v, cr3) = pair 0x19000000 in
    IsPool v
    × (cr3 ≡ 0x18400000)
    × (v.bump ≡ 0x18400000 + 0x3000)
    × ((x : ℕ) → (x < 0x18400000) ⊎ (0x18400000 + 0x3000 ≤ x) → v.words x ≡ 0x8007)
create-keeps_example = create-keeps 0x5000 boot 0x19000000 boot-IsPool (omega arith) (omega arith)
