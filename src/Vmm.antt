-- ===== src/Vmm.antt =====
-- kernel/vmm.h: per-task address spaces. Page tables are arrays of aligned 64-bit words, so memory
-- is here the word at each 8-aligned address. The boot tables come from kernel/boot.asm: the
-- address of `pdpt_table` is a parameter, and its contents are what memory holds there.
pub mod Fill
pub mod Walk
pub mod Space
pub mod Pool
pub mod Window
pub mod Isolation
mod Tests
use samos.Base.{
  ℕ, zero, suc, ◌+◌, ◌*◌, ◌^◌, ◌||◌, ltb, ◌==◌, if◌then◌else◌, bit_and, bit_or, add64, sub64, ◌>>>◌,
}

abbrev pub Words : Type 0
Words = ℕ → ℕ

abbrev pub store64 : Words → ℕ → ℕ → Words
store64 w a v x = if x == a then v else w x

-- VMM_POOL_BASE, VMM_POOL_SIZE
abbrev pub vmm_pool_base : ℕ
vmm_pool_base = 0x18400000

abbrev pub vmm_pool_size : ℕ
vmm_pool_size = 0x400000

-- The allocator's `vmm_bump`, and memory.
pub record Vmm : Type 0 where
  pub bump : ℕ
  pub words : Words

-- for (i = i; left > 0; i++) p[i] = f(i); `f` may read memory.
pub fill : (Words → ℕ → ℕ) → ℕ → ℕ → ℕ → Words → Words
fill f p i zero w = w
fill f p i (suc left) w = fill f p (i + 1) left (store64 w (p + 8 * i) (f w i))

-- A page-table page, zeroed; 0 is the null pointer.
pub vmm_alloc_pt : Vmm → Vmm × ℕ
vmm_alloc_pt v =
    if ltb (vmm_pool_base + vmm_pool_size) (v.bump + 0x1000)
    then (v, 0)
    else (record { bump = v.bump + 0x1000; words = fill (λ w i. 0) v.bump 0 512 v.words }, v.bump)

abbrev pub or_into : Words → ℕ → ℕ → Words
or_into w a bits = store64 w a (bit_or (w a) bits)

-- A PDPT entry of the boot tables with the user bit stripped.
pub kernel_entry : ℕ → Words → ℕ → ℕ
kernel_entry pdpt_table w i = bit_or (bit_and (w (pdpt_table + 8 * i)) 0xfffffffffffffffb) 0x03

-- The indices of the two pages of the window in the page directory.
pub code_page : ℕ → ℕ
code_page base = bit_and (base >>> 21) 511

pub stack_page : ℕ → ℕ
stack_page base = bit_and (sub64 (add64 base 0x400000) 1 >>> 21) 511

-- The stores of `vmm_create_user_as_at` into its three pages.
pub build_tables : ℕ → ℕ → ℕ → ℕ → ℕ → Words → Words
build_tables pdpt_table base npml4 npdpt npd w =
    let linked = store64 (store64 w npml4 (bit_or npdpt 0x07)) npdpt (bit_or npd 0x07) in
    let kernel = fill (kernel_entry pdpt_table) npdpt 1 3 linked in
    let identity = fill (λ _ i. bit_or (i * 2 ^ 21) 0x83) npd 0 512 kernel in
    let code = or_into identity (npd + 8 * code_page base) 0x04 in
    or_into code (npd + 8 * stack_page base) 0x04

-- The new address space, and the address of its PML4, or 0. All three pages are asked for first.
pub vmm_create_user_as_at : ℕ → Vmm → ℕ → Vmm × ℕ
vmm_create_user_as_at pdpt_table v base =
    let (v1, npml4) = vmm_alloc_pt v in
    let (v2, npdpt) = vmm_alloc_pt v1 in
    let (v3, npd) = vmm_alloc_pt v2 in
    if npml4 == 0 || npdpt == 0 || npd == 0
    then (v3, 0)
    else (record v3 { words = build_tables pdpt_table base npml4 npdpt npd v3.words }, npml4)

pub vmm_create_user_as : ℕ → Vmm → Vmm × ℕ
vmm_create_user_as pdpt_table v = vmm_create_user_as_at pdpt_table v 0x19000000

pub vmm_init : Vmm → Vmm
vmm_init v = record v { bump = vmm_pool_base }
