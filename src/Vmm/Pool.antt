-- ===== src/Vmm/Pool.antt =====
-- The page-table pool: three fresh zeroed pages for each address space, and nothing else touched.
use samos.Base.{ℕ, ◌+◌, ◌-◌, ◌/◌, ◌%◌, ◌≤◌, ◌<◌, ◌≡◌, ◌⊎◌, arith, ◌∙◌, ap, ne→==}
use samos.Vmm.{
  Words, Vmm, fill, vmm_alloc_pt, build_tables, vmm_create_user_as_at, vmm_pool_base, vmm_pool_size,
}
use samos.Vmm.Fill.{fill-outside, fill-inside}

-- The allocator hands out whole pages of the pool.
pub record IsPool (v : Vmm) : Type 0 where
  pub above : vmm_pool_base ≤ v.bump
  pub aligned : v.bump % 4096 ≡ 0
  pub within : v.bump ≤ vmm_pool_base + vmm_pool_size

abbrev pub zero_page : ℕ → Words → Words
zero_page p w = fill (λ _ i. 0) p 0 512 w

pub vmm_alloc_pt-ok :
    (v : Vmm)
    → v.bump + 0x1000 ≤ vmm_pool_base + vmm_pool_size
    → vmm_alloc_pt v ≡ (record { bump = v.bump + 0x1000; words = zero_page v.bump v.words }, v.bump)
unfolding vmm_alloc_pt
vmm_alloc_pt-ok v h = ground arith

vmm_alloc_pt-full :
    (v : Vmm) → vmm_pool_base + vmm_pool_size < v.bump + 0x1000 → vmm_alloc_pt v ≡ (v, 0)
unfolding vmm_alloc_pt
vmm_alloc_pt-full v h = ground arith

-- Memory after the three pages have been taken.
abbrev pub three_pages : ℕ → Words → Words
three_pages b w = zero_page (b + 0x1000 + 0x1000) (zero_page (b + 0x1000) (zero_page b w))

zero_page-zero :
    (p : ℕ) (w : Words) (x : ℕ) → p % 8 ≡ 0 → p ≤ x → x < p + 4096 → x % 8 ≡ 0 → zero_page p w x ≡ 0
zero_page-zero p w x a l u e =
    ap (zero_page p w) (omega arith)
    ∙ fill-inside (λ _. 0) p 0 512 w ((x - p) / 8) (omega arith) (omega arith)

zero_page-outside : (p : ℕ) (w : Words) (x : ℕ) → (x < p) ⊎ (p + 4096 ≤ x) → zero_page p w x ≡ w x
zero_page-outside p w x o = fill-outside (λ _ i. 0) p 0 512 w x (omega arith)

pub three_pages-zero :
    (b : ℕ) (w : Words) (x : ℕ)
    → b % 4096 ≡ 0
    → b ≤ x
    → x < b + 12288
    → x % 8 ≡ 0
    → three_pages b w x ≡ 0
three_pages-zero b w x a l u e = ground (
  arith,
  zero_page-zero b w x,
  zero_page-zero (b + 0x1000) (zero_page b w) x,
  zero_page-zero (b + 0x1000 + 0x1000) (zero_page (b + 0x1000) (zero_page b w)) x,
  zero_page-outside (b + 0x1000) (zero_page b w) x,
  zero_page-outside (b + 0x1000 + 0x1000) (zero_page (b + 0x1000) (zero_page b w)) x,
)

pub three_pages-outside :
    (b : ℕ) (w : Words) (x : ℕ) → (x < b) ⊎ (b + 12288 ≤ x) → three_pages b w x ≡ w x
three_pages-outside b w x o =
    zero_page-outside (b + 0x1000 + 0x1000) (zero_page (b + 0x1000) (zero_page b w)) x (omega arith)
    ∙ zero_page-outside (b + 0x1000) (zero_page b w) x (omega arith)
    ∙ zero_page-outside b w x (omega arith)

-- With three pages left, the space is built at the old `vmm_bump`.
pub create-ok :
    (t : ℕ) (v : Vmm) (base : ℕ)
    → IsPool v
    → v.bump + 0x3000 ≤ vmm_pool_base + vmm_pool_size
    → vmm_create_user_as_at t v base ≡ (
      record {
        bump = v.bump + 0x1000 + 0x1000 + 0x1000;
        words =
            build_tables t base v.bump
              (v.bump + 0x1000)
              (v.bump + 0x1000 + 0x1000)
              (three_pages v.bump v.words);
      },
      v.bump,
    )
unfolding vmm_create_user_as_at
create-ok t v base pool h =
    let v1 : Vmm = record { bump = v.bump + 0x1000; words = zero_page v.bump v.words } in
    let v2 : Vmm = record {
      bump = v.bump + 0x1000 + 0x1000;
      words = zero_page (v.bump + 0x1000) (zero_page v.bump v.words);
    } in
    rw (
      vmm_alloc_pt-ok v (omega arith),
      vmm_alloc_pt-ok v1 (omega arith),
      vmm_alloc_pt-ok v2 (omega arith),
      ne→== v.bump 0 (omega arith),
      ne→== (v.bump + 0x1000) 0 (omega arith),
      ne→== (v.bump + 0x1000 + 0x1000) 0 (omega arith),
    )
