-- ===== src/Vmm/Window.antt =====
-- Ring 3 isolation: what a task's address space lets it touch.
use samos.Base.{
  ℕ, ◌+◌, ◌*◌, ◌/◌, ◌%◌, ◌^◌, ◌≤◌, ◌<◌, ◌≡◌, inl, inr, refl, arith, ◌∙◌, ap, ◌==◌, Bool, false, ltb,
  ◌||◌, Bool-cases, if◌then◌else◌, some,
}
use samos.Vmm.{Words, code_page, stack_page, build_tables}
use samos.Vmm.Walk.{user_bit, walk, user_access, table_of}
use samos.Vmm.Space.{pml4_first, pml4_rest, pdpt_first, pdpt_rest, pd_entry}

module _ (t base p : ℕ) (w : Words) (aligned : p % 4096 ≡ 0) (low : p + 12288 < 2 ^ 32)
    (zeroed : (x : ℕ) → p ≤ x → x < p + 12288 → x % 8 ≡ 0 → w x ≡ 0) where
  abbrev built : Words
  built = build_tables t base p (p + 4096) (p + 8192) w

  -- The page of an address of the first GiB is one of the window's two.
  abbrev in_window : ℕ → Bool
  in_window va = va / 2 ^ 21 == code_page base || va / 2 ^ 21 == stack_page base

  entry4 : (va : ℕ) → va < 2 ^ 39 → built (p + 8 * (va / 2 ^ 39 % 512)) ≡ p + 4096 + 7
  entry4 va h = ap built (omega arith) ∙ pml4_first t base p w aligned zeroed

  entry3 :
      (va : ℕ)
      → va < 2 ^ 30
      → built (table_of (p + 4096 + 7) + 8 * (va / 2 ^ 30 % 512)) ≡ p + 8192 + 7
  entry3 va h = ap built (omega arith) ∙ pdpt_first t base p w aligned zeroed

  entry2 :
      (va : ℕ)
      → va < 2 ^ 30
      → built (table_of (p + 8192 + 7) + 8 * (va / 2 ^ 21 % 512))
        ≡ va / 2 ^ 21 * 2 ^ 21 + 0x83 + (if in_window va then 4 else 0)
  entry2 va h =
      ap built (omega arith) ∙ pd_entry t base p w aligned zeroed (va / 2 ^ 21) (omega arith)

  pub walk_first_gib : (va : ℕ) → va < 2 ^ 30 → walk built p va ≡ some (va, in_window va)
  unfolding walk
  walk_first_gib va h = rw (entry4 va (omega arith), entry3 va h, entry2 va h) (ground arith)

  -- Above the first GiB the user bit is missing at some level.
  pub walk_above : (va : ℕ) → 2 ^ 30 ≤ va → va < 2 ^ 48 → user_access built p va ≡ false
  unfolding walk
  walk_above va l u = elim (Bool-cases (ltb va (2 ^ 39))) [
    | inl small ↦
        let small' : va < 2 ^ 39 = ground arith in
        rw (entry4 va small') (ground (arith, no_user va l small'))
    | inr big ↦ rw (no_entry va (ground arith) u) refl
  ]
    where
      no_user :
          (va : ℕ)
          → 2 ^ 30 ≤ va
          → va < 2 ^ 39
          → user_bit (built (table_of (p + 4096 + 7) + 8 * (va / 2 ^ 30 % 512))) ≡ false
      no_user va l u =
          ap (λ x. user_bit (built x)) (omega arith)
          ∙ pdpt_rest t base p w aligned zeroed (va / 2 ^ 30 % 512) (omega arith) (omega arith)

      no_entry : (va : ℕ) → 2 ^ 39 ≤ va → va < 2 ^ 48 → built (p + 8 * (va / 2 ^ 39 % 512)) ≡ 0
      no_entry va h u =
          pml4_rest t base p w aligned zeroed (va / 2 ^ 39 % 512) (omega arith) (omega arith)
