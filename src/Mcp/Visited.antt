-- ===== src/Mcp/Visited.antt =====
-- The bitmap of the buses visited: marking a bus sets its bit and no other, and leaves one bus
-- fewer to visit.
use samos.Base.{
  ℕ, zero, suc, ◌+◌, ◌*◌, ◌/◌, ◌%◌, ◌^◌, ◌<◌, ◌≤◌, ◌≡◌, ◌≢◌, ◌⊎◌, inl, inr, refl, sym, ap, ◌∙◌,
  arith, ne→==, true, false, ◌==◌, if◌then◌else◌, List, length, get_or, get_or-set_self,
  get_or-set_ne, bit_and, bit_or, bit_and-mask, digit_of, bit_and-pow, digit_of-bit_or,
  digit_of-pow_self, digit_of-pow_ne, digit_of-u8, ◌>>>◌, u8,
}
use Prim.Native.Nat.{max}
use native.Mathlib.Nat.{one-le-pow}
use samos.Mcp.Pci.{is_visited, pci_bus_mark, bus_bit}

-- A digit is set or not.
module _ (v : List ℕ) (bus : ℕ) where
  abbrev digit : ℕ
  digit = digit_of (get_or v (bus / 8) 0) (bus % 8)

  bit_lem : bit_and (get_or v (bus >>> 3) 0) (bus_bit bus) ≡ digit * 2 ^ (bus % 8)
  bit_lem = rw (bit_and-mask 3 bus) (bit_and-pow (get_or v (bus / 8) 0) (bus % 8))

  is_visited-set : digit ≡ 1 → is_visited v bus ≡ true
  unfolding is_visited
  is_visited-set h =
      let pos = one-le-pow (bus % 8) 2 (omega arith) in
      let ne : digit * 2 ^ (bus % 8) ≢ 0 = rw h (omega arith) in
      rw bit_lem (rw (ne→== (digit * 2 ^ (bus % 8)) 0 ne) refl)

  is_visited-clear : digit ≡ 0 → is_visited v bus ≡ false
  unfolding is_visited
  is_visited-clear h = rw (bit_lem, h) (let e : 0 * 2 ^ (bus % 8) ≡ 0 = omega arith in rw e refl)

digit_cases : (d : ℕ) → d < 2 → (d ≡ 0) ⊎ (d ≡ 1)
digit_cases d h = omega arith

is_visited-digit : (v : List ℕ) (bus : ℕ) → is_visited v bus ≡ (digit v bus == 1)
is_visited-digit v bus = elim (digit_cases (digit v bus) (omega arith)) [
  | inl e ↦ is_visited-clear v bus e ∙ sym (ap (λ d. d == 1) e)
  | inr e ↦ is_visited-set v bus e ∙ sym (ap (λ d. d == 1) e)
]

module _ (v : List ℕ) (sized : length v ≡ 32) (bus : ℕ) (small : bus < 256) where
  digit-mark :
      (k : ℕ)
      → k / 8 ≡ bus / 8
      → digit (pci_bus_mark v bus) k ≡ max (digit v k) (digit_of (2 ^ (bus % 8)) (k % 8))
  unfolding pci_bus_mark
  digit-mark k e =
      rw
        (
          e,
          get_or-set_self v (bus / 8) (u8 (bit_or (get_or v (bus / 8) 0) (2 ^ bit_and bus 7))) 0
              (omega arith),
          bit_and-mask 3 bus,
          digit_of-u8 (bit_or (get_or v (bus / 8) 0) (2 ^ (bus % 8))) (k % 8) (omega arith),
        )
        (digit_of-bit_or (get_or v (bus / 8) 0) (2 ^ (bus % 8)) (k % 8))

  pub is_visited-mark_self : is_visited (pci_bus_mark v bus) bus ≡ true
  is_visited-mark_self =
      is_visited-set (pci_bus_mark v bus) bus
        (digit-mark bus refl ∙ ap (max (digit v bus)) (digit_of-pow_self (bus % 8)) ∙ omega arith)

  other_get : (k : ℕ) → k / 8 ≢ bus / 8 → get_or (pci_bus_mark v bus) (k / 8) 0 ≡ get_or v (k / 8) 0
  unfolding pci_bus_mark
  other_get k n = get_or-set_ne v (bus / 8) (k / 8) _ 0 (λ e. n (sym e))

  pub is_visited-mark_ne : (k : ℕ) → k ≢ bus → is_visited (pci_bus_mark v bus) k ≡ is_visited v k
  is_visited-mark_ne k ne =
      is_visited-digit (pci_bus_mark v bus) k
      ∙ ap (λ d. d == 1)
          (elim (where_in (k / 8) (bus / 8)) [
            | inl e ↦
                digit-mark k e
                ∙ ap (max (digit v k)) (digit_of-pow_ne (bus % 8) (k % 8) (omega arith))
                ∙ omega arith
            | inr n ↦ other_byte k n
          ])
      ∙ sym (is_visited-digit v k)
    where
      where_in : (a b : ℕ) → (a ≡ b) ⊎ (a ≢ b)
      where_in a b = omega arith

      other_byte : (k : ℕ) → k / 8 ≢ bus / 8 → digit (pci_bus_mark v bus) k ≡ digit v k
      other_byte k n = ap (λ b. digit_of b (k % 8)) (other_get k n)

-- The buses below `n` that are not visited.
pub unvisited : List ℕ → ℕ → ℕ
unvisited v zero = 0
unvisited v (suc n) = (if is_visited v n then 0 else 1) + unvisited v n

module _ (v : List ℕ) (sized : length v ≡ 32) (bus : ℕ) (small : bus < 256)
    (fresh : is_visited v bus ≡ false) where
  unvisited-below : (n : ℕ) → n ≤ bus → unvisited (pci_bus_mark v bus) n ≡ unvisited v n
  unfolding unvisited
  unvisited-below zero h = refl
  unvisited-below (suc n) h =
      rw (is_visited-mark_ne v sized bus small n (omega arith), unvisited-below n (omega arith))
        refl

  -- Marking a bus that was not visited leaves one fewer to visit.
  pub unvisited-mark : (n : ℕ) → bus < n → unvisited v n ≡ suc (unvisited (pci_bus_mark v bus) n)
  unfolding unvisited
  unvisited-mark zero h = absurd (omega arith)
  unvisited-mark (suc n) h = elim (last n h) [
    | inl e ↦
        rw (sym e, fresh, is_visited-mark_self v sized bus small, unvisited-below bus (omega arith))
          (omega arith)
    | inr l ↦
        rw (is_visited-mark_ne v sized bus small n (omega arith), unvisited-mark n l) (omega arith)
  ]
    where
      last : (n : ℕ) → bus < suc n → (bus ≡ n) ⊎ (bus < n)
      last n h = omega arith

pub unvisited_le : (v : List ℕ) (n : ℕ) → unvisited v n ≤ n
unfolding unvisited
unvisited_le v zero = omega arith
unvisited_le v (suc n) = ground (arith, unvisited_le v n)
