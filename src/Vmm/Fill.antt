-- ===== src/Vmm/Fill.antt =====
-- What a loop of stores leaves in memory.
use samos.Base.{
  ℕ, zero, suc, ◌+◌, ◌*◌, ◌≤◌, ◌<◌, ◌≡◌, ◌≢◌, ◌⊎◌, inl, inr, refl, arith, ◌∙◌, ◌==◌, Bool-cases,
}
use samos.Vmm.{Words, store64, fill}

pub store64-ne : (w : Words) (a v x : ℕ) → x ≢ a → store64 w a v x ≡ w x
store64-ne w a v x h = ground arith

pub store64-eq : (w : Words) (a v : ℕ) → store64 w a v a ≡ v
store64-eq w a v = ground arith

pub fill-outside :
    (f : Words → ℕ → ℕ) (p i n : ℕ) (w : Words) (x : ℕ)
    → (x < p + 8 * i) ⊎ (p + 8 * (i + n) ≤ x)
    → fill f p i n w x ≡ w x
unfolding fill
fill-outside f p i zero w x o = refl
fill-outside f p i (suc n) w x o =
    fill-outside f p (i + 1) n (store64 w (p + 8 * i) (f w i)) x (omega arith)
    ∙ store64-ne w (p + 8 * i) (f w i) x (omega arith)

-- Where the values do not depend on memory.
pub fill-inside :
    (g : ℕ → ℕ) (p i n : ℕ) (w : Words) (k : ℕ)
    → i ≤ k
    → k < i + n
    → fill (λ _ j. g j) p i n w (p + 8 * k) ≡ g k
unfolding fill
fill-inside g p i zero w k l u = absurd (omega arith)
fill-inside g p i (suc n) w k l u = elim (Bool-cases (k == i)) [
  | inl e ↦
      let e' : k ≡ i = ground arith in
      rw e' (
        fill-outside (λ _ j. g j) p (i + 1) n (store64 w (p + 8 * i) (g i)) (p + 8 * i)
          (omega arith)
        ∙ store64-eq w (p + 8 * i) (g i))
  | inr ne ↦ fill-inside g p (i + 1) n (store64 w (p + 8 * i) (g i)) k (ground arith) (omega arith)
]
