-- ===== src/Base/Physical.antt =====
-- Physical memory: a byte at every address (the kernel runs identity-mapped, so a pointer is the
-- address that it holds). Words are little-endian; pointer arithmetic wraps at 2 ^ 64.
use Prim.Native.Nat.{ℕ, zero, suc, ◌+◌, ◌*◌, ◌-◌, ◌<◌}
use mathlib.Core.List.{List, [], ◌∷◌}
use native.Mathlib.Omega.{arith}
use samos.Base.Lists.{get_or, All}
use samos.Base.Tests.{◌==◌, ltb, if◌then◌else◌}
use samos.Base.Word.{add64}

abbrev pub Memory : Type 0
Memory = ℕ → ℕ

abbrev pub store8 : Memory → ℕ → ℕ → Memory
store8 m a v x = if x == a then v else m x

abbrev pub load16 : Memory → ℕ → ℕ
load16 m a = m a + 256 * m (add64 a 1)

abbrev pub load32 : Memory → ℕ → ℕ
load32 m a = load16 m a + 65536 * load16 m (add64 a 2)

abbrev pub load64 : Memory → ℕ → ℕ
load64 m a = load32 m a + 4294967296 * load32 m (add64 a 4)

-- Every cell holds a byte.
abbrev pub IsBytes : Memory → Type 0
IsBytes m = (a : ℕ) → m a < 256

-- The bytes that lie at an address, in order.
abbrev pub bytes_from : Memory → ℕ → ℕ → List ℕ
bytes_from m a zero = []
bytes_from m a (suc n) = m a ∷ bytes_from m (a + 1) n

-- The bytes `bs` from address `base` on, and zeros elsewhere.
abbrev pub bytes_at : ℕ → List ℕ → Memory
bytes_at base bs x = if ltb x base then 0 else get_or bs (x - base) 0

get_or-lt : (bs : List ℕ) (i b : ℕ) → 0 < b → All (λ x. x < b) bs → get_or bs i 0 < b
get_or-lt [] i b p h = p
get_or-lt (x ∷ xs) zero b p h = h.0
get_or-lt (x ∷ xs) (suc i) b p h = get_or-lt xs i b p h.1

pub bytes_at-IsBytes : (base : ℕ) (bs : List ℕ) → All (λ x. x < 256) bs → IsBytes (bytes_at base bs)
bytes_at-IsBytes base bs h a = ground (arith, get_or-lt bs (a - base) 256 (omega arith) h)
