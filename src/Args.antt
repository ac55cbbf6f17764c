-- ===== src/Args.antt =====
-- kernel/main.c: `sam_build_args`, the stack with which a task starts. `argv` is the list of the
-- argument strings, each the list of its bytes before the NUL, and `argc` is its length.
pub mod Words
pub mod Strings
pub mod Stack
mod Tests
use samos.Base.{
  ℕ, zero, suc, ◌+◌, ◌-◌, ◌*◌, ◌/◌, ◌%◌, ◌^◌, Bool, ◌&&◌, leb, ltb, ◌==◌, if◌then◌else◌, List, [],
  ◌∷◌, length, take, Memory, store8, add64, sub64, bit_and,
}

-- *(uint64_t *)p = v; the word does not wrap round the address space.
abbrev pub store_word : Memory → ℕ → ℕ → Memory
store_word m p v x = if leb p x && ltb x (p + 8) then v / 2 ^ (8 * (x - p)) % 256 else m x

-- The loop over the bytes of a string, its NUL included.
pub put_string : Memory → ℕ → List ℕ → Memory
put_string m p [] = store8 m p 0
put_string m p (c ∷ cs) = put_string (store8 m p c) (add64 p 1) cs

-- What the loop over the strings leaves: the memory, `p` and `ptrs`.
pub record Pushed : Type 0 where
  pub mem : Memory
  pub p : ℕ
  pub ptrs : List ℕ

-- The loop over the strings, from the last to the first.
pub push_strings : Memory → ℕ → List (List ℕ) → Pushed
push_strings m top [] = record { mem = m; p = top; ptrs = [] }
push_strings m top (s ∷ ss) =
    let r = push_strings m top ss in
    let q = sub64 r.p (length s + 1) in
    record { mem = put_string r.mem q s; p = q; ptrs = q ∷ r.ptrs }

-- The array of the pointers and its NULL.
pub put_pointers : Memory → ℕ → List ℕ → Memory
put_pointers m p [] = store_word m p 0
put_pointers m p (a ∷ rest) = put_pointers (store_word m p a) (add64 p 8) rest

-- p &= ~0xF
abbrev pub align16 : ℕ → ℕ
align16 p = bit_and p 0xFFFFFFFFFFFFFFF0

abbrev pub place_args : Pushed → ℕ → Memory × ℕ
place_args r argc =
    let av = sub64 (align16 r.p) (8 * (argc + 1)) in
    (store_word (put_pointers r.mem av r.ptrs) (sub64 av 8) argc, sub64 av 8)

-- The memory and the entry RSP.
pub sam_build_args : Memory → ℕ → List (List ℕ) → Memory × ℕ
sam_build_args m stktop [] = (m, stktop)
sam_build_args m stktop (s ∷ ss) =
    place_args (push_strings m stktop (take 8 (s ∷ ss))) (length (take 8 (s ∷ ss)))
