-- ===== src/Args/Tests.antt =====
-- The stack for the two arguments "echo" and "hi".
use samos.Base.{ℕ, ◌≡◌, refl, arith, List, [], ◌∷◌, Memory, load64}
use samos.Args.{sam_build_args, push_strings, put_string, put_pointers}
use samos.Args.Strings.{total}
use samos.Args.Stack.{IsStack, sam_build_args-IsStack}

abbrev words : List (List ℕ)
words = (b'e' ∷ b'c' ∷ b'h' ∷ b'o' ∷ []) ∷ (b'h' ∷ b'i' ∷ []) ∷ []

abbrev empty : Memory
empty a = 0

-- 8 bytes of strings, aligned down to a multiple of 16, and four words.
placed :
    let (m, rsp) = sam_build_args empty 0x1000 words in
    (rsp ≡ 0xFD0)
    × (load64 m 0xFD0 ≡ 2)
    × (load64 m 0xFD8 ≡ 0xFF8)
    × (m 0xFFD ≡ b'h')
    × (m 0xFFE ≡ b'i')
unfolding sam_build_args push_strings put_string put_pointers
placed = (refl, refl, refl, refl, refl)

-- The witness.
sam_build_args-IsStack_example :
    let (after, rsp) = sam_build_args empty 0x1000 words in IsStack empty 0x1000 words after rsp
unfolding total
sam_build_args-IsStack_example =
    sam_build_args-IsStack empty 0x1000 words (omega arith) (omega arith) (omega arith)
      (omega arith)
