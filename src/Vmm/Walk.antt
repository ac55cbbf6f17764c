-- ===== src/Vmm/Walk.antt =====
-- The specification: how x86-64 hardware in long mode translates an address (four levels, with
-- 1 GiB and 2 MiB pages), and whether ring 3 may use it. Every level must set the user bit.
use samos.Base.{
  ℕ, ◌-◌, ◌+◌, ◌*◌, ◌/◌, ◌%◌, ◌^◌, Bool, false, ◌&&◌, ◌==◌, Option, none, some, if◌then◌else◌,
}
use samos.Vmm.{Words}

abbrev pub present : ℕ → Bool
present e = e % 2 == 1

abbrev pub user_bit : ℕ → Bool
user_bit e = e / 4 % 2 == 1

abbrev pub page_size : ℕ → Bool
page_size e = e / 128 % 2 == 1

-- The address field of an entry that points at a table: bits 12 to 51.
abbrev pub table_of : ℕ → ℕ
table_of e = e / 4096 % 2 ^ 40 * 4096

-- The frame of a large page of `2 ^ k` bytes, up to bit 51.
abbrev pub frame_of : ℕ → ℕ → ℕ
frame_of k e = e / 2 ^ k % 2 ^ (52 - k) * 2 ^ k

-- The physical address, and whether ring 3 has access; `none` where the walk meets an entry that
-- is not present.
unfoldable pub walk : Words → ℕ → ℕ → Option (ℕ × Bool)
walk w cr3 va =
    let e4 = w (cr3 + 8 * (va / 2 ^ 39 % 512)) in
    let e3 = w (table_of e4 + 8 * (va / 2 ^ 30 % 512)) in
    let e2 = w (table_of e3 + 8 * (va / 2 ^ 21 % 512)) in
    let e1 = w (table_of e2 + 8 * (va / 4096 % 512)) in
    let u3 = user_bit e4 && user_bit e3 in
    let u2 = u3 && user_bit e2 in
    if present e4
    then if present e3
      then if page_size e3
        then some (frame_of 30 e3 + va % 2 ^ 30, u3)
        else if present e2
        then if page_size e2
          then some (frame_of 21 e2 + va % 2 ^ 21, u2)
          else if present e1
          then some (table_of e1 + va % 4096, u2 && user_bit e1)
          else none
        else none
      else none
    else none

abbrev pub granted : Option (ℕ × Bool) → Bool
granted none = false
granted (some (pa, u)) = u

-- May ring 3 touch the address?
abbrev pub user_access : Words → ℕ → ℕ → Bool
user_access w cr3 va = granted (walk w cr3 va)
