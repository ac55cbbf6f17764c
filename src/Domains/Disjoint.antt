-- ===== src/Domains/Disjoint.antt =====
-- The domains of the table never overlap.
use samos.Base.{
  ℕ, ◌+◌, ◌^◌, ◌≤◌, ◌<◌, ◌≡◌, ◌⊎◌, refl, arith, true, false, leb, if-cases, List, [], ◌∷◌, ◌++◌,
  length, length-append, length-take, All, take,
}
use samos.Domains.{Domain, max_domains, AllocResult, allocated, any_meets, domain_alloc}

-- Two ranges have no address in common.
pub Apart : Domain → Domain → Type 0
Apart d e = (d.base + d.size ≤ e.base) ⊎ (e.base + e.size ≤ d.base)

-- Each two of the list are apart.
pub AllApart : List Domain → Type 0
AllApart [] = Unit
AllApart (d ∷ ds) = All (Apart d) ds × AllApart ds

-- An entry in use, inside the address space, with a name that fits.
pub record IsDomain (d : Domain) : Type 0 where
  pub in_use : d.active ≡ true
  pub in_space : d.base + d.size < 2 ^ 64
  pub some_size : 0 < d.size
  pub name_fits : length d.name ≤ 15

pub record IsTable (table : List Domain) : Type 0 where
  pub count : length table ≤ max_domains
  pub domains : All IsDomain table
  pub apart : AllApart table

pub empty-IsTable : IsTable []
unfolding AllApart
empty-IsTable = record { count = omega arith; domains = tt; apart = tt }

All-snoc :
    (P : Domain → Type 0) (ds : List Domain) (d : Domain) → All P ds → P d → All P (ds ++ (d ∷ []))
All-snoc P [] d a p = (p, tt)
All-snoc P (e ∷ ds) d a p = (a.0, All-snoc P ds d a.1 p)

-- What the loop tests, for entries in use.
any_meets-Apart :
    (table : List Domain) (new : Domain)
    → All IsDomain table
    → new.base + new.size < 2 ^ 64
    → 0 < new.size
    → any_meets new.base new.size table ≡ false
    → All (λ d. Apart d new) table
unfolding any_meets Apart
any_meets-Apart [] new a w p h = tt
any_meets-Apart (d ∷ ds) new a w p h = (
  ground (arith, a.0.in_use, a.0.in_space),
  any_meets-Apart ds new a.1 w p (ground (arith, a.0.in_use)),
)

AllApart-snoc :
    (ds : List Domain) (d : Domain)
    → AllApart ds
    → All (λ e. Apart e d) ds
    → AllApart (ds ++ (d ∷ []))
unfolding AllApart
AllApart-snoc [] d a p = (tt, tt)
AllApart-snoc (e ∷ ds) d a p = (All-snoc (Apart e) ds d a.0 p.0, AllApart-snoc ds d a.1 p.1)

-- An allocation keeps the table well-formed, whatever it answers: at most 8 domains, in use, inside
-- the address space, each two of them without a common address. The new range is not empty and
-- does not wrap round the address space.
pub domain_alloc-IsTable :
    (table : List Domain) (id base size : ℕ) (name : List ℕ)
    → IsTable table
    → 0 < size
    → base + size < 2 ^ 64
    → IsTable (domain_alloc table id base size name).0
unfolding domain_alloc
domain_alloc-IsTable table id base size name t p w =
    if-cases keeps (leb max_domains (length table)) (λ _. t)
      (λ room.
        if-cases keeps (any_meets base size table) (λ _. t)
          (λ free. record {
            count = ground (arith, length-append table (new ∷ []));
            domains = All-snoc IsDomain table new t.domains (record {
              in_use = refl;
              in_space = w;
              some_size = p;
              name_fits = length-take 15 name;
            });
            apart = AllApart-snoc table new t.apart (any_meets-Apart table new t.domains w p free);
          }))
  where
    new : Domain
    new = record { id = id; base = base; size = size; active = true; name = take 15 name }

    keeps : List Domain × AllocResult → Type 0
    keeps r = IsTable r.0

Apart-any_meets :
    (table : List Domain) (base size : ℕ)
    → All IsDomain table
    → base + size < 2 ^ 64
    → All (λ d. (d.base + d.size ≤ base) ⊎ (base + size ≤ d.base)) table
    → any_meets base size table ≡ false
unfolding any_meets
Apart-any_meets [] base size a w h = refl
Apart-any_meets (d ∷ ds) base size a w h =
    let rest = Apart-any_meets ds base size a.1 w h.1 in
    ground (arith, a.0.in_use, a.0.in_space, h.0)

-- Nothing is refused without a reason: a range that has no address in common with any domain of
-- the table is allocated while there is room, as the last entry, with at most 15 bytes of its name.
pub domain_alloc-free :
    (table : List Domain) (id base size : ℕ) (name : List ℕ)
    → IsTable table
    → base + size < 2 ^ 64
    → length table < 8
    → All (λ d. (d.base + d.size ≤ base) ⊎ (base + size ≤ d.base)) table
    → domain_alloc table id base size name ≡ (
      table
          ++ (record { id = id; base = base; size = size; active = true; name = take 15 name }
              ∷ []),
      allocated,
    )
unfolding domain_alloc
domain_alloc-free table id base size name t w room free =
    let has_room : leb max_domains (length table) ≡ false = ground arith in
    rw (has_room, Apart-any_meets table base size t.domains w free) refl
