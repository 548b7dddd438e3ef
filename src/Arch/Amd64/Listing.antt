-- ===== src/Arch/Amd64/Listing.antt =====
-- What the loops of get_pages_ia32e in libvmi/arch/amd64.c meet: addresses made of indices, tables
-- that are read, and the levels of the radix walk.
use mathlib.Core.Path.{subst}
use libvmi.Common.{
  ℕ, zero, suc, ◌+◌, ◌*◌, ◌/◌, ◌%◌, ◌^◌, ◌≤◌, ◌<◌, bit_and, bit_or, Bool, true, false, ◌&&◌, leb,
  Bool-cases, List, [], ◌∷◌, Option, none, some, if◌then◌else◌, inl, inr, ◌≡◌, sym, ap, ◌∙◌, arith,
}
use libvmi.Bits.{bit_mask, bit_or-add, bit_or-add_left}
use libvmi.Types.{
  Status, success, failure, Conf, PageInfo, Machine, le_word, table_context, vmi_read_64,
}
use libvmi.Access.Window.{window, window_part}
use libvmi.Arch.Entry.{entry_present, page_size, canonical_addr}
use libvmi.Arch.Radix.{frame, base, radix_walk}
use libvmi.Arch.Pages.{Listing, entry, each, with_table}
use libvmi.Arch.Amd64.Walk.{ia32e}

-- Every page of a list.
abbrev pub All : (PageInfo → Type 0) → List PageInfo → Type 0
All P [] = Unit {0}
All P (info ∷ rest) = P info × All P rest

-- A property that every step keeps, the loop keeps.
pub each-All :
    {S : Type 0} (P : PageInfo → Type 0) (step : ℕ → Listing S) (i left bound : ℕ)
    (acc : List PageInfo) (s : S)
    → i + left ≤ bound
    → ((j : ℕ) (acc' : List PageInfo) (s' : S) → j < bound → All P acc' → All P (step j acc' s').1)
    → All P acc
    → All P (each step i left acc s).1
unfolding each
each-All {S = S} P step i zero bound acc s fits keeps all = all
each-All {S = S} P step i (suc left) bound acc s fits keeps all =
    let here = keeps i acc s (omega (arith, fits)) all in
    let after =
      each-All P step (i + 1) left bound (step i acc s).1 (step i acc s).2 (omega (arith, fits))
        keeps here in
    (elim (step i acc s).0
      as (λ t.
        All P
          (elim t as (λ u. Status × List PageInfo × S) [
            | success ↦ each step (i + 1) left (step i acc s).1 (step i acc s).2
            | failure ↦ (failure, (step i acc s).1, (step i acc s).2)
          ]).1) [ success ↦ after | failure ↦ here ])

-- The addresses that the indices of two, three and four levels make.
module _ (a b c d : ℕ) (p : a < 512) (q : b < 512) (r : c < 512) (t : d < 512) where
  abbrev pub sum : ℕ
  sum = ((a * 512 + b) * 512 + c) * 512 + d

  pub join_two : bit_or (a * 2 ^ 39) (b * 2 ^ 30) ≡ (a * 512 + b) * 2 ^ 30
  join_two = bit_or-add 39 a (b * 2 ^ 30) (omega (arith, q)) ∙ omega arith

  pub join_three :
      bit_or (bit_or (a * 2 ^ 39) (b * 2 ^ 30)) (c * 2 ^ 21) ≡ ((a * 512 + b) * 512 + c) * 2 ^ 21
  join_three =
      ap (λ (x : ℕ). bit_or x (c * 2 ^ 21)) join_two
      ∙ bit_or-add 30 (a * 512 + b) (c * 2 ^ 21) (omega (arith, r))
      ∙ omega arith

  pub join_four :
      bit_or (bit_or (bit_or (a * 2 ^ 39) (b * 2 ^ 30)) (c * 2 ^ 21)) (d * 2 ^ 12) ≡ sum * 2 ^ 12
  join_four =
      ap (λ (x : ℕ). bit_or x (d * 2 ^ 12)) join_three
      ∙ bit_or-add 21 ((a * 512 + b) * 512 + c) (d * 2 ^ 12) (omega (arith, t))
      ∙ omega arith

-- A canonical address has the same indices.
pub canonical_low : (va : ℕ) → va < 2 ^ 48 → canonical_addr va % 2 ^ 48 ≡ va
unfolding canonical_addr
canonical_low va h = ground (arith, h, bit_or-add_left 48 0xffff va h)

-- Tables in a memory that does not change: a read gives what stands there, or always fails; a table
-- that can be read has entries that can be read.
pub record IsStatic {S : Type 0} (m : Machine S) (npt npm : ℕ) (mem : ℕ → ℕ) (ok : ℕ → ℕ → Bool)
    : Type 0 where
  pub read :
      (a n : ℕ) (s : S)
      → m.read (table_context npt npm a) n s ≡ ((if ok a n then some (window mem a n) else none), s)
  pub part : (a i : ℕ) → ok a 4096 ≡ true → i < 512 → ok (a + i * 8) 8 ≡ true

module _ {S : Type 0} (m : Machine S) (conf : Conf) (npt npm dtb : ℕ) (mem : ℕ → ℕ)
    (ok : ℕ → ℕ → Bool) (static : IsStatic m npt npm mem ok) where
  abbrev pub read_at : ℕ → S → Option ℕ × S
  read_at addr s = vmi_read_64 m (table_context npt npm addr) s

  abbrev pub walk : ℕ → ℕ → ℕ → S → Option (ℕ × ℕ) × S
  walk = radix_walk (ia32e conf.transition_pages) read_at

  abbrev pub value : ℕ → ℕ → ℕ
  value t i = entry 8 i (window mem t 4096)

  -- A table can be read, and so can every one that it leads to over `l` levels.
  abbrev pub AreTables : ℕ → ℕ → Type 0
  AreTables zero t = ok t 4096 ≡ true
  AreTables (suc l) t =
      (ok t 4096 ≡ true)
      × ((i : ℕ)
          → i < 512
          → entry_present conf.transition_pages (value t i) ≡ true
          → (leb (suc l) 2 && page_size (value t i)) ≡ false
          → AreTables l (bit_and (value t i) (bit_mask 12 51)))

  read_lem :
      (t i : ℕ) (s : S) → ok t 4096 ≡ true → i < 512 → read_at (t + i * 8) s ≡ (some (value t i), s)
  unfolding vmi_read_64 entry
  read_lem t i s readable h =
      let part = static.part t i readable h in
      let read = static.read (t + i * 8) 8 s in
      let bytes = window_part mem t (i * 8) 8 4096 (omega (arith, h)) in
      ground (arith, part, read, ap le_word bytes)

  pub with_table_lem :
      (P : PageInfo → Type 0) (location : ℕ) (k : List ℕ → Listing S) (acc : List PageInfo) (s : S)
      → All P acc
      → (ok location 4096 ≡ true → All P (k (window mem location 4096) acc s).1)
      → All P (with_table m npt npm location 4096 k acc s).1
  unfolding with_table
  with_table_lem P location k acc s all goes =
      let read = static.read location 4096 s in
      elim (Bool-cases (ok location 4096)) [
        | inl y ↦
            let same : with_table m npt npm location 4096 k acc s
                ≡ k (window mem location 4096) acc s =
              ground (arith, read, y) in
            subst (λ (r : Status × List PageInfo × S). All P r.1) (sym same) (goes y)
        | inr n ↦
            let same : with_table m npt npm location 4096 k acc s ≡ (failure, acc, s) =
              ground (arith, read, n) in
            subst (λ (r : Status × List PageInfo × S). All P r.1) (sym same) all
      ]

  module _ (t i va : ℕ) (s : S) (readable : ok t 4096 ≡ true) (h : i < 512) where
    -- One level down.
    pub descend :
        (l : ℕ)
        → va / 2 ^ (12 + 9 * suc l) % 512 ≡ i
        → entry_present conf.transition_pages (value t i) ≡ true
        → (leb (suc l) 2 && page_size (value t i)) ≡ false
        → walk (suc l) t va s ≡ walk l (base 52 (value t i)) va s
    unfolding ia32e radix_walk
    descend l at present inner = ground (arith, at, present, inner, read_lem t i s readable h)

    pub large :
        (l : ℕ)
        → l < 2
        → va / 2 ^ (12 + 9 * suc l) % 512 ≡ i
        → entry_present conf.transition_pages (value t i) ≡ true
        → page_size (value t i) ≡ true
        → walk (suc l) t va s
          ≡ (some (frame 52 (12 + 9 * suc l) (value t i) va, 2 ^ (12 + 9 * suc l)), s)
    unfolding ia32e radix_walk
    large l low at present leaf = ground (arith, low, at, present, leaf, read_lem t i s readable h)

    pub absent :
        (l : ℕ)
        → va / 2 ^ (12 + 9 * suc l) % 512 ≡ i
        → entry_present conf.transition_pages (value t i) ≡ false
        → walk (suc l) t va s ≡ (none, s)
    unfolding ia32e radix_walk
    absent l at missing = ground (arith, at, missing, read_lem t i s readable h)

    pub absent_last :
        va / 2 ^ 12 % 512 ≡ i
        → entry_present conf.transition_pages (value t i) ≡ false
        → walk 0 t va s ≡ (none, s)
    unfolding ia32e radix_walk
    absent_last at missing = ground (arith, at, missing, read_lem t i s readable h)

    pub last :
        va / 2 ^ 12 % 512 ≡ i
        → entry_present conf.transition_pages (value t i) ≡ true
        → walk 0 t va s ≡ (some (frame 52 12 (value t i) va, 2 ^ 12), s)
    unfolding ia32e radix_walk
    last at present = ground (arith, at, present, read_lem t i s readable h)

  -- A listed page is one that the walk finds, with its address and its size.
  abbrev pub IsFound : PageInfo → Type 0
  IsFound info = (s : S) → walk 3 (base 52 dtb) info.vaddr s ≡ (some (info.paddr, info.size), s)
