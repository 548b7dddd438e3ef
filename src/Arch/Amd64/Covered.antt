-- ===== src/Arch/Amd64/Covered.antt =====
-- get_pages_ia32e of libvmi/arch/amd64.c misses no page that the four-level radix walk finds, where
-- every table that present entries lead to can be read.
use mathlib.Core.Path.{subst}
use libvmi.Common.{
  ℕ, suc, ◌+◌, ◌*◌, ◌/◌, ◌%◌, ◌^◌, ◌<◌, bit_and, bit_or, not, Bool, true, false, ◌&&◌, leb,
  Bool-cases, if_elim, List, [], Option, none, inl, inr, ◌≡◌, ◌≢◌, refl, sym, ap, ◌∙◌, arith,
}
use libvmi.Bits.{bit_mask}
use libvmi.Types.{Status, Conf, PageInfo, X86Entries, Machine, no_entries}
use libvmi.Access.Window.{window}
use libvmi.Arch.Entry.{entry_present, page_size}
use libvmi.Arch.Radix.{base}
use libvmi.Arch.Pages.{Listing, os_is_known, each, with_table}
use libvmi.Arch.Amd64.Pages.{list_pte, list_pgde, list_pdpte, list_pml4e, get_pages_ia32e}
use libvmi.Arch.Amd64.Listing.{
  join_two, join_three, join_four, canonical_low, IsStatic, AreTables, walk, value, descend, absent,
  absent_last,
}
use libvmi.Arch.Amd64.Found.{table_lem}
use libvmi.Arch.Amd64.Grows.{
  Any, Covers, Grows, Hits, each-Hits, table_read, table_there, pte-Grows, pgde-Grows, pdpte-Grows,
  pml4e-Grows,
}

module _ {S : Type 0} (m : Machine S) (conf : Conf) (npt npm dtb : ℕ) (mem : ℕ → ℕ)
    (ok : ℕ → ℕ → Bool) (static : IsStatic m npt npm mem ok)
    (same : conf.transition_pages ≡ os_is_known conf) (va : ℕ) where
  abbrev from : ℕ → ℕ → S → Option (ℕ × ℕ) × S
  from l t s = walk m conf npt npm dtb mem ok static l t va s

  abbrev at : ℕ → ℕ → ℕ
  at = value m conf npt npm dtb mem ok static

  abbrev Tables : ℕ → ℕ → Type 0
  Tables = AreTables m conf npt npm dtb mem ok static

  abbrev there : (l t : ℕ) → Tables l t → ok t 4096 ≡ true
  there = table_there m conf npt npm dtb mem ok static same va

  abbrev P : PageInfo → Type 0
  P = Covers va

  -- The walk from a table has an answer.
  abbrev IsMapped : ℕ → ℕ → Type 0
  IsMapped l t = (s : S) → (from l t s).0 ≢ none

  abbrev at_level : ℕ → ℕ
  at_level l = va / 2 ^ (12 + 9 * l) % 512

  table-Hits :
      (t : ℕ) (step : List ℕ → ℕ → Listing S) (i : ℕ)
      → i < 512
      → ok t 4096 ≡ true
      → ((j : ℕ) → j < 512 → Grows P (step (window mem t 4096) j))
      → Hits P (step (window mem t 4096) i)
      → Hits P (with_table m npt npm t 4096 (λ bytes. each (step bytes) 0 512))
  table-Hits t step i h readable grows hits acc s =
      subst (λ (r : Status × List PageInfo × S). Any P r.1)
        (sym (
          table_read m conf npt npm dtb mem ok static same va t (λ bytes. each (step bytes) 0 512)
            acc s readable))
        (each-Hits P (step (window mem t 4096)) 0 i 512 grows
          (subst (λ (j : ℕ). Hits P (step (window mem t 4096) j)) (omega arith) hits) h acc s)

  abbrev ia : ℕ
  ia = va / 2 ^ 39 % 512

  abbrev ib : ℕ
  ib = va / 2 ^ 30 % 512

  abbrev ic : ℕ
  ic = va / 2 ^ 21 % 512

  abbrev id : ℕ
  id = va / 2 ^ 12 % 512

  index_lt : (l : ℕ) → at_level (suc l) < 512
  index_lt l = omega arith

  -- A walk whose entry is not present has no answer.
  entry_lem :
      (l t : ℕ) (s : S)
      → ok t 4096 ≡ true
      → IsMapped (suc l) t
      → entry_present conf.transition_pages (at t (at_level (suc l))) ≡ true
  entry_lem l t s readable mapped =
      elim (Bool-cases (entry_present conf.transition_pages (at t (at_level (suc l))))) [
        | inl y ↦ y
        | inr n ↦ absurd (
            mapped s (
              ap (λ (r : Option (ℕ × ℕ) × S). r.0)
                (absent m conf npt npm dtb mem ok static t (at_level (suc l)) va s readable
                  (index_lt l) l refl n)))
      ]

  -- Below an entry that is no page the walk has its answer from the next table.
  below_lem :
      (l t : ℕ)
      → ok t 4096 ≡ true
      → IsMapped (suc l) t
      → (leb (suc l) 2 && page_size (at t (at_level (suc l)))) ≡ false
      → IsMapped l (bit_and (at t (at_level (suc l))) (bit_mask 12 51))
  below_lem l t readable mapped inner s e =
      let v = at t (at_level (suc l)) in
      mapped s (
        ap (λ (r : Option (ℕ × ℕ) × S). r.0)
          (descend m conf npt npm dtb mem ok static t (at_level (suc l)) va s readable (index_lt l)
            l refl (entry_lem l t s readable mapped) inner)
        ∙ ap (λ (a : ℕ). (from l a s).0) (sym (table_lem v))
        ∙ e)

  pte-Hits :
      (t : ℕ) (x86 : X86Entries)
      → Tables 0 t
      → IsMapped 0 t
      → Hits P (
          list_pte m conf npt npm dtb
            (bit_or (bit_or (ia * 2 ^ 39) (ib * 2 ^ 30)) (ic * 2 ^ 21))
            x86
            t
            (window mem t 4096)
            id)
  unfolding list_pte
  pte-Hits t x86 tables mapped acc s =
      let v = at t id in
      let low = bit_or (bit_or (bit_or (ia * 2 ^ 39) (ib * 2 ^ 30)) (ic * 2 ^ 21)) (id * 2 ^ 12) in
      let joined = join_four ia ib ic id (omega arith) (omega arith) (omega arith) (omega arith) in
      let kept = canonical_low low (omega (arith, joined)) in
      if_elim (λ (k : Listing S). Any P (k acc s).1) (entry_present (os_is_known conf) v) _ _
        (λ y. inl (omega (arith, kept, joined)))
        (λ n. absurd (
          mapped s (
            ap (λ (r : Option (ℕ × ℕ) × S). r.0)
              (absent_last m conf npt npm dtb mem ok static t id va s tables (omega arith) refl
                (ap (λ (b : Bool). entry_present b v) same ∙ n)))))

  pgde-Hits :
      (t : ℕ) (x86 : X86Entries)
      → Tables 1 t
      → IsMapped 1 t
      → Hits P (
          list_pgde m conf npt npm dtb
            (bit_or (ia * 2 ^ 39) (ib * 2 ^ 30))
            x86
            t
            (window mem t 4096)
            ic)
  unfolding list_pgde
  pgde-Hits t x86 tables mapped acc s =
      let v = at t ic in
      let low = bit_or (bit_or (ia * 2 ^ 39) (ib * 2 ^ 30)) (ic * 2 ^ 21) in
      let table = bit_and v (bit_mask 12 51) in
      let x86' : X86Entries = record x86 { pgd_location = t + ic * 8; pgd_value = v } in
      let joined = join_three ia ib ic 0 (omega arith) (omega arith) (omega arith) (omega arith) in
      let kept = canonical_low low (omega (arith, joined)) in
      let here : entry_present (os_is_known conf) v ≡ true =
        ap (λ (b : Bool). entry_present b v) (sym same) ∙ entry_lem 0 t s tables.0 mapped in
      if_elim (λ (k : Listing S). Any P (k acc s).1) (not (entry_present (os_is_known conf) v)) _ _
        (λ n. absurd (ground (arith, n, here)))
        (λ y.
          if_elim (λ (k : Listing S). Any P (k acc s).1) (page_size v) _ _
            (λ leaf. inl (omega (arith, kept, joined)))
            (λ inner.
              let below = tables.1 ic (omega arith) (entry_lem 0 t s tables.0 mapped) inner in
              table-Hits table (λ bytes. list_pte m conf npt npm dtb low x86' table bytes) id
                (omega arith) below
                (λ j q.
                  pte-Grows m conf npt npm dtb mem ok static same va low x86' table
                    (window mem table 4096) j)
                (pte-Hits table x86' below (below_lem 0 t tables.0 mapped inner)) acc s))

  pdpte-Hits :
      (t : ℕ) (x86 : X86Entries)
      → Tables 2 t
      → IsMapped 2 t
      → Hits P (list_pdpte m conf npt npm dtb (ia * 2 ^ 39) x86 t (window mem t 4096) ib)
  unfolding list_pdpte
  pdpte-Hits t x86 tables mapped acc s =
      let v = at t ib in
      let low = bit_or (ia * 2 ^ 39) (ib * 2 ^ 30) in
      let table = bit_and v (bit_mask 12 51) in
      let x86' : X86Entries = record x86 { pdpte_location = t + ib; pdpte_value = v } in
      let joined = join_two ia ib 0 0 (omega arith) (omega arith) (omega arith) (omega arith) in
      let kept = canonical_low low (omega (arith, joined)) in
      let here = entry_lem 1 t s tables.0 mapped in
      if_elim (λ (k : Listing S). Any P (k acc s).1) (not (entry_present conf.transition_pages v)) _
        _ (λ n. absurd (ground (arith, n, here)))
        (λ y.
          if_elim (λ (k : Listing S). Any P (k acc s).1) (page_size v) _ _
            (λ leaf. inl (omega (arith, kept, joined)))
            (λ inner.
              let below = tables.1 ib (omega arith) here inner in
              table-Hits table (λ bytes. list_pgde m conf npt npm dtb low x86' table bytes) ic
                (omega arith) below.0
                (λ j q.
                  pgde-Grows m conf npt npm dtb mem ok static same va low x86' table j below q)
                (pgde-Hits table x86' below (below_lem 1 t tables.0 mapped inner)) acc s))

  pml4e-Hits :
      (t : ℕ)
      → Tables 3 t
      → IsMapped 3 t
      → Hits P (list_pml4e m conf npt npm dtb t (window mem t 4096) ia)
  unfolding list_pml4e
  pml4e-Hits t tables mapped acc s =
      let v = at t ia in
      let table = bit_and v (bit_mask 12 51) in
      let x86 : X86Entries = record no_entries { pml4e_location = t + ia * 8; pml4e_value = v } in
      let here = entry_lem 2 t s tables.0 mapped in
      if_elim (λ (k : Listing S). Any P (k acc s).1) (not (entry_present conf.transition_pages v)) _
        _ (λ n. absurd (ground (arith, n, here)))
        (λ y.
          let below = tables.1 ia (omega arith) here refl in
          table-Hits table (λ bytes. list_pdpte m conf npt npm dtb (ia * 2 ^ 39) x86 table bytes) ib
            (omega arith) below.0
            (λ j q.
              pdpte-Grows m conf npt npm dtb mem ok static same va (ia * 2 ^ 39) x86 table j below
                q)
            (pdpte-Hits table x86 below (below_lem 2 t tables.0 mapped refl)) acc s)

  -- An address that the walk finds lies in a page that get_pages_ia32e lists.
  pub covered_lem :
      (s : S)
      → AreTables m conf npt npm dtb mem ok static 3 (base 52 dtb)
      → IsMapped 3 (base 52 dtb)
      → Any P (get_pages_ia32e m conf npt npm dtb s).0
  unfolding get_pages_ia32e
  covered_lem s tables mapped =
      subst
        (λ (t : ℕ).
          Any P
            (with_table m npt npm t 4096
              (λ bytes. each (list_pml4e m conf npt npm dtb t bytes) 0 512) [] s).1)
        (sym (table_lem dtb))
        (table-Hits (base 52 dtb) (λ bytes. list_pml4e m conf npt npm dtb (base 52 dtb) bytes) ia
          (omega arith) tables.0
          (λ j q. pml4e-Grows m conf npt npm dtb mem ok static same va (base 52 dtb) j tables q)
          (pml4e-Hits (base 52 dtb) tables mapped) [] s)
