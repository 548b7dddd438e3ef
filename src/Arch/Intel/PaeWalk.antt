-- ===== src/Arch/Intel/PaeWalk.antt =====
-- v2p_pae of libvmi/arch/intel.c against a radix walk below the page directory pointer table.
use mathlib.Core.Path.{ap₂}
use libvmi.Common.{
  ℕ, ◌+◌, ◌*◌, ◌/◌, ◌%◌, ◌^◌, ◌<◌, bit_or, ◌≡◌, ◌∙◌, ap, Option, none, some, Option-cases, inl, inr,
  Bool, false, ◌==◌, if◌then◌else◌, arith,
}
use libvmi.Bits.{bit_and-field, bit_and-low, bit_or-add}
use libvmi.PageMode
use libvmi.Types.{Conf, PageInfo, Machine, table_context, vmi_read_64}
use libvmi.Arch.Entry.{entry_present, page_size}
use libvmi.Arch.Radix.{Format, frame, base, radix_walk, outcome}
use libvmi.Arch.Intel.Fields.{
  u32, get_pdptb, pdpi_index, pdba_base_pae, pgd_index_pae, ptba_base_pae, pte_index_pae,
  get_paddr_pae, get_large_paddr_pae,
}
use libvmi.Arch.Intel.Pae.{at_pte, at_pgd, at_pdpi, v2p_pae}

module _ (va v : ℕ) where
  pdpi_slot :
      v < 2 ^ 64 → (get_pdptb v + pdpi_index va) % 2 ^ 64 ≡ v / 32 * 32 + va / 2 ^ 30 % 4 * 8
  unfolding get_pdptb pdpi_index
  pdpi_slot h = omega (arith, bit_and-field 59 5 v)

  pgd_slot : pdba_base_pae v + pgd_index_pae va ≡ base 52 v + va / 2 ^ 21 % 512 * 8
  unfolding pdba_base_pae pgd_index_pae
  pgd_slot = omega (arith, bit_and-field 40 12 v, bit_and-low 9 (u32 va / 2 ^ 21))

  pte_slot : ptba_base_pae v + pte_index_pae va ≡ base 36 v + va / 2 ^ 12 % 512 * 8
  unfolding ptba_base_pae pte_index_pae
  pte_slot = omega (arith, bit_and-field 24 12 v, bit_and-low 9 (u32 va / 2 ^ 12))

  paddr_lem : get_paddr_pae va v ≡ frame 36 12 v va
  unfolding get_paddr_pae
  paddr_lem =
      ap₂ bit_or (bit_and-field 24 12 v) (bit_and-low 12 (u32 va))
      ∙ bit_or-add 12 (v / 2 ^ 12 % 2 ^ 24) (u32 va % 2 ^ 12) (omega arith)
      ∙ omega arith

  large_paddr_lem : get_large_paddr_pae va v ≡ frame 32 21 v va
  unfolding get_large_paddr_pae
  large_paddr_lem =
      ap u32 (
        ap₂ bit_or (bit_and-field 11 21 (u32 v)) (bit_and-low 21 (u32 va))
        ∙ bit_or-add 21 (u32 v / 2 ^ 21 % 2 ^ 11) (u32 va % 2 ^ 21) (omega arith))
      ∙ omega arith

-- Below the pointer table: 512 entries of eight bytes at each of two levels; pages of 4KB, whose
-- addresses have 36 bits, and of 2MB, whose addresses have 32.
unfoldable pub pae : Bool → Format
pae transition_pages = record {
  table_width = 36;
  page_width = λ level. if level == 0 then 36 else 32;
  index_bits = 9;
  entry_size = 8;
  shift = λ level. 12 + 9 * level;
  present = λ level. entry_present transition_pages;
  leaf = λ level v. page_size v;
}

module _ {S : Type 0} (conf : Conf) (read : ℕ → S → Option ℕ × S) where
  -- The walk with the pointer table above it. `stale` is the answer for an entry of that table
  -- that is not present.
  unfoldable pub pae_walk : Option (ℕ × ℕ) → ℕ → ℕ → S → Option (ℕ × ℕ) × S
  pae_walk stale pt va s =
      let (entry, s') = read (pt / 32 * 32 + va / 2 ^ 30 % 4 * 8) s in
      elim entry [
        | none ↦ (none, s')
        | some v ↦
            if entry_present conf.transition_pages v
            then radix_walk (pae conf.transition_pages) read 1 (base 52 v) va s'
            else (stale, s')
      ]

module _ {S : Type 0} (m : Machine S) (conf : Conf) (npt npm va : ℕ) where
  abbrev read_at : ℕ → S → Option ℕ × S
  read_at addr s = vmi_read_64 m (table_context npt npm addr) s

  at_pte-walk :
      (info : PageInfo) (s : S)
      → info.vaddr ≡ va
      → outcome (at_pte m conf npt npm va info s)
        ≡ radix_walk (pae conf.transition_pages) read_at 0 (base 36 info.x86.pgd_value) va s
  unfolding at_pte radix_walk outcome pae
  at_pte-walk info s h =
      let at = pte_slot va info.x86.pgd_value in
      elim (Option-cases (read_at (base 36 info.x86.pgd_value + va / 2 ^ 12 % 512 * 8) s).0) [
        | inl e ↦ ground (arith, at)
        | inr (v, e) ↦ ground (arith, at, paddr_lem va v)
      ]

  at_pgd-walk :
      (info : PageInfo) (s : S)
      → info.vaddr ≡ va
      → outcome (at_pgd m conf npt npm va info s)
        ≡ radix_walk (pae conf.transition_pages) read_at 1 (base 52 info.x86.pdpte_value) va s
  unfolding at_pgd radix_walk outcome pae
  at_pgd-walk info s h =
      let at = pgd_slot va info.x86.pdpte_value in
      let here = base 52 info.x86.pdpte_value + va / 2 ^ 21 % 512 * 8 in
      elim (Option-cases (read_at here s).0) [
        | inl e ↦ ground (arith, at)
        | inr (v, e) ↦
            let info' : PageInfo = record info {
              x86 = record (info.x86) {
                pgd_location = pdba_base_pae info.x86.pdpte_value + pgd_index_pae info.vaddr;
                pgd_value = v;
              };
            } in
            ground (arith, at, large_paddr_lem va v, at_pte-walk info' (read_at here s).1)
      ]

  at_pdpi-walk :
      (info : PageInfo) (s : S)
      → info.vaddr ≡ va
      → info.pt < 2 ^ 64
      → outcome (at_pdpi m conf npt npm va info s)
        ≡ pae_walk conf read_at (some (info.paddr, info.size)) info.pt va s
  unfolding at_pdpi pae_walk outcome
  at_pdpi-walk info s h bound =
      let at = pdpi_slot va info.pt bound in
      let here = info.pt / 32 * 32 + va / 2 ^ 30 % 4 * 8 in
      elim (Option-cases (read_at here s).0) [
        | inl e ↦ ground (arith, at)
        | inr (v, e) ↦
            let info' : PageInfo = record info {
              x86 = record (info.x86) {
                pdpte_location = (get_pdptb info.pt + pdpi_index info.vaddr) % 2 ^ 64;
                pdpte_value = v;
              };
            } in
            ground (arith, at, at_pgd-walk info' (read_at here s).1)
      ]

-- Without a nested page mode, and for a page table address under 2 ^ 64, v2p_pae reads the pointer
-- table's entry and gives what the two-level
-- radix walk below it gives. Where that entry is read but not present, it reports success with the
-- address and the size that stood in `info` before the call.
pub v2p_pae-eq-pae_walk :
    {S : Type 0} (m : Machine S) (conf : Conf) (npt npm pt va : ℕ) (info : PageInfo) (s : S)
    → PageMode.valid_npm npm ≡ false
    → pt < 2 ^ 64
    → outcome (v2p_pae m conf npt npm pt va info s)
      ≡ pae_walk conf
          (λ addr s'. vmi_read_64 m (table_context npt npm addr) s')
          (some (info.paddr, info.size))
          pt
          va
          s
unfolding v2p_pae
v2p_pae-eq-pae_walk m conf npt npm pt va info s plain bound =
    let info' : PageInfo = record info {
      vaddr = va;
      pm = PageMode.pae;
      pt = pt;
      npt = npt;
      npm = npm;
    } in
    ground (arith, plain, at_pdpi-walk m conf npt npm va info' s)
