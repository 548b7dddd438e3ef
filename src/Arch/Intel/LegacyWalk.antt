-- ===== src/Arch/Intel/LegacyWalk.antt =====
-- v2p_nopae of libvmi/arch/intel.c against the two-level radix walk.
use mathlib.Core.Path.{ap₂}
use libvmi.Common.{
  ℕ, ◌+◌, ◌*◌, ◌/◌, ◌%◌, ◌^◌, bit_or, ◌≡◌, ◌∙◌, ap, Option, Option-cases, inl, inr, false, arith,
}
use libvmi.Bits.{bit_and-field, bit_and-low, bit_or-add}
use libvmi.PageMode
use libvmi.Types.{Conf, PageInfo, Machine, table_context, vmi_read_32}
use libvmi.Arch.Entry.{entry_present}
use libvmi.Arch.Radix.{Format, frame, base, radix_walk, outcome}
use libvmi.Arch.Intel.Fields.{
  u32, pdba_base_nopae, pgd_index_nopae, ptba_base_nopae, pte_index_nopae, get_paddr_nopae,
  get_large_paddr_nopae,
}
use libvmi.Arch.Intel.Legacy.{is_large, at_pte, at_pgd, v2p_nopae}

module _ (va : ℕ) where
  pgd_slot : u32 (pdba_base_nopae 0 + pgd_index_nopae va) ≡ va / 2 ^ 22 % 1024 * 4
  unfolding pdba_base_nopae pgd_index_nopae
  pgd_slot = omega (arith, bit_and-low 10 (u32 va / 2 ^ 22))

  pte_slot :
      (v : ℕ) → u32 (ptba_base_nopae v + pte_index_nopae va) ≡ base 32 v + va / 2 ^ 12 % 1024 * 4
  unfolding ptba_base_nopae pte_index_nopae
  pte_slot v = omega (arith, bit_and-field 20 12 (u32 v), bit_and-low 10 (u32 va / 2 ^ 12))

  paddr_lem : (v : ℕ) → get_paddr_nopae va v ≡ frame 32 12 v va
  unfolding get_paddr_nopae
  paddr_lem v =
      ap u32 (
        ap₂ bit_or (bit_and-field 20 12 (u32 v)) (bit_and-low 12 (u32 va))
        ∙ bit_or-add 12 (u32 v / 2 ^ 12 % 2 ^ 20) (u32 va % 2 ^ 12) (omega arith))
      ∙ omega arith

  large_paddr_lem : (v : ℕ) → get_large_paddr_nopae va v ≡ frame 32 22 v va
  unfolding get_large_paddr_nopae
  large_paddr_lem v =
      ap u32 (
        ap₂ bit_or (bit_and-field 10 22 (u32 v)) (bit_and-low 22 (u32 va))
        ∙ bit_or-add 22 (u32 v / 2 ^ 22 % 2 ^ 10) (u32 va % 2 ^ 22) (omega arith))
      ∙ omega arith

-- 32 address bits and 1024 entries of four bytes at each of two levels; pages of 4KB and 4MB.
unfoldable pub legacy : Conf → Format
legacy conf = record {
  table_width = 32;
  page_width = λ level. 32;
  index_bits = 10;
  entry_size = 4;
  shift = λ level. 12 + 10 * level;
  present = λ level. entry_present conf.transition_pages;
  leaf = λ level v. is_large conf v;
}

module _ {S : Type 0} (m : Machine S) (conf : Conf) (npt npm va : ℕ) where
  abbrev read_at : ℕ → S → Option ℕ × S
  read_at addr s = vmi_read_32 m (table_context npt npm addr) s

  at_pte-walk :
      (info : PageInfo) (s : S)
      → info.vaddr ≡ va
      → outcome (at_pte m conf npt npm va info s)
        ≡ radix_walk (legacy conf) read_at 0 (base 32 info.x86.pgd_value) va s
  unfolding at_pte radix_walk outcome legacy
  at_pte-walk info s h =
      let at = pte_slot va info.x86.pgd_value in
      elim (Option-cases (read_at (base 32 info.x86.pgd_value + va / 2 ^ 12 % 1024 * 4) s).0) [
        | inl e ↦ ground (arith, at)
        | inr (v, e) ↦ ground (arith, at, paddr_lem va v)
      ]

  at_pgd-walk :
      (info : PageInfo) (s : S)
      → info.vaddr ≡ va
      → outcome (at_pgd m conf npt npm va info s) ≡ radix_walk (legacy conf) read_at 1 0 va s
  unfolding at_pgd radix_walk outcome legacy
  at_pgd-walk info s h =
      let at = pgd_slot va in
      let here = va / 2 ^ 22 % 1024 * 4 in
      elim (Option-cases (read_at (0 + here) s).0) [
        | inl e ↦ ground (arith, at)
        | inr (v, e) ↦
            let info' : PageInfo = record info {
              x86 = record (info.x86) {
                pgd_location = u32 (pdba_base_nopae 0 + pgd_index_nopae info.vaddr);
                pgd_value = v;
              };
            } in
            ground (arith, at, large_paddr_lem va v, at_pte-walk info' (read_at (0 + here) s).1)
      ]

-- Without a nested page mode, v2p_nopae gives what the two-level radix walk from a page directory
-- at address 0 gives, whatever page table `pt` it was called with.
pub v2p_nopae-eq-radix_walk :
    {S : Type 0} (m : Machine S) (conf : Conf) (npt npm pt va : ℕ) (info : PageInfo) (s : S)
    → PageMode.valid_npm npm ≡ false
    → outcome (v2p_nopae m conf npt npm pt va info s)
      ≡ radix_walk (legacy conf) (λ addr s'. vmi_read_32 m (table_context npt npm addr) s') 1 0 va s
unfolding v2p_nopae
v2p_nopae-eq-radix_walk m conf npt npm pt va info s plain =
    let info' : PageInfo = record info {
      npt = npt;
      npm = npm;
      pt = pt;
      pm = PageMode.legacy;
      vaddr = va;
    } in
    ground (arith, plain, at_pgd-walk m conf npt npm va info' s)
