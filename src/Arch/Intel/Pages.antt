-- ===== src/Arch/Intel/Pages.antt =====
-- libvmi/arch/intel.c: get_pages_nopae and get_pages_pae, with memory for the buffers and for every
-- page_info_t. The products of indices are below 2 ^ 32.
use libvmi.Common.{ℕ, ◌+◌, ◌*◌, ◌^◌, not, ◌&&◌, ◌||◌, List, [], if◌then◌else◌}
use libvmi.Types.{Conf, PageInfo, X86Entries, Machine, no_info, no_entries}
use libvmi.PageSize
use libvmi.Arch.Entry.{entry_present, page_size}
use libvmi.Arch.Pages.{Listing, entry, os_is_known, each, with_table, prepend, skip}
use libvmi.Arch.Intel.Fields.{
  u32, get_pdptb, pdba_base_pae, ptba_base_nopae, ptba_base_pae, get_paddr_nopae, get_paddr_pae,
  get_large_paddr_nopae, get_large_paddr_pae,
}

module _ {S : Type 0} (m : Machine S) (conf : Conf) (npt npm dtb : ℕ) where
  abbrev page_at : ℕ → ℕ → ℕ → X86Entries → PageInfo
  page_at va paddr size x86 = record no_info {
    vaddr = va;
    pt = dtb;
    paddr = paddr;
    size = size;
    x86 = x86;
  }

  -- The bodies of the loops of get_pages_nopae: `base_va` is the address that the levels above give,
  -- `x86` their entries, and `location` is the address of the first entry of the table in `page`.
  unfoldable pub list_pte_nopae : ℕ → X86Entries → ℕ → List ℕ → ℕ → Listing S
  list_pte_nopae base_va x86 location page i =
      let v = entry 4 i page in
      let va = base_va + i * 4096 in
      if entry_present (os_is_known conf) v
      then prepend (
          page_at va (get_paddr_nopae va v) PageSize.kb4
            (record x86 { pte_location = location + i * 4; pte_value = v }))
      else skip

  -- The address of a large page is made of its virtual address, where its entry is meant.
  unfoldable pub list_pgd_nopae : List ℕ → ℕ → Listing S
  list_pgd_nopae page i =
      let v = entry 4 i page in
      let va = i * 2 ^ 22 in
      let x86 : X86Entries = record no_entries { pgd_location = dtb + i * 4; pgd_value = v } in
      let table = ptba_base_nopae v in
      if not (entry_present (os_is_known conf) v)
      then skip
      else if page_size v && (conf.file_mode || conf.pse)
      then prepend (page_at va (get_large_paddr_nopae va va) PageSize.mb4 x86)
      else with_table m npt npm table 4096
          (λ bytes. each (list_pte_nopae va x86 table bytes) 0 1024)

  -- The list that is returned, the last page first.
  unfoldable pub get_pages_nopae : S → List PageInfo × S
  get_pages_nopae s =
      let (status, ret, s') =
        with_table m npt npm dtb 4096 (λ bytes. each (list_pgd_nopae bytes) 0 1024) [] s in
      (ret, s')

  -- The bodies of the loops of get_pages_pae.
  unfoldable pub list_pte_pae : ℕ → X86Entries → ℕ → List ℕ → ℕ → Listing S
  list_pte_pae base_va x86 location page i =
      let v = entry 8 i page in
      let va = base_va + i * 4096 in
      if entry_present (os_is_known conf) v
      then prepend (
          page_at va (get_paddr_pae va v) PageSize.kb4
            (record x86 { pte_location = location + i * 8; pte_value = v }))
      else skip

  unfoldable pub list_pgd_pae : ℕ → X86Entries → ℕ → List ℕ → ℕ → Listing S
  list_pgd_pae base_va x86 location page i =
      let v = entry 8 i page in
      let va = base_va + i * 2 ^ 21 in
      let x86' : X86Entries = record x86 { pgd_location = location + i * 8; pgd_value = v } in
      let table = ptba_base_pae v in
      if not (entry_present (os_is_known conf) v)
      then skip
      else if page_size v
      then prepend (page_at va (get_large_paddr_pae va v) PageSize.mb2 x86')
      else with_table m npt npm table 4096 (λ bytes. each (list_pte_pae va x86' table bytes) 0 512)

  unfoldable pub list_pdpi : ℕ → List ℕ → ℕ → Listing S
  list_pdpi location page i =
      let v = entry 8 i page in
      let x86 : X86Entries = record no_entries {
        pdpte_location = location + i * 8;
        pdpte_value = v;
      } in
      let table = pdba_base_pae v in
      if not (entry_present conf.transition_pages v)
      then skip
      else with_table m npt npm table 4096
          (λ bytes. each (list_pgd_pae (i * 2 ^ 30) x86 table bytes) 0 512)

  -- The base of the pointer table is kept in a uint32_t.
  unfoldable pub get_pages_pae : S → List PageInfo × S
  get_pages_pae s =
      let table = u32 (get_pdptb dtb) in
      let (status, ret, s') =
        with_table m npt npm table 32 (λ bytes. each (list_pdpi table bytes) 0 4) [] s in
      (ret, s')
