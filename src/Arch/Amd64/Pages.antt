-- ===== src/Arch/Amd64/Pages.antt =====
-- libvmi/arch/amd64.c: get_pages_ia32e, with memory for the buffers and for every page_info_t.
use libvmi.Common.{ℕ, ◌+◌, ◌*◌, ◌^◌, not, bit_and, bit_or, List, [], if◌then◌else◌}
use libvmi.Types.{Conf, PageInfo, X86Entries, Machine, no_info, no_entries}
use libvmi.Bits.{bit_mask}
use libvmi.PageSize
use libvmi.Arch.Entry.{entry_present, page_size, canonical_addr}
use libvmi.Arch.Pages.{Listing, entry, os_is_known, each, with_table, prepend, skip}
use libvmi.Arch.Amd64.Lookup.{get_paddr_ia32e, get_gigpage_ia32e, get_2megpage_ia32e}

module _ {S : Type 0} (m : Machine S) (conf : Conf) (npt npm dtb : ℕ) where
  -- A page: `paddr` takes the virtual address.
  abbrev pub page_at : ℕ → (ℕ → ℕ) → ℕ → X86Entries → PageInfo
  page_at va paddr size x86 = record no_info {
    vaddr = canonical_addr va;
    pt = dtb;
    paddr = paddr (canonical_addr va);
    size = size;
    x86 = x86;
  }

  -- The bodies of the four loops: `va` has the indices of the levels above, `x86` their entries, and
  -- `location` is the address of the first entry of the table that stands in `page`.
  unfoldable pub list_pte : ℕ → X86Entries → ℕ → List ℕ → ℕ → Listing S
  list_pte va x86 location page i =
      let v = entry 8 i page in
      if entry_present (os_is_known conf) v
      then prepend (
          page_at (bit_or va (i * 2 ^ 12)) (λ a. get_paddr_ia32e a v) PageSize.kb4
            (record x86 { pte_location = location + i * 8; pte_value = v }))
      else skip

  unfoldable pub list_pgde : ℕ → X86Entries → ℕ → List ℕ → ℕ → Listing S
  list_pgde va x86 location page i =
      let v = entry 8 i page in
      let va' = bit_or va (i * 2 ^ 21) in
      let x86' : X86Entries = record x86 { pgd_location = location + i * 8; pgd_value = v } in
      let table = bit_and v (bit_mask 12 51) in
      if not (entry_present (os_is_known conf) v)
      then skip
      else if page_size v
      then prepend (page_at va' (λ a. get_2megpage_ia32e a v) PageSize.mb2 x86')
      else with_table m npt npm table 4096 (λ bytes. each (list_pte va' x86' table bytes) 0 512)

  -- The location goes on by one, and not by the size of an entry.
  unfoldable pub list_pdpte : ℕ → X86Entries → ℕ → List ℕ → ℕ → Listing S
  list_pdpte va x86 location page i =
      let v = entry 8 i page in
      let va' = bit_or va (i * 2 ^ 30) in
      let x86' : X86Entries = record x86 { pdpte_location = location + i; pdpte_value = v } in
      let table = bit_and v (bit_mask 12 51) in
      if not (entry_present conf.transition_pages v)
      then skip
      else if page_size v
      then prepend (page_at va' (λ a. get_gigpage_ia32e a v) PageSize.gb1 x86')
      else with_table m npt npm table 4096 (λ bytes. each (list_pgde va' x86' table bytes) 0 512)

  unfoldable pub list_pml4e : ℕ → List ℕ → ℕ → Listing S
  list_pml4e location page i =
      let v = entry 8 i page in
      let x86 : X86Entries = record no_entries {
        pml4e_location = location + i * 8;
        pml4e_value = v;
      } in
      let table = bit_and v (bit_mask 12 51) in
      if not (entry_present conf.transition_pages v)
      then skip
      else with_table m npt npm table 4096
          (λ bytes. each (list_pdpte (i * 2 ^ 39) x86 table bytes) 0 512)

  -- The list that is returned, the last page first.
  unfoldable pub get_pages_ia32e : S → List PageInfo × S
  get_pages_ia32e s =
      let table = bit_and dtb (bit_mask 12 51) in
      let (status, ret, s') =
        with_table m npt npm table 4096 (λ bytes. each (list_pml4e table bytes) 0 512) [] s in
      (ret, s')
