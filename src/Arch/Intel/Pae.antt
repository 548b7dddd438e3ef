-- ===== src/Arch/Intel/Pae.antt =====
-- libvmi/arch/intel.c: v2p_pae, a page directory pointer table and two levels below it.
use libvmi.Common.{ℕ, ◌+◌, ◌%◌, ◌^◌, Bool}
use libvmi.Types.{Status, success, Conf, PageInfo, Machine, vmi_read_64}
use libvmi.PageMode
use libvmi.PageSize
use libvmi.Arch.Entry.{entry_present, page_size}
use libvmi.Arch.Steps.{Step, ◌>>◌, require, branch, finish, read_entry, nested_done}
use libvmi.Arch.Intel.Fields.{
  get_pdptb, pdpi_index, pdba_base_pae, pgd_index_pae, ptba_base_pae, pte_index_pae, get_paddr_pae,
  get_large_paddr_pae,
}

module _ {S : Type 0} (m : Machine S) (conf : Conf) (npt npm : ℕ) where
  unfoldable pub get_pdpi : Step S
  get_pdpi =
      read_entry (vmi_read_64 m) npt npm
        (λ info. (get_pdptb info.pt + pdpi_index info.vaddr) % 2 ^ 64)
        (λ location v info. record info {
          x86 = record (info.x86) { pdpte_location = location; pdpte_value = v };
        })

  unfoldable pub get_pgd_pae : Step S
  get_pgd_pae =
      read_entry (vmi_read_64 m) npt npm
        (λ info. pdba_base_pae info.x86.pdpte_value + pgd_index_pae info.vaddr)
        (λ location v info. record info {
          x86 = record (info.x86) { pgd_location = location; pgd_value = v };
        })

  unfoldable pub get_pte_pae : Step S
  get_pte_pae =
      read_entry (vmi_read_64 m) npt npm
        (λ info. ptba_base_pae info.x86.pgd_value + pte_index_pae info.vaddr)
        (λ location v info. record info {
          x86 = record (info.x86) { pte_location = location; pte_value = v };
        })

  abbrev is_present : ℕ → Bool
  is_present = entry_present conf.transition_pages

  module _ (vaddr : ℕ) where
    unfoldable pub at_pte : Step S
    unfolding get_pte_pae
    at_pte = do
      get_pte_pae
      require (λ info. is_present info.x86.pte_value)
      finish (λ info. record info {
        size = PageSize.kb4;
        paddr = get_paddr_pae vaddr info.x86.pte_value;
      })

    unfoldable pub at_pgd : Step S
    unfolding get_pgd_pae at_pte
    at_pgd = do
      get_pgd_pae
      require (λ info. is_present info.x86.pgd_value)
      branch (λ info. page_size info.x86.pgd_value)
          (finish (λ info. record info {
            paddr = get_large_paddr_pae vaddr info.x86.pgd_value;
            size = PageSize.mb2;
          }))
          at_pte

    -- Where the pointer table's entry is not present, `goto done` keeps the VMI_SUCCESS of the
    -- read before it.
    unfoldable pub at_pdpi : Step S
    unfolding get_pdpi at_pgd
    at_pdpi = do
      get_pdpi
      branch (λ info. is_present info.x86.pdpte_value) at_pgd (λ info s. (success, info, s))

  unfoldable pub v2p_pae : ℕ → ℕ → PageInfo → S → Status × PageInfo × S
  unfolding at_pdpi nested_done
  v2p_pae pt vaddr info =
      nested_done m npt npm (at_pdpi vaddr)
        (record info { vaddr = vaddr; pm = PageMode.pae; pt = pt; npt = npt; npm = npm })
