-- ===== src/Arch/Intel/Legacy.antt =====
-- libvmi/arch/intel.c: v2p_nopae, two levels of four-byte entries.
use libvmi.Common.{ℕ, ◌+◌, Bool, ◌&&◌, ◌||◌}
use libvmi.Types.{Status, Conf, PageInfo, Machine, table_context, vmi_read_32}
use libvmi.PageMode
use libvmi.PageSize
use libvmi.Arch.Entry.{entry_present, page_size}
use libvmi.Arch.Steps.{Step, ◌>>◌, assign, require, branch, finish, read_entry, nested_done}
use libvmi.Arch.Intel.Fields.{
  u32, pdba_base_nopae, pgd_index_nopae, ptba_base_nopae, pte_index_nopae, get_paddr_nopae,
  get_large_paddr_nopae,
}

-- 4MB pages count when they are enabled, and always for a memory file.
abbrev pub is_large : Conf → ℕ → Bool
is_large conf entry = page_size entry && (conf.file_mode || conf.pse)

module _ {S : Type 0} (m : Machine S) (conf : Conf) (npt npm : ℕ) where
  -- The base is taken from the access context's `pt`, which v2p_nopae leaves at zero.
  unfoldable pub get_pgd_nopae : Step S
  get_pgd_nopae = do
    assign (λ info. record info { x86 = record (info.x86) { pgd_value = 0 } })
    read_entry (vmi_read_32 m) npt npm
        (λ info. u32 (pdba_base_nopae (table_context npt npm 0).pt + pgd_index_nopae info.vaddr))
        (λ location v info. record info {
          x86 = record (info.x86) { pgd_location = location; pgd_value = v };
        })

  unfoldable pub get_pte_nopae : Step S
  get_pte_nopae = do
    assign (λ info. record info { x86 = record (info.x86) { pte_value = 0 } })
    read_entry (vmi_read_32 m) npt npm
        (λ info. u32 (ptba_base_nopae info.x86.pgd_value + pte_index_nopae info.vaddr))
        (λ location v info. record info {
          x86 = record (info.x86) { pte_location = location; pte_value = v };
        })

  abbrev is_present : ℕ → Bool
  is_present = entry_present conf.transition_pages

  module _ (vaddr : ℕ) where
    unfoldable pub at_pte : Step S
    unfolding get_pte_nopae
    at_pte = do
      get_pte_nopae
      require (λ info. is_present info.x86.pte_value)
      finish (λ info. record info {
        size = PageSize.kb4;
        paddr = get_paddr_nopae vaddr info.x86.pte_value;
      })

    unfoldable pub at_pgd : Step S
    unfolding get_pgd_nopae at_pte
    at_pgd = do
      get_pgd_nopae
      require (λ info. is_present info.x86.pgd_value)
      branch (λ info. is_large conf info.x86.pgd_value)
          (finish (λ info. record info {
            paddr = get_large_paddr_nopae vaddr info.x86.pgd_value;
            size = PageSize.mb4;
          }))
          at_pte

  unfoldable pub v2p_nopae : ℕ → ℕ → PageInfo → S → Status × PageInfo × S
  unfolding at_pgd nested_done
  v2p_nopae pt vaddr info =
      nested_done m npt npm (at_pgd vaddr)
        (record info { npt = npt; npm = npm; pt = pt; pm = PageMode.legacy; vaddr = vaddr })
