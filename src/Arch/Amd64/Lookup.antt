-- ===== src/Arch/Amd64/Lookup.antt =====
-- libvmi/arch/amd64.c: where the entries lie, and v2p_ia32e.
use libvmi.Common.{ℕ, ◌/◌, ◌^◌, bit_and, bit_or, Bool}
use libvmi.Types.{Status, Conf, PageInfo, Machine, vmi_read_64}
use libvmi.Bits.{bit_mask}
use libvmi.PageMode
use libvmi.PageSize
use libvmi.Arch.Entry.{entry_present, page_size}
use libvmi.Arch.Steps.{Step, ◌>>◌, require, branch, finish, read_entry, nested_done}

unfoldable pub get_pml4_index : ℕ → ℕ
get_pml4_index vaddr = bit_and vaddr (bit_mask 39 47) / 2 ^ 36

unfoldable pub get_pdpt_index_ia32e : ℕ → ℕ
get_pdpt_index_ia32e vaddr = bit_and vaddr (bit_mask 30 38) / 2 ^ 27

unfoldable pub get_pd_index_ia32e : ℕ → ℕ
get_pd_index_ia32e vaddr = bit_and vaddr (bit_mask 21 29) / 2 ^ 18

unfoldable pub get_pt_index_ia32e : ℕ → ℕ
get_pt_index_ia32e vaddr = bit_and vaddr (bit_mask 12 20) / 2 ^ 9

unfoldable pub get_paddr_ia32e : ℕ → ℕ → ℕ
get_paddr_ia32e vaddr pte = bit_or (bit_and pte (bit_mask 12 51)) (bit_and vaddr (bit_mask 0 11))

unfoldable pub get_gigpage_ia32e : ℕ → ℕ → ℕ
get_gigpage_ia32e vaddr pdpte =
    bit_or (bit_and pdpte (bit_mask 30 51)) (bit_and vaddr (bit_mask 0 29))

unfoldable pub get_2megpage_ia32e : ℕ → ℕ → ℕ
get_2megpage_ia32e vaddr pde = bit_or (bit_and pde (bit_mask 21 51)) (bit_and vaddr (bit_mask 0 20))

module _ {S : Type 0} (m : Machine S) (conf : Conf) (npt npm : ℕ) where
  unfoldable pub get_pml4e : Step S
  get_pml4e =
      read_entry (vmi_read_64 m) npt npm
        (λ info. bit_or (bit_and info.pt (bit_mask 12 51)) (get_pml4_index info.vaddr))
        (λ location v info. record info {
          x86 = record (info.x86) { pml4e_location = location; pml4e_value = v };
        })

  unfoldable pub get_pdpte_ia32e : Step S
  get_pdpte_ia32e =
      read_entry (vmi_read_64 m) npt npm
        (λ info.
          bit_or (bit_and info.x86.pml4e_value (bit_mask 12 51)) (get_pdpt_index_ia32e info.vaddr))
        (λ location v info. record info {
          x86 = record (info.x86) { pdpte_location = location; pdpte_value = v };
        })

  unfoldable pub get_pde_ia32e : Step S
  get_pde_ia32e =
      read_entry (vmi_read_64 m) npt npm
        (λ info.
          bit_or (bit_and info.x86.pdpte_value (bit_mask 12 51)) (get_pd_index_ia32e info.vaddr))
        (λ location v info. record info {
          x86 = record (info.x86) { pgd_location = location; pgd_value = v };
        })

  unfoldable pub get_pte_ia32e : Step S
  get_pte_ia32e =
      read_entry (vmi_read_64 m) npt npm
        (λ info.
          bit_or (bit_and info.x86.pgd_value (bit_mask 12 51)) (get_pt_index_ia32e info.vaddr))
        (λ location v info. record info {
          x86 = record (info.x86) { pte_location = location; pte_value = v };
        })

  abbrev pub is_present : ℕ → Bool
  is_present = entry_present conf.transition_pages

  -- The parts of v2p_ia32e's body, from the last level up.
  module _ (vaddr : ℕ) where
    unfoldable pub at_pte : Step S
    unfolding get_pte_ia32e
    at_pte = do
      get_pte_ia32e
      require (λ info. is_present info.x86.pte_value)
      finish (λ info. record info {
        size = PageSize.kb4;
        paddr = get_paddr_ia32e vaddr info.x86.pte_value;
      })

    unfoldable pub at_pde : Step S
    unfolding get_pde_ia32e at_pte
    at_pde = do
      get_pde_ia32e
      require (λ info. is_present info.x86.pgd_value)
      branch (λ info. page_size info.x86.pgd_value)
          (finish (λ info. record info {
            size = PageSize.mb2;
            paddr = get_2megpage_ia32e vaddr info.x86.pgd_value;
          }))
          at_pte

    unfoldable pub at_pdpte : Step S
    unfolding get_pdpte_ia32e at_pde
    at_pdpte = do
      get_pdpte_ia32e
      require (λ info. is_present info.x86.pdpte_value)
      branch (λ info. page_size info.x86.pdpte_value)
          (finish (λ info. record info {
            size = PageSize.gb1;
            paddr = get_gigpage_ia32e vaddr info.x86.pdpte_value;
          }))
          at_pde

    unfoldable pub at_pml4e : Step S
    unfolding get_pml4e at_pdpte
    at_pml4e = do get_pml4e; require (λ info. is_present info.x86.pml4e_value); at_pdpte

  unfoldable pub v2p_ia32e : ℕ → ℕ → PageInfo → S → Status × PageInfo × S
  unfolding at_pml4e nested_done
  v2p_ia32e pt vaddr info =
      nested_done m npt npm (at_pml4e vaddr)
        (record info { npt = npt; npm = npm; pt = pt; pm = PageMode.ia32e; vaddr = vaddr })
