-- ===== src/Arch/Intel/Fields.antt =====
-- libvmi/arch/intel.c: the parts of a virtual address and of an entry. Parameters and results of
-- type uint32_t are cut to 32 bits.
use libvmi.Common.{ℕ, ◌*◌, ◌/◌, ◌%◌, ◌^◌, bit_and, bit_or, ◌==◌, ◌||◌, if◌then◌else◌}
use libvmi.Bits.{bit_mask}
use libvmi.Types.{Status, success, failure}

abbrev pub u32 : ℕ → ℕ
u32 n = n % 2 ^ 32

unfoldable pub get_pdptb : ℕ → ℕ
get_pdptb pdpr = bit_and pdpr (bit_mask 5 63)

unfoldable pub pdpi_index : ℕ → ℕ
pdpi_index pdpi = u32 (u32 pdpi / 2 ^ 30 * 8)

unfoldable pub pgd_index_nopae : ℕ → ℕ
pgd_index_nopae address = u32 (bit_and (u32 address / 2 ^ 22) (bit_mask 0 9) * 4)

unfoldable pub pgd_index_pae : ℕ → ℕ
pgd_index_pae address = u32 (bit_and (u32 address / 2 ^ 21) (bit_mask 0 8) * 8)

unfoldable pub pdba_base_nopae : ℕ → ℕ
pdba_base_nopae pdpe = bit_and (u32 pdpe) (bit_mask 12 31)

unfoldable pub pdba_base_pae : ℕ → ℕ
pdba_base_pae pdpe = bit_and pdpe (bit_mask 12 51)

unfoldable pub pte_index_nopae : ℕ → ℕ
pte_index_nopae address = u32 (bit_and (u32 address / 2 ^ 12) (bit_mask 0 9) * 4)

unfoldable pub pte_index_pae : ℕ → ℕ
pte_index_pae address = u32 (bit_and (u32 address / 2 ^ 12) (bit_mask 0 8) * 8)

unfoldable pub ptba_base_nopae : ℕ → ℕ
ptba_base_nopae pde = bit_and (u32 pde) (bit_mask 12 31)

unfoldable pub ptba_base_pae : ℕ → ℕ
ptba_base_pae pde = bit_and pde (bit_mask 12 35)

unfoldable pub pte_pfn_nopae : ℕ → ℕ
pte_pfn_nopae pte = bit_and (u32 pte) (bit_mask 12 31)

unfoldable pub pte_pfn_pae : ℕ → ℕ
pte_pfn_pae pte = bit_and pte (bit_mask 12 35)

unfoldable pub get_paddr_nopae : ℕ → ℕ → ℕ
unfolding pte_pfn_nopae
get_paddr_nopae vaddr pte = u32 (bit_or (pte_pfn_nopae pte) (bit_and (u32 vaddr) (bit_mask 0 11)))

unfoldable pub get_paddr_pae : ℕ → ℕ → ℕ
unfolding pte_pfn_pae
get_paddr_pae vaddr pte = bit_or (pte_pfn_pae pte) (bit_and (u32 vaddr) (bit_mask 0 11))

unfoldable pub get_large_paddr_nopae : ℕ → ℕ → ℕ
get_large_paddr_nopae vaddr pgd_entry =
    u32 (bit_or (bit_and (u32 pgd_entry) (bit_mask 22 31)) (bit_and (u32 vaddr) (bit_mask 0 21)))

unfoldable pub get_large_paddr_pae : ℕ → ℕ → ℕ
get_large_paddr_pae vaddr pgd_entry =
    u32 (bit_or (bit_and (u32 pgd_entry) (bit_mask 21 31)) (bit_and (u32 vaddr) (bit_mask 0 20)))

-- VMI_MEMACCESS_R is 2 and VMI_MEMACCESS_RX is 2 | 8.
pub intel_mem_access_sanity_check : ℕ → Status
intel_mem_access_sanity_check page_access_flag =
    if page_access_flag == 2 || page_access_flag == 10 then failure else success
