-- ===== src/Arch/Arm/Aarch32.antt =====
-- libvmi/arch/arm_aarch32.c: short descriptors in two levels. Table addresses, descriptors and
-- the address in the index functions are of type uint32_t.
use libvmi.Common.{ℕ, ◌*◌, ◌/◌, ◌^◌, bit_and, bit_or, ◌==◌, ◌||◌, not}
use libvmi.Bits.{bit_mask, get_bit}
use libvmi.Types.{Machine, vmi_read_32}
use libvmi.PageSize
use libvmi.Arch.Steps.{Step, ◌>>◌, branch, finish, fault, try_read}
use libvmi.Arch.Intel.Fields.{u32}

unfoldable pub first_level_table_index : ℕ → ℕ
first_level_table_index vaddr = u32 vaddr / 2 ^ 20

unfoldable pub coarse_second_level_table_index : ℕ → ℕ
coarse_second_level_table_index vaddr = bit_and (u32 vaddr / 2 ^ 12) (bit_mask 0 7)

unfoldable pub fine_second_level_table_index : ℕ → ℕ
fine_second_level_table_index vaddr = bit_and (u32 vaddr / 2 ^ 10) (bit_mask 0 9)

-- (value & VMI_BIT_MASK(lo, 31)) | (vaddr & VMI_BIT_MASK(0, lo - 1))
abbrev pub join : ℕ → ℕ → ℕ → ℕ → ℕ
join lo hi value vaddr = bit_or (bit_and value (bit_mask lo 31)) (bit_and vaddr (bit_mask 0 hi))

-- The two lowest bits say what a descriptor is.
unfoldable pub kind : ℕ → ℕ
kind value = bit_and value (bit_mask 0 1)

module _ {S : Type 0} (m : Machine S) where
  unfoldable pub get_first_level_descriptor : ℕ → ℕ → Step S
  get_first_level_descriptor dtb vaddr =
      try_read (vmi_read_32 m)
        (λ info.
          bit_or (bit_and (u32 dtb) (bit_mask 14 31)) (first_level_table_index vaddr * 2 ^ 2))
        (λ location info. record info { arm = record (info.arm) { fld_location = location } })
        (λ v info. record info { arm = record (info.arm) { fld_value = v } })

  unfoldable pub get_coarse_second_level_descriptor : ℕ → Step S
  get_coarse_second_level_descriptor vaddr =
      try_read (vmi_read_32 m)
        (λ info.
          bit_or (bit_and info.arm.fld_value (bit_mask 10 31))
            (coarse_second_level_table_index vaddr * 2 ^ 2))
        (λ location info. record info { arm = record (info.arm) { sld_location = location } })
        (λ v info. record info { arm = record (info.arm) { sld_value = v } })

  unfoldable pub get_fine_second_level_descriptor : ℕ → Step S
  get_fine_second_level_descriptor vaddr =
      try_read (vmi_read_32 m)
        (λ info.
          bit_or (bit_and info.arm.fld_value (bit_mask 12 31))
            (fine_second_level_table_index vaddr * 2 ^ 2))
        (λ location info. record info { arm = record (info.arm) { sld_location = location } })
        (λ v info. record info { arm = record (info.arm) { sld_value = v } })

  module _ (vaddr : ℕ) where
    abbrev first_page : ℕ → ℕ → ℕ → Step S
    first_page size lo hi =
        finish (λ info. record info { size = size; paddr = join lo hi info.arm.fld_value vaddr })

    abbrev second_page : ℕ → ℕ → ℕ → Step S
    second_page size lo hi =
        finish (λ info. record info { size = size; paddr = join lo hi info.arm.sld_value vaddr })

    unfoldable pub at_coarse : Step S
    unfolding get_coarse_second_level_descriptor
    at_coarse = do
      get_coarse_second_level_descriptor vaddr
      branch (λ info. kind info.arm.sld_value == 1) (second_page PageSize.kb64 16 15)
          (branch (λ info. kind info.arm.sld_value == 2 || kind info.arm.sld_value == 3)
            (second_page PageSize.kb4 12 11) fault)

    unfoldable pub at_section : Step S
    at_section =
        branch (λ info. not (get_bit info.arm.fld_value 18)) (first_page PageSize.mb1 20 19)
          (first_page PageSize.mb16 24 23)

    unfoldable pub at_fine : Step S
    unfolding get_fine_second_level_descriptor
    at_fine = do
      get_fine_second_level_descriptor vaddr
      branch (λ info. kind info.arm.sld_value == 1) (second_page PageSize.kb64 16 15)
          (branch (λ info. kind info.arm.sld_value == 2) (second_page PageSize.kb4 12 11)
            (branch (λ info. kind info.arm.sld_value == 3) (second_page PageSize.kb1 10 9) fault))

  unfoldable pub v2p_aarch32 : ℕ → ℕ → Step S
  unfolding get_first_level_descriptor at_coarse at_section at_fine
  v2p_aarch32 pt vaddr = do
    get_first_level_descriptor pt vaddr
    branch (λ info. kind info.arm.fld_value == 1) (at_coarse vaddr)
        (branch (λ info. kind info.arm.fld_value == 2) (at_section vaddr)
          (branch (λ info. kind info.arm.fld_value == 3) (at_fine vaddr) fault))
