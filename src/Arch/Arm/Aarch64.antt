-- ===== src/Arch/Arm/Aarch64.antt =====
-- libvmi/arch/arm_aarch64.c: up to four levels for a granule of 4KB, up to three for 64KB.
use libvmi.Common.{ℕ, ◌+◌, ◌-◌, ◌*◌, ◌/◌, ◌%◌, ◌^◌, bit_and, bit_or, ◌==◌, if◌then◌else◌}
use libvmi.Bits.{bit_mask}
use libvmi.Types.{Conf, PageInfo, ArmEntries, Machine, vmi_read_64}
use libvmi.PageSize
use libvmi.Arch.Steps.{Step, ◌>>◌, branch, finish, fault, try_read}

unfoldable pub zero_level_4kb_table_index : ℕ → ℕ
zero_level_4kb_table_index vaddr = bit_and (vaddr / 2 ^ 39) (bit_mask 0 8)

unfoldable pub first_level_4kb_table_index : ℕ → ℕ
first_level_4kb_table_index vaddr = bit_and (vaddr / 2 ^ 30) (bit_mask 0 8)

unfoldable pub first_level_64kb_table_index : ℕ → ℕ
first_level_64kb_table_index vaddr = bit_and (vaddr / 2 ^ 42) (bit_mask 0 5)

unfoldable pub second_level_4kb_table_index : ℕ → ℕ
second_level_4kb_table_index vaddr = bit_and (vaddr / 2 ^ 21) (bit_mask 0 8)

unfoldable pub second_level_64kb_table_index : ℕ → ℕ
second_level_64kb_table_index vaddr = bit_and (vaddr / 2 ^ 29) (bit_mask 0 12)

unfoldable pub third_level_4kb_table_index : ℕ → ℕ
third_level_4kb_table_index vaddr = bit_and (vaddr / 2 ^ 12) (bit_mask 0 8)

unfoldable pub third_level_64kb_table_index : ℕ → ℕ
third_level_64kb_table_index vaddr = bit_and (vaddr / 2 ^ 16) (bit_mask 0 12)

-- The two lowest bits say what a descriptor is.
unfoldable pub kind : ℕ → ℕ
kind value = bit_and value (bit_mask 0 1)

-- (value & VMI_BIT_MASK(lo, 47)) | (vaddr & VMI_BIT_MASK(0, hi)), with hi = lo - 1
abbrev pub join : ℕ → ℕ → ℕ → ℕ → ℕ
join lo hi value vaddr = bit_or (bit_and value (bit_mask lo 47)) (bit_and vaddr (bit_mask 0 hi))

module _ {S : Type 0} (m : Machine S) where
  -- What the get_*_descriptor functions share: a table of eight-byte descriptors, whose address
  -- has its lowest bit at `lo`.
  abbrev pub descriptor :
      ℕ
      → (PageInfo → ℕ)
      → ℕ
      → (ℕ → ArmEntries → ArmEntries)
      → (ℕ → ArmEntries → ArmEntries)
      → Step S
  descriptor lo table index locate store =
      try_read (vmi_read_64 m)
        (λ info. bit_or (bit_and (table info) (bit_mask lo 47)) (index * 2 ^ 3))
        (λ location info. record info { arm = locate location info.arm })
        (λ v info. record info { arm = store v info.arm })

  unfoldable pub get_zero_level_4kb_descriptor : ℕ → ℕ → Step S
  get_zero_level_4kb_descriptor dtb vaddr =
      descriptor 12 (λ info. dtb) (zero_level_4kb_table_index vaddr)
        (λ location arm. record arm { zld_location = location })
        (λ v arm. record arm { zld_value = v })

  unfoldable pub get_first_level_4kb_descriptor : ℕ → ℕ → Step S
  get_first_level_4kb_descriptor dtb vaddr =
      descriptor 12 (λ info. dtb) (first_level_4kb_table_index vaddr)
        (λ location arm. record arm { fld_location = location })
        (λ v arm. record arm { fld_value = v })

  unfoldable pub get_first_level_64kb_descriptor : ℕ → ℕ → Step S
  get_first_level_64kb_descriptor dtb vaddr =
      descriptor 9 (λ info. dtb) (first_level_64kb_table_index vaddr)
        (λ location arm. record arm { fld_location = location })
        (λ v arm. record arm { fld_value = v })

  unfoldable pub get_second_level_4kb_descriptor : ℕ → ℕ → Step S
  get_second_level_4kb_descriptor dtb vaddr =
      descriptor 12 (λ info. dtb) (second_level_4kb_table_index vaddr)
        (λ location arm. record arm { sld_location = location })
        (λ v arm. record arm { sld_value = v })

  unfoldable pub get_second_level_64kb_descriptor : ℕ → ℕ → Step S
  get_second_level_64kb_descriptor dtb vaddr =
      descriptor 16 (λ info. dtb) (second_level_64kb_table_index vaddr)
        (λ location arm. record arm { sld_location = location })
        (λ v arm. record arm { sld_value = v })

  unfoldable pub get_third_level_4kb_descriptor : ℕ → Step S
  get_third_level_4kb_descriptor vaddr =
      descriptor 12 (λ info. info.arm.sld_value) (third_level_4kb_table_index vaddr)
        (λ location arm. record arm { tld_location = location })
        (λ v arm. record arm { tld_value = v })

  unfoldable pub get_third_level_64kb_descriptor : ℕ → Step S
  get_third_level_64kb_descriptor vaddr =
      descriptor 16 (λ info. info.arm.sld_value) (third_level_64kb_table_index vaddr)
        (λ location arm. record arm { tld_location = location })
        (λ v arm. record arm { tld_value = v })

  module _ (vaddr : ℕ) where
    abbrev pub page : (ArmEntries → ℕ) → ℕ → ℕ → ℕ → Step S
    page value size lo hi =
        finish (λ info. record info { size = size; paddr = join lo hi (value info.arm) vaddr })

    -- levels == 2; the third-level descriptor is not looked at.
    unfoldable pub second_4kb : ℕ → Step S
    unfolding get_second_level_4kb_descriptor get_third_level_4kb_descriptor
    second_4kb pt = do
      get_second_level_4kb_descriptor pt vaddr
      branch (λ info. kind info.arm.sld_value == 3)
          (get_third_level_4kb_descriptor vaddr >> page (λ arm. arm.tld_value) PageSize.kb4 12 11)
          (branch (λ info. kind info.arm.sld_value == 1)
            (page (λ arm. arm.sld_value) PageSize.mb2 21 20) fault)

    -- levels == 3
    unfoldable pub first_4kb : ℕ → Step S
    unfolding get_first_level_4kb_descriptor
    first_4kb pt = do
      get_first_level_4kb_descriptor pt vaddr
      branch (λ info. kind info.arm.fld_value == 3)
          (λ info. second_4kb (bit_and info.arm.fld_value (bit_mask 12 47)) info)
          (branch (λ info. kind info.arm.fld_value == 1)
            (page (λ arm. arm.fld_value) PageSize.gb1 30 29) fault)

    -- levels == 4
    unfoldable pub zero_4kb : ℕ → Step S
    unfolding get_zero_level_4kb_descriptor
    zero_4kb pt = do
      get_zero_level_4kb_descriptor pt vaddr
      branch (λ info. kind info.arm.zld_value == 3)
          (λ info. first_4kb (bit_and info.arm.zld_value (bit_mask 12 47)) info) fault

    -- levels == 2
    unfoldable pub second_64kb : ℕ → Step S
    unfolding get_second_level_64kb_descriptor get_third_level_64kb_descriptor
    second_64kb pt = do
      get_second_level_64kb_descriptor pt vaddr
      branch (λ info. kind info.arm.sld_value == 3)
          (get_third_level_64kb_descriptor vaddr >> page (λ arm. arm.tld_value) PageSize.kb4 16 15)
          (branch (λ info. kind info.arm.sld_value == 1)
            (page (λ arm. arm.sld_value) PageSize.mb512 29 28) fault)

    -- levels == 3
    unfoldable pub first_64kb : ℕ → Step S
    unfolding get_first_level_64kb_descriptor
    first_64kb pt = do
      get_first_level_64kb_descriptor pt vaddr
      branch (λ info. kind info.arm.fld_value == 3)
          (λ info. second_64kb (bit_and info.arm.fld_value (bit_mask 16 47)) info) fault

  -- The table is the one of TTBR1 if it is the kernel's; the width of an address is a uint8_t.
  unfoldable pub v2p_aarch64 : Conf → ℕ → ℕ → Step S
  v2p_aarch64 conf pt vaddr =
      let ps = if pt == conf.kpgd then conf.tg1 else conf.tg0 in
      let tsz = if pt == conf.kpgd then conf.t1sz else conf.t0sz in
      let va_width = (64 + 2 ^ 32 - tsz) % 2 ^ 8 in
      if ps == PageSize.kb4
      then (if va_width == 39 then first_4kb vaddr pt else zero_4kb vaddr pt)
      else if ps == PageSize.kb64
      then (if va_width == 42 then second_64kb vaddr pt else first_64kb vaddr pt)
      else fault
