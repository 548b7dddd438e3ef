-- ===== src/Arch/Modes.antt =====
-- libvmi/arch/arch_interface.c: the page mode from the registers of a processor.
use libvmi.Common.{
  ℕ, ◌/◌, ◌^◌, bit_and, Bool, true, false, not, ◌==◌, Option, none, some, Option-cases, inl, inr,
  if◌then◌else◌, ◌≡◌, arith,
}
use libvmi.Types.{Status, success, failure, Conf, VmType}
use libvmi.PageMode
use libvmi.PageSize
use libvmi.Bits.{bit_mask, get_bit}

-- The registers that are read, of a reg_t.
pub data Reg : Type 0 where
  cr0 cr3 cr4 msr_efer cpsr tcr_el1 : Reg

-- out_pm: NULL, the address of vmi->page_mode, or that of another variable, with what it holds.
pub data OutPm : Type 0 where
  null : OutPm
  instance_pm : OutPm
  elsewhere : ℕ → OutPm

-- `*out_pm = pm`
unfoldable pub write_pm : OutPm → ℕ → Conf → OutPm × Conf
write_pm null pm conf = (null, conf)
write_pm instance_pm pm conf = (instance_pm, record conf { page_mode = pm })
write_pm (elsewhere old) pm conf = (elsewhere pm, conf)

unfoldable pub is_null : OutPm → Bool
is_null null = true
is_null instance_pm = false
is_null (elsewhere old) = false

unfoldable pub get_page_mode_x86 : ℕ → ℕ → ℕ → ℕ
get_page_mode_x86 v0 v4 efer =
    if not (get_bit v0 31)
    then PageMode.unset
    else if not (get_bit v4 5)
    then PageMode.legacy
    else if not (get_bit efer 8)
    then PageMode.pae
    else PageMode.ia32e

-- tg0 and tg1 for the fields of TCR_EL1, which leave the old value at the reserved ones.
unfoldable pub granule_0 : ℕ → ℕ → ℕ
granule_0 bits old =
    if bits == 0
    then PageSize.kb4
    else if bits == 1
    then PageSize.kb64
    else if bits == 2
    then PageSize.kb16
    else old

unfoldable pub granule_1 : ℕ → ℕ → ℕ
granule_1 bits old =
    if bits == 1
    then PageSize.kb16
    else if bits == 2
    then PageSize.kb4
    else if bits == 3
    then PageSize.kb64
    else old

-- `driver_get_vcpureg` for the processor that is asked about; `none` is VMI_FAILURE.
module _ (driver_get_vcpureg : Reg → Option ℕ) where
  is_pv64 : VmType → Bool
  is_pv64 VmType.pv64 = true
  is_pv64 VmType.normal = false
  is_pv64 VmType.hvm = false
  is_pv64 VmType.pv32 = false

  -- LME, or what the kind of the machine says where it cannot be read.
  unfoldable pub get_lme : Conf → Bool
  unfolding is_pv64
  get_lme conf = elim (driver_get_vcpureg msr_efer) [
    | some efer ↦ get_bit efer 8
    | none ↦ is_pv64 conf.vm_type
  ]

  unfoldable pub get_vcpu_page_mode_x86 : OutPm → Conf → Status × OutPm × Conf
  get_vcpu_page_mode_x86 out conf = elim (driver_get_vcpureg cr0) [
    | none ↦ (failure, out, conf)
    | some v0 ↦
        if not (get_bit v0 31)
        then (success, out, record conf { page_mode = PageMode.unset; pse = false })
        else (elim (driver_get_vcpureg cr4) [
          | none ↦ (failure, out, conf)
          | some v4 ↦ elim (driver_get_vcpureg cr3) [
            | none ↦ (failure, out, conf)
            | some v3 ↦
                let pm =
                  if not (get_bit v4 5)
                  then PageMode.legacy
                  else if get_lme conf
                  then PageMode.ia32e
                  else PageMode.pae in
                if is_null out
                then (success, out, record conf { page_mode = pm; pse = get_bit v4 4 })
                else (let (out', conf') = write_pm out pm conf in (success, out', conf'))
          ]
        ])
  ]

  -- The fields of TCR_EL1, where they are asked for and can be read.
  unfoldable pub set_tcr : OutPm → Conf → Conf
  set_tcr out conf = elim (driver_get_vcpureg tcr_el1) [
    | none ↦ conf
    | some tcr ↦
        if is_null out
        then record conf {
          t0sz = bit_and tcr (bit_mask 0 5);
          t1sz = bit_and tcr (bit_mask 16 21) / 2 ^ 16;
          tg0 = granule_0 (bit_and tcr (bit_mask 14 15) / 2 ^ 14) conf.tg0;
          tg1 = granule_1 (bit_and tcr (bit_mask 30 31) / 2 ^ 30) conf.tg1;
        }
        else conf
  ]

  unfoldable pub get_vcpu_page_mode_arm : OutPm → Conf → Status × OutPm × Conf
  get_vcpu_page_mode_arm out conf = elim (driver_get_vcpureg cpsr) [
    | none ↦ (failure, out, conf)
    | some psr ↦
        let is_32 = not (bit_and psr 0x10 == 0) in
        let pm = if is_32 then PageMode.aarch32 else PageMode.aarch64 in
        let conf' = if is_32 then conf else set_tcr out conf in
        if is_null out
        then (success, out, record conf' { page_mode = pm })
        else (let (out', conf'') = write_pm out pm conf' in (success, out', conf''))
  ]

  unfoldable pub get_vcpu_page_mode : OutPm → Conf → Status × OutPm × Conf
  get_vcpu_page_mode out conf =
      let (x86, out₁, conf₁) = get_vcpu_page_mode_x86 out conf in
      let (arm, out₂, conf₂) = get_vcpu_page_mode_arm out₁ conf₁ in
      if conf.file_mode
      then (failure, out, conf)
      else (elim x86 [ success ↦ (success, out₁, conf₁) | failure ↦ (arm, out₂, conf₂) ])

  unfoldable pub arch_init : Conf → Status × Conf
  arch_init conf =
      let (status, out, conf') = get_vcpu_page_mode instance_pm conf in
      if conf.page_mode == PageMode.unknown then (status, conf') else (success, conf)

  -- Where the control registers and MSR_EFER of a live machine can be read, arch_init of an instance
  -- whose page mode is unknown succeeds with the page mode of get_page_mode_x86; of the other
  -- fields, pse is cleared where paging is off, and stays as it was where it is on.
  pub arch_init-get_page_mode_x86 :
      (conf : Conf) (v0 v3 v4 efer : ℕ)
      → conf.file_mode ≡ false
      → conf.page_mode ≡ PageMode.unknown
      → driver_get_vcpureg cr0 ≡ some v0
      → driver_get_vcpureg cr3 ≡ some v3
      → driver_get_vcpureg cr4 ≡ some v4
      → driver_get_vcpureg msr_efer ≡ some efer
      → arch_init conf ≡ (
        success,
        record conf {
          page_mode = get_page_mode_x86 v0 v4 efer;
          pse = if get_bit v0 31 then conf.pse else false;
        },
      )
  unfolding arch_init get_vcpu_page_mode get_vcpu_page_mode_x86 get_lme get_page_mode_x86 write_pm
      is_null
  arch_init-get_page_mode_x86 conf v0 v3 v4 efer live unknown e0 e3 e4 ee = ground (arith)

  -- Where CR0 of a live machine cannot be read but CPSR can, arch_init of an instance whose page
  -- mode is unknown succeeds with the page mode that bit 4 of CPSR says, and changes nothing else:
  -- the sizes and granules of TCR_EL1 are not asked for, whether it can be read or not.
  pub arch_init-arm :
      (conf : Conf) (psr : ℕ)
      → conf.file_mode ≡ false
      → conf.page_mode ≡ PageMode.unknown
      → driver_get_vcpureg cr0 ≡ none
      → driver_get_vcpureg cpsr ≡ some psr
      → arch_init conf ≡ (
        success,
        record conf {
          page_mode = if bit_and psr 0x10 == 0 then PageMode.aarch64 else PageMode.aarch32;
        },
      )
  unfolding arch_init get_vcpu_page_mode get_vcpu_page_mode_x86 get_vcpu_page_mode_arm set_tcr
      write_pm is_null
  arch_init-arm conf psr live unknown e0 ep = elim (Option-cases (driver_get_vcpureg tcr_el1)) [
    | inl e ↦ ground arith
    | inr (v, e) ↦ ground arith
  ]
