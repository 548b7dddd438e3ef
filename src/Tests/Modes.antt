-- ===== src/Tests/Modes.antt =====
-- arch_init of libvmi/arch/arch_interface.c.
use libvmi.Common.{ℕ, ◌*◌, ◌^◌, Option, none, some, ◌≡◌, refl}
use libvmi.Types.{success, Conf}
use libvmi.PageMode
use libvmi.Bits.{get_bit}
use libvmi.Tests.{conf}
use libvmi.Arch.Modes.{Reg, get_page_mode_x86, arch_init, arch_init-get_page_mode_x86}

-- Long mode.
x86_regs : Reg → Option ℕ
x86_regs Reg.cr0 = some (2 ^ 31)
x86_regs Reg.cr3 = some 0x1000
x86_regs Reg.cr4 = some 0x20
x86_regs Reg.msr_efer = some 0x100
x86_regs Reg.cpsr = none
x86_regs Reg.tcr_el1 = none

-- A 64-bit kernel.
arm_regs : Reg → Option ℕ
arm_regs Reg.cr0 = none
arm_regs Reg.cr3 = none
arm_regs Reg.cr4 = none
arm_regs Reg.msr_efer = none
arm_regs Reg.cpsr = some 5
arm_regs Reg.tcr_el1 = some (25 * 2 ^ 16)

abbrev fresh : Conf
fresh = record conf { page_mode = PageMode.unknown }

arch_init-get_page_mode_x86_example :
    arch_init x86_regs fresh ≡ (success, record conf { page_mode = PageMode.ia32e })
unfolding get_page_mode_x86 x86_regs get_bit
arch_init-get_page_mode_x86_example =
    arch_init-get_page_mode_x86 x86_regs fresh (2 ^ 31) 0x1000 0x20 0x100 refl refl refl refl refl
      refl
