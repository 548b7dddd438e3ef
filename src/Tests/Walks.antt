-- ===== src/Tests/Walks.antt =====
-- The page walks of libvmi/arch over a small memory.
use libvmi.Tests.{memory, machine, conf}
use libvmi.Common.{ℕ, zero, suc, ◌+◌, ◌*◌, ◌/◌, ◌%◌, ◌^◌, none, some, ◌≡◌, refl, ◌≢◌, arith}
use libvmi.PageMode
use libvmi.Bits.{get_bit}
use libvmi.Types.{no_info, le_word, vmi_read_32, vmi_read_64, table_context}
use libvmi.Access.Window.{window}
use libvmi.Arch.Entry.{page_size, prototype, transition, entry_present}
use libvmi.Arch.Steps.{nested_done}
use libvmi.Arch.Radix.{radix_walk, outcome, IsReadable, slot, base}
use libvmi.Arch.Amd64.Lookup.{v2p_ia32e}
use libvmi.Arch.Amd64.Walk.{ia32e, v2p_ia32e-eq-radix_walk}
use libvmi.Arch.Intel.Legacy.{v2p_nopae}
use libvmi.Arch.Intel.LegacyWalk.{legacy, v2p_nopae-eq-radix_walk}
use libvmi.Arch.Intel.Pae.{v2p_pae}
use libvmi.Arch.Intel.PaeWalk.{pae, pae_walk, v2p_pae-eq-pae_walk}
use libvmi.Arch.Arm.Aarch32.{v2p_aarch32}
use libvmi.Arch.Arm.Aarch32Walk.{coarse_walk, fine_walk, short_walk, v2p_aarch32-eq-short_walk}
use libvmi.Arch.Arm.Aarch64.{v2p_aarch64}
use libvmi.Arch.Arm.Aarch64Walk.{granule_4kb, levels, v2p_aarch64-eq-radix_walk}

program : Unit {0}
unfolding vmi_read_32 vmi_read_64 window le_word get_bit page_size prototype transition
    entry_present nested_done radix_walk outcome ia32e legacy pae pae_walk granule_4kb
    PageMode.valid_npm PageMode.valid_pm
program = tt

v2p_ia32e-eq-radix_walk_example :
    outcome (v2p_ia32e machine conf 0 0 0x1000 0x8080604321 no_info tt)
    ≡ (some (0x5321, 0x1000), tt)
unfolding program
v2p_ia32e-eq-radix_walk_example =
    v2p_ia32e-eq-radix_walk machine conf 0 0 0x1000 0x8080604321 no_info tt refl

v2p_nopae-eq-radix_walk_example :
    outcome (v2p_nopae machine conf 0 0 0x1000 0x402005 no_info tt) ≡ (some (0x7005, 0x1000), tt)
unfolding program
v2p_nopae-eq-radix_walk_example =
    v2p_nopae-eq-radix_walk machine conf 0 0 0x1000 0x402005 no_info tt refl

v2p_pae-eq-pae_walk_example :
    outcome (v2p_pae machine conf 0 0 0x1000 0x40403007 no_info tt) ≡ (some (0x4007, 0x1000), tt)
unfolding program
v2p_pae-eq-pae_walk_example =
    v2p_pae-eq-pae_walk machine conf 0 0 0x1000 0x40403007 no_info tt refl (omega arith)

some_ne_none : (v : ℕ) → some v ≢ none
some_ne_none v e = ground arith

readable : (addr : ℕ) (s : Unit {0}) → (vmi_read_64 machine (table_context 0 0 addr) s).0 ≢ none
unfolding vmi_read_64
readable addr s = some_ne_none (le_word (window memory addr 8))

all-IsReadable :
    (l table va : ℕ) (s : Unit {0})
    → IsReadable granule_4kb
        (λ addr s'. vmi_read_64 machine (table_context 0 0 addr) s')
        l
        table
        va
        s
all-IsReadable zero table va s = readable (slot granule_4kb 0 table va) s
all-IsReadable (suc l) table va s = (
  readable (slot granule_4kb (suc l) table va) s,
  λ v e p q.
      all-IsReadable l (base granule_4kb.table_width v) va
        (vmi_read_64 machine (table_context 0 0 (slot granule_4kb (suc l) table va)) s).1,
)

v2p_aarch64-eq-radix_walk_example :
    outcome (v2p_aarch64 machine conf 0x1000 0x8080604321 no_info tt) ≡ (some (0x5321, 0x1000), tt)
unfolding program
v2p_aarch64-eq-radix_walk_example =
    v2p_aarch64-eq-radix_walk machine conf 0x1000 0x8080604321 no_info tt
      (all-IsReadable (levels conf 0x1000) (base 48 0x1000) 0x8080604321 tt) refl

readable_32 : (addr : ℕ) (s : Unit {0}) → (vmi_read_32 machine (table_context 0 0 addr) s).0 ≢ none
unfolding vmi_read_32
readable_32 addr s = some_ne_none (le_word (window memory addr 4))

v2p_aarch32-eq-short_walk_example :
    outcome (v2p_aarch32 machine 0 0x100805 no_info tt) ≡ (some (0x7005, 0x400), tt)
unfolding program short_walk coarse_walk fine_walk
v2p_aarch32-eq-short_walk_example = v2p_aarch32-eq-short_walk machine 0 0x100805 no_info tt (
  readable_32 (1050629 / 2 ^ 20 % 4096 * 4) tt,
  λ v e q. readable_32 (v / 2 ^ 10 % 2 ^ 22 * 2 ^ 10 + 1050629 / 2 ^ 12 % 256 * 4) tt,
  λ v e q. readable_32 (v / 2 ^ 12 % 2 ^ 20 * 2 ^ 12 + 1050629 / 2 ^ 10 % 1024 * 4) tt,
)
