-- ===== src/Tests/Listed.antt =====
-- get_pages_ia32e of libvmi/arch/amd64.c over a small memory.
use libvmi.Common.{ℕ, zero, suc, bit_and, Bool, true, false, ◌≡◌, refl}
use libvmi.PageMode
use libvmi.Bits.{get_bit, bit_mask}
use libvmi.Types.{success, no_info, le_word, vmi_read_64}
use libvmi.Access.Window.{window}
use libvmi.Arch.Entry.{page_size, prototype, transition, entry_present}
use libvmi.Arch.Steps.{nested_done}
use libvmi.Arch.Amd64.Lookup.{
  v2p_ia32e, get_pml4_index, get_pdpt_index_ia32e, get_pd_index_ia32e, get_pt_index_ia32e,
}
use libvmi.Arch.Amd64.Pages.{get_pages_ia32e}
use libvmi.Arch.Amd64.Listing.{All, IsStatic, AreTables, value}
use libvmi.Arch.Amd64.Grows.{Any, Covers}
use libvmi.Arch.Amd64.Listed.{IsLookedUp, get_pages_ia32e-IsLookedUp, get_pages_ia32e-Covers}
use libvmi.Tests.{memory, machine, conf}

abbrev ok : ℕ → ℕ → Bool
ok a n = true

static : IsStatic machine 0 0 memory ok
static = record { read = λ a n s. refl; part = λ a i readable h. refl }

program : Unit {0}
unfolding vmi_read_64 window le_word get_bit page_size prototype transition entry_present
    nested_done PageMode.valid_npm PageMode.valid_pm v2p_ia32e get_pml4_index get_pdpt_index_ia32e
    get_pd_index_ia32e get_pt_index_ia32e
program = tt

plain : PageMode.valid_npm 0 ≡ false
unfolding program
plain = refl

get_pages_ia32e-IsLookedUp_example :
    All
      (IsLookedUp machine conf 0 0 0x1000 memory ok static refl plain)
      (get_pages_ia32e machine conf 0 0 0x1000 tt).0
get_pages_ia32e-IsLookedUp_example =
    get_pages_ia32e-IsLookedUp machine conf 0 0 0x1000 memory ok static refl plain tt

found : (s : Unit {0}) → (v2p_ia32e machine conf 0 0 0x1000 0x8080604321 no_info s).0 ≡ success
unfolding program
found s = refl

tables : (l t : ℕ) → AreTables machine conf 0 0 0x1000 memory ok static l t
tables zero t = refl
tables (suc l) t = (
  refl,
  λ i h p q.
      tables l (bit_and (value machine conf 0 0 0x1000 memory ok static t i) (bit_mask 12 51)),
)

get_pages_ia32e-Covers_example :
    Any (Covers 0x8080604321) (get_pages_ia32e machine conf 0 0 0x1000 tt).0
get_pages_ia32e-Covers_example =
    get_pages_ia32e-Covers machine conf 0 0 0x1000 memory ok static refl plain 0x8080604321 tt
      (tables 3 0x1000) found
