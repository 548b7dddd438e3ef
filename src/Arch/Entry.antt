-- ===== src/Arch/Entry.antt =====
-- The bits of a page table entry, libvmi/x86.h, and canonical_addr of libvmi/private.h.
use libvmi.Common.{ℕ, Bool, true, not, ◌&&◌, bit_or, if◌then◌else◌}
use libvmi.Bits.{get_bit}

-- PAGE_SIZE
unfoldable pub page_size : ℕ → Bool
unfolding get_bit
page_size entry = get_bit entry 7

-- PROTOTYPE
unfoldable pub prototype : ℕ → Bool
unfolding get_bit
prototype entry = get_bit entry 10

-- TRANSITION
unfoldable pub transition : ℕ → Bool
unfolding get_bit
transition entry = get_bit entry 11

-- ENTRY_PRESENT
unfoldable pub entry_present : Bool → ℕ → Bool
unfolding get_bit prototype transition
entry_present transition_pages entry =
    if get_bit entry 0
    then true
    else transition_pages && (transition entry && not (prototype entry))

unfoldable pub canonical_addr : ℕ → ℕ
unfolding get_bit
canonical_addr va = if get_bit va 47 then bit_or va 0xffff000000000000 else va
