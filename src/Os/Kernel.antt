-- ===== src/Os/Kernel.antt =====
-- What the searches of libvmi/os/linux/memory.c and libvmi/os/freebsd/memory.c read through the
-- kernel's page table, and how they compute with addresses.
use libvmi.Common.{
  ℕ, ◌+◌, ◌-◌, ◌%◌, ◌^◌, ◌<◌, ltb, Option, none, some, if◌then◌else◌, ◌≡◌, ◌⊎◌, arith,
}
use libvmi.Types.{success, failure, Conf}
use libvmi.Access.Env.{Env}
use libvmi.Access.Sized.{vmi_read_32_va, vmi_read_addr_va}

-- The first of two results goes on to the second, unless it is missing.
abbrev pub and_then : {A B : Type 0} → Option A → (A → Option B) → Option B
and_then none k = none
and_then (some a) k = k a

-- An addr_t that is kept in an int, as it is added to an addr_t.
unfoldable pub as_int : ℕ → ℕ
as_int x = let w = x % 2 ^ 32 in if ltb w (2 ^ 31) then w else w + 2 ^ 64 - 2 ^ 32

-- Sums and differences of addr_t, of numbers below 2 ^ 64.
unfoldable pub add_addr : ℕ → ℕ → ℕ
add_addr a b = (a + b) % 2 ^ 64

unfoldable pub sub_addr : ℕ → ℕ → ℕ
sub_addr a b = (a + 2 ^ 64 - b) % 2 ^ 64

pub sub_addr-add_addr : (a b : ℕ) → a < 2 ^ 64 → b < 2 ^ 64 → sub_addr (add_addr a b) b ≡ a
unfolding sub_addr add_addr
sub_addr-add_addr a b h k = omega (arith, h, k)

pub add_addr-lt : (a b : ℕ) → add_addr a b < 2 ^ 64
unfolding add_addr
add_addr-lt a b = omega arith

pub as_int-lt : (x : ℕ) → as_int x < 2 ^ 64
unfolding as_int
as_int-lt x = ground arith

module _ {S : Type 0} (env : Env S) (conf : Conf) (IsGood : S → Type 0) where
  -- A virtual address of the kernel at which a number of 32 bits stands, or an address, in all the
  -- states that are met.
  abbrev pub Has32 : ℕ → ℕ → Type 0
  Has32 a v =
      (old : ℕ) (s : S)
      → IsGood s
      → (s' : S) × (vmi_read_32_va env conf a 0 old s ≡ (success, v, s')) × IsGood s'

  abbrev pub HasAddr : ℕ → ℕ → Type 0
  HasAddr a v =
      (old : ℕ) (s : S)
      → IsGood s
      → (s' : S) × (vmi_read_addr_va env conf a 0 old s ≡ (success, v, s')) × IsGood s'

  -- An address from which nothing can be read: the variable keeps its value, or it is set to 0, which
  -- is what vmi_read_addr_va does where addresses have 32 bits.
  abbrev pub HasNone : ℕ → Type 0
  HasNone a =
      (old : ℕ) (s : S)
      → old < 2 ^ 64
      → IsGood s
      → (v : ℕ) × (s' : S) × (vmi_read_addr_va env conf a 0 old s ≡ (failure, v, s'))
        × ((v ≡ old) ⊎ (v ≡ 0))
        × IsGood s'

  -- An address from which no number of 32 bits can be read.
  abbrev pub HasNone32 : ℕ → Type 0
  HasNone32 a =
      (old : ℕ) (s : S)
      → old < 2 ^ 32
      → IsGood s
      → (s' : S) × (vmi_read_32_va env conf a 0 old s ≡ (failure, old, s')) × IsGood s'
