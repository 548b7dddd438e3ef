-- ===== src/Access/Paging.antt =====
-- What guest memory is when every address of a range can be translated: the assumptions under
-- which the loops of libvmi/read.c and libvmi/write.c go through, and how far a round goes.
use libvmi.Common.{
  ℕ, ◌+◌, ◌-◌, ◌*◌, ◌/◌, ◌%◌, ◌^◌, ◌≤◌, ◌<◌, bit_and, some, ◌≡◌, sym, ap, ◌∙◌, arith,
}
use libvmi.Bits.{bit_and-low_left}
use libvmi.Types.{Conf, AccessContext}
use libvmi.Access.Env.{Env, Start, resolve, part_len}
use libvmi.Access.Window.{window}

-- Pages of 2 ^ page_shift bytes, as libvmi/core.c sets them up.
abbrev pub IsPaged : Conf → Type 0
IsPaged conf = (conf.page_size ≡ 2 ^ conf.page_shift) × (0 < conf.page_size)

-- Each of `count` bytes from `first` has a physical address, and within a page these follow one
-- another. `IsGood` holds of the states in which the calls are made, and is kept by them.
pub record IsMapped {S : Type 0} (env : Env S) (conf : Conf) (ctx : AccessContext) (start : Start)
    (IsGood : S → Type 0) (tr : ℕ → ℕ) (first count : ℕ) : Type 0 where
  pub found :
      (a : ℕ) (s : S)
      → first ≤ a
      → a < first + count
      → IsGood s
      → (s' : S) × (resolve env conf ctx start a s ≡ (some (tr a), s')) × IsGood s'
  pub contiguous :
      (a i : ℕ)
      → first ≤ a
      → a + i < first + count
      → tr a % conf.page_size + i < conf.page_size
      → tr (a + i) ≡ tr a + i

-- The driver gives the page of `mem` in which the physical address of each of those bytes lies.
abbrev pub IsBacked :
    {S : Type 0} → Env S → Conf → (S → Type 0) → (ℕ → ℕ) → (ℕ → ℕ) → ℕ → ℕ → Type 0
IsBacked {S} env conf IsGood mem tr first count =
    (a : ℕ) (s : S)
    → first ≤ a
    → a < first + count
    → IsGood s
    → let pfn = tr a / 2 ^ conf.page_shift in
      (s' : S) × (env.read_page pfn s
        ≡ (some (window mem (pfn * conf.page_size) conf.page_size), s'))
      × IsGood s'

module _ (conf : Conf) where
  -- The offset in a page, which the code finds with a mask.
  pub offset_lem : IsPaged conf → (a : ℕ) → bit_and (conf.page_size - 1) a ≡ a % conf.page_size
  offset_lem paged a =
      ap (λ (p : ℕ). bit_and (p - 1) a) paged.0
      ∙ bit_and-low_left conf.page_shift a
      ∙ ap (λ (p : ℕ). a % p) (sym paged.0)

  pub part_len_bounds :
      (offset count : ℕ)
      → offset < conf.page_size
      → 0 < count
      → offset + count < 2 ^ 64
      → (0 < part_len conf offset count)
        × (part_len conf offset count ≤ count)
        × (offset + part_len conf offset count ≤ conf.page_size)
  unfolding part_len
  part_len_bounds offset count h pos fits = ground arith
