-- ===== src/Driver/File/Laws.antt =====
-- libvmi/driver/file/file.c: what a page of the file is, with and without the page cache.
use native.Mathlib.Nat.{mod-eq_of_lt, mul-mod_left}
use libvmi.Common.{
  ℕ, ◌+◌, ◌*◌, ◌-◌, ◌^◌, ◌%◌, bit_and, ◌<◌, min, Bool, true, not, ◌&&◌, ◌||◌, ◌==◌, ltb, List,
  Option, none, some, Bool-cases, inl, inr, if◌then◌else◌, ◌≡◌, refl, sym, ap, ◌∙◌, arith,
}
use libvmi.Bits.{bit_and-low}
use libvmi.Types.{Conf}
use libvmi.Cache.Table.{GHashTable, is_some}
use libvmi.Cache.Memory.{MemoryCacheEntry, MemoryCache, Callbacks, is_aligned, is_checked, in_range}
use libvmi.Cache.Memory.Laws.{IsValid}
use libvmi.Cache.Memory.Insert.{memory_cache_insert-IsValid}
use libvmi.Access.Window.{window, length-window}
use libvmi.Access.Paging.{IsPaged}
use libvmi.Driver.File.{System, file_get_memory, file_callbacks, file_memory_conf, file_read_page}

-- The system gives memory, and the file has `size` bytes, those of `content`. `at` is its position:
-- lseek takes one that off_t can hold, and read gives what the file has from there, `n` bytes at most.
pub record IsImage {S : Type 0} (system : System S) (at : S → ℕ) (content : ℕ → ℕ) (size : ℕ)
    : Type 0 where
  pub malloc : (n : ℕ) (s : S) → (system.malloc n s).0 ≡ true
  pub lseek : (p : ℕ) (s : S) → (system.lseek p s).0 ≡ (if ltb p (2 ^ 63) then some p else none)
  pub moved : (p : ℕ) (s : S) → p < 2 ^ 63 → at (system.lseek p s).1 ≡ p
  pub read :
      (n : ℕ) (s : S) → (system.read n s).0 ≡ some (window content (at s) (min n (size - at s)))

-- The bytes of a page, if it ends before the end of the file.
unfoldable pub file_page : (ℕ → ℕ) → ℕ → ℕ → ℕ → Option (List ℕ)
file_page content size page_size p =
    if ltb (p + page_size) size then some (window content p page_size) else none

module _ {S : Type 0} (system : System S) (at : S → ℕ) (content : ℕ → ℕ) (size : ℕ)
    (image : IsImage system at content size) (small : size < 2 ^ 63) where
  file_get_memory_lem :
      (p len : ℕ) (s : S)
      → len < 2 ^ 63
      → (file_get_memory system size p len s).0 ≡ file_page content size len p
  unfolding file_get_memory file_page
  file_get_memory_lem p len s short =
      let s₁ = (system.malloc len s).1 in
      let s₂ = (system.lseek p s₁).1 in
      elim (Bool-cases (ltb p (2 ^ 63))) [
        | inl low ↦ ground (
          arith,
          image.malloc len s,
          image.lseek p s₁,
          image.moved p s₁ (ground (arith, low)),
          image.read len s₂,
          length-window content p len,
        )
        | inr high ↦ ground (arith, image.malloc len s, image.lseek p s₁, high)
      ]

file_conf-in_range :
    (conf : Conf) (p : ℕ)
    → in_range (file_memory_conf conf) p conf.page_size
      ≡ not (ltb conf.max_physical_address ((p + conf.page_size) % 2 ^ 64))
unfolding in_range is_checked
file_conf-in_range conf p = refl

module _ (t : GHashTable ℕ MemoryCacheEntry ◌==◌) {S : Type 0} (system : System S) (conf : Conf)
    (at : S → ℕ) (content : ℕ → ℕ) (image : IsImage system at content conf.max_physical_address)
    (small : conf.max_physical_address < 2 ^ 63) (paged : IsPaged conf)
    (small_page : conf.page_size < 2 ^ 63) where
  abbrev callbacks : Callbacks S
  callbacks = file_callbacks system conf.max_physical_address

  abbrev page_at : ℕ → Option (List ℕ)
  page_at = file_page content conf.max_physical_address conf.page_size

  -- The page cache of an instance is valid for the pages of the file.
  abbrev pub IsGood : MemoryCache t × S → Type 0
  IsGood (c, s) = IsValid t callbacks (file_memory_conf conf) page_at c

  aligned : (pfn : ℕ) → is_aligned t callbacks (file_memory_conf conf) (pfn * conf.page_size) ≡ true
  unfolding is_aligned
  aligned pfn =
      let no_rest : bit_and (pfn * conf.page_size) (conf.page_size - 1) ≡ 0 =
        ap (λ (q : ℕ). bit_and (pfn * q) (q - 1)) paged.0
        ∙ bit_and-low conf.page_shift (pfn * 2 ^ conf.page_shift)
        ∙ mul-mod_left pfn (2 ^ conf.page_shift) in
      ground (arith, no_rest)

  answer_lem :
      (p : ℕ) (known : Bool)
      → p < 2 ^ 64
      → (if true && (known || in_range (file_memory_conf conf) p conf.page_size)
          then page_at p
          else none)
        ≡ page_at p
  unfolding file_page
  answer_lem p known h = ground (arith, file_conf-in_range conf p, small, small_page)

  -- For a file on a system that has memory, and a page whose address an addr_t can hold: from a
  -- valid page cache, file_read_page gives the bytes of that page of the file if it ends before the
  -- end of the file, and else NULL, whether or not the page is cached; and leaves a valid cache.
  -- Both the file and a page are smaller than 2 ^ 63 bytes, and there is no memory map.
  pub file_read_page-file_page :
      (pfn : ℕ) (i : MemoryCache t × S)
      → pfn * conf.page_size < 2 ^ 64
      → IsGood i
      → (i' : MemoryCache t × S) × (file_read_page t system conf pfn i
          ≡ (file_page content conf.max_physical_address conf.page_size (pfn * conf.page_size), i'))
        × IsGood i'
  unfolding file_read_page
  file_read_page-file_page pfn (c, s) fits good =
      let (now, s₁) = system.time s in
      let p = pfn * conf.page_size in
      let (c', s', answer, valid) =
        memory_cache_insert-IsValid t callbacks (file_memory_conf conf) page_at
          (λ q s.
            file_get_memory_lem system at content conf.max_physical_address image small q
              conf.page_size s small_page)
          now p c s₁ (omega arith) good in
      let same : pfn * 2 ^ conf.page_shift % 2 ^ 64 ≡ p =
        ap (λ (q : ℕ). pfn * q % 2 ^ 64) (sym paged.0) ∙ mod-eq_of_lt fits in
      (
        (c', s'),
        ground (arith, same, answer, aligned pfn, answer_lem p (is_some (t.lookup c.table p)) fits),
        valid,
      )
