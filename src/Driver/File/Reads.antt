-- ===== src/Driver/File/Reads.antt =====
-- libvmi/read.c on a memory image: libvmi/driver/file/file.c and libvmi/driver/memory_cache.c
-- behind vmi_read_pa.
use native.Mathlib.Nat.{div-add-mod'}
use libvmi.Common.{
  ℕ, suc, [], ◌+◌, ◌*◌, ◌/◌, ◌^◌, ◌%◌, ◌<◌, ◌≤◌, ◌==◌, some, ◌≡◌, refl, sym, ap, ◌∙◌, arith,
}
use libvmi.PageMode.{valid_pm, valid_npm}
use libvmi.Types.{success, failure, Conf}
use libvmi.Cache.Table.{GHashTable}
use libvmi.Cache.Memory.{MemoryCacheEntry, MemoryCache}
use libvmi.Access.Env.{Env, Start, resolve}
use libvmi.Access.Window.{window}
use libvmi.Access.Paging.{IsPaged, IsBacked}
use libvmi.Access.Read.{read_start, start_ok, read_loop, vmi_read}
use libvmi.Access.Read.Laws.{vmi_read-window}
use libvmi.Access.Sized.{pa_context, vmi_read_pa}
use libvmi.Driver.File.{System, file_env}
use libvmi.Driver.File.Laws.{IsImage, IsGood, file_page, file_read_page-file_page}

module _ (t : GHashTable ℕ MemoryCacheEntry ◌==◌) {S : Type 0} (system : System S) (conf : Conf)
    (at : S → ℕ) (content : ℕ → ℕ) (image : IsImage system at content conf.max_physical_address)
    (small : conf.max_physical_address < 2 ^ 63) (paged : IsPaged conf)
    (small_page : conf.page_size < 2 ^ 63) (other : Env (MemoryCache t × S)) where
  abbrev env : Env (MemoryCache t × S)
  env = file_env t system conf other

  -- The state is good.
  abbrev IsSound : MemoryCache t × S → Type 0
  IsSound = IsGood t system conf at content image small paged small_page

  abbrev begin_at : ℕ → Start
  begin_at paddr = record { pt = 0; pm = 0; addr = paddr }

  physical_lem :
      (paddr a : ℕ) (i : MemoryCache t × S)
      → resolve env conf (pa_context paddr) (begin_at paddr) a i ≡ (some a, i)
  unfolding resolve valid_pm valid_npm
  physical_lem paddr a i = refl

  -- The start of the page of an address.
  abbrev page_start : ℕ → ℕ
  page_start a = a / 2 ^ conf.page_shift * conf.page_size

  page_start_le : (a : ℕ) → page_start a ≤ a
  page_start_le a =
      let parts : page_start a + a % conf.page_size ≡ a =
        ap (λ (q : ℕ). a / q * conf.page_size + a % conf.page_size) (sym paged.0)
        ∙ div-add-mod' a conf.page_size in
      omega (arith, parts)

  backed :
      (paddr count : ℕ)
      → paddr + count + conf.page_size ≤ conf.max_physical_address
      → IsBacked env conf IsSound content (λ a. a) paddr count
  unfolding file_page
  backed paddr count fits a i lo hi good =
      let below = page_start_le a in
      let (i', e, good') =
        file_read_page-file_page t system conf at content image small paged small_page
          (a / 2 ^ conf.page_shift) i (omega (arith, below, hi, fits)) good in
      (i', ground (arith, e, below), good')

  -- On an instance of a memory image of fewer than 2 ^ 63 bytes with a valid page cache, vmi_read_pa
  -- gives success and the bytes of the file from `paddr`, whatever the cache holds, when a whole page
  -- could follow the range in the file; the cache stays valid. The system has memory, and there is no
  -- memory map.
  pub vmi_read_pa-content :
      (paddr count : ℕ) (i : MemoryCache t × S)
      → paddr + count + conf.page_size ≤ conf.max_physical_address
      → IsSound i
      → (i' : MemoryCache t × S) × (vmi_read_pa env conf paddr count i
          ≡ (success, window content paddr count, i'))
        × IsSound i'
  unfolding vmi_read_pa read_start start_ok
  vmi_read_pa-content paddr count i fits good =
      vmi_read-window env conf (pa_context paddr) (begin_at paddr) IsSound content (λ a. a) count
        paged (backed paddr count fits)
        (record {
          found = λ a i lo hi good. (i, physical_lem paddr a i, good);
          contiguous = λ a i lo hi within. refl;
        })
        (omega arith) (omega arith) small_page i i refl refl good

  -- On such an instance, vmi_read_pa of at least one byte at an address whose page does not end before
  -- the end of the file is a failure that copies nothing, and the cache stays valid: this includes
  -- the last page of a file that consists of whole pages.
  pub vmi_read_pa-past_end :
      (paddr count : ℕ) (i : MemoryCache t × S)
      → paddr < 2 ^ 64
      → conf.max_physical_address ≤ paddr / conf.page_size * conf.page_size + conf.page_size
      → IsSound i
      → (i' : MemoryCache t × S) × (vmi_read_pa env conf paddr (suc count) i ≡ (failure, [], i'))
        × IsSound i'
  unfolding vmi_read_pa vmi_read read_start start_ok read_loop file_page
  vmi_read_pa-past_end paddr count i fits outside good =
      let below = page_start_le paddr in
      let same : page_start paddr ≡ paddr / conf.page_size * conf.page_size =
        ap (λ (q : ℕ). paddr / q * conf.page_size) (sym paged.0) in
      let (i', e, good') =
        file_read_page-file_page t system conf at content image small paged small_page
          (paddr / 2 ^ conf.page_shift) i (omega (arith, below, fits)) good in
      let here : (paddr + 0) % 2 ^ 64 ≡ paddr = omega (arith, fits) in
      (i', ground (arith, e, same, here, physical_lem paddr paddr i), good')
