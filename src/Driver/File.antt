-- ===== src/Driver/File.antt =====
-- libvmi/driver/file/file.c without USE_MMAP: a memory image in a file, whose pages are read through
-- libvmi/driver/memory_cache.c.
pub mod Laws
pub mod Reads
use libvmi.Common.{
  ℕ, ◌+◌, ◌*◌, ◌-◌, ◌^◌, ◌%◌, Bool, true, false, not, ◌&&◌, ◌==◌, ltb, List, length, Option, none,
  some, if◌then◌else◌,
}
use libvmi.Types.{Status, success, failure, Conf, normal}
use libvmi.Cache.Table.{GHashTable}
use libvmi.Cache.Memory.{MemoryCacheEntry, MemoryConf, Callbacks, MemoryCache, memory_cache_insert}
use libvmi.Access.Env.{Env}

-- What the driver asks of the system: g_try_malloc0, free, lseek and read on the file, and time.
-- `lseek` and `read` give `none` for a negative result, and `read` gives the bytes.
pub record System (S : Type 0) : Type 0 where
  pub malloc : ℕ → S → Bool × S
  pub free : S → S
  pub lseek : ℕ → S → Option ℕ × S
  pub read : ℕ → S → Option (List ℕ) × S
  pub time : S → ℕ × S

module _ {S : Type 0} (system : System S) where
  unfoldable pub file_release_memory : Option (List ℕ) → ℕ → S → S
  file_release_memory none len s = s
  file_release_memory (some memory) len s = system.free s

  -- The label error_print, where the memory is freed.
  unfoldable pub file_get_memory : ℕ → ℕ → ℕ → S → Option (List ℕ) × S
  file_get_memory max_physical_address paddr len s =
      let (allocated, s₁) = system.malloc len s in
      let (rc, s₂) = system.lseek paddr s₁ in
      let (rc2, s₃) = system.read len s₂ in
      if ltb ((paddr + len) % 2 ^ 64) max_physical_address
      then (if allocated
          then (elim rc [
            | none ↦ (none, system.free s₂)
            | some at ↦
                if at == paddr
                then (elim rc2 [
                  | none ↦ (none, system.free s₃)
                  | some memory ↦
                      if length memory == len then (some memory, s₃) else (none, system.free s₃)
                ])
                else (none, system.free s₂)
          ])
          else (none, s₁))
      else (none, s)

  -- What file_init_vmi gives to memory_cache_init.
  abbrev pub file_callbacks : ℕ → Callbacks S
  file_callbacks max_physical_address = record {
    get_data = file_get_memory max_physical_address;
    release_data = file_release_memory;
  }

-- What file_init_vmi sets up for the page cache: the vm_type is NORMAL, the age limit is ULONG_MAX,
-- of which a uint32_t keeps 32 bits, and the caller of vmi_init has given no memory map. The maximum of entries is MAX_PAGE_CACHE_SIZE of the build files.
abbrev pub file_memory_conf : Conf → MemoryConf
file_memory_conf conf = record {
  page_size = conf.page_size;
  vm_type = normal;
  memmap = none;
  max_physical_address = conf.max_physical_address;
  age = 2 ^ 32 - 1;
  size_max = 512;
}

-- CR3 of reg_t.
abbrev pub cr3 : ℕ
cr3 = 20

-- The value is what *value holds afterwards; `none` leaves it as it is.
unfoldable pub file_get_vcpureg : Conf → ℕ → Status × Option ℕ
file_get_vcpureg conf reg =
    if reg == cr3 && not (conf.kpgd == 0) then (success, some conf.kpgd) else (failure, none)

abbrev pub file_write : {S : Type 0} → ℕ → List ℕ → S → Status × S
file_write paddr buf s = (failure, s)

abbrev pub file_is_pv : Bool
file_is_pv = false

abbrev pub file_pause_vm : Status
file_pause_vm = success

abbrev pub file_resume_vm : Status
file_resume_vm = success

module _ (t : GHashTable ℕ MemoryCacheEntry ◌==◌) {S : Type 0} (system : System S)
    (conf : Conf) where
  -- The page, or NULL. Where memory_cache_insert has no result, which Driver/File/Laws excludes, the
  -- model gives NULL.
  unfoldable pub file_read_page : ℕ → MemoryCache t × S → Option (List ℕ) × (MemoryCache t × S)
  file_read_page page (c, s) =
      let (now, s₁) = system.time s in
      elim (memory_cache_insert t (file_callbacks system conf.max_physical_address)
        (file_memory_conf conf) now c (page * 2 ^ conf.page_shift % 2 ^ 64) s₁) [
          | none ↦ (none, (c, s₁))
          | some (memory, c', s') ↦ (memory, (c', s'))
        ]

  -- An instance that has this driver: what libvmi/read.c and libvmi/write.c call is the driver's for
  -- pages, and else what `other` gives.
  abbrev pub file_env : Env (MemoryCache t × S) → Env (MemoryCache t × S)
  file_env other = record other { read_page = file_read_page; write = file_write }
