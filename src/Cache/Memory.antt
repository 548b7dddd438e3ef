-- ===== src/Cache/Memory.antt =====
-- libvmi/driver/memory_cache.c with ENABLE_PAGE_CACHE: the cache of pages, a hash table, with the
-- queue of its keys, the youngest first. The time of a call is an argument of it.
pub mod Laws
pub mod Insert
pub mod Remove
use libvmi.Common.{
  ℕ, zero, suc, ◌+◌, ◌-◌, ◌/◌, ◌%◌, ◌^◌, bit_and, Bool, true, false, not, ◌&&◌, ◌||◌, ◌==◌, ltb,
  leb, List, [], ◌∷◌, length, Option, none, some, if◌then◌else◌,
}
use libvmi.Types.{VmType, normal, hvm}
use libvmi.Cache.Table.{GHashTable}

-- struct memory_cache_entry; `page`, the data, is NULL where that is `none`.
pub record MemoryCacheEntry : Type 0 where
  pub paddr : ℕ
  pub length : ℕ
  pub last_updated : ℕ
  pub last_used : ℕ
  pub page : Option (List ℕ)

-- The fields of struct vmi_instance that the cache reads; `memmap` is NULL where that is `none`.
pub record MemoryConf : Type 0 where
  pub page_size : ℕ
  pub vm_type : VmType
  pub memmap : Option (List (ℕ × ℕ))
  pub max_physical_address : ℕ
  pub age : ℕ
  pub size_max : ℕ

-- What get_data_callback and release_data_callback do to the state of the driver.
pub record Callbacks (S : Type 0) : Type 0 where
  pub get_data : ℕ → ℕ → S → Option (List ℕ) × S
  pub release_data : Option (List ℕ) → ℕ → S → S

-- The last element of a queue that is not empty, and the others.
unfoldable pub pop_tail : ℕ → List ℕ → ℕ × List ℕ
pop_tail x [] = (x, [])
pop_tail x (y ∷ ys) = let (last, rest) = pop_tail y ys in (last, x ∷ rest)

-- The queue without the first link that holds a key; `none` if no link does.
unfoldable pub unlink : ℕ → List ℕ → Option (List ℕ)
unlink p [] = none
unlink p (x ∷ xs) =
    if x == p then some xs else (elim (unlink p xs) [ none ↦ none | some rest ↦ some (x ∷ rest) ])

-- The ranges of the memory map that hold an access.
unfoldable pub range_found : List (ℕ × ℕ) → ℕ → ℕ → Bool
range_found [] paddr length = false
range_found ((first, last) ∷ ranges) paddr length =
    (leb first paddr && leb ((paddr + length) % 2 ^ 64) last) || range_found ranges paddr length

unfoldable pub is_checked : VmType → Bool
is_checked VmType.hvm = true
is_checked VmType.normal = true
is_checked VmType.pv32 = false
is_checked VmType.pv64 = false

-- The sanity check of create_new_entry.
unfoldable pub in_range : MemoryConf → ℕ → ℕ → Bool
in_range conf paddr length =
    if is_checked conf.vm_type
    then (elim conf.memmap [
      | none ↦ not (ltb conf.max_physical_address ((paddr + length) % 2 ^ 64))
      | some ranges ↦ range_found ranges paddr length
    ])
    else true

module _ (t : GHashTable ℕ MemoryCacheEntry ◌==◌) where
  -- memory_cache and memory_cache_lru.
  pub record MemoryCache : Type 0 where
    pub table : t.Table
    pub lru : List ℕ

  module _ {S : Type 0} (callbacks : Callbacks S) (conf : MemoryConf) where
    -- The destructor of the table's values.
    unfoldable pub memory_cache_entry_free : Option MemoryCacheEntry → S → S
    memory_cache_entry_free none s = s
    memory_cache_entry_free (some entry) s = callbacks.release_data entry.page entry.length s

    -- The loop of clean_cache, with the length of the queue for fuel.
    unfoldable pub clean_loop : ℕ → t.Table → List ℕ → S → MemoryCache × S
    clean_loop zero table lru s = (record { table = table; lru = lru }, s)
    clean_loop (suc fuel) table [] s = (record { table = table; lru = [] }, s)
    clean_loop (suc fuel) table (x ∷ xs) s =
        let (paddr, rest) = pop_tail x xs in
        let s' = memory_cache_entry_free (t.lookup table paddr) s in
        let cleaned = clean_loop fuel (t.remove table paddr).1 rest s' in
        if ltb (conf.size_max / 2) (length (x ∷ xs))
        then cleaned
        else (record { table = table; lru = x ∷ xs }, s)

    unfoldable pub clean_cache : MemoryCache → S → MemoryCache × S
    clean_cache c s = clean_loop (length c.lru) c.table c.lru s

    -- The data, or `none` if the queue has no link for an entry that is refreshed, which glib does
    -- not allow. The entry is changed where it stands in the table.
    unfoldable pub validate_and_return_data :
        ℕ → MemoryCache → ℕ → MemoryCacheEntry → S → Option (Option (List ℕ) × MemoryCache × S)
    validate_and_return_data now c paddr entry s =
        let s₁ = callbacks.release_data entry.page entry.length s in
        let (page, s₂) = callbacks.get_data entry.paddr entry.length s₁ in
        let fresh : MemoryCacheEntry = record entry {
          page = page;
          last_updated = now;
          last_used = now;
        } in
        let used : MemoryCacheEntry = record entry { last_used = now } in
        if not (conf.age == 0) && ltb conf.age (now - entry.last_updated)
        then (elim (unlink entry.paddr c.lru) [
          | none ↦ none
          | some rest ↦
              some (
                page,
                record { table = t.insert c.table paddr fresh; lru = entry.paddr ∷ rest },
                s₂,
              )
        ])
        else some (entry.page, record c { table = t.insert c.table paddr used }, s)

    unfoldable pub create_new_entry : ℕ → ℕ → ℕ → S → Option MemoryCacheEntry × S
    create_new_entry now paddr length s =
        let (page, s') = callbacks.get_data paddr length s in
        if in_range conf paddr length
        then (
          some (record {
            paddr = paddr;
            length = length;
            last_updated = now;
            last_used = now;
            page = page;
          }),
          s',
        )
        else (none, s)

    -- `paddr == paddr_aligned`: no bit below the page size is set.
    unfoldable pub is_aligned : ℕ → Bool
    is_aligned paddr = bit_and paddr (conf.page_size - 1) == 0

    -- The page, NULL being `none`; the outer `none` is that of validate_and_return_data.
    unfoldable pub memory_cache_insert :
        ℕ → MemoryCache → ℕ → S → Option (Option (List ℕ) × MemoryCache × S)
    memory_cache_insert now c paddr s =
        let (c', s') = if leb conf.size_max (length c.lru) then clean_cache c s else (c, s) in
        let (created, s'') = create_new_entry now paddr conf.page_size s' in
        if is_aligned paddr
        then (elim (t.lookup c.table paddr) [
          | some entry ↦ validate_and_return_data now c paddr entry s
          | none ↦ elim created [
            | none ↦ some (none, c', s'')
            | some entry ↦ some (
              entry.page,
              record { table = t.insert c'.table paddr entry; lru = paddr ∷ c'.lru },
              s'',
            )
          ]
        ])
        else some (none, c, s)

    unfoldable pub memory_cache_remove : MemoryCache → ℕ → S → MemoryCache × S
    memory_cache_remove c paddr s =
        if is_aligned paddr
        then (
          record c { table = (t.remove c.table paddr).1 },
          memory_cache_entry_free (t.lookup c.table paddr) s,
        )
        else (c, s)

  unfoldable pub memory_cache_init : MemoryCache
  memory_cache_init = record { table = t.new; lru = [] }

  -- The table releases every entry, which its interface does not show.
  unfoldable pub memory_cache_flush : MemoryCache → MemoryCache
  memory_cache_flush c = record { table = t.remove_all c.table; lru = [] }
