-- ===== src/Tests/Pages.antt =====
-- The page cache of libvmi/driver/memory_cache.c with room for one page.
use libvmi.Common.{ℕ, ◌==◌, List, [], ◌∷◌, Option, none, some, if◌then◌else◌, ◌≡◌, refl, arith}
use libvmi.Types.{VmType}
use libvmi.Cache.Table.{GHashTable}
use libvmi.Cache.Assoc.{number_table, find, erase}
use libvmi.Cache.Memory.{
  MemoryCacheEntry, MemoryConf, Callbacks, in_range, MemoryCache, is_checked, range_found, unlink,
  is_aligned, memory_cache_insert, memory_cache_remove, create_new_entry, validate_and_return_data,
  clean_cache, clean_loop, pop_tail, memory_cache_entry_free,
}
use libvmi.Cache.Memory.Laws.{IsValid, IsTracked, has, insert-IsTracked}
use libvmi.Cache.Memory.Insert.{memory_cache_insert-IsValid}
use libvmi.Cache.Memory.Remove.{memory_cache_remove-IsValid}

program : Unit {0}
unfolding find erase in_range is_checked range_found is_aligned has memory_cache_insert
    memory_cache_remove create_new_entry validate_and_return_data clean_cache clean_loop pop_tail
    memory_cache_entry_free unlink
program = tt

abbrev pages : GHashTable ℕ MemoryCacheEntry ◌==◌
pages = number_table MemoryCacheEntry

abbrev memory : ℕ → Option (List ℕ)
memory p = if p == 0 then none else some (p ∷ [])

abbrev callbacks : Callbacks (Unit {0})
callbacks = record { get_data = λ p n s. (memory p, s); release_data = λ page n s. s }

abbrev conf : MemoryConf
conf = record {
  page_size = 4096;
  vm_type = VmType.hvm;
  memmap = some ((0, 40960) ∷ []);
  max_physical_address = 0;
  age = 2;
  size_max = 1;
}

abbrev entry : MemoryCacheEntry
entry = record {
  paddr = 4096;
  length = 4096;
  last_updated = 3;
  last_used = 3;
  page = some (4096 ∷ []);
}

abbrev full : MemoryCache pages
full = record { table = (4096, entry) ∷ []; lru = 4096 ∷ [] }

empty-IsTracked : IsTracked pages callbacks conf memory [] []
unfolding program
empty-IsTracked p e h = let bad : ⊥ = ground arith in elim bad [ ]

full-IsValid : IsValid pages callbacks conf memory full
unfolding program
full-IsValid = record {
  tracked =
      insert-IsTracked pages callbacks conf memory [] [] (4096 ∷ []) 4096 entry empty-IsTracked
        (record { linked = refl; keyed = refl; sized = refl; faithful = refl })
        (λ q h. ground arith);
  bounded = omega arith;
}

memory_cache_insert-IsValid_example :
    (c : MemoryCache pages) × (s : Unit {0}) × (memory_cache_insert pages callbacks conf 4 full 8192
        tt
      ≡ some (some (8192 ∷ []), c, s))
    × IsValid pages callbacks conf memory c
unfolding program
memory_cache_insert-IsValid_example =
    memory_cache_insert-IsValid pages callbacks conf memory (λ p s. refl) 4 8192 full tt
      (omega arith) full-IsValid

memory_cache_remove-IsValid_example :
    IsValid pages callbacks conf memory (memory_cache_remove pages callbacks conf full 4096 tt).0
    × ((q : ℕ)
        → pages.lookup (memory_cache_remove pages callbacks conf full 4096 tt).0.table q
          ≡ (if 4096 == q then none else pages.lookup full.table q))
unfolding program
memory_cache_remove-IsValid_example =
    memory_cache_remove-IsValid pages callbacks conf memory full 4096 tt full-IsValid

-- The page is three time units old, and is fetched again.
abbrev fetched : MemoryCacheEntry
fetched = record entry { last_updated = 6; last_used = 6 }
