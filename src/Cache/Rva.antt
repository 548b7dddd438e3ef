-- ===== src/Cache/Rva.antt =====
-- libvmi/cache.c: the cache from relative virtual addresses to symbols, a table of tables. An entry
-- is a struct sym_cache_entry whose `va` is the relative address.
pub mod Laws
use libvmi.Common.{ℕ, ◌%◌, ◌^◌, List, Option, none, some, ◌==◌, if◌then◌else◌}
use libvmi.Types.{Status, success, failure}
use libvmi.Cache.Table.{GHashTable}
use libvmi.Cache.Keys.{Key128, key_128_equals, key_128_init}
use libvmi.Cache.Sym.{SymEntry, sym_cache_entry_create}

module _ (rvas : GHashTable ℕ SymEntry ◌==◌)
    (tables : GHashTable Key128 rvas.Table key_128_equals) where
  unfoldable pub rva_cache_init : tables.Table
  rva_cache_init = tables.new

  -- VMI_FAILURE is `none`.
  unfoldable pub rva_cache_get : tables.Table → ℕ → ℕ → ℕ → Option (List ℕ)
  rva_cache_get c base_addr dtb rva = elim (tables.lookup c (key_128_init base_addr dtb)) [
    | none ↦ none
    | some t ↦ elim (rvas.lookup t rva) [ none ↦ none | some entry ↦ some entry.sym ]
  ]

  -- A change to a second-level table is a change to the value that the cache points to. The entry
  -- keeps the low half of `dtb` as its process id.
  unfoldable pub rva_cache_set : tables.Table → ℕ → ℕ → ℕ → List ℕ → tables.Table
  unfolding sym_cache_entry_create
  rva_cache_set c base_addr dtb rva sym =
      let key = key_128_init base_addr dtb in
      let entry = sym_cache_entry_create sym rva base_addr (dtb % 2 ^ 32) in
      elim (tables.lookup c key) [
        | none ↦ tables.insert (tables.insert c key rvas.new) key (rvas.insert rvas.new rva entry)
        | some t ↦ tables.insert c key (rvas.insert t rva entry)
      ]

  -- A table that becomes empty leaves the cache.
  unfoldable pub rva_cache_del : tables.Table → ℕ → ℕ → ℕ → Status × tables.Table
  rva_cache_del c base_addr dtb rva =
      let key = key_128_init base_addr dtb in
      elim (tables.lookup c key) [
        | none ↦ (failure, c)
        | some t ↦
            let (found, t') = rvas.remove t rva in
            let c' = tables.insert c key t' in
            if found
            then (success, if rvas.size t' == 0 then (tables.remove c' key).1 else c')
            else (failure, c')
      ]

  unfoldable pub rva_cache_flush : tables.Table → tables.Table
  rva_cache_flush c = tables.remove_all c
