-- ===== src/Cache/Sym.antt =====
-- libvmi/cache.c: the cache from symbols to virtual addresses, a table of tables. A symbol is the
-- list of its bytes without the final zero; the key of an entry is its copy by g_strndup(sym, 100).
pub mod Laws
use libvmi.Common.{ℕ, Bool, List, Option, none, some, take, ◌==◌, if◌then◌else◌}
use libvmi.Types.{Status, success, failure}
use libvmi.Cache.Table.{GHashTable}
use libvmi.Cache.Keys.{Key128, key_128_equals, key_128_init, pid_to_u64}

-- struct sym_cache_entry
pub record SymEntry : Type 0 where
  pub sym : List ℕ
  pub va : ℕ
  pub base_addr : ℕ
  pub pid : ℕ

unfoldable pub sym_cache_entry_create : List ℕ → ℕ → ℕ → ℕ → SymEntry
sym_cache_entry_create sym va base_addr pid = record {
  sym = sym;
  va = va;
  base_addr = base_addr;
  pid = pid;
}

module _ {str_equal : List ℕ → List ℕ → Bool} (symbols : GHashTable (List ℕ) SymEntry str_equal)
    (tables : GHashTable Key128 symbols.Table key_128_equals) where
  unfoldable pub sym_cache_init : tables.Table
  sym_cache_init = tables.new

  -- VMI_FAILURE is `none`.
  unfoldable pub sym_cache_get : tables.Table → ℕ → ℕ → List ℕ → Option ℕ
  sym_cache_get c base_addr pid sym =
      elim (tables.lookup c (key_128_init base_addr (pid_to_u64 pid))) [
        | none ↦ none
        | some t ↦ elim (symbols.lookup t sym) [ none ↦ none | some entry ↦ some entry.va ]
      ]

  -- The table of symbols, which is put into the cache if it is not there.
  unfoldable pub table_of : tables.Table → Key128 → symbols.Table × tables.Table
  table_of c key = elim (tables.lookup c key) [
    | none ↦ (symbols.new, tables.insert c key symbols.new)
    | some t ↦ (t, c)
  ]

  -- A change to a second-level table is a change to the value that the cache points to.
  unfoldable pub sym_cache_set : tables.Table → ℕ → ℕ → List ℕ → ℕ → tables.Table
  unfolding table_of sym_cache_entry_create
  sym_cache_set c base_addr pid sym va =
      let key = key_128_init base_addr (pid_to_u64 pid) in
      let (t, c') = table_of c key in
      let entry = sym_cache_entry_create sym va base_addr pid in
      tables.insert c' key (symbols.insert t (take 100 sym) entry)

  -- A table that becomes empty leaves the cache.
  unfoldable pub sym_cache_del : tables.Table → ℕ → ℕ → List ℕ → Status × tables.Table
  sym_cache_del c base_addr pid sym =
      let key = key_128_init base_addr (pid_to_u64 pid) in
      elim (tables.lookup c key) [
        | none ↦ (failure, c)
        | some t ↦
            let (found, t') = symbols.remove t sym in
            let c' = tables.insert c key t' in
            if found
            then (success, if symbols.size t' == 0 then (tables.remove c' key).1 else c')
            else (failure, c')
      ]

  unfoldable pub sym_cache_flush : tables.Table → tables.Table
  sym_cache_flush c = tables.remove_all c
