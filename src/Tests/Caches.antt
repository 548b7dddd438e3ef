-- ===== src/Tests/Caches.antt =====
-- The caches of libvmi/cache.c over association lists.
use libvmi.Common.{ℕ, ◌&&◌, Bool, true, false, List, [], ◌∷◌, some, ◌==◌, ◌≡◌, refl, arith}
use libvmi.Cache.Keys.{Key128, key_128_equals, key_128_init, key_128_hash, pid_to_u64}
use libvmi.Cache.Table.{GHashTable}
use libvmi.Cache.Assoc.{assoc_table, number_table, key_table, find, erase}
use libvmi.Cache.Pid.{PidEntry, pid_cache_init, pid_cache_get, pid_cache_set, pid_cache_del}
use libvmi.Cache.V2p.{
  v2p_cache_init, v2p_cache_get, space_of, v2p_cache_set, v2p_cache_del, v2p_cache_flush,
}
use libvmi.Cache.V2p.Laws.{v2p_cache_get-set}
use libvmi.Cache.Sym.{
  SymEntry, sym_cache_init, sym_cache_get, sym_cache_set, sym_cache_del, table_of,
  sym_cache_entry_create,
}
use libvmi.Cache.Sym.Laws.{sym_cache_get-set}
use libvmi.Cache.Rva.{rva_cache_init, rva_cache_get, rva_cache_set, rva_cache_del}

program : Unit {0}
unfolding find erase pid_cache_init pid_cache_get pid_cache_set pid_cache_del v2p_cache_init
    v2p_cache_get v2p_cache_set v2p_cache_del v2p_cache_flush space_of key_128_hash pid_to_u64
    sym_cache_init sym_cache_get sym_cache_set sym_cache_del table_of sym_cache_entry_create
    rva_cache_init rva_cache_get rva_cache_set rva_cache_del
program = tt

abbrev pids : GHashTable ℕ PidEntry ◌==◌
pids = number_table PidEntry

abbrev one_pid : pids.Table
one_pid = (4, record { pid = 4; dtb = 0x1000 }) ∷ []

abbrev space : GHashTable ℕ ℕ ◌==◌
space = number_table ℕ

abbrev spaces : GHashTable Key128 space.Table key_128_equals
spaces = key_table space.Table

-- One page of the address space with page table 0x1000.
abbrev mapped : spaces.Table
mapped = (key_128_init 0x1000 0, (0x7000, 0x9000) ∷ []) ∷ []

v2p_cache_get-set_example :
    v2p_cache_get space spaces
      (v2p_cache_set space spaces mapped 0x8123 0x1000 0 0xa456)
      0x8789
      0x1000
      0
    ≡ some 0xa789
unfolding program
v2p_cache_get-set_example =
    v2p_cache_get-set space spaces mapped 0x8123 0x1000 0 0xa456 0x8789 0x1000 0 (omega arith)
      (omega arith) (omega arith)

-- g_str_equal
unfoldable pub bytes_equal : List ℕ → List ℕ → Bool
bytes_equal [] [] = true
bytes_equal [] (y ∷ ys) = false
bytes_equal (x ∷ xs) [] = false
bytes_equal (x ∷ xs) (y ∷ ys) = (x == y) && bytes_equal xs ys

pub bytes_equal_sound : (a b : List ℕ) → bytes_equal a b ≡ true → a ≡ b
unfolding bytes_equal
bytes_equal_sound [] [] h = refl
bytes_equal_sound [] (y ∷ ys) h = ground arith
bytes_equal_sound (x ∷ xs) [] h = ground arith
bytes_equal_sound (x ∷ xs) (y ∷ ys) h = ground (arith, bytes_equal_sound xs ys)

pub bytes_equal_refl : (a : List ℕ) → bytes_equal a a ≡ true
unfolding bytes_equal
bytes_equal_refl [] = refl
bytes_equal_refl (x ∷ xs) = ground (arith, bytes_equal_refl xs)

abbrev pub symbols : GHashTable (List ℕ) SymEntry bytes_equal
symbols = assoc_table bytes_equal bytes_equal_sound bytes_equal_refl

abbrev pub symbol_tables : GHashTable Key128 symbols.Table key_128_equals
symbol_tables = key_table symbols.Table

sym_cache_get-set_example :
    sym_cache_get symbols symbol_tables
      (sym_cache_set symbols symbol_tables symbol_tables.new 0x1000 4 (105 ∷ 110 ∷ []) 0xffff)
      0x1000
      4
      (105 ∷ 110 ∷ [])
    ≡ some 0xffff
unfolding program bytes_equal
sym_cache_get-set_example =
    sym_cache_get-set symbols symbol_tables symbol_tables.new 0x1000 4 (105 ∷ 110 ∷ []) 0xffff
      0x1000 4 (105 ∷ 110 ∷ [])

abbrev one_symbol : symbol_tables.Table
one_symbol =
    (
      key_128_init 0x1000 4,
      (105 ∷ [], record { sym = 105 ∷ []; va = 0xffff; base_addr = 0x1000; pid = 4 }) ∷ [],
    )
    ∷ []

abbrev rvas : GHashTable ℕ SymEntry ◌==◌
rvas = number_table SymEntry

abbrev rva_tables : GHashTable Key128 rvas.Table key_128_equals
rva_tables = key_table rvas.Table

abbrev one_rva : rva_tables.Table
one_rva =
    (
      key_128_init 0x1000 4,
      (0x20, record { sym = 105 ∷ []; va = 0x20; base_addr = 0x1000; pid = 4 }) ∷ [],
    )
    ∷ []
