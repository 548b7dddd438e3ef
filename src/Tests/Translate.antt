-- ===== src/Tests/Translate.antt =====
-- The translations of libvmi/accessors.c over association lists.
use libvmi.Common.{
  ℕ, ◌+◌, ◌*◌, ◌^◌, ◌==◌, [], ◌∷◌, Option, none, some, if◌then◌else◌, ◌≡◌, ◌≢◌, refl, arith,
}
use libvmi.Types.{Status, success, AccessContext, table_context}
use libvmi.Bits.{get_bit}
use libvmi.Arch.Entry.{canonical_addr}
use libvmi.Cache.Keys.{Key128, key_128_equals, pid_to_u64}
use libvmi.Cache.Table.{GHashTable}
use libvmi.Cache.Assoc.{number_table, key_table, find, erase}
use libvmi.Cache.Pid.{PidEntry, pid_cache_get, pid_cache_set, pid_cache_del}
use libvmi.Cache.Sym.{SymEntry, sym_cache_get, sym_cache_set, table_of, sym_cache_entry_create}
use libvmi.Access.Translate.{
  World, OsInterface, vmi_pid_to_dtb, vmi_translate_sym2v, context_dtb, sym2v_in,
}
use libvmi.Access.Translate.Laws.{answer, Agrees, vmi_pid_to_dtb-answer, vmi_translate_sym2v-shared}
use libvmi.Tests.Caches.{bytes_equal, symbols, symbol_tables}

abbrev pids : GHashTable ℕ PidEntry ◌==◌
pids = number_table PidEntry

abbrev rvas : GHashTable ℕ SymEntry ◌==◌
rvas = number_table SymEntry

abbrev rva_tables : GHashTable Key128 rvas.Table key_128_equals
rva_tables = key_table rvas.Table

abbrev W : Type 0
W = World pids.Table symbol_tables.Table rva_tables.Table (Unit {0})

-- An operating system with process 4, and with one symbol, whose place is 16 times the page
-- directory behind the base.
abbrev dtb_of : ℕ → Option ℕ
dtb_of pid = if pid == 4 then some 0x5000 else none

abbrev os_pid_to_pgd : ℕ → ℕ → W → Status × ℕ × W
os_pid_to_pgd pid old w = answer (dtb_of pid) w

abbrev os : OsInterface W
os = record {
  os_pid_to_pgd = some os_pid_to_pgd;
  os_pgd_to_pid = none;
  os_ksym2v = none;
  os_usym2rva = some (λ ctx sym old w. (success, ctx.pt * 16, w));
  os_v2sym = none;
  os_v2ksym = none;
}

abbrev cold : W
cold = record { pids = pids.new; syms = symbol_tables.new; rvas = rva_tables.new; rest = tt }

program : Unit {0}
unfolding find erase pid_cache_get pid_cache_set pid_cache_del sym_cache_get sym_cache_set table_of
    sym_cache_entry_create pid_to_u64 bytes_equal canonical_addr get_bit vmi_pid_to_dtb
    vmi_translate_sym2v context_dtb sym2v_in
program = tt

agrees : Agrees pids symbols symbol_tables rvas rva_tables os 0x9000 dtb_of cold.pids
unfolding program
agrees pid d e = absurd (ground (arith, e))

vmi_pid_to_dtb-answer_example :
    (w : W) × (vmi_pid_to_dtb pids symbols symbol_tables rvas rva_tables (some os) 0x9000 4 0 cold
      ≡ (success, 0x5000, w))
    × Agrees pids symbols symbol_tables rvas rva_tables os 0x9000 dtb_of w.pids
    × Unit {0}
    × ((d : ℕ) → ◌≢◌ {A = ℕ} 4 0 → dtb_of 4 ≡ some d → pid_cache_get pids w.pids 4 ≡ some d)
vmi_pid_to_dtb-answer_example =
    vmi_pid_to_dtb-answer pids symbols symbol_tables rvas rva_tables os 0x9000 os_pid_to_pgd refl
      dtb_of (λ s. Unit {0}) 4 0 cold (λ q v agrees' good. (v, refl, agrees', good)) agrees tt

-- Process 4 had another page directory; only 0x5000 has a page at every address.
abbrev stale : W
stale = record cold { pids = (4, record { pid = 4; dtb = 0x1000 }) ∷ [] }

abbrev tr : ℕ → ℕ → Option ℕ
tr d va = if d == 0x5000 then some 0x3000 else none

-- Two address spaces whose page directories are 2 ^ 32 apart.
abbrev low : AccessContext
low = record (table_context 0 0 0x10000) { tm = 1; pt = 0x1000 }

abbrev high : AccessContext
high = record low { pt = 2 ^ 32 + 0x1000 }

abbrev known : W
known = record cold {
  syms = sym_cache_set symbols symbol_tables symbol_tables.new 0x10000 0x1000 (105 ∷ []) 0x20000;
}

vmi_translate_sym2v-shared_example :
    vmi_translate_sym2v pids symbols symbol_tables rvas rva_tables
      (some os)
      0x9000
      high
      (105 ∷ [])
      0
      known
    ≡ (success, 0x20000, known)
unfolding program
vmi_translate_sym2v-shared_example =
    vmi_translate_sym2v-shared pids symbols symbol_tables rvas rva_tables os 0x9000 low high
      (105 ∷ []) 0 0 0x20000 cold known refl refl refl refl refl refl refl
