-- ===== src/Access/Translate/Recovery.antt =====
-- vmi_translate_uv2p of libvmi/accessors.c, whatever the cache of processes has for the process.
use libvmi.Common.{ℕ, Bool, ◌==◌, List, Option, none, some, if◌then◌else◌, ◌≡◌}
use libvmi.Types.{Status, success, failure}
use libvmi.Cache.Table.{GHashTable}
use libvmi.Cache.Keys.{Key128, key_128_equals}
use libvmi.Cache.Pid.{PidEntry, pid_cache_get}
use libvmi.Cache.Sym.{SymEntry}
use libvmi.Access.Translate.{World, OsInterface}
use libvmi.Access.Translate.Laws.{answer}

-- A translation that may leave its variable in any state when it fails.
abbrev pub reply : {W : Type 0} → Option ℕ → ℕ → W → Status × ℕ × W
reply none out w = (failure, out, w)
reply (some p) out w = (success, p, w)

-- The page directory that the cache has, or else the current one.
abbrev pub first : Option ℕ → Option ℕ → Option ℕ
first none current = current
first (some d) current = some d

-- The translation by a page directory that is not 0, or else by the current one.
unfoldable pub by_tables : Option ℕ → Option ℕ → (ℕ → Option ℕ) → Option ℕ
by_tables none current tr = none
by_tables (some d) current tr =
    if d == 0
    then none
    else (elim (tr d) [ some p ↦ some p | none ↦ elim current [ none ↦ none | some d' ↦ tr d' ] ])

module _ (pids : GHashTable ℕ PidEntry ◌==◌) {str_equal : List ℕ → List ℕ → Bool}
    (symbols : GHashTable (List ℕ) SymEntry str_equal)
    (sym_tables : GHashTable Key128 symbols.Table key_128_equals)
    (rvas : GHashTable ℕ SymEntry ◌==◌) (rva_tables : GHashTable Key128 rvas.Table key_128_equals)
    {S : Type 0} (os : OsInterface (World pids.Table sym_tables.Table rva_tables.Table S))
    (kpgd : ℕ) where
  abbrev W : Type 0
  W = World pids.Table sym_tables.Table rva_tables.Table S

  module _ (os_pid_to_pgd : ℕ → ℕ → W → Status × ℕ × W)
      (has : os.os_pid_to_pgd ≡ some os_pid_to_pgd) (lookup_cache : ℕ → ℕ → ℕ → W → Status × ℕ × W)
      (lookup_extended : ℕ → ℕ → W → Status × ℕ × W) (dtb_of : ℕ → Option ℕ) (tr : ℕ → ℕ → Option ℕ)
      (IsGood : S → Type 0)
      (asks : (q : ℕ) (v : W)
        → IsGood v.rest
        → (v' : W) × (os_pid_to_pgd q 0 v ≡ answer (dtb_of q) v')
          × (v'.pids ≡ v.pids)
          × IsGood v'.rest)
      (looks : (d va out : ℕ) (v : W)
        → IsGood v.rest
        → (out' : ℕ) × (v' : W) × (lookup_cache d va out v ≡ reply (tr d va) out' v')
          × (v'.pids ≡ v.pids)
          × IsGood v'.rest)
      (walks : (d va : ℕ) (v : W)
        → IsGood v.rest
        → (out' : ℕ) × (v' : W) × (lookup_extended d va v ≡ reply (tr d va) out' v')
          × (v'.pids ≡ v.pids)
          × IsGood v'.rest) where
    abbrev cached : ℕ → W → Option ℕ
    cached pid w = pid_cache_get pids w.pids pid
