-- ===== src/Tests/Lookups.antt =====
-- The lookups of libvmi/accessors.c with a cached page.
use libvmi.Common.{
  ℕ, ◌+◌, true, false, ◌==◌, [], Option, none, some, if◌then◌else◌, ◌≡◌, refl, arith,
}
use libvmi.Types.{success, no_info}
use libvmi.PageMode
use libvmi.Cache.Table.{GHashTable}
use libvmi.Cache.Keys.{Key128, key_128_equals}
use libvmi.Cache.Assoc.{number_table, key_table, find}
use libvmi.Cache.V2p.{v2p_cache_get, v2p_cache_set}
use libvmi.Access.Lookup.{World, Lookups, vmi_nested_pagetable_lookup}
use libvmi.Access.Lookup.Laws.{
  IsCoherent, IsPagewise, IsWalk, status_of, set-IsCoherent, vmi_nested_pagetable_lookup-trans,
}

abbrev space : GHashTable ℕ ℕ ◌==◌
space = number_table ℕ

abbrev spaces : GHashTable Key128 space.Table key_128_equals
spaces = key_table space.Table

-- Every address is translated to one that is three pages higher.
abbrev trans : ℕ → ℕ → Option ℕ
trans pt va = if pt == 0x1000 then some (va + 0x3000) else none

abbrev env : Lookups (World spaces.Table (Unit {0}))
env = record {
  walk =
      λ pm npt npm pt va info w. (status_of (trans pt va), record info { paddr = va + 0x3000 }, w);
  read_8_pa = λ pa w. (true, w);
}

trans-IsPagewise : IsPagewise space spaces trans
trans-IsPagewise pt va va' pa e same = ground arith

env-IsWalk : IsWalk space spaces trans env PageMode.ia32e
env-IsWalk = record {
  walked = λ pt va info w.
      (record info { paddr = va + 0x3000 }, w, refl, λ pa e. found pt va pa e, λ good. good);
  read = λ pa w good. good;
  pagewise = trans-IsPagewise;
}
  where
    found : (pt va pa : ℕ) → trans pt va ≡ some pa → va + 0x3000 ≡ pa
    found pt va pa e = ground arith

-- The page 0x7000 is in the cache.
abbrev cache : spaces.Table
cache = v2p_cache_set space spaces [] 0x7001 0x1000 0 0xa001

empty-IsCoherent : IsCoherent space spaces trans []
unfolding v2p_cache_get find
empty-IsCoherent va pt pa h = let bad : ⊥ = ground arith in elim bad [ ]

cache-IsCoherent : IsCoherent space spaces trans cache
cache-IsCoherent =
    set-IsCoherent space spaces trans [] 0x7001 0x1000 0xa001 trans-IsPagewise empty-IsCoherent refl

abbrev world : World spaces.Table (Unit {0})
world = record { cache = cache; rest = tt }

valid_ia32e : PageMode.valid_pm PageMode.ia32e ≡ true
unfolding PageMode.valid_pm
valid_ia32e = refl

vmi_nested_pagetable_lookup-trans_example :
    (p : ℕ) × (w : World spaces.Table (Unit {0})) × (vmi_nested_pagetable_lookup space spaces env 0
        0 0x1000 PageMode.ia32e 0x7123 no_info false 0 0 world
      ≡ (success, (p, 0), w))
    × ((pa : ℕ) → trans 0x1000 0x7123 ≡ some pa → p ≡ pa)
    × IsCoherent space spaces trans w.cache
vmi_nested_pagetable_lookup-trans_example =
    vmi_nested_pagetable_lookup-trans space spaces trans env PageMode.ia32e 0x1000 0x7123 0 0
      no_info false world valid_ia32e env-IsWalk cache-IsCoherent
