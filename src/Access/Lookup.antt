-- ===== src/Access/Lookup.antt =====
-- libvmi/accessors.c: the lookups of a virtual address through the cache of translations, with
-- ENABLE_SAFETY_CHECKS and ENABLE_ADDRESS_CACHE, for pointers that are not NULL.
pub mod Laws
use libvmi.Common.{
  ℕ, ◌-◌, ◌^◌, Bool, true, false, not, ◌&&◌, ◌==◌, Option, none, some, if◌then◌else◌,
}
use libvmi.Types.{Status, success, failure, PageInfo, no_info}
use libvmi.PageMode.{valid_pm, valid_npm}
use libvmi.Cache.Table.{GHashTable}
use libvmi.Cache.Keys.{Key128, key_128_equals}
use libvmi.Cache.V2p.{v2p_cache_get, v2p_cache_set, v2p_cache_del}

-- The cache of translations, and the rest of what the lookups may change.
pub record World (Cache S : Type 0) : Type 0 where
  pub cache : Cache
  pub rest : S

-- What the lookups call: `walk pm` is arch_interface.lookup[pm] with npt, npm, pt, vaddr and a
-- page_info_t; `read_8_pa` says whether vmi_read_8_pa succeeds at an address.
pub record Lookups (W : Type 0) : Type 0 where
  pub walk : ℕ → ℕ → ℕ → ℕ → ℕ → PageInfo → W → Status × PageInfo × W
  pub read_8_pa : ℕ → W → Bool × W

-- *paddr, which the cache writes when it has a translation.
abbrev pub or_old : Option ℕ → ℕ → ℕ
or_old none old = old
or_old (some pa) old = pa

module _ (space : GHashTable ℕ ℕ ◌==◌) (spaces : GHashTable Key128 space.Table key_128_equals)
    {S : Type 0} (env : Lookups (World spaces.Table S)) where
  abbrev W : Type 0
  W = World spaces.Table S

  -- Whether a cached translation's address can still be read, and the translation.
  unfoldable pub cached : ℕ → ℕ → ℕ → W → (Bool × Option ℕ) × W
  cached vaddr pt npt w = elim (v2p_cache_get space spaces w.cache vaddr pt npt) [
    | none ↦ ((false, none), w)
    | some pa ↦ let (ok, w') = env.read_8_pa pa w in ((ok, some pa), w')
  ]

  unfoldable pub store : ℕ → ℕ → ℕ → ℕ → W → W
  store vaddr pt npt pa w = record w { cache = v2p_cache_set space spaces w.cache vaddr pt npt pa }

  -- The walk of vmi_nested_pagetable_lookup, when the cache has not answered.
  unfoldable pub walk_and_cache : ℕ → ℕ → ℕ → ℕ → ℕ → PageInfo → ℕ → ℕ → W → Status × (ℕ × ℕ) × W
  walk_and_cache npt npm pt pm vaddr info paddr naddr w =
      let (status, info', w') = env.walk pm npt npm pt vaddr info w in
      elim status [
        | failure ↦ (failure, (paddr, naddr), w')
        | success ↦
            if valid_npm npm
            then (success, (info'.paddr, info'.naddr), store vaddr pt npt info'.naddr w')
            else (success, (info'.paddr, naddr), store vaddr pt 0 info'.paddr w')
      ]

  -- A status, and *paddr and *naddr, which were `paddr` and `naddr`; `info` is what stands in the
  -- page_info_t before it is set, and `has_naddr` says that naddr is not NULL.
  unfoldable pub vmi_nested_pagetable_lookup :
      ℕ → ℕ → ℕ → ℕ → ℕ → PageInfo → Bool → ℕ → ℕ → W → Status × (ℕ × ℕ) × W
  vmi_nested_pagetable_lookup npt npm pt pm vaddr info has_naddr paddr naddr w =
      let ((hit, pa), w') = cached vaddr pt npt w in
      let paddr' = or_old pa paddr in
      if valid_npm npm && not has_naddr
      then (failure, (paddr, naddr), w)
      else if not (valid_pm pm)
      then (failure, (paddr, naddr), w)
      else if hit
      then (success, (if valid_npm npm then (2 ^ 64 - 1, paddr') else (paddr', naddr)), w')
      else walk_and_cache npt npm pt pm vaddr info paddr' naddr w'

  -- A cached translation whose address cannot be read any more is deleted; v2p_cache_del never fails.
  unfoldable pub drop_stale : ℕ → ℕ → Option ℕ → W → W
  drop_stale vaddr pt none w = w
  drop_stale vaddr pt (some pa) w = record w {
    cache = (v2p_cache_del space spaces w.cache vaddr 0 pt).1;
  }

  -- `page_mode` is that of the instance.
  unfoldable pub vmi_pagetable_lookup_cache : ℕ → ℕ → ℕ → ℕ → W → Status × ℕ × W
  vmi_pagetable_lookup_cache page_mode pt vaddr paddr w =
      let ((hit, pa), w') = cached vaddr pt 0 w in
      let info : PageInfo = record no_info { vaddr = vaddr; pt = pt; pm = page_mode } in
      let (status, info', w'') = env.walk page_mode 0 0 pt vaddr info (drop_stale vaddr pt pa w') in
      if not (valid_pm page_mode)
      then (failure, paddr, w)
      else if hit
      then (success, or_old pa 0, w')
      else (elim status [
        | failure ↦ (failure, or_old pa 0, w'')
        | success ↦ (success, info'.paddr, store vaddr pt 0 info'.paddr w'')
      ])

  -- The page_info_t is a result.
  unfoldable pub vmi_pagetable_lookup_extended : ℕ → ℕ → ℕ → PageInfo → W → Status × PageInfo × W
  vmi_pagetable_lookup_extended page_mode pt vaddr info w =
      let cleared : PageInfo = record no_info { vaddr = vaddr; pt = pt; pm = page_mode } in
      let (status, info', w') = env.walk page_mode 0 0 pt vaddr cleared w in
      if not (valid_pm page_mode) then (failure, info, w) else (elim status [
        | failure ↦ (failure, info', w')
        | success ↦ (success, info', store vaddr pt 0 info'.paddr w')
      ])
