-- ===== src/Cache/V2p.antt =====
-- libvmi/cache.c: the cache from virtual to physical pages, a table of tables. ENABLE_SAFETY_CHECKS
-- is on. A second-level table holds an address as a pointer, so that address 0 is NULL.
pub mod Laws
use libvmi.Common.{
  ℕ, ◌+◌, ◌-◌, ◌*◌, ◌/◌, ◌%◌, ◌^◌, bit_and, bit_or, Bool, Option, none, some, ◌==◌, ◌||◌,
  if◌then◌else◌,
}
use libvmi.Bits.{bit_mask}
use libvmi.Types.{Status, success}
use libvmi.Cache.Table.{GHashTable}
use libvmi.Cache.Keys.{Key128, key_128_equals, key_128_init}

abbrev pub page_of : ℕ → ℕ
page_of a = a / 2 ^ 12 * 2 ^ 12

module _ (space : GHashTable ℕ ℕ ◌==◌) (spaces : GHashTable Key128 space.Table key_128_equals) where
  unfoldable pub v2p_cache_init : spaces.Table
  v2p_cache_init = spaces.new

  -- VMI_FAILURE is `none`.
  unfoldable pub v2p_cache_get : spaces.Table → ℕ → ℕ → ℕ → Option ℕ
  v2p_cache_get c va pt npt = elim (spaces.lookup c (key_128_init pt npt)) [
    | none ↦ none
    | some v ↦ elim (space.lookup v (page_of va)) [
      | none ↦ none
      | some pa ↦ if pa == 0 then none else some (bit_or pa (bit_and (bit_mask 0 11) va))
    ]
  ]

  -- The table of the space, which is put into the cache if it is not there.
  unfoldable pub space_of : spaces.Table → Key128 → space.Table × spaces.Table
  space_of c key = elim (spaces.lookup c key) [
    | none ↦ (space.new, spaces.insert c key space.new)
    | some v ↦ (v, c)
  ]

  -- A change to a second-level table is a change to the value that the cache points to.
  unfoldable pub v2p_cache_set : spaces.Table → ℕ → ℕ → ℕ → ℕ → spaces.Table
  unfolding space_of
  v2p_cache_set c va pt npt pa =
      if va == 0 || (pt == 0 || pa == 0)
      then c
      else let key = key_128_init pt npt in
        let (v, c') = space_of c key in
        spaces.insert c' key (space.insert v (page_of va) (page_of pa))

  -- The key has `npt` first.
  unfoldable pub v2p_cache_del : spaces.Table → ℕ → ℕ → ℕ → Status × spaces.Table
  v2p_cache_del c va pt npt =
      let key = key_128_init npt pt in
      elim (spaces.lookup c key) [
        | none ↦ (success, c)
        | some v ↦
            let (found, v') = space.remove v (page_of va) in
            let c' = spaces.insert c key v' in
            (success, if space.size v' == 0 then (spaces.remove c' key).1 else c')
      ]

  unfoldable pub v2p_cache_flush : spaces.Table → ℕ → ℕ → spaces.Table
  v2p_cache_flush c pt npt =
      if 2 ^ 64 - 1 == pt then spaces.remove_all c else (spaces.remove c (key_128_init npt pt)).1
