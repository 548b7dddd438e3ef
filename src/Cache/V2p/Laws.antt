-- ===== src/Cache/V2p/Laws.antt =====
-- What libvmi/cache.c's v2p_cache_get answers after each of the other operations.
use libvmi.Common.{
  ℕ, ◌+◌, ◌-◌, ◌/◌, ◌%◌, ◌^◌, bit_and, bit_or, none, some, Option-cases, inl, inr, ◌==◌, ◌&&◌, ◌||◌,
  if◌then◌else◌, ◌≡◌, ◌≢◌, ◌∙◌, ap, arith,
}
use libvmi.Bits.{bit_mask, bit_and-low_left, bit_or-add}
use libvmi.Types.{success}
use libvmi.Cache.Table.{GHashTable}
use libvmi.Cache.Keys.{Key128, key_128_equals, key_128_init}
use libvmi.Cache.V2p.{page_of, v2p_cache_get, v2p_cache_set, v2p_cache_del, v2p_cache_flush}

-- A page with the offset of an address.
offset_lem :
    (pa va : ℕ) → bit_or (page_of pa) (bit_and (bit_mask 0 11) va) ≡ page_of pa + va % 2 ^ 12
offset_lem pa va =
    ap (bit_or (page_of pa)) (bit_and-low_left 12 va)
    ∙ bit_or-add 12 (pa / 2 ^ 12) (va % 2 ^ 12) (omega arith)

module _ (space : GHashTable ℕ ℕ ◌==◌) (spaces : GHashTable Key128 space.Table key_128_equals) where
  -- After a set, an address of the same page in the same address space translates to the page that
  -- was set with that address's offset, unless this is page 0, which reads as missing; any other
  -- translation is what it was.
  pub v2p_cache_get-set :
      (c : spaces.Table) (va pt npt pa va' pt' npt' : ℕ)
      → va ≢ 0
      → pt ≢ 0
      → pa ≢ 0
      → v2p_cache_get space spaces (v2p_cache_set space spaces c va pt npt pa) va' pt' npt' ≡ (
          if (pt == pt' && npt == npt') && page_of va == page_of va'
          then (if page_of pa == 0 then none else some (page_of pa + va' % 2 ^ 12))
          else v2p_cache_get space spaces c va' pt' npt')
  unfolding v2p_cache_get v2p_cache_set
  v2p_cache_get-set c va pt npt pa va' pt' npt' hva hpt hpa =
      let key = key_128_init pt npt in
      let key' = key_128_init pt' npt' in
      elim (Option-cases (spaces.lookup c key)) [
        | inl e ↦
            let c' = spaces.insert c key space.new in
            ground (
              arith,
              offset_lem pa va',
              spaces.lookup-insert c' key (space.insert space.new (page_of va) (page_of pa)) key',
              spaces.lookup-insert c key space.new key',
              space.lookup-insert space.new (page_of va) (page_of pa) (page_of va'),
              space.lookup-new (page_of va'),
            )
        | inr (v, e) ↦ ground (
          arith,
          offset_lem pa va',
          spaces.lookup-insert c key (space.insert v (page_of va) (page_of pa)) key',
          space.lookup-insert v (page_of va) (page_of pa) (page_of va'),
        )
      ]

  -- A delete reports success, and removes the page from the address space whose key is `npt`, `pt`
  -- and nothing else.
  pub v2p_cache_get-del :
      (c : spaces.Table) (va pt npt va' pt' npt' : ℕ)
      → ((v2p_cache_del space spaces c va pt npt).0 ≡ success)
        × (v2p_cache_get space spaces (v2p_cache_del space spaces c va pt npt).1 va' pt' npt' ≡ (
            if (npt == pt' && pt == npt') && page_of va == page_of va'
            then none
            else v2p_cache_get space spaces c va' pt' npt'))
  unfolding v2p_cache_get v2p_cache_del
  v2p_cache_get-del c va pt npt va' pt' npt' =
      let key = key_128_init npt pt in
      let key' = key_128_init pt' npt' in
      elim (Option-cases (spaces.lookup c key)) [
        | inl e ↦ (ground arith, ground arith)
        | inr (v, e) ↦
            let v' = (space.remove v (page_of va)).1 in
            (
              ground arith,
              ground (
                arith,
                spaces.lookup-insert c key v' key',
                spaces.lookup-remove (spaces.insert c key v') key key',
                space.lookup-remove v (page_of va) (page_of va'),
                space.lookup-empty v' (page_of va'),
              ),
            )
      ]

  -- A flush for all page tables leaves nothing; a flush for one removes the address space whose key
  -- is `npt`, `pt`, and nothing else.
  pub v2p_cache_get-flush :
      (c : spaces.Table) (pt npt va' pt' npt' : ℕ)
      → v2p_cache_get space spaces (v2p_cache_flush space spaces c pt npt) va' pt' npt' ≡ (
          if (2 ^ 64 - 1 == pt) || (npt == pt' && pt == npt')
          then none
          else v2p_cache_get space spaces c va' pt' npt')
  unfolding v2p_cache_get v2p_cache_flush
  v2p_cache_get-flush c pt npt va' pt' npt' = ground (
    arith,
    spaces.lookup-remove_all c (key_128_init pt' npt'),
    spaces.lookup-remove c (key_128_init npt pt) (key_128_init pt' npt'),
  )
