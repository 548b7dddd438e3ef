-- ===== src/Cache/Rva/Laws.antt =====
-- What libvmi/cache.c's rva_cache_get answers after each of the other operations.
use libvmi.Common.{
  ℕ, ◌%◌, ◌^◌, List, none, some, Option-cases, inl, inr, ◌==◌, ◌&&◌, if◌then◌else◌, ◌≡◌, arith,
}
use libvmi.Types.{success, failure}
use libvmi.Cache.Table.{GHashTable}
use libvmi.Cache.Keys.{Key128, key_128_equals, key_128_init}
use libvmi.Cache.Sym.{SymEntry}
use libvmi.Cache.Rva.{rva_cache_get, rva_cache_set, rva_cache_del}

module _ (rvas : GHashTable ℕ SymEntry ◌==◌) (tables : GHashTable Key128 rvas.Table key_128_equals)
    (c : tables.Table) (base_addr dtb rva : ℕ) where
  abbrev key : Key128
  key = key_128_init base_addr dtb

  -- After a set, the relative address in that image and address space has the new symbol, and every
  -- other has the one it had.
  pub rva_cache_get-set :
      (sym : List ℕ) (base_addr' dtb' rva' : ℕ)
      → rva_cache_get rvas tables
          (rva_cache_set rvas tables c base_addr dtb rva sym)
          base_addr'
          dtb'
          rva'
        ≡ (if (base_addr == base_addr' && dtb == dtb') && rva == rva'
            then some sym
            else rva_cache_get rvas tables c base_addr' dtb' rva')
  unfolding rva_cache_get rva_cache_set
  rva_cache_get-set sym base_addr' dtb' rva' =
      let key' = key_128_init base_addr' dtb' in
      let entry : SymEntry = record {
        sym = sym;
        va = rva;
        base_addr = base_addr;
        pid = dtb % 2 ^ 32;
      } in
      elim (Option-cases (tables.lookup c key)) [
        | inl e ↦ ground (
          arith,
          tables.lookup-insert (tables.insert c key rvas.new) key (rvas.insert rvas.new rva entry)
              key',
          tables.lookup-insert c key rvas.new key',
          rvas.lookup-insert rvas.new rva entry rva',
          rvas.lookup-new rva',
        )
        | inr (t, e) ↦ ground (
          arith,
          tables.lookup-insert c key (rvas.insert t rva entry) key',
          rvas.lookup-insert t rva entry rva',
        )
      ]

  -- A delete reports whether the relative address had a symbol, and takes it from this one alone.
  pub rva_cache_get-del :
      (base_addr' dtb' rva' : ℕ)
      → ((rva_cache_del rvas tables c base_addr dtb rva).0
          ≡ (elim (rva_cache_get rvas tables c base_addr dtb rva) [
            | none ↦ failure
            | some sym ↦ success
          ]))
        × (rva_cache_get rvas tables
              (rva_cache_del rvas tables c base_addr dtb rva).1
              base_addr'
              dtb'
              rva'
            ≡ (if (base_addr == base_addr' && dtb == dtb') && rva == rva'
                then none
                else rva_cache_get rvas tables c base_addr' dtb' rva'))
  unfolding rva_cache_get rva_cache_del
  rva_cache_get-del base_addr' dtb' rva' =
      let key' = key_128_init base_addr' dtb' in
      elim (Option-cases (tables.lookup c key)) [
        | inl e ↦ (ground arith, ground arith)
        | inr (t, e) ↦
            let t' = (rvas.remove t rva).1 in
            (
              ground (arith, rvas.remove-found t rva),
              ground (
                arith,
                tables.lookup-insert c key t' key',
                tables.lookup-remove (tables.insert c key t') key key',
                rvas.lookup-remove t rva rva',
                rvas.lookup-empty t' rva',
              ),
            )
      ]
