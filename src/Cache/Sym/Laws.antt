-- ===== src/Cache/Sym/Laws.antt =====
-- What libvmi/cache.c's sym_cache_get answers after each of the other operations.
use libvmi.Common.{
  ℕ, Bool, List, none, some, Option-cases, inl, inr, take, ◌==◌, ◌&&◌, if◌then◌else◌, ◌≡◌, arith,
}
use libvmi.Types.{success, failure}
use libvmi.Cache.Table.{GHashTable}
use libvmi.Cache.Keys.{Key128, key_128_equals, key_128_init, pid_to_u64}
use libvmi.Cache.Sym.{SymEntry, sym_cache_get, sym_cache_set, sym_cache_del}

module _ {str_equal : List ℕ → List ℕ → Bool} (symbols : GHashTable (List ℕ) SymEntry str_equal)
    (tables : GHashTable Key128 symbols.Table key_128_equals) (c : tables.Table) (base_addr pid : ℕ)
    (sym : List ℕ) where
  abbrev key : Key128
  key = key_128_init base_addr (pid_to_u64 pid)

  -- After a set, a symbol equal to the first hundred bytes of the one that was set, with the same
  -- base address and process, has the new address; every other symbol has the one it had.
  pub sym_cache_get-set :
      (va base_addr' pid' : ℕ) (sym' : List ℕ)
      → sym_cache_get symbols tables
          (sym_cache_set symbols tables c base_addr pid sym va)
          base_addr'
          pid'
          sym'
        ≡ (if (base_addr == base_addr' && pid_to_u64 pid == pid_to_u64 pid')
              && str_equal (take 100 sym) sym'
            then some va
            else sym_cache_get symbols tables c base_addr' pid' sym')
  unfolding sym_cache_get sym_cache_set
  sym_cache_get-set va base_addr' pid' sym' =
      let key' = key_128_init base_addr' (pid_to_u64 pid') in
      let entry : SymEntry = record { sym = sym; va = va; base_addr = base_addr; pid = pid } in
      elim (Option-cases (tables.lookup c key)) [
        | inl e ↦
            let c' = tables.insert c key symbols.new in
            ground (
              arith,
              tables.lookup-insert c' key (symbols.insert symbols.new (take 100 sym) entry) key',
              tables.lookup-insert c key symbols.new key',
              symbols.lookup-insert symbols.new (take 100 sym) entry sym',
              symbols.lookup-new sym',
            )
        | inr (t, e) ↦ ground (
          arith,
          tables.lookup-insert c key (symbols.insert t (take 100 sym) entry) key',
          symbols.lookup-insert t (take 100 sym) entry sym',
        )
      ]

  -- A delete reports whether the symbol had an address, and takes it from this symbol alone.
  pub sym_cache_get-del :
      (base_addr' pid' : ℕ) (sym' : List ℕ)
      → ((sym_cache_del symbols tables c base_addr pid sym).0
          ≡ (elim (sym_cache_get symbols tables c base_addr pid sym) [
            | none ↦ failure
            | some va ↦ success
          ]))
        × (sym_cache_get symbols tables
              (sym_cache_del symbols tables c base_addr pid sym).1
              base_addr'
              pid'
              sym'
            ≡ (if (base_addr == base_addr' && pid_to_u64 pid == pid_to_u64 pid')
                  && str_equal sym sym'
                then none
                else sym_cache_get symbols tables c base_addr' pid' sym'))
  unfolding sym_cache_get sym_cache_del
  sym_cache_get-del base_addr' pid' sym' =
      let key' = key_128_init base_addr' (pid_to_u64 pid') in
      elim (Option-cases (tables.lookup c key)) [
        | inl e ↦ (ground arith, ground arith)
        | inr (t, e) ↦
            let t' = (symbols.remove t sym).1 in
            (
              ground (arith, symbols.remove-found t sym),
              ground (
                arith,
                tables.lookup-insert c key t' key',
                tables.lookup-remove (tables.insert c key t') key key',
                symbols.lookup-remove t sym sym',
                symbols.lookup-empty t' sym',
              ),
            )
      ]
