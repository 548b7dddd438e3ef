-- ===== src/Access/Translate.antt =====
-- libvmi/accessors.c: processes and symbols, through the caches of libvmi/cache.c, with
-- ENABLE_SAFETY_CHECKS and ENABLE_ADDRESS_CACHE, for pointers that are not NULL.
pub mod Laws
pub mod Recovery
use libvmi.Common.{ℕ, ◌+◌, ◌-◌, ◌%◌, ◌^◌, Bool, ◌==◌, List, Option, none, some, if◌then◌else◌}
use libvmi.Types.{Status, success, failure, AccessContext}
use libvmi.Arch.Entry.{canonical_addr}
use libvmi.Cache.Table.{GHashTable}
use libvmi.Cache.Keys.{Key128, key_128_equals}
use libvmi.Cache.Pid.{PidEntry, pid_cache_get, pid_cache_set, pid_cache_del, pid_cache_flush}
use libvmi.Cache.Sym.{SymEntry, sym_cache_get, sym_cache_set, sym_cache_flush}
use libvmi.Cache.Rva.{rva_cache_get, rva_cache_set, rva_cache_flush}

-- The three caches, and the rest of what the calls may change.
pub record World (Pids Syms Rvas S : Type 0) : Type 0 where
  pub pids : Pids
  pub syms : Syms
  pub rvas : Rvas
  pub rest : S

-- struct os_interface: a function that is NULL is `none`. A result that is written through a pointer
-- comes with what stood there before.
pub record OsInterface (W : Type 0) : Type 0 where
  pub os_pid_to_pgd : Option (ℕ → ℕ → W → Status × ℕ × W)
  pub os_pgd_to_pid : Option (ℕ → ℕ → W → Status × ℕ × W)
  pub os_ksym2v : Option (List ℕ → ℕ → W → Status × ℕ × W)
  pub os_usym2rva : Option (AccessContext → List ℕ → ℕ → W → Status × ℕ × W)
  pub os_v2sym : Option (ℕ → AccessContext → W → Option (List ℕ) × W)
  pub os_v2ksym : Option (ℕ → AccessContext → W → Option (List ℕ) × W)

-- A function that may be NULL, which then leaves its variable as it is.
abbrev call : {W : Type 0} → Option (ℕ → W → Status × ℕ × W) → ℕ → W → Status × ℕ × W
call none old w = (failure, old, w)
call (some f) old w = f old w

abbrev ask : {W : Type 0} → Option (W → Option (List ℕ) × W) → W → Option (List ℕ) × W
ask none w = (none, w)
ask (some f) w = f w

abbrev apply : {A B : Type 0} → Option (A → B) → A → Option B
apply none a = none
apply (some f) a = some (f a)

module _ (pids : GHashTable ℕ PidEntry ◌==◌) {str_equal : List ℕ → List ℕ → Bool}
    (symbols : GHashTable (List ℕ) SymEntry str_equal)
    (sym_tables : GHashTable Key128 symbols.Table key_128_equals)
    (rvas : GHashTable ℕ SymEntry ◌==◌) (rva_tables : GHashTable Key128 rvas.Table key_128_equals)
    {S : Type 0}
    (os_interface : Option (OsInterface (World pids.Table sym_tables.Table rva_tables.Table S)))
    (kpgd : ℕ) where
  abbrev pub W : Type 0
  W = World pids.Table sym_tables.Table rva_tables.Table S

  -- A status, and *dtb, which was `dtb`.
  unfoldable pub vmi_pid_to_dtb : ℕ → ℕ → W → Status × ℕ × W
  vmi_pid_to_dtb pid dtb w = elim os_interface [
    | none ↦ (failure, dtb, w)
    | some os ↦
        let (ret, _dtb, w') = call (apply os.os_pid_to_pgd pid) 0 w in
        let asked : Status × ℕ × W = elim ret [
          | failure ↦ (failure, _dtb, w')
          | success ↦ (success, _dtb, record w' { pids = pid_cache_set pids w'.pids pid _dtb })
        ] in
        if pid == 0 then (success, kpgd, w) else (elim (pid_cache_get pids w.pids pid) [
          | some cached ↦ (success, cached, w)
          | none ↦ asked
        ])
  ]

  -- A status and *pid; a pid is the bit pattern of an int32_t.
  unfoldable pub vmi_dtb_to_pid : ℕ → W → Status × ℕ × W
  vmi_dtb_to_pid dtb w = elim os_interface [
    | none ↦ (failure, 2 ^ 32 - 1, w)
    | some os ↦ call (apply os.os_pgd_to_pid dtb) (2 ^ 32 - 1) w
  ]

  -- A status and *vaddr.
  unfoldable pub vmi_translate_ksym2v : List ℕ → W → Status × ℕ × W
  vmi_translate_ksym2v symbol w =
      let asked : Status × ℕ × W = elim os_interface [
        | none ↦ (failure, 0, w)
        | some os ↦
            let (status, address, w') = call (apply os.os_ksym2v symbol) 0 w in
            let va = canonical_addr address in
            elim status [
              | failure ↦ (failure, address, w')
              | success ↦ (
                success,
                va,
                record w' { syms = sym_cache_set symbols sym_tables w'.syms 0 0 symbol va },
              )
            ]
      ] in
      elim (sym_cache_get symbols sym_tables w.syms 0 0 symbol) [
        | some va ↦ (success, va, w)
        | none ↦ asked
      ]

  -- The switch over the translation mechanism: the page directory, `none` when there is none. `pid`
  -- is the low half of `pt`.
  unfoldable pub context_dtb : AccessContext → W → Option ℕ × W
  context_dtb ctx w =
      let (ret, dtb, w') = vmi_pid_to_dtb (ctx.pt % 2 ^ 32) 0 w in
      if ctx.tm == 2
      then ((elim ret [ success ↦ some dtb | failure ↦ none ]), w')
      else if ctx.tm == 1
      then (some ctx.pt, w)
      else (none, w)

  -- A symbol's address once the page directory is known. The cache takes it as a vmi_pid_t, which
  -- has the low 32 bits of it.
  unfoldable pub sym2v_in : AccessContext → List ℕ → ℕ → W → Status × ℕ × W
  sym2v_in ctx symbol dtb w =
      let asked : Status × ℕ × W = elim os_interface [
        | none ↦ (failure, 0, w)
        | some os ↦
            let (status, rva, w') = call (apply (apply os.os_usym2rva ctx) symbol) 0 w in
            let va = canonical_addr ((ctx.addr + rva) % 2 ^ 64) in
            elim status [
              | failure ↦ (failure, 0, w')
              | success ↦ (
                success,
                va,
                record w' {
                  syms = sym_cache_set symbols sym_tables w'.syms ctx.addr (dtb % 2 ^ 32) symbol va;
                },
              )
            ]
      ] in
      elim (sym_cache_get symbols sym_tables w.syms ctx.addr (dtb % 2 ^ 32) symbol) [
        | some va ↦ (success, va, w)
        | none ↦ asked
      ]

  -- A status, and *vaddr, which was `vaddr`.
  unfoldable pub vmi_translate_sym2v : AccessContext → List ℕ → ℕ → W → Status × ℕ × W
  vmi_translate_sym2v ctx symbol vaddr w =
      let (found, w') = context_dtb ctx w in
      elim found [ none ↦ (failure, vaddr, w') | some dtb ↦ sym2v_in ctx symbol dtb w' ]

  -- What vmi_translate_v2sym and vmi_translate_v2ksym share: they differ in the function of the
  -- operating system that they ask.
  unfoldable pub symbol_of :
      (OsInterface W → Option (ℕ → AccessContext → W → Option (List ℕ) × W))
      → AccessContext
      → ℕ
      → W
      → Option (List ℕ) × W
  symbol_of which ctx rva w =
      let (found, w') = context_dtb ctx w in
      elim found [
        | none ↦ (none, w')
        | some dtb ↦
            let asked : Option (List ℕ) × W = elim os_interface [
              | none ↦ (none, w')
              | some os ↦ ask (apply (apply (which os) rva) ctx) w'
            ] in
            let (ret, w'') = asked in
            let kept : W = elim ret [
              | none ↦ w''
              | some sym ↦ record w'' {
                rvas = rva_cache_set rvas rva_tables w''.rvas ctx.addr dtb rva sym;
              }
            ] in
            elim (rva_cache_get rvas rva_tables w'.rvas ctx.addr dtb rva) [
              | some sym ↦ (some sym, w')
              | none ↦ (ret, kept)
            ]
      ]

  unfoldable pub vmi_translate_v2sym : AccessContext → ℕ → W → Option (List ℕ) × W
  vmi_translate_v2sym ctx rva w = symbol_of (λ os. os.os_v2sym) ctx rva w

  unfoldable pub vmi_translate_v2ksym : AccessContext → ℕ → W → Option (List ℕ) × W
  vmi_translate_v2ksym ctx va w = symbol_of (λ os. os.os_v2ksym) ctx va w

  -- `lookup_cache pt vaddr out` is vmi_pagetable_lookup_cache with what stands in *paddr, and
  -- `lookup_extended pt vaddr` is vmi_pagetable_lookup_extended with the paddr that it finds.
  module _ (lookup_cache : ℕ → ℕ → ℕ → W → Status × ℕ × W)
      (lookup_extended : ℕ → ℕ → W → Status × ℕ × W) where
    -- A status, and *paddr, which was `paddr`.
    unfoldable pub vmi_translate_kv2p : ℕ → ℕ → W → Status × ℕ × W
    vmi_translate_kv2p vaddr paddr w =
        if kpgd == 0 then (failure, paddr, w) else lookup_cache kpgd vaddr paddr w

    -- The second attempt of vmi_translate_uv2p; `dtb` is the first one's.
    unfoldable pub uv2p_again : ℕ → ℕ → ℕ → ℕ → W → Status × ℕ × W
    uv2p_again vaddr pid dtb paddr w =
        let (deleted, pids') = pid_cache_del pids w.pids pid in
        let (ret, dtb', w') = vmi_pid_to_dtb pid dtb (record w { pids = pids' }) in
        let (ret', found, w'') = lookup_extended dtb' vaddr w' in
        elim deleted [
          | failure ↦ (failure, paddr, record w { pids = pids' })
          | success ↦ elim ret [
            | failure ↦ (failure, paddr, w')
            | success ↦ elim ret' [
              | failure ↦ (failure, paddr, w'')
              | success ↦ (success, found, w'')
            ]
          ]
        ]

    unfoldable pub vmi_translate_uv2p : ℕ → ℕ → ℕ → W → Status × ℕ × W
    vmi_translate_uv2p vaddr pid paddr w =
        let (got, dtb, w₁) = vmi_pid_to_dtb pid 0 w in
        let (ret, paddr', w₂) = lookup_cache dtb vaddr paddr w₁ in
        elim got [
          | failure ↦ (failure, paddr, w₁)
          | success ↦ if dtb == 0 then (failure, paddr, w₁) else (elim ret [
            | success ↦ (success, paddr', w₂)
            | failure ↦ uv2p_again vaddr pid dtb paddr' w₂
          ])
        ]

  -- The functions that set and flush the caches from outside.
  unfoldable pub vmi_pidcache_add : ℕ → ℕ → W → W
  vmi_pidcache_add pid dtb w = record w { pids = pid_cache_set pids w.pids pid dtb }

  unfoldable pub vmi_pidcache_flush : W → W
  vmi_pidcache_flush w = record w { pids = pid_cache_flush pids w.pids }

  unfoldable pub vmi_symcache_add : ℕ → ℕ → List ℕ → ℕ → W → W
  vmi_symcache_add base_addr pid sym va w = record w {
    syms = sym_cache_set symbols sym_tables w.syms base_addr pid sym va;
  }

  unfoldable pub vmi_symcache_flush : W → W
  vmi_symcache_flush w = record w { syms = sym_cache_flush symbols sym_tables w.syms }

  unfoldable pub vmi_rvacache_add : ℕ → ℕ → ℕ → List ℕ → W → W
  vmi_rvacache_add base_addr pid rva sym w =
      let (ret, pgd, w') = vmi_pid_to_dtb pid 0 w in
      elim ret [
        | failure ↦ w'
        | success ↦ record w' { rvas = rva_cache_set rvas rva_tables w'.rvas base_addr pgd rva sym }
      ]

  unfoldable pub vmi_rvacache_flush : W → W
  vmi_rvacache_flush w = record w { rvas = rva_cache_flush rvas rva_tables w.rvas }
