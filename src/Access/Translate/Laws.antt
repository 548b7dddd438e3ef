-- ===== src/Access/Translate/Laws.antt =====
-- libvmi/accessors.c: the cache of processes answers as the operating system does, and the cache of
-- symbols takes two address spaces for one.
use libvmi.Common.{
  ℕ, ◌+◌, ◌%◌, ◌^◌, Bool, true, ◌==◌, Bool-cases, Option-cases, List, take, Option, none, some,
  if◌then◌else◌, inl, inr, ◌≡◌, ◌≢◌, sym, ap, ◌∙◌, arith,
}
use libvmi.Types.{Status, success, failure, AccessContext}
use libvmi.Arch.Entry.{canonical_addr}
use libvmi.Types.{Status-cases}
use libvmi.Cache.Table.{GHashTable}
use libvmi.Cache.Keys.{Key128, key_128_equals}
use libvmi.Cache.Pid.{PidEntry, pid_cache_get, pid_cache_set, pid_cache_get-set}
use libvmi.Cache.Sym.{SymEntry, sym_cache_get}
use libvmi.Cache.Sym.Laws.{sym_cache_get-set}
use libvmi.Access.Translate.{
  World, OsInterface, vmi_pid_to_dtb, context_dtb, sym2v_in, vmi_translate_sym2v,
}

-- The answer of a call that finds the number or fails.
abbrev pub answer : {W : Type 0} → Option ℕ → W → Status × ℕ × W
answer none w = (failure, 0, w)
answer (some v) w = (success, v, w)

module _ (pids : GHashTable ℕ PidEntry ◌==◌) {str_equal : List ℕ → List ℕ → Bool}
    (symbols : GHashTable (List ℕ) SymEntry str_equal)
    (sym_tables : GHashTable Key128 symbols.Table key_128_equals)
    (rvas : GHashTable ℕ SymEntry ◌==◌) (rva_tables : GHashTable Key128 rvas.Table key_128_equals)
    {S : Type 0} (os : OsInterface (World pids.Table sym_tables.Table rva_tables.Table S))
    (kpgd : ℕ) where
  abbrev W : Type 0
  W = World pids.Table sym_tables.Table rva_tables.Table S

  -- What the cache of processes has is what `dtb_of` says.
  abbrev pub Agrees : (ℕ → Option ℕ) → pids.Table → Type 0
  Agrees dtb_of c = (pid d : ℕ) → pid_cache_get pids c pid ≡ some d → dtb_of pid ≡ some d

  Agrees-set :
      (dtb_of : ℕ → Option ℕ) (c : pids.Table) (pid d : ℕ)
      → Agrees dtb_of c
      → dtb_of pid ≡ some d
      → Agrees dtb_of (pid_cache_set pids c pid d)
  Agrees-set dtb_of c pid d agrees is q e h = elim (Bool-cases (pid == q)) [
    | inl y ↦
        let same : pid ≡ q = ground (arith, y) in
        let value : d ≡ e = ground (arith, h, pid_cache_get-set pids c pid d q, y) in
        ap dtb_of (sym same) ∙ is ∙ ap some value
    | inr n ↦ agrees q e (ground (arith, h, pid_cache_get-set pids c pid d q, n))
  ]

  module _ (os_pid_to_pgd : ℕ → ℕ → W → Status × ℕ × W)
      (has : os.os_pid_to_pgd ≡ some os_pid_to_pgd) where
    -- The cache is transparent: when it agrees with what the operating system answers, vmi_pid_to_dtb
    -- gives that answer for every process, and kpgd for process 0; the cache still agrees, and it has
    -- the answer when there is one. `IsGood` may say when the operating system answers so.
    pub vmi_pid_to_dtb-answer :
        (dtb_of : ℕ → Option ℕ) (IsGood : S → Type 0) (pid dtb : ℕ) (w : W)
        → ((q : ℕ) (v : W)
            → Agrees dtb_of v.pids
            → IsGood v.rest
            → (v' : W) × (os_pid_to_pgd q 0 v ≡ answer (dtb_of q) v')
              × Agrees dtb_of v'.pids
              × IsGood v'.rest)
        → Agrees dtb_of w.pids
        → IsGood w.rest
        → (w' : W) × (vmi_pid_to_dtb pids symbols sym_tables rvas rva_tables
              (some os)
              kpgd
              pid
              dtb
              w
            ≡ answer (if pid == 0 then some kpgd else dtb_of pid) w')
          × Agrees dtb_of w'.pids
          × IsGood w'.rest
          × ((d : ℕ) → pid ≢ 0 → dtb_of pid ≡ some d → pid_cache_get pids w'.pids pid ≡ some d)
    unfolding vmi_pid_to_dtb
    vmi_pid_to_dtb-answer dtb_of IsGood pid dtb w asks agrees good = elim (Bool-cases (pid == 0)) [
      | inl y ↦ (w, ground (arith, y), agrees, good, λ d real is. absurd (ground (arith, y, real)))
      | inr n ↦ elim (Option-cases (pid_cache_get pids w.pids pid)) [
        | inr (cached, e) ↦
            let is = agrees pid cached e in
            (w, ground (arith, n, e, is), agrees, good, λ d real is'. ground (arith, e, is, is'))
        | inl e ↦
            let (w', e', agrees', good') = asks pid w agrees good in
            elim (Option-cases (dtb_of pid)) [
              | inl is ↦ (
                w',
                ground (arith, n, e, has, e', is),
                agrees',
                good',
                λ d real is'. absurd (ground (arith, is, is')),
              )
              | inr (d, is) ↦ (
                record w' { pids = pid_cache_set pids w'.pids pid d },
                ground (arith, n, e, has, e', is),
                Agrees-set dtb_of w'.pids pid d agrees' is,
                good',
                λ d' real is'. ground (arith, pid_cache_get-set pids w'.pids pid d pid, is, is'),
              )
            ]
      ]
    ]

  abbrev in_space : AccessContext → List ℕ → ℕ → W → Status × ℕ × W
  in_space = sym2v_in pids symbols sym_tables rvas rva_tables (some os) kpgd

  in_space_lem :
      (ctx : AccessContext) (symbol : List ℕ) (old : ℕ) (w : W)
      → ctx.tm ≡ 1
      → vmi_translate_sym2v pids symbols sym_tables rvas rva_tables (some os) kpgd ctx symbol old w
        ≡ in_space ctx symbol ctx.pt w
  unfolding vmi_translate_sym2v context_dtb
  in_space_lem ctx symbol old w tm = ground (arith, tm)

  -- What was found stands in the cache.
  kept_lem :
      (ctx : AccessContext) (symbol : List ℕ) (dtb va : ℕ) (w w' : W)
      → take 100 symbol ≡ symbol
      → str_equal symbol symbol ≡ true
      → in_space ctx symbol dtb w ≡ (success, va, w')
      → sym_cache_get symbols sym_tables w'.syms ctx.addr (dtb % 2 ^ 32) symbol ≡ some va
  unfolding sym2v_in
  kept_lem ctx symbol dtb va w w' short itself e =
      elim (Option-cases (sym_cache_get symbols sym_tables w.syms ctx.addr (dtb % 2 ^ 32) symbol)) [
        | inr (cached, is) ↦ ground (arith, e, is)
        | inl is ↦ elim (Option-cases os.os_usym2rva) [
          | inl missing ↦ absurd (ground (arith, e, is, missing))
          | inr (f, has) ↦ elim (Status-cases (f ctx symbol 0 w).0) [
            | inl good ↦ ground (
              arith,
              e,
              is,
              has,
              good,
              short,
              itself,
              sym_cache_get-set symbols sym_tables (f ctx symbol 0 w).2.syms ctx.addr (dtb % 2 ^ 32)
                  symbol (canonical_addr ((ctx.addr + (f ctx symbol 0 w).1) % 2 ^ 64)) ctx.addr
                  (dtb % 2 ^ 32) symbol,
            )
            | inr bad ↦ absurd (ground (arith, e, is, has, bad))
          ]
        ]
      ]

  -- The cache of symbols keeps a page directory as a vmi_pid_t: for two contexts that have the same
  -- address and page directories with the same low 32 bits, vmi_translate_sym2v gives in the second
  -- address space what it has found in the first, whatever the operating system would answer there.
  -- The symbol has at most 100 bytes.
  pub vmi_translate_sym2v-shared :
      (ctx ctx' : AccessContext) (symbol : List ℕ) (old old' va : ℕ) (w w' : W)
      → ctx.tm ≡ 1
      → ctx'.tm ≡ 1
      → ctx.addr ≡ ctx'.addr
      → ctx.pt % 2 ^ 32 ≡ ctx'.pt % 2 ^ 32
      → take 100 symbol ≡ symbol
      → str_equal symbol symbol ≡ true
      → vmi_translate_sym2v pids symbols sym_tables rvas rva_tables (some os) kpgd ctx symbol old w
        ≡ (success, va, w')
      → vmi_translate_sym2v pids symbols sym_tables rvas rva_tables
          (some os)
          kpgd
          ctx'
          symbol
          old'
          w'
        ≡ (success, va, w')
  unfolding sym2v_in
  vmi_translate_sym2v-shared ctx ctx' symbol old old' va w w' tm tm' addr pt short itself first =
      let kept =
        kept_lem ctx symbol ctx.pt va w w' short itself
          (sym (in_space_lem ctx symbol old w tm) ∙ first) in
      in_space_lem ctx' symbol old' w' tm' ∙ ground (arith, kept, addr, pt)
