-- ===== src/Access/Lookup/Laws.antt =====
-- The lookups of libvmi/accessors.c against the page walk alone, without nesting: the cache of
-- translations cannot be told from the outside.
use libvmi.Common.{
  ℕ, ◌+◌, ◌%◌, ◌^◌, Bool, true, false, ◌&&◌, ◌||◌, ◌==◌, Option, none, some, Option-cases,
  Bool-cases, inl, inr, ◌≡◌, refl, sym, ap, ◌∙◌, arith,
}
use libvmi.Types.{Status, success, failure, PageInfo, no_info}
use libvmi.PageMode.{valid_pm, valid_npm}
use libvmi.Cache.Table.{GHashTable}
use libvmi.Cache.Keys.{Key128, key_128_equals}
use libvmi.Cache.V2p.{page_of, v2p_cache_get, v2p_cache_set, v2p_cache_del}
use libvmi.Cache.V2p.Laws.{v2p_cache_get-set, v2p_cache_get-del}
use libvmi.Access.Lookup.{
  World, Lookups, store, drop_stale, cached, or_old, walk_and_cache, vmi_nested_pagetable_lookup,
  vmi_pagetable_lookup_cache,
}

module _ (space : GHashTable ℕ ℕ ◌==◌) (spaces : GHashTable Key128 space.Table key_128_equals)
    (trans : ℕ → ℕ → Option ℕ) where
  -- A cached translation without nesting is the right one.
  abbrev pub IsCoherent : spaces.Table → Type 0
  IsCoherent c =
      (va pt pa : ℕ) → v2p_cache_get space spaces c va pt 0 ≡ some pa → trans pt va ≡ some pa

  -- Pages have 4KB at least.
  abbrev pub IsPagewise : Type 0
  IsPagewise =
      (pt va va' pa : ℕ)
      → trans pt va ≡ some pa
      → page_of va ≡ page_of va'
      → trans pt va' ≡ some (page_of pa + va' % 2 ^ 12)

  pub set-IsCoherent :
      (c : spaces.Table) (va pt pa : ℕ)
      → IsPagewise
      → IsCoherent c
      → trans pt va ≡ some pa
      → IsCoherent (v2p_cache_set space spaces c va pt 0 pa)
  unfolding v2p_cache_set
  set-IsCoherent c va pt pa pagewise coherent right va' pt' pa' found =
      elim (Bool-cases (va == 0 || (pt == 0 || pa == 0))) [
        | inl skip ↦ coherent va' pt' pa' (ground (arith, skip, found))
        | inr set ↦
            let got =
              v2p_cache_get-set space spaces c va pt 0 pa va' pt' 0 (ground arith) (ground arith)
                (ground arith) in
            elim (Bool-cases ((pt == pt' && 0 == 0) && page_of va == page_of va')) [
              | inr other ↦ coherent va' pt' pa' (ground (arith, got, found, other))
              | inl same ↦
                  let here = pagewise pt va va' pa right (ground (arith, same)) in
                  ground (arith, got, found, same, here)
            ]
      ]

  del-IsCoherent :
      (c : spaces.Table) (va pt npt : ℕ)
      → IsCoherent c
      → IsCoherent (v2p_cache_del space spaces c va pt npt).1
  del-IsCoherent c va pt npt coherent va' pt' pa' found =
      coherent va' pt' pa'
        (ground (arith, (v2p_cache_get-del space spaces c va pt npt va' pt' 0).1))

plain_lem : valid_npm 0 ≡ false
unfolding valid_npm
plain_lem = refl

-- The status of a lookup whose translation is known.
abbrev pub status_of : Option ℕ → Status
status_of none = failure
status_of (some pa) = success

module _ (space : GHashTable ℕ ℕ ◌==◌) (spaces : GHashTable Key128 space.Table key_128_equals)
    (trans : ℕ → ℕ → Option ℕ) {S : Type 0} (env : Lookups (World spaces.Table S)) (pm : ℕ) where
  abbrev W : Type 0
  W = World spaces.Table S

  abbrev IsGood : W → Type 0
  IsGood w = IsCoherent space spaces trans w.cache

  -- The walk of a page mode finds the translations, and it and the reads keep the cache coherent.
  pub record IsWalk : Type 0 where
    pub walked :
        (pt va : ℕ) (info : PageInfo) (w : W)
        → (info' : PageInfo) × (w' : W) × (env.walk pm 0 0 pt va info w
            ≡ (status_of (trans pt va), info', w'))
          × ((pa : ℕ) → trans pt va ≡ some pa → info'.paddr ≡ pa)
          × (IsGood w → IsGood w')
    pub read : (pa : ℕ) (w : W) → IsGood w → IsGood (env.read_8_pa pa w).1
    pub pagewise : IsPagewise space spaces trans

  cached_lem :
      (va pt : ℕ) (w : W)
      → IsWalk
      → IsGood w
      → let ((hit, pa), w') = cached space spaces env va pt 0 w in
        IsGood w' × (hit ≡ true → (a : ℕ) × (pa ≡ some a) × (trans pt va ≡ some a))
  unfolding cached
  cached_lem va pt w walk good =
      elim (v2p_cache_get space spaces w.cache va pt 0)
          as (λ found.
            (v2p_cache_get space spaces w.cache va pt 0 ≡ found)
            → let ((hit, pa), w') : (Bool × Option ℕ) × W = elim found [
              | none ↦ ((false, none), w)
              | some a ↦ let (ok, w₁) = env.read_8_pa a w in ((ok, some a), w₁)
            ] in
              IsGood w' × (hit ≡ true → (a : ℕ) × (pa ≡ some a) × (trans pt va ≡ some a))) [
                | none ↦ λ e. (good, λ h. let bad : ⊥ = ground (arith, h) in elim bad [ ])
                | some a ↦ λ e. (walk.read a w good, λ h. (a, refl, good va pt a e))
              ]
        refl

  drop_lem :
      (va pt : ℕ) (pa : Option ℕ) (w : W)
      → IsGood w
      → IsGood (drop_stale space spaces env va pt pa w)
  unfolding drop_stale
  drop_lem va pt none w good = good
  drop_lem va pt (some pa) w good = del-IsCoherent space spaces trans w.cache va 0 pt good

  walk_and_cache_lem :
      (pt va paddr naddr : ℕ) (info : PageInfo) (w : W)
      → IsWalk
      → IsGood w
      → (p' : ℕ) × (w' : W) × (walk_and_cache space spaces env 0 0 pt pm va info paddr naddr w
          ≡ (status_of (trans pt va), (p', naddr), w'))
        × ((pa : ℕ) → trans pt va ≡ some pa → p' ≡ pa)
        × IsGood w'
  unfolding walk_and_cache store
  walk_and_cache_lem pt va paddr naddr info w walk good =
      let (info', w₁, done, right, keeps) = walk.walked pt va info w in
      elim (Option-cases (trans pt va)) [
        | inl e ↦ (paddr, w₁, ground (arith, done, e), λ pa f. ground (arith, e, f), keeps good)
        | inr (a, e) ↦ (
          info'.paddr,
          record w₁ { cache = v2p_cache_set space spaces w₁.cache va pt 0 info'.paddr },
          ground (arith, done, e, plain_lem),
          right,
          set-IsCoherent space spaces trans w₁.cache va pt info'.paddr walk.pagewise (keeps good)
              (e ∙ ap some (sym (right a e))),
        )
      ]

  -- For a page mode whose walk finds the translations `trans`, in pages of 4KB at least, and from a
  -- coherent cache: vmi_nested_pagetable_lookup without nesting succeeds exactly if there is a
  -- translation, then gives it in *paddr, and leaves the cache coherent, whether the cache has
  -- answered or not.
  pub vmi_nested_pagetable_lookup-trans :
      (pt va paddr naddr : ℕ) (info : PageInfo) (has_naddr : Bool) (w : W)
      → valid_pm pm ≡ true
      → IsWalk
      → IsGood w
      → (p' : ℕ) × (w' : W) × (vmi_nested_pagetable_lookup space spaces env 0 0 pt pm va info
            has_naddr paddr naddr w
          ≡ (status_of (trans pt va), (p', naddr), w'))
        × ((pa : ℕ) → trans pt va ≡ some pa → p' ≡ pa)
        × IsGood w'
  unfolding vmi_nested_pagetable_lookup
  vmi_nested_pagetable_lookup-trans pt va paddr naddr info has_naddr w valid walk good =
      let ((hit, pa), w₁) = cached space spaces env va pt 0 w in
      let (good₁, answer) = cached_lem va pt w walk good in
      elim (Bool-cases hit) [
        | inl kept ↦
            let (a, e, f) = answer kept in
            (
              a,
              w₁,
              ground (arith, valid, plain_lem, kept, e, f),
              λ b g. ground (arith, f, g),
              good₁,
            )
        | inr gone ↦
            let (p', w', done, right, good') =
              walk_and_cache_lem pt va (or_old pa paddr) naddr info w₁ walk good₁ in
            (p', w', ground (arith, valid, plain_lem, gone, done), right, good')
      ]

  -- Under the same conditions, with the page mode of the instance, vmi_pagetable_lookup_cache
  -- succeeds exactly if there is a translation, then gives it in *paddr, and leaves the cache
  -- coherent.
  pub vmi_pagetable_lookup_cache-trans :
      (pt va paddr : ℕ) (w : W)
      → valid_pm pm ≡ true
      → IsWalk
      → IsGood w
      → (p' : ℕ) × (w' : W) × (vmi_pagetable_lookup_cache space spaces env pm pt va paddr w
          ≡ (status_of (trans pt va), p', w'))
        × ((pa : ℕ) → trans pt va ≡ some pa → p' ≡ pa)
        × IsGood w'
  unfolding vmi_pagetable_lookup_cache store drop_stale
  vmi_pagetable_lookup_cache-trans pt va paddr w valid walk good =
      let ((hit, pa), w₁) = cached space spaces env va pt 0 w in
      let (good₁, answer) = cached_lem va pt w walk good in
      let info : PageInfo = record no_info { vaddr = va; pt = pt; pm = pm } in
      let w₂ = drop_stale space spaces env va pt pa w₁ in
      let (info', w₃, done, right, keeps) = walk.walked pt va info w₂ in
      let good₃ = keeps (drop_lem va pt pa w₁ good₁) in
      elim (Bool-cases hit) [
        | inl kept ↦
            let (a, e, f) = answer kept in
            (a, w₁, ground (arith, valid, kept, e, f), λ b g. ground (arith, f, g), good₁)
        | inr gone ↦ elim (Option-cases (trans pt va)) [
          | inl e ↦ (
            or_old pa 0,
            w₃,
            ground (arith, valid, gone, done, e),
            λ b g. ground (arith, e, g),
            good₃,
          )
          | inr (a, e) ↦ (
            info'.paddr,
            record w₃ { cache = v2p_cache_set space spaces w₃.cache va pt 0 info'.paddr },
            ground (arith, valid, gone, done, e),
            right,
            set-IsCoherent space spaces trans w₃.cache va pt info'.paddr walk.pagewise good₃
                (e ∙ ap some (sym (right a e))),
          )
        ]
      ]
