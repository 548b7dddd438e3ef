-- ===== src/Cache/Memory/Remove.antt =====
-- memory_cache_remove, memory_cache_flush and the age of a page: libvmi/driver/memory_cache.c.
use libvmi.Common.{
  ℕ, ◌-◌, ◌≤◌, not, ◌&&◌, ◌==◌, ltb, leb, List, ◌∷◌, length, Option, none, some, Option-cases,
  Bool-cases, if_elim, inl, inr, if◌then◌else◌, ◌≡◌, ◌≢◌, arith, ==_refl,
}
use libvmi.Cache.Table.{GHashTable}
use libvmi.Cache.Memory.{
  MemoryCacheEntry, MemoryConf, Callbacks, in_range, MemoryCache, memory_cache_entry_free, unlink,
  clean_cache, validate_and_return_data, create_new_entry, is_aligned, memory_cache_insert,
  memory_cache_remove,
}
use libvmi.Cache.Memory.Laws.{IsValid, remove-IsTracked}

module _ (t : GHashTable ℕ MemoryCacheEntry ◌==◌) {S : Type 0} (callbacks : Callbacks S)
    (conf : MemoryConf) where
  -- memory_cache_remove keeps a cache valid; an aligned address is not in the table afterwards, and
  -- every other address has the entry that it had.
  pub memory_cache_remove-IsValid :
      (mem : ℕ → Option (List ℕ)) (c : MemoryCache t) (p : ℕ) (s : S)
      → IsValid t callbacks conf mem c
      → let c' = (memory_cache_remove t callbacks conf c p s).0 in
        IsValid t callbacks conf mem c'
        × ((q : ℕ)
            → t.lookup c'.table q
              ≡ (if is_aligned t callbacks conf p && p == q then none else t.lookup c.table q))
  unfolding memory_cache_remove
  memory_cache_remove-IsValid mem c p s valid =
      if_elim
        (λ (r : MemoryCache t × S).
          IsValid t callbacks conf mem r.0
          × ((q : ℕ)
              → t.lookup r.0.table q
                ≡ (if is_aligned t callbacks conf p && p == q then none else t.lookup c.table q)))
        (is_aligned t callbacks conf p)
        (
          record c { table = (t.remove c.table p).1 },
          memory_cache_entry_free t callbacks conf (t.lookup c.table p) s,
        )
        (c, s)
        (λ aligned. (
          record {
            tracked =
                remove-IsTracked t callbacks conf mem c.table c.lru c.lru p valid.tracked
                  (λ q other linked. linked);
            bounded = valid.bounded;
          },
          λ q. ground (arith, aligned, t.lookup-remove c.table p q),
        ))
        (λ odd. (valid, λ q. ground (arith, odd)))

  module _ (now p : ℕ) (limited : conf.age ≢ 0) where
    -- The entry of a page that an answer gives is as young as the limit asks.
    abbrev IsYoung : Option (Option (List ℕ) × MemoryCache t × S) → Type 0
    IsYoung r =
        (page : List ℕ) (c' : MemoryCache t) (s' : S) (e : MemoryCacheEntry)
        → r ≡ some (some page, c', s')
        → t.lookup c'.table p ≡ some e
        → now - e.last_updated ≤ conf.age

    put-IsYoung :
        (page : Option (List ℕ)) (table : t.Table) (lru : List ℕ) (s : S) (new : MemoryCacheEntry)
        → now - new.last_updated ≤ conf.age
        → IsYoung (some (page, record { table = t.insert table p new; lru = lru }, s))
    put-IsYoung page table lru s new young page' c' s' e done found =
        ground (arith, done, found, t.lookup-insert table p new p, ==_refl p)

    same_time : now - now ≤ conf.age
    same_time = omega arith

    validate-IsYoung :
        (c : MemoryCache t) (e : MemoryCacheEntry) (s : S)
        → IsYoung (validate_and_return_data t callbacks conf now c p e s)
    unfolding validate_and_return_data
    validate-IsYoung c e s =
        let s₁ = callbacks.release_data e.page e.length s in
        let (page, s₂) = callbacks.get_data e.paddr e.length s₁ in
        let fresh : MemoryCacheEntry = record e {
          page = page;
          last_updated = now;
          last_used = now;
        } in
        let used : MemoryCacheEntry = record e { last_used = now } in
        if_elim IsYoung (not (conf.age == 0) && ltb conf.age (now - e.last_updated))
          (elim (unlink e.paddr c.lru) [
            | none ↦ none
            | some rest ↦
                some (page, record { table = t.insert c.table p fresh; lru = e.paddr ∷ rest }, s₂)
          ])
          (some (e.page, record c { table = t.insert c.table p used }, s))
          (λ old.
            elim (unlink e.paddr c.lru)
              as (λ links. IsYoung (elim links [
                | none ↦ none
                | some rest ↦
                    some
                      (page, record { table = t.insert c.table p fresh; lru = e.paddr ∷ rest }, s₂)
              ])) [
                | none ↦ λ page' c' s' e' done found. ground (arith, done)
                | some rest ↦ put-IsYoung page c.table (e.paddr ∷ rest) s₂ fresh same_time
              ])
          (λ young. put-IsYoung e.page c.table c.lru s used (ground (arith, young, limited)))

    create-IsYoung :
        (c : MemoryCache t) (s : S)
        → let (created, s') = create_new_entry t callbacks conf now p conf.page_size s in
          IsYoung (elim created [
            | none ↦ some (none, c, s')
            | some e ↦ some (e.page, record { table = t.insert c.table p e; lru = p ∷ c.lru }, s')
          ])
    unfolding create_new_entry
    create-IsYoung c s =
        let (page, s') = callbacks.get_data p conf.page_size s in
        let e : MemoryCacheEntry = record {
          paddr = p;
          length = conf.page_size;
          last_updated = now;
          last_used = now;
          page = page;
        } in
        elim (Bool-cases (in_range conf p conf.page_size)) [
          | inl inside ↦ λ page' c' s' e' done found.
              put-IsYoung page c.table (p ∷ c.lru) (callbacks.get_data p conf.page_size s).1 e
                same_time page' c' s' e' (ground (arith, inside, done)) found
          | inr outside ↦ λ page' c' s' e' done found. ground (arith, outside, done)
        ]

    -- With an age limit, the page that memory_cache_insert gives was fetched from the driver no
    -- longer ago than the limit: so says the entry that the cache then has for the address.
    pub memory_cache_insert_age :
        (c c' : MemoryCache t) (s s' : S) (page : List ℕ) (e : MemoryCacheEntry)
        → memory_cache_insert t callbacks conf now c p s ≡ some (some page, c', s')
        → t.lookup c'.table p ≡ some e
        → now - e.last_updated ≤ conf.age
    unfolding memory_cache_insert
    memory_cache_insert_age c c' s s' page e done found =
        let (c₁, s₁) =
          if leb conf.size_max (length c.lru) then clean_cache t callbacks conf c s else (c, s) in
        elim (Bool-cases (is_aligned t callbacks conf p)) [
          | inr odd ↦ ground (arith, odd, done)
          | inl aligned ↦ elim (Option-cases (t.lookup c.table p)) [
            | inl missing ↦
                create-IsYoung c₁ s₁ page c' s' e (ground (arith, aligned, missing, done)) found
            | inr (old, present) ↦
                validate-IsYoung c old s page c' s' e (ground (arith, aligned, present, done)) found
          ]
        ]
