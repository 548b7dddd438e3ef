-- ===== src/Cache/Memory/Insert.antt =====
-- memory_cache_insert of libvmi/driver/memory_cache.c.
use mathlib.Core.Path.{ap₂}
use libvmi.Common.{
  ℕ, ◌-◌, ◌<◌, true, not, ◌&&◌, ◌||◌, ◌==◌, ltb, leb, List, ◌∷◌, length, Option, none, some,
  Option-cases, Bool-cases, if_elim, inl, inr, if◌then◌else◌, ◌≡◌, ap, ◌∙◌, refl, arith,
}
use libvmi.Cache.Table.{GHashTable, is_some}
use libvmi.Cache.Memory.{
  MemoryCacheEntry, MemoryConf, Callbacks, in_range, MemoryCache, unlink, clean_cache,
  validate_and_return_data, create_new_entry, is_aligned, memory_cache_insert,
}
use libvmi.Cache.Memory.Laws.{
  has, has-unlink, IsKept, IsTracked, IsValid, insert-IsTracked, clean_loop_lem,
}

first : (p : ℕ) (xs : List ℕ) → has p (p ∷ xs) ≡ true
unfolding has
first p xs = ground arith

later : (x p : ℕ) (xs : List ℕ) → has p xs ≡ true → has p (x ∷ xs) ≡ true
unfolding has
later x p xs h = ground arith

module _ (t : GHashTable ℕ MemoryCacheEntry ◌==◌) {S : Type 0} (callbacks : Callbacks S)
    (conf : MemoryConf) (mem : ℕ → Option (List ℕ))
    (stable : (p : ℕ) (s : S) → (callbacks.get_data p conf.page_size s).0 ≡ mem p) where
  abbrev Answer : Type 0
  Answer = Option (Option (List ℕ) × MemoryCache t × S)

  -- The answer is `page`, and the cache stays valid.
  abbrev IsAnswer : Option (List ℕ) → Answer → Type 0
  IsAnswer page r =
      (c : MemoryCache t) × (s : S) × (r ≡ some (page, c, s)) × IsValid t callbacks conf mem c

  refresh_lem :
      (now p : ℕ) (c : MemoryCache t) (e : MemoryCacheEntry) (s : S)
      → IsValid t callbacks conf mem c
      → IsKept t callbacks conf mem c.lru p e
      → let (page, s') = callbacks.get_data e.paddr e.length s in
        let fresh : MemoryCacheEntry = record e {
          page = page;
          last_updated = now;
          last_used = now;
        } in
        IsAnswer (mem p) (elim (unlink e.paddr c.lru) [
          | none ↦ none
          | some rest ↦
              some (page, record { table = t.insert c.table p fresh; lru = e.paddr ∷ rest }, s')
        ])
  refresh_lem now p c e s valid kept =
      let (page, s') = callbacks.get_data e.paddr e.length s in
      let fresh : MemoryCacheEntry = record e {
        page = page;
        last_updated = now;
        last_used = now;
      } in
      let linked = ap (λ (q : ℕ). has q c.lru) kept.keyed ∙ kept.linked in
      let (rest, found, size, keep) = has-unlink e.paddr c.lru linked in
      let right =
        ap₂ (λ (q n : ℕ). (callbacks.get_data q n s).0) kept.keyed kept.sized ∙ stable p s in
      (
        record { table = t.insert c.table p fresh; lru = e.paddr ∷ rest },
        s',
        ground (arith, found, right),
        record {
          tracked =
              insert-IsTracked t callbacks conf mem c.table c.lru (e.paddr ∷ rest) p fresh
                valid.tracked
                (record {
                  linked = keep p kept.linked;
                  keyed = kept.keyed;
                  sized = kept.sized;
                  faithful = right;
                })
                keep;
          bounded = omega (arith, size, valid.bounded);
        },
      )

  validate_lem :
      (now p : ℕ) (c : MemoryCache t) (e : MemoryCacheEntry) (s : S)
      → IsValid t callbacks conf mem c
      → IsKept t callbacks conf mem c.lru p e
      → IsAnswer (mem p) (validate_and_return_data t callbacks conf now c p e s)
  unfolding validate_and_return_data
  validate_lem now p c e s valid kept =
      let s₁ = callbacks.release_data e.page e.length s in
      let (page, s₂) = callbacks.get_data e.paddr e.length s₁ in
      let fresh : MemoryCacheEntry = record e {
        page = page;
        last_updated = now;
        last_used = now;
      } in
      let used : MemoryCacheEntry = record e { last_used = now } in
      if_elim (IsAnswer (mem p)) (not (conf.age == 0) && ltb conf.age (now - e.last_updated))
        (elim (unlink e.paddr c.lru) [
          | none ↦ none
          | some rest ↦
              some (page, record { table = t.insert c.table p fresh; lru = e.paddr ∷ rest }, s₂)
        ])
        (some (e.page, record c { table = t.insert c.table p used }, s))
        (λ old. refresh_lem now p c e s₁ valid kept)
        (λ young. (
          record c { table = t.insert c.table p used },
          s,
          ap (λ (d : Option (List ℕ)). some (d, record c { table = t.insert c.table p used }, s))
              kept.faithful,
          record {
            tracked =
                insert-IsTracked t callbacks conf mem c.table c.lru c.lru p used valid.tracked
                  (record {
                    linked = kept.linked;
                    keyed = kept.keyed;
                    sized = kept.sized;
                    faithful = kept.faithful;
                  })
                  (λ q h. h);
            bounded = valid.bounded;
          },
        ))

  -- Before a new entry is put in there is room for it.
  room_lem :
      (c : MemoryCache t) (s : S)
      → 0 < conf.size_max
      → IsValid t callbacks conf mem c
      → let c' =
          (if leb conf.size_max (length c.lru)
            then clean_cache t callbacks conf c s
            else (c, s)).0 in
        IsTracked t callbacks conf mem c'.table c'.lru × (length c'.lru < conf.size_max)
  unfolding clean_cache
  room_lem c s pos valid =
      if_elim
        (λ (r : MemoryCache t × S).
          IsTracked t callbacks conf mem r.0.table r.0.lru × (length r.0.lru < conf.size_max))
        (leb conf.size_max (length c.lru)) (clean_cache t callbacks conf c s) (c, s)
        (λ full.
          let (tracked, half) =
            clean_loop_lem t callbacks conf mem (length c.lru) c.table c.lru s (omega arith)
              valid.tracked in
          (tracked, omega (arith, half)))
        (λ small. (valid.tracked, ground arith))

  miss_lem :
      (now p : ℕ) (c : MemoryCache t) (s : S)
      → IsTracked t callbacks conf mem c.table c.lru
      → length c.lru < conf.size_max
      → let (created, s') = create_new_entry t callbacks conf now p conf.page_size s in
        IsAnswer (if in_range conf p conf.page_size then mem p else none) (elim created [
          | none ↦ some (none, c, s')
          | some e ↦ some (e.page, record { table = t.insert c.table p e; lru = p ∷ c.lru }, s')
        ])
  unfolding create_new_entry
  miss_lem now p c s tracked room =
      let (page, s') = callbacks.get_data p conf.page_size s in
      let e : MemoryCacheEntry = record {
        paddr = p;
        length = conf.page_size;
        last_updated = now;
        last_used = now;
        page = page;
      } in
      elim (Bool-cases (in_range conf p conf.page_size)) [
        | inl inside ↦ (
          record { table = t.insert c.table p e; lru = p ∷ c.lru },
          s',
          ground (arith, inside, stable p s),
          record {
            tracked =
                insert-IsTracked t callbacks conf mem c.table c.lru (p ∷ c.lru) p e tracked
                  (record {
                    linked = first p c.lru;
                    keyed = refl;
                    sized = refl;
                    faithful = stable p s;
                  })
                  (λ q h. later p q c.lru h);
            bounded = room;
          },
        )
        | inr outside ↦ (
          c,
          s,
          ground (arith, outside),
          record { tracked = tracked; bounded = omega (arith, room) },
        )
      ]

  -- For a page cache that may hold at least one page, and a driver that gives the page `mem p` for
  -- each address `p` whatever its state: from a valid cache, memory_cache_insert never asks for a
  -- link that the queue does not have; it gives that page for an aligned address that is cached or
  -- in range, and NULL for any other; and the cache it leaves is valid: each of its entries holds
  -- the page of its key and has a link in the queue, which is no longer than the maximum.
  pub memory_cache_insert-IsValid :
      (now p : ℕ) (c : MemoryCache t) (s : S)
      → 0 < conf.size_max
      → IsValid t callbacks conf mem c
      → (c' : MemoryCache t) × (s' : S) × (memory_cache_insert t callbacks conf now c p s
          ≡ some (
            (if is_aligned t callbacks conf p
                  && (is_some (t.lookup c.table p) || in_range conf p conf.page_size)
                then mem p
                else none),
            c',
            s',
          ))
        × IsValid t callbacks conf mem c'
  unfolding memory_cache_insert
  memory_cache_insert-IsValid now p c s pos valid =
      let (c₁, s₁) =
        if leb conf.size_max (length c.lru) then clean_cache t callbacks conf c s else (c, s) in
      elim (Bool-cases (is_aligned t callbacks conf p)) [
        | inr odd ↦ (c, s, ground (arith, odd), valid)
        | inl aligned ↦ elim (Option-cases (t.lookup c.table p)) [
          | inl missing ↦
              let (tracked, room) = room_lem c s pos valid in
              let (c', s', answer, valid') = miss_lem now p c₁ s₁ tracked room in
              (c', s', ground (arith, aligned, missing, answer), valid')
          | inr (e, found) ↦
              let (c', s', answer, valid') =
                validate_lem now p c e s valid (valid.tracked p e found) in
              (c', s', ground (arith, aligned, found, answer), valid')
        ]
      ]
