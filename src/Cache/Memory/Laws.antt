-- ===== src/Cache/Memory/Laws.antt =====
-- libvmi/driver/memory_cache.c: what holds of the page cache, and what it gives.
use mathlib.Core.Option.{some-injective}
use mathlib.Core.Path.{subst}
use libvmi.Common.{
  ℕ, zero, suc, ◌/◌, ◌≤◌, Bool, true, false, ◌||◌, ◌==◌, ltb, List, [], ◌∷◌, length, Option, some,
  Bool-cases, if_elim, inl, inr, ◌≡◌, ap, refl, arith,
}
use libvmi.Cache.Table.{GHashTable}
use libvmi.Cache.Memory.{
  MemoryCacheEntry, MemoryConf, Callbacks, pop_tail, unlink, MemoryCache, memory_cache_entry_free,
  clean_loop,
}

-- Whether a queue has a link for a key.
unfoldable pub has : ℕ → List ℕ → Bool
has p [] = false
has p (x ∷ xs) = (x == p) || has p xs

length-pop_tail : (x : ℕ) (xs : List ℕ) → length (pop_tail x xs).1 ≡ length xs
unfolding pop_tail
length-pop_tail x [] = refl
length-pop_tail x (y ∷ ys) = ap suc (length-pop_tail y ys)

has-pop_tail :
    (p x : ℕ) (xs : List ℕ) → has p (x ∷ xs) ≡ (((pop_tail x xs).0 == p) || has p (pop_tail x xs).1)
unfolding pop_tail has
has-pop_tail p x [] = refl
has-pop_tail p x (y ∷ ys) = ground (arith, has-pop_tail p y ys)

-- A link that is there can be taken out, and then only that one is missing.
pub has-unlink :
    (p : ℕ) (xs : List ℕ)
    → has p xs ≡ true
    → (rest : List ℕ) × (unlink p xs ≡ some rest)
      × (length xs ≡ suc (length rest))
      × ((q : ℕ) → has q xs ≡ true → has q (p ∷ rest) ≡ true)
unfolding has unlink
has-unlink p [] h = ground arith
has-unlink p (x ∷ xs) h = elim (Bool-cases (x == p)) [
  | inl e ↦ (xs, ground arith, ground arith, λ q hq. ground arith)
  | inr e ↦
      let (rest, found, size, kept) = has-unlink p xs (ground arith) in
      (x ∷ rest, ground arith, ap suc size, λ q hq. ground (arith, kept q))
]

==_sound : (a b : ℕ) → (a == b) ≡ true → a ≡ b
==_sound a b e = ground arith

module _ (t : GHashTable ℕ MemoryCacheEntry ◌==◌) {S : Type 0} (callbacks : Callbacks S)
    (conf : MemoryConf) (mem : ℕ → Option (List ℕ)) where
  -- An entry of the table has a link in the queue, and holds the page whose key it has.
  pub record IsKept (lru : List ℕ) (p : ℕ) (e : MemoryCacheEntry) : Type 0 where
    pub linked : has p lru ≡ true
    pub keyed : e.paddr ≡ p
    pub sized : e.length ≡ conf.page_size
    pub faithful : e.page ≡ mem p

  abbrev pub IsTracked : t.Table → List ℕ → Type 0
  IsTracked table lru = (p : ℕ) (e : MemoryCacheEntry) → t.lookup table p ≡ some e → IsKept lru p e

  -- Every entry of the table is tracked, and the queue has a bounded length.
  pub record IsValid (c : MemoryCache t) : Type 0 where
    pub tracked : IsTracked c.table c.lru
    pub bounded : length c.lru ≤ conf.size_max

  -- An entry that is still kept when links go.
  pub moved :
      (lru lru' : List ℕ) (p : ℕ) (e : MemoryCacheEntry)
      → IsKept lru p e
      → has p lru' ≡ true
      → IsKept lru' p e
  moved lru lru' p e kept linked = record {
    linked = linked;
    keyed = kept.keyed;
    sized = kept.sized;
    faithful = kept.faithful;
  }

  pub remove-IsTracked :
      (table : t.Table) (lru rest : List ℕ) (k : ℕ)
      → IsTracked table lru
      → ((p : ℕ) → (k == p) ≡ false → has p lru ≡ true → has p rest ≡ true)
      → IsTracked (t.remove table k).1 rest
  remove-IsTracked table lru rest k tracked keep p e found = elim (Bool-cases (k == p)) [
    | inl at ↦ let bad : ⊥ = ground (arith, t.lookup-remove table k p) in elim bad [ ]
    | inr other ↦
        let kept = tracked p e (ground (arith, t.lookup-remove table k p)) in
        moved lru rest p e kept (keep p other kept.linked)
  ]

  pub insert-IsTracked :
      (table : t.Table) (lru lru' : List ℕ) (k : ℕ) (new : MemoryCacheEntry)
      → IsTracked table lru
      → IsKept lru' k new
      → ((p : ℕ) → has p lru ≡ true → has p lru' ≡ true)
      → IsTracked (t.insert table k new) lru'
  insert-IsTracked table lru lru' k new tracked kept keep p e found = elim (Bool-cases (k == p)) [
    | inl at ↦
        let here : IsKept lru' p new =
          subst (λ (q : ℕ). IsKept lru' q new) (==_sound k p at) kept in
        subst (IsKept lru' p) (some-injective new e (ground (arith, t.lookup-insert table k new p)))
          here
    | inr other ↦
        let old = tracked p e (ground (arith, t.lookup-insert table k new p)) in
        moved lru lru' p e old (keep p old.linked)
  ]

  pub clean_loop_lem :
      (fuel : ℕ) (table : t.Table) (lru : List ℕ) (s : S)
      → length lru ≤ fuel
      → IsTracked table lru
      → let c = (clean_loop t callbacks conf fuel table lru s).0 in
        IsTracked c.table c.lru × (length c.lru ≤ conf.size_max / 2)
  unfolding clean_loop
  clean_loop_lem zero table [] s enough tracked = (tracked, omega arith)
  clean_loop_lem zero table (x ∷ xs) s enough tracked = elim enough [ ]
  clean_loop_lem (suc fuel) table [] s enough tracked = (tracked, omega arith)
  clean_loop_lem (suc fuel) table (x ∷ xs) s enough tracked =
      let (last, rest) = pop_tail x xs in
      if_elim
        (λ (r : MemoryCache t × S).
          IsTracked r.0.table r.0.lru × (length r.0.lru ≤ conf.size_max / 2))
        (ltb (conf.size_max / 2) (length (x ∷ xs)))
        (clean_loop t callbacks conf fuel (t.remove table last).1 rest
          (memory_cache_entry_free t callbacks conf (t.lookup table last) s))
        (record { table = table; lru = x ∷ xs }, s)
        (λ full.
          clean_loop_lem fuel (t.remove table last).1 rest
            (memory_cache_entry_free t callbacks conf (t.lookup table last) s)
            (omega (arith, length-pop_tail x xs, enough))
            (remove-IsTracked table (x ∷ xs) rest last tracked
              (λ p other linked. ground (arith, has-pop_tail p x xs))))
        (λ small. (tracked, ground arith))
