-- ===== src/Access/Write/Laws.antt =====
-- vmi_write of libvmi/write.c over memory that translates page by page.
use native.Mathlib.Nat.{mod-lt}
use libvmi.Common.{
  ℕ, zero, suc, ◌+◌, ◌-◌, ◌%◌, ◌^◌, ◌≤◌, ◌<◌, Option, some, ◌≡◌, ◌≢◌, ◌⊎◌, inl, inr, refl, sym, ap,
  ◌∙◌, arith,
}
use libvmi.Types.{success, Conf, AccessContext}
use libvmi.Access.Env.{Env, Start, resolve, part_len}
use libvmi.Access.Paging.{IsPaged, IsMapped, offset_lem, part_len_bounds}
use libvmi.Access.Write.{go, write_start, write_loop, vmi_write}
use libvmi.Access.Window.{window, window_part}

-- A driver that writes what it is told: `view s` is the physical memory in the state `s`, which
-- is one of those of which `IsGood` holds.
pub record IsWritable {S : Type 0} (env : Env S) (IsGood : S → Type 0) (view : S → ℕ → ℕ)
    : Type 0 where
  pub write :
      (paddr : ℕ) (f : ℕ → ℕ) (a n : ℕ) (s : S)
      → IsGood s
      → (s' : S) × (env.write paddr (window f a n) s ≡ (success, s'))
        × ((i : ℕ) → i < n → view s' (paddr + i) ≡ f (a + i))
        × ((p : ℕ) → ((i : ℕ) → i < n → p ≢ paddr + i) → view s' p ≡ view s p)
        × IsGood s'

-- What a write of the bytes `f a`, `f (a + 1)`, ... leaves: they stand at the translations of
-- the addresses from `first`, and every other byte is what it was.
abbrev pub IsStored : (ℕ → ℕ) → (ℕ → ℕ) → ℕ → ℕ → ℕ → (ℕ → ℕ) → (ℕ → ℕ) → Type 0
IsStored f tr first a n before after =
    ((i : ℕ) → a ≤ i → i < a + n → after (tr (first + i)) ≡ f i)
    × ((p : ℕ) → ((i : ℕ) → a ≤ i → i < a + n → p ≢ tr (first + i)) → after p ≡ before p)

lt_or_ge : (a b : ℕ) → (a < b) ⊎ (b ≤ a)
lt_or_ge a b = ground arith

module _ {S : Type 0} (env : Env S) (conf : Conf) (ctx : AccessContext) (start : Start)
    (IsGood : S → Type 0) (f tr : ℕ → ℕ) (view : S → ℕ → ℕ) (total : ℕ) (paged : IsPaged conf)
    (writable : IsWritable env IsGood view)
    (mapped : IsMapped env conf ctx start IsGood tr start.addr total)
    (still : (a : ℕ) (s : S) → view (resolve env conf ctx start a s).1 ≡ view s)
    (apart : (i j : ℕ) → i < total → j < total → tr (start.addr + i) ≡ tr (start.addr + j) → i ≡ j)
    (fits : start.addr + total ≤ 2 ^ 64) (small : total < 2 ^ 63)
    (small_page : conf.page_size < 2 ^ 63) where
  -- One round, and what the rest of the loop leaves.
  stored_lem :
      (at len n m : ℕ) (v₀ v₁ v₂ : ℕ → ℕ)
      → len + n ≡ m
      → at + m ≤ total
      → tr (start.addr + at) % conf.page_size + len ≤ conf.page_size
      → ((i : ℕ) → i < len → v₁ (tr (start.addr + at) + i) ≡ f (at + i))
      → ((p : ℕ) → ((i : ℕ) → i < len → p ≢ tr (start.addr + at) + i) → v₁ p ≡ v₀ p)
      → IsStored f tr start.addr (at + len) n v₁ v₂
      → IsStored f tr start.addr at m v₀ v₂
  stored_lem at len n m v₀ v₁ v₂ parts within page here frame rest = (
    λ i lo hi. elim (lt_or_ge i (at + len)) [
      | inl early ↦
          rest.1 (tr (start.addr + i))
            (λ j le lt e. later i j early le (omega (arith, lt)) (omega (arith, hi)) e)
          ∙ ap v₁ (moved i lo early)
          ∙ here (i - at) (omega (arith, lo, early))
          ∙ ap f (omega (arith, lo))
      | inr late ↦ rest.0 i late (omega (arith, hi))
    ],
    λ p avoid.
        rest.1 p (λ i lo hi. avoid i (omega (arith, lo)) (omega (arith, hi)))
        ∙ frame p
            (λ i lt e. avoid (at + i) (omega arith) (omega (arith, lt)) (e ∙ sym (shifted i lt))),
  )
    where
      shifted : (i : ℕ) → i < len → tr (start.addr + (at + i)) ≡ tr (start.addr + at) + i
      shifted i lt =
          ap tr (omega arith)
          ∙ mapped.contiguous (start.addr + at) i (omega arith) (omega arith) (omega arith)

      moved :
          (i : ℕ) → at ≤ i → i < at + len → tr (start.addr + i) ≡ tr (start.addr + at) + (i - at)
      moved i lo early =
          ap (λ (j : ℕ). tr (start.addr + j)) (omega arith) ∙ shifted (i - at) (omega arith)

      later :
          (i j : ℕ)
          → i < at + len
          → at + len ≤ j
          → j < total
          → i < total
          → tr (start.addr + i) ≢ tr (start.addr + j)
      later i j early late lt lt' e = omega (arith, apart i j lt' lt e)

  view_lem :
      (a : ℕ) (s s₁ : S) (o : Option ℕ)
      → resolve env conf ctx start a s ≡ (o, s₁)
      → view s₁ ≡ view s
  view_lem a s s₁ o e = sym (ap (λ (r : Option ℕ × S). view r.1) e) ∙ still a s

  none-IsStored : (at : ℕ) (s : S) → IsStored f tr start.addr at 0 (view s) (view s)
  none-IsStored at s =
      (λ i lo hi. let bad : ⊥ = omega (arith, lo, hi) in elim bad [ ], λ p avoid. refl)

  write_loop_lem :
      (fuel count at : ℕ) (s : S)
      → count ≤ fuel
      → at + count ≡ total
      → IsGood s
      → (s' : S) × (write_loop env conf ctx fuel start count at (window f 0 total) s
          ≡ (success, total, s'))
        × IsStored f tr start.addr at count (view s) (view s')
        × IsGood s'
  unfolding write_loop
  write_loop_lem zero zero at s enough whole good = (s, ground arith, none-IsStored at s, good)
  write_loop_lem zero (suc count) at s enough whole good = elim enough [ ]
  write_loop_lem (suc fuel) zero at s enough whole good =
      (s, ground arith, none-IsStored at s, good)
  write_loop_lem (suc fuel) (suc c) at s enough whole good =
      let a = start.addr + at in
      let count = suc c in
      let offset = tr a % conf.page_size in
      let len = part_len conf offset count in
      let bounds =
        part_len_bounds conf offset count (mod-lt (tr a) paged.1) (omega arith)
          (omega (arith, mod-lt (tr a) paged.1)) in
      let (s₁, resolved, good₁) = mapped.found a s (omega arith) (omega arith) good in
      let (s₂, written, here, frame, good₂) = writable.write (tr a) f at len s₁ good₁ in
      let (s', rest, stored, good') =
        write_loop_lem fuel (count - len) (at + len) s₂ (omega arith) (omega arith) good₂ in
      let part = window_part f 0 at len total (omega arith) in
      let same = view_lem a s s₁ (some (tr a)) resolved in
      (
        s',
        ground (arith, resolved, offset_lem conf paged (tr a), part, written, rest),
        stored_lem at len (count - len) count (view s) (view s₂) (view s') (omega arith)
            (omega arith) (omega arith) here
            (λ p avoid. frame p avoid ∙ ap (λ (v : ℕ → ℕ). v p) same) stored,
        good',
      )

  -- vmi_write returns success and the number of the bytes, and afterwards each of the `total` bytes
  -- stands in physical memory at the translation of its address, and no other byte of it has changed.
  -- This is when the context gives the start, the pages have 2 ^ page_shift bytes, each address of
  -- the range has a translation that is contiguous within a page, no two have the same one, a
  -- translation leaves memory as it is, and the driver writes what it is told. The range does not
  -- wrap around, and it and the page size are under 2 ^ 63. `IsGood` may say what holds of the
  -- states in which this is so.
  pub vmi_write-stored :
      (s s₁ : S)
      → write_start env conf ctx s ≡ (go start, s₁)
      → IsGood s₁
      → (s' : S) × (vmi_write env conf ctx total (window f 0 total) s ≡ (success, some total, s'))
        × ((i : ℕ) → i < total → view s' (tr (start.addr + i)) ≡ f i)
        × ((p : ℕ) → ((i : ℕ) → i < total → p ≢ tr (start.addr + i)) → view s' p ≡ view s₁ p)
        × IsGood s'
  unfolding vmi_write
  vmi_write-stored s s₁ started good =
      let (s', loop, stored, good') =
        write_loop_lem total total 0 s₁ (omega arith) (omega arith) good in
      (
        s',
        ground (arith, started, loop),
        λ i lt. stored.0 i (omega arith) (omega (arith, lt)),
        λ p avoid. stored.1 p (λ i lo hi. avoid i (omega (arith, hi))),
        good',
      )
