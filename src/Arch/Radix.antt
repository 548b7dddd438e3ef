-- ===== src/Arch/Radix.antt =====
-- What a radix page walk is, in plain arithmetic: an independent description of the lookups of
-- libvmi/arch. It knows nothing of masks, of page_info_t, or of the order of the assignments.
use libvmi.Common.{
  ℕ, zero, suc, ◌+◌, ◌-◌, ◌*◌, ◌/◌, ◌%◌, ◌^◌, Bool, Option, none, some, if◌then◌else◌,
}
use libvmi.Common.{◌≡◌, ◌≢◌, true, false, arith}
use libvmi.Types.{Status, success, failure, PageInfo}

-- The address that a page of 2 ^ shift bytes gives to `va`, when the entry's address bits end
-- below bit `width`.
abbrev pub frame : ℕ → ℕ → ℕ → ℕ → ℕ
frame width shift entry va = entry / 2 ^ shift % 2 ^ (width - shift) * 2 ^ shift + va % 2 ^ shift

-- The table that an entry points to.
abbrev pub base : ℕ → ℕ → ℕ
base width entry = entry / 2 ^ 12 % 2 ^ (width - 12) * 2 ^ 12

-- The entries and page sizes of a walk: `shift l` is the number of address bits below level `l`,
-- whose table has 2 ^ index_bits entries of `entry_size` bytes, and `leaf l v` says that the entry
-- `v` maps a page at level `l`. Level 0 always does. `present l v` says that `v` counts at level `l`. Addresses of tables have `table_width` bits,
-- and those of a page at level `l` have `page_width l`.
pub record Format : Type 0 where
  pub table_width : ℕ
  pub page_width : ℕ → ℕ
  pub index_bits : ℕ
  pub entry_size : ℕ
  pub shift : ℕ → ℕ
  pub present : ℕ → ℕ → Bool
  pub leaf : ℕ → ℕ → Bool

-- Where the entry for `va` lies in a table of a level.
abbrev pub slot : Format → ℕ → ℕ → ℕ → ℕ
slot f level table va = table + va / 2 ^ f.shift level % 2 ^ f.index_bits * f.entry_size

module _ {S : Type 0} (f : Format) (read : ℕ → S → Option ℕ × S) where
  -- The physical address and the page size, or nothing.
  unfoldable pub radix_walk : ℕ → ℕ → ℕ → S → Option (ℕ × ℕ) × S
  radix_walk zero table va s =
      let (entry, s') = read (slot f 0 table va) s in
      elim entry [
        | none ↦ (none, s')
        | some v ↦ (
          if f.present 0 v
              then some (frame (f.page_width 0) (f.shift 0) v va, 2 ^ f.shift 0)
              else none,
          s',
        )
      ]
  radix_walk (suc l) table va s =
      let (entry, s') = read (slot f (suc l) table va) s in
      elim entry [
        | none ↦ (none, s')
        | some v ↦
            let below = radix_walk l (base f.table_width v) va s' in
            if f.present (suc l) v
            then (if f.leaf (suc l) v
                then (
                  some (frame (f.page_width (suc l)) (f.shift (suc l)) v va, 2 ^ f.shift (suc l)),
                  s',
                )
                else below)
            else (none, s')
      ]

  -- The entries that the walk reads can be read.
  abbrev pub IsReadable : ℕ → ℕ → ℕ → S → Type 0
  IsReadable zero table va s = (read (slot f 0 table va) s).0 ≢ none
  IsReadable (suc l) table va s =
      ((read (slot f (suc l) table va) s).0 ≢ none)
      × ((v : ℕ)
          → (read (slot f (suc l) table va) s).0 ≡ some v
          → f.present (suc l) v ≡ true
          → f.leaf (suc l) v ≡ false
          → IsReadable l (base f.table_width v) va (read (slot f (suc l) table va) s).1)

  -- One level of the walk, where its entry is `v`.
  pub radix_walk_level :
      (l table va : ℕ) (s : S) (v : ℕ)
      → (read (slot f (suc l) table va) s).0 ≡ some v
      → let s' = (read (slot f (suc l) table va) s).1 in
        radix_walk (suc l) table va s ≡ (
          if f.present (suc l) v
          then (if f.leaf (suc l) v
              then (
                some (frame (f.page_width (suc l)) (f.shift (suc l)) v va, 2 ^ f.shift (suc l)),
                s',
              )
              else radix_walk l (base f.table_width v) va s')
          else (none, s'))
  unfolding radix_walk
  radix_walk_level l table va s v e = ground arith

-- The answer that a lookup's status and page_info_t stand for.
unfoldable pub outcome {ℓ} : {S : Type ℓ} → Status × PageInfo × S → Option (ℕ × ℕ) × S
outcome (success, info, s) = (some (info.paddr, info.size), s)
outcome (failure, info, s) = (none, s)
