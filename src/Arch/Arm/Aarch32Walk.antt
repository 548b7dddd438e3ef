-- ===== src/Arch/Arm/Aarch32Walk.antt =====
-- v2p_aarch32 of libvmi/arch/arm_aarch32.c against a walk over short descriptors.
use mathlib.Core.Path.{ap₂}
use libvmi.Common.{
  ℕ, ◌+◌, ◌*◌, ◌/◌, ◌%◌, ◌^◌, bit_and, bit_or, ◌≡◌, ◌≢◌, ◌∙◌, ap, Option, none, some, Option-cases,
  inl, inr, ◌==◌, if◌then◌else◌, arith,
}
use libvmi.Bits.{bit_mask, get_bit, bit_and-field, bit_and-low, bit_or-add}
use libvmi.Types.{PageInfo, Machine, table_context, vmi_read_32}
use libvmi.Arch.Radix.{frame, outcome}
use libvmi.Arch.Intel.Fields.{u32}
use libvmi.Arch.Arm.Aarch32.{
  first_level_table_index, coarse_second_level_table_index, fine_second_level_table_index, join,
  kind, get_first_level_descriptor, get_coarse_second_level_descriptor,
  get_fine_second_level_descriptor, at_coarse, at_section, at_fine, v2p_aarch32,
}

module _ {S : Type 0} (read : ℕ → S → Option ℕ × S) (va : ℕ) where
  -- Second-level tables of 256 entries, and of 1024 entries that may be pages of 1KB.
  unfoldable pub coarse_walk : ℕ → S → Option (ℕ × ℕ) × S
  coarse_walk table s =
      let (entry, s') = read (table / 2 ^ 10 % 2 ^ 22 * 2 ^ 10 + va / 2 ^ 12 % 256 * 4) s in
      elim entry [
        | none ↦ (none, s')
        | some v ↦ (
          if v % 4 == 0
              then none
              else if v % 4 == 1
              then some (frame 32 16 v va, 2 ^ 16)
              else some (frame 32 12 v va, 2 ^ 12),
          s',
        )
      ]

  unfoldable pub fine_walk : ℕ → S → Option (ℕ × ℕ) × S
  fine_walk table s =
      let (entry, s') = read (table / 2 ^ 12 % 2 ^ 20 * 2 ^ 12 + va / 2 ^ 10 % 1024 * 4) s in
      elim entry [
        | none ↦ (none, s')
        | some v ↦ (
          if v % 4 == 0
              then none
              else if v % 4 == 1
              then some (frame 32 16 v va, 2 ^ 16)
              else if v % 4 == 2
              then some (frame 32 12 v va, 2 ^ 12)
              else some (frame 32 10 v va, 2 ^ 10),
          s',
        )
      ]

  -- The first table has 4096 entries: a fault, a coarse table, a section of 1MB or 16MB, a fine table.
  unfoldable pub short_walk : ℕ → S → Option (ℕ × ℕ) × S
  short_walk pt s =
      let (entry, s') = read (pt / 2 ^ 14 % 2 ^ 18 * 2 ^ 14 + va / 2 ^ 20 % 4096 * 4) s in
      elim entry [
        | none ↦ (none, s')
        | some v ↦
            let coarse = coarse_walk v s' in
            let fine = fine_walk v s' in
            if v % 4 == 0
            then (none, s')
            else if v % 4 == 1
            then coarse
            else if v % 4 == 2
            then (
              if get_bit v 18
                  then some (frame 32 24 v va, 2 ^ 24)
                  else some (frame 32 20 v va, 2 ^ 20),
              s',
            )
            else fine
      ]

  -- The descriptors that the walk reads can be read.
  abbrev pub IsReadable : ℕ → S → Type 0
  IsReadable pt s =
      let first = read (pt / 2 ^ 14 % 2 ^ 18 * 2 ^ 14 + va / 2 ^ 20 % 4096 * 4) s in
      (first.0 ≢ none)
      × ((v : ℕ)
          → first.0 ≡ some v
          → v % 4 ≡ 1
          → (read (v / 2 ^ 10 % 2 ^ 22 * 2 ^ 10 + va / 2 ^ 12 % 256 * 4) first.1).0 ≢ none)
      × ((v : ℕ)
          → first.0 ≡ some v
          → v % 4 ≡ 3
          → (read (v / 2 ^ 12 % 2 ^ 20 * 2 ^ 12 + va / 2 ^ 10 % 1024 * 4) first.1).0 ≢ none)

kind_lem : (v : ℕ) → kind v ≡ v % 4
unfolding kind
kind_lem v = bit_and-low 2 v

module _ (va v : ℕ) where
  first_slot :
      bit_or (bit_and (u32 v) (bit_mask 14 31)) (first_level_table_index va * 2 ^ 2)
      ≡ v / 2 ^ 14 % 2 ^ 18 * 2 ^ 14 + va / 2 ^ 20 % 4096 * 4
  unfolding first_level_table_index
  first_slot =
      ap (λ (b : ℕ). bit_or b (u32 va / 2 ^ 20 * 4)) (bit_and-field 18 14 (u32 v))
      ∙ bit_or-add 14 (u32 v / 2 ^ 14 % 2 ^ 18) (u32 va / 2 ^ 20 * 4) (omega arith)
      ∙ omega arith

  coarse_slot :
      bit_or (bit_and v (bit_mask 10 31)) (coarse_second_level_table_index va * 2 ^ 2)
      ≡ v / 2 ^ 10 % 2 ^ 22 * 2 ^ 10 + va / 2 ^ 12 % 256 * 4
  unfolding coarse_second_level_table_index
  coarse_slot =
      ap₂ (λ (b i : ℕ). bit_or b (i * 4)) (bit_and-field 22 10 v) (bit_and-low 8 (u32 va / 2 ^ 12))
      ∙ bit_or-add 10 (v / 2 ^ 10 % 2 ^ 22) (u32 va / 2 ^ 12 % 256 * 4) (omega arith)
      ∙ omega arith

  fine_slot :
      bit_or (bit_and v (bit_mask 12 31)) (fine_second_level_table_index va * 2 ^ 2)
      ≡ v / 2 ^ 12 % 2 ^ 20 * 2 ^ 12 + va / 2 ^ 10 % 1024 * 4
  unfolding fine_second_level_table_index
  fine_slot =
      ap₂ (λ (b i : ℕ). bit_or b (i * 4)) (bit_and-field 20 12 v) (bit_and-low 10 (u32 va / 2 ^ 10))
      ∙ bit_or-add 12 (v / 2 ^ 12 % 2 ^ 20) (u32 va / 2 ^ 10 % 1024 * 4) (omega arith)
      ∙ omega arith

  kb1_frame : join 10 9 v va ≡ frame 32 10 v va
  kb1_frame =
      ap₂ bit_or (bit_and-field 22 10 v) (bit_and-low 10 va)
      ∙ bit_or-add 10 (v / 2 ^ 10 % 2 ^ 22) (va % 2 ^ 10) (omega arith)

  kb4_frame : join 12 11 v va ≡ frame 32 12 v va
  kb4_frame =
      ap₂ bit_or (bit_and-field 20 12 v) (bit_and-low 12 va)
      ∙ bit_or-add 12 (v / 2 ^ 12 % 2 ^ 20) (va % 2 ^ 12) (omega arith)

  kb64_frame : join 16 15 v va ≡ frame 32 16 v va
  kb64_frame =
      ap₂ bit_or (bit_and-field 16 16 v) (bit_and-low 16 va)
      ∙ bit_or-add 16 (v / 2 ^ 16 % 2 ^ 16) (va % 2 ^ 16) (omega arith)

  mb1_frame : join 20 19 v va ≡ frame 32 20 v va
  mb1_frame =
      ap₂ bit_or (bit_and-field 12 20 v) (bit_and-low 20 va)
      ∙ bit_or-add 20 (v / 2 ^ 20 % 2 ^ 12) (va % 2 ^ 20) (omega arith)

  mb16_frame : join 24 23 v va ≡ frame 32 24 v va
  mb16_frame =
      ap₂ bit_or (bit_and-field 8 24 v) (bit_and-low 24 va)
      ∙ bit_or-add 24 (v / 2 ^ 24 % 2 ^ 8) (va % 2 ^ 24) (omega arith)

module _ {S : Type 0} (m : Machine S) (va : ℕ) where
  abbrev read_at : ℕ → S → Option ℕ × S
  read_at addr s = vmi_read_32 m (table_context 0 0 addr) s

  at_coarse-walk :
      (info : PageInfo) (s : S)
      → (read_at (info.arm.fld_value / 2 ^ 10 % 2 ^ 22 * 2 ^ 10 + va / 2 ^ 12 % 256 * 4) s).0 ≢ none
      → outcome (at_coarse m va info s) ≡ coarse_walk read_at va info.arm.fld_value s
  unfolding at_coarse get_coarse_second_level_descriptor coarse_walk outcome
  at_coarse-walk info s readable =
      let t = info.arm.fld_value in
      let here = t / 2 ^ 10 % 2 ^ 22 * 2 ^ 10 + va / 2 ^ 12 % 256 * 4 in
      elim (Option-cases (read_at here s).0) [
        | inl e ↦ absurd (readable e)
        | inr (v, e) ↦ ground (arith, coarse_slot va t, kind_lem v, kb4_frame va v, kb64_frame va v)
      ]

  at_fine-walk :
      (info : PageInfo) (s : S)
      → (read_at (info.arm.fld_value / 2 ^ 12 % 2 ^ 20 * 2 ^ 12 + va / 2 ^ 10 % 1024 * 4) s).0
        ≢ none
      → outcome (at_fine m va info s) ≡ fine_walk read_at va info.arm.fld_value s
  unfolding at_fine get_fine_second_level_descriptor fine_walk outcome
  at_fine-walk info s readable =
      let t = info.arm.fld_value in
      let here = t / 2 ^ 12 % 2 ^ 20 * 2 ^ 12 + va / 2 ^ 10 % 1024 * 4 in
      elim (Option-cases (read_at here s).0) [
        | inl e ↦ absurd (readable e)
        | inr (v, e) ↦
            ground
              (arith, fine_slot va t, kind_lem v, kb1_frame va v, kb4_frame va v, kb64_frame va v)
      ]

-- Where the descriptors that the walk meets can be read, v2p_aarch32 gives what the walk over short descriptors from the table at
-- `pt` gives: the same address and a page size from 1KB to 16MB, or a failure where that has none.
pub v2p_aarch32-eq-short_walk :
    {S : Type 0} (m : Machine S) (pt va : ℕ) (info : PageInfo) (s : S)
    → IsReadable (λ addr s'. vmi_read_32 m (table_context 0 0 addr) s') va pt s
    → outcome (v2p_aarch32 m pt va info s)
      ≡ short_walk (λ addr s'. vmi_read_32 m (table_context 0 0 addr) s') va pt s
unfolding v2p_aarch32 get_first_level_descriptor short_walk at_section outcome
v2p_aarch32-eq-short_walk m pt va info s readable =
    let read = λ (addr : ℕ). vmi_read_32 m (table_context 0 0 addr) s in
    let here = pt / 2 ^ 14 % 2 ^ 18 * 2 ^ 14 + va / 2 ^ 20 % 4096 * 4 in
    elim (Option-cases (read here).0) [
      | inl e ↦ absurd (readable.0 e)
      | inr (v, e) ↦
          let info' : PageInfo = record info {
            arm = record (info.arm) {
              fld_location =
                  bit_or (bit_and (u32 pt) (bit_mask 14 31)) (first_level_table_index va * 2 ^ 2);
              fld_value = v;
            };
          } in
          ground (
            arith,
            first_slot va pt,
            kind_lem v,
            mb1_frame va v,
            mb16_frame va v,
            λ (q : v % 4 ≡ 1). at_coarse-walk m va info' (read here).1 (readable.1 v e q),
            λ (q : v % 4 ≡ 3). at_fine-walk m va info' (read here).1 (readable.2 v e q),
          )
    ]
