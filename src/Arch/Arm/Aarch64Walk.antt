-- ===== src/Arch/Arm/Aarch64Walk.antt =====
-- v2p_aarch64 of libvmi/arch/arm_aarch64.c with a granule of 4KB against the radix walk.
use mathlib.Core.Path.{ap₂, subst}
use libvmi.Common.{
  ℕ, ◌+◌, ◌*◌, ◌/◌, ◌%◌, ◌^◌, ◌-◌, bit_and, bit_or, ◌≡◌, ◌∙◌, sym, ap, Option, Bool-cases,
  Option-cases, inl, inr, true, false, ◌==◌, ◌||◌, if◌then◌else◌, arith,
}
use libvmi.Bits.{bit_mask, bit_and-field, bit_and-low, bit_or-add}
use libvmi.PageSize
use libvmi.Types.{Conf, PageInfo, Machine, table_context, vmi_read_64}
use libvmi.Arch.Radix.{Format, frame, base, radix_walk, radix_walk_level, IsReadable, outcome}
use libvmi.Arch.Steps.{◌>>◌}
use libvmi.Arch.Arm.Aarch64.{
  kind, join, page, zero_level_4kb_table_index, first_level_4kb_table_index,
  second_level_4kb_table_index, third_level_4kb_table_index, get_third_level_4kb_descriptor,
  second_4kb, first_4kb, zero_4kb, v2p_aarch64,
}

kind_lem : (v : ℕ) → kind v ≡ v % 4
unfolding kind
kind_lem v = bit_and-low 2 v

join_slot :
    (t i : ℕ) → bit_or (bit_and t (bit_mask 12 47)) (i % 512 * 2 ^ 3) ≡ base 48 t + i % 512 * 8
join_slot t i =
    ap (λ (b : ℕ). bit_or b (i % 512 * 8)) (bit_and-field 36 12 t)
    ∙ bit_or-add 12 (t / 4096 % 2 ^ 36) (i % 512 * 8) (omega arith)

base_twice : (v : ℕ) → base 48 (bit_and v (bit_mask 12 47)) ≡ base 48 v
base_twice v = omega (arith, bit_and-field 36 12 v)

module _ (va v : ℕ) where
  zero_slot :
      bit_or (bit_and v (bit_mask 12 47)) (zero_level_4kb_table_index va * 2 ^ 3)
      ≡ base 48 v + va / 2 ^ 39 % 512 * 8
  unfolding zero_level_4kb_table_index
  zero_slot =
      ap (λ (i : ℕ). bit_or (bit_and v (bit_mask 12 47)) (i * 8)) (bit_and-low 9 (va / 2 ^ 39))
      ∙ join_slot v (va / 2 ^ 39)

  first_slot :
      bit_or (bit_and v (bit_mask 12 47)) (first_level_4kb_table_index va * 2 ^ 3)
      ≡ base 48 v + va / 2 ^ 30 % 512 * 8
  unfolding first_level_4kb_table_index
  first_slot =
      ap (λ (i : ℕ). bit_or (bit_and v (bit_mask 12 47)) (i * 8)) (bit_and-low 9 (va / 2 ^ 30))
      ∙ join_slot v (va / 2 ^ 30)

  second_slot :
      bit_or (bit_and v (bit_mask 12 47)) (second_level_4kb_table_index va * 2 ^ 3)
      ≡ base 48 v + va / 2 ^ 21 % 512 * 8
  unfolding second_level_4kb_table_index
  second_slot =
      ap (λ (i : ℕ). bit_or (bit_and v (bit_mask 12 47)) (i * 8)) (bit_and-low 9 (va / 2 ^ 21))
      ∙ join_slot v (va / 2 ^ 21)

  third_slot :
      bit_or (bit_and v (bit_mask 12 47)) (third_level_4kb_table_index va * 2 ^ 3)
      ≡ base 48 v + va / 2 ^ 12 % 512 * 8
  unfolding third_level_4kb_table_index
  third_slot =
      ap (λ (i : ℕ). bit_or (bit_and v (bit_mask 12 47)) (i * 8)) (bit_and-low 9 (va / 2 ^ 12))
      ∙ join_slot v (va / 2 ^ 12)

  kb4_frame : join 12 11 v va ≡ frame 48 12 v va
  kb4_frame =
      ap₂ bit_or (bit_and-field 36 12 v) (bit_and-low 12 va)
      ∙ bit_or-add 12 (v / 2 ^ 12 % 2 ^ 36) (va % 2 ^ 12) (omega arith)

  mb2_frame : join 21 20 v va ≡ frame 48 21 v va
  mb2_frame =
      ap₂ bit_or (bit_and-field 27 21 v) (bit_and-low 21 va)
      ∙ bit_or-add 21 (v / 2 ^ 21 % 2 ^ 27) (va % 2 ^ 21) (omega arith)

  gb1_frame : join 30 29 v va ≡ frame 48 30 v va
  gb1_frame =
      ap₂ bit_or (bit_and-field 18 30 v) (bit_and-low 30 va)
      ∙ bit_or-add 30 (v / 2 ^ 30 % 2 ^ 18) (va % 2 ^ 30) (omega arith)

-- 48 address bits and 512 descriptors of eight bytes at each level. A descriptor of kind 3 is a
-- table and one of kind 1 a block, which level 3 does not have; at level 0 any descriptor counts.
unfoldable pub granule_4kb : Format
granule_4kb = record {
  table_width = 48;
  page_width = λ level. 48;
  index_bits = 9;
  entry_size = 8;
  shift = λ level. 12 + 9 * level;
  present = λ level v.
      if level == 0 then true else if level == 3 then v % 4 == 3 else v % 4 == 3 || v % 4 == 1;
  leaf = λ level v. v % 4 == 1;
}

module _ {S : Type 0} (m : Machine S) (va : ℕ) where
  abbrev read_at : ℕ → S → Option ℕ × S
  read_at addr s = vmi_read_64 m (table_context 0 0 addr) s

  third-walk :
      (info : PageInfo) (s : S)
      → IsReadable granule_4kb read_at 0 (base 48 info.arm.sld_value) va s
      → outcome (
          (get_third_level_4kb_descriptor m va
              >> page m va (λ arm. arm.tld_value) PageSize.kb4 12 11)
            info s)
        ≡ radix_walk granule_4kb read_at 0 (base 48 info.arm.sld_value) va s
  unfolding get_third_level_4kb_descriptor radix_walk outcome granule_4kb
  third-walk info s readable =
      let here = base 48 info.arm.sld_value + va / 2 ^ 12 % 512 * 8 in
      elim (Option-cases (read_at here s).0) [
        | inl e ↦ absurd (readable e)
        | inr (v, e) ↦ ground (arith, third_slot va info.arm.sld_value, kb4_frame va v)
      ]

  second_4kb-walk :
      (pt : ℕ) (info : PageInfo) (s : S)
      → IsReadable granule_4kb read_at 1 (base 48 pt) va s
      → outcome (second_4kb m va pt info s) ≡ radix_walk granule_4kb read_at 1 (base 48 pt) va s
  unfolding second_4kb outcome granule_4kb
  second_4kb-walk pt info s readable =
      let here = base 48 pt + va / 2 ^ 21 % 512 * 8 in
      elim (Option-cases (read_at here s).0) [
        | inl e ↦ absurd (readable.0 e)
        | inr (v, e) ↦
            let info' : PageInfo = record info {
              arm = record (info.arm) {
                sld_location =
                    bit_or (bit_and pt (bit_mask 12 47)) (second_level_4kb_table_index va * 2 ^ 3);
                sld_value = v;
              };
            } in
            elim (Bool-cases (v % 4 == 3)) [
              | inl y ↦
                  let p : granule_4kb.present 1 v ≡ true = ground (arith, y) in
                  let q : granule_4kb.leaf 1 v ≡ false = ground (arith, y) in
                  ground (
                    arith,
                    y,
                    radix_walk_level granule_4kb read_at 0 (base 48 pt) va s v e,
                    kind_lem v,
                    second_slot va pt,
                    mb2_frame va v,
                    third-walk info' (read_at here s).1 (readable.1 v e p q),
                  )
              | inr n ↦ ground (
                arith,
                n,
                radix_walk_level granule_4kb read_at 0 (base 48 pt) va s v e,
                kind_lem v,
                second_slot va pt,
                mb2_frame va v,
              )
            ]
      ]

  second_4kb-walk_masked :
      (v : ℕ) (info : PageInfo) (s : S)
      → IsReadable granule_4kb read_at 1 (base 48 v) va s
      → outcome (second_4kb m va (bit_and v (bit_mask 12 47)) info s)
        ≡ radix_walk granule_4kb read_at 1 (base 48 v) va s
  second_4kb-walk_masked v info s readable =
      second_4kb-walk (bit_and v (bit_mask 12 47)) info s
        (subst (λ (t : ℕ). IsReadable granule_4kb read_at 1 t va s) (sym (base_twice v)) readable)
      ∙ ap (λ (t : ℕ). radix_walk granule_4kb read_at 1 t va s) (base_twice v)

  first_4kb-walk :
      (pt : ℕ) (info : PageInfo) (s : S)
      → IsReadable granule_4kb read_at 2 (base 48 pt) va s
      → outcome (first_4kb m va pt info s) ≡ radix_walk granule_4kb read_at 2 (base 48 pt) va s
  unfolding first_4kb outcome granule_4kb
  first_4kb-walk pt info s readable =
      let here = base 48 pt + va / 2 ^ 30 % 512 * 8 in
      elim (Option-cases (read_at here s).0) [
        | inl e ↦ absurd (readable.0 e)
        | inr (v, e) ↦
            let info' : PageInfo = record info {
              arm = record (info.arm) {
                fld_location =
                    bit_or (bit_and pt (bit_mask 12 47)) (first_level_4kb_table_index va * 2 ^ 3);
                fld_value = v;
              };
            } in
            elim (Bool-cases (v % 4 == 3)) [
              | inl y ↦
                  let p : granule_4kb.present 2 v ≡ true = ground (arith, y) in
                  let q : granule_4kb.leaf 2 v ≡ false = ground (arith, y) in
                  ground (
                    arith,
                    y,
                    radix_walk_level granule_4kb read_at 1 (base 48 pt) va s v e,
                    kind_lem v,
                    first_slot va pt,
                    gb1_frame va v,
                    second_4kb-walk_masked v info' (read_at here s).1 (readable.1 v e p q),
                  )
              | inr n ↦ ground (
                arith,
                n,
                radix_walk_level granule_4kb read_at 1 (base 48 pt) va s v e,
                kind_lem v,
                first_slot va pt,
                gb1_frame va v,
              )
            ]
      ]

  first_4kb-walk_masked :
      (v : ℕ) (info : PageInfo) (s : S)
      → IsReadable granule_4kb read_at 2 (base 48 v) va s
      → outcome (first_4kb m va (bit_and v (bit_mask 12 47)) info s)
        ≡ radix_walk granule_4kb read_at 2 (base 48 v) va s
  first_4kb-walk_masked v info s readable =
      first_4kb-walk (bit_and v (bit_mask 12 47)) info s
        (subst (λ (t : ℕ). IsReadable granule_4kb read_at 2 t va s) (sym (base_twice v)) readable)
      ∙ ap (λ (t : ℕ). radix_walk granule_4kb read_at 2 t va s) (base_twice v)

  zero_4kb-walk :
      (pt : ℕ) (info : PageInfo) (s : S)
      → IsReadable granule_4kb read_at 3 (base 48 pt) va s
      → outcome (zero_4kb m va pt info s) ≡ radix_walk granule_4kb read_at 3 (base 48 pt) va s
  unfolding zero_4kb outcome granule_4kb
  zero_4kb-walk pt info s readable =
      let here = base 48 pt + va / 2 ^ 39 % 512 * 8 in
      elim (Option-cases (read_at here s).0) [
        | inl e ↦ absurd (readable.0 e)
        | inr (v, e) ↦
            let info' : PageInfo = record info {
              arm = record (info.arm) {
                zld_location =
                    bit_or (bit_and pt (bit_mask 12 47)) (zero_level_4kb_table_index va * 2 ^ 3);
                zld_value = v;
              };
            } in
            elim (Bool-cases (v % 4 == 3)) [
              | inl y ↦
                  let p : granule_4kb.present 3 v ≡ true = ground (arith, y) in
                  let q : granule_4kb.leaf 3 v ≡ false = ground (arith, y) in
                  ground (
                    arith,
                    y,
                    radix_walk_level granule_4kb read_at 2 (base 48 pt) va s v e,
                    kind_lem v,
                    zero_slot va pt,
                    first_4kb-walk_masked v info' (read_at here s).1 (readable.1 v e p q),
                  )
              | inr n ↦ ground (
                arith,
                n,
                radix_walk_level granule_4kb read_at 2 (base 48 pt) va s v e,
                kind_lem v,
                zero_slot va pt,
              )
            ]
      ]

-- The level at which the walk starts.
abbrev pub levels : Conf → ℕ → ℕ
levels conf pt =
    if (64 + 2 ^ 32 - (if pt == conf.kpgd then conf.t1sz else conf.t0sz)) % 2 ^ 8 == 39
    then 2
    else 3

-- With a granule of 4KB, and where the descriptors that the walk meets can be read, v2p_aarch64 gives what the radix
-- walk from the table `pt` gives: over three levels if addresses have 39 bits, else over four. The
-- descriptor of the last level is used whatever its kind.
pub v2p_aarch64-eq-radix_walk :
    {S : Type 0} (m : Machine S) (conf : Conf) (pt va : ℕ) (info : PageInfo) (s : S)
    → IsReadable granule_4kb
        (λ addr s'. vmi_read_64 m (table_context 0 0 addr) s')
        (levels conf pt)
        (base 48 pt)
        va
        s
    → (if pt == conf.kpgd then conf.tg1 else conf.tg0) ≡ PageSize.kb4
    → outcome (v2p_aarch64 m conf pt va info s)
      ≡ radix_walk granule_4kb
          (λ addr s'. vmi_read_64 m (table_context 0 0 addr) s')
          (levels conf pt)
          (base 48 pt)
          va
          s
unfolding v2p_aarch64
v2p_aarch64-eq-radix_walk m conf pt va info s readable granule =
    let width = (64 + 2 ^ 32 - (if pt == conf.kpgd then conf.t1sz else conf.t0sz)) % 2 ^ 8 in
    elim (Bool-cases (width == 39)) [
      | inl y ↦
          let top : levels conf pt ≡ 2 = ground (arith, y) in
          ground (
            arith,
            granule,
            y,
            first_4kb-walk m va pt info s (
                subst
                  (λ (l : ℕ).
                    IsReadable granule_4kb (λ addr s'. vmi_read_64 m (table_context 0 0 addr) s') l
                      (base 48 pt) va s)
                  top readable),
          )
      | inr n ↦
          let top : levels conf pt ≡ 3 = ground (arith, n) in
          ground (
            arith,
            granule,
            n,
            zero_4kb-walk m va pt info s (
                subst
                  (λ (l : ℕ).
                    IsReadable granule_4kb (λ addr s'. vmi_read_64 m (table_context 0 0 addr) s') l
                      (base 48 pt) va s)
                  top readable),
          )
    ]
