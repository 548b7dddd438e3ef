-- ===== src/Arch/Amd64/Walk.antt =====
-- v2p_ia32e of libvmi/arch/amd64.c against the four-level radix walk.
use libvmi.Common.{
  ℕ, ◌+◌, ◌*◌, ◌/◌, ◌%◌, ◌^◌, bit_and, bit_or, ◌≡◌, ◌∙◌, ap, Option, Option-cases, inl, inr, Bool,
  false, ◌&&◌, leb, arith,
}
use mathlib.Core.Path.{ap₂}
use libvmi.Bits.{bit_mask, bit_and-field, bit_and-low, bit_or-add}
use libvmi.Types.{Conf, PageInfo, Machine, table_context, vmi_read_64}
use libvmi.PageMode
use libvmi.PageMode.{valid_npm}
use libvmi.Arch.Entry.{entry_present, page_size}
use libvmi.Arch.Radix.{Format, frame, base, radix_walk, outcome}
use libvmi.Arch.Amd64.Lookup.{
  get_pml4_index, get_pdpt_index_ia32e, get_pd_index_ia32e, get_pt_index_ia32e, get_paddr_ia32e,
  get_gigpage_ia32e, get_2megpage_ia32e, at_pte, at_pde, at_pdpte, at_pml4e, v2p_ia32e,
}

-- A table's address joined with an entry's offset is their sum.
join_slot : (t i : ℕ) → bit_or (bit_and t (bit_mask 12 51)) (i % 512 * 8) ≡ base 52 t + i % 512 * 8
join_slot t i =
    ap (λ (b : ℕ). bit_or b (i % 512 * 8)) (bit_and-field 40 12 t)
    ∙ bit_or-add 12 (t / 4096 % 2 ^ 40) (i % 512 * 8) (omega arith)

module _ (va : ℕ) where
  pml4_index_lem : get_pml4_index va ≡ va / 2 ^ 39 % 512 * 8
  unfolding get_pml4_index
  pml4_index_lem = omega (arith, bit_and-field 9 39 va)

  pdpt_index_lem : get_pdpt_index_ia32e va ≡ va / 2 ^ 30 % 512 * 8
  unfolding get_pdpt_index_ia32e
  pdpt_index_lem = omega (arith, bit_and-field 9 30 va)

  pd_index_lem : get_pd_index_ia32e va ≡ va / 2 ^ 21 % 512 * 8
  unfolding get_pd_index_ia32e
  pd_index_lem = omega (arith, bit_and-field 9 21 va)

  pt_index_lem : get_pt_index_ia32e va ≡ va / 2 ^ 12 % 512 * 8
  unfolding get_pt_index_ia32e
  pt_index_lem = omega (arith, bit_and-field 9 12 va)

  pub paddr_lem : (v : ℕ) → get_paddr_ia32e va v ≡ frame 52 12 v va
  unfolding get_paddr_ia32e
  paddr_lem v =
      ap₂ bit_or (bit_and-field 40 12 v) (bit_and-low 12 va)
      ∙ bit_or-add 12 (v / 2 ^ 12 % 2 ^ 40) (va % 2 ^ 12) (omega arith)

  pub gigpage_lem : (v : ℕ) → get_gigpage_ia32e va v ≡ frame 52 30 v va
  unfolding get_gigpage_ia32e
  gigpage_lem v =
      ap₂ bit_or (bit_and-field 22 30 v) (bit_and-low 30 va)
      ∙ bit_or-add 30 (v / 2 ^ 30 % 2 ^ 22) (va % 2 ^ 30) (omega arith)

  pub megpage_lem : (v : ℕ) → get_2megpage_ia32e va v ≡ frame 52 21 v va
  unfolding get_2megpage_ia32e
  megpage_lem v =
      ap₂ bit_or (bit_and-field 31 21 v) (bit_and-low 21 va)
      ∙ bit_or-add 21 (v / 2 ^ 21 % 2 ^ 31) (va % 2 ^ 21) (omega arith)

module _ (va t : ℕ) where
  pml4_slot :
      bit_or (bit_and t (bit_mask 12 51)) (get_pml4_index va) ≡ base 52 t + va / 2 ^ 39 % 512 * 8
  pml4_slot =
      ap (bit_or (bit_and t (bit_mask 12 51))) (pml4_index_lem va) ∙ join_slot t (va / 2 ^ 39)

  pdpt_slot :
      bit_or (bit_and t (bit_mask 12 51)) (get_pdpt_index_ia32e va)
      ≡ base 52 t + va / 2 ^ 30 % 512 * 8
  pdpt_slot =
      ap (bit_or (bit_and t (bit_mask 12 51))) (pdpt_index_lem va) ∙ join_slot t (va / 2 ^ 30)

  pd_slot :
      bit_or (bit_and t (bit_mask 12 51)) (get_pd_index_ia32e va)
      ≡ base 52 t + va / 2 ^ 21 % 512 * 8
  pd_slot = ap (bit_or (bit_and t (bit_mask 12 51))) (pd_index_lem va) ∙ join_slot t (va / 2 ^ 21)

  pt_slot :
      bit_or (bit_and t (bit_mask 12 51)) (get_pt_index_ia32e va)
      ≡ base 52 t + va / 2 ^ 12 % 512 * 8
  pt_slot = ap (bit_or (bit_and t (bit_mask 12 51))) (pt_index_lem va) ∙ join_slot t (va / 2 ^ 12)

-- 52 address bits and 512 entries of eight bytes at each of four levels; pages of 4KB, 2MB, 1GB.
unfoldable pub ia32e : Bool → Format
ia32e transition_pages = record {
  table_width = 52;
  page_width = λ level. 52;
  index_bits = 9;
  entry_size = 8;
  shift = λ level. 12 + 9 * level;
  present = λ level. entry_present transition_pages;
  leaf = λ level v. leb level 2 && page_size v;
}

module _ {S : Type 0} (m : Machine S) (conf : Conf) (npt npm va : ℕ) where
  abbrev read_at : ℕ → S → Option ℕ × S
  read_at addr s = vmi_read_64 m (table_context npt npm addr) s

  abbrev walk_from : ℕ → ℕ → S → Option (ℕ × ℕ) × S
  walk_from level table s = radix_walk (ia32e conf.transition_pages) read_at level table va s

  at_pte-walk :
      (info : PageInfo) (s : S)
      → info.vaddr ≡ va
      → outcome (at_pte m conf npt npm va info s) ≡ walk_from 0 (base 52 info.x86.pgd_value) s
  unfolding at_pte radix_walk outcome ia32e
  at_pte-walk info s h =
      let at = pt_slot va info.x86.pgd_value in
      elim (Option-cases (read_at (base 52 info.x86.pgd_value + va / 2 ^ 12 % 512 * 8) s).0) [
        | inl e ↦ ground (arith, at)
        | inr (v, e) ↦ ground (arith, at, paddr_lem va v)
      ]

  at_pde-walk :
      (info : PageInfo) (s : S)
      → info.vaddr ≡ va
      → outcome (at_pde m conf npt npm va info s) ≡ walk_from 1 (base 52 info.x86.pdpte_value) s
  unfolding at_pde radix_walk outcome ia32e
  at_pde-walk info s h =
      let at = pd_slot va info.x86.pdpte_value in
      let here = base 52 info.x86.pdpte_value + va / 2 ^ 21 % 512 * 8 in
      elim (Option-cases (read_at here s).0) [
        | inl e ↦ ground (arith, at)
        | inr (v, e) ↦
            let info' : PageInfo = record info {
              x86 = record (info.x86) {
                pgd_location =
                    bit_or (bit_and info.x86.pdpte_value (bit_mask 12 51))
                      (get_pd_index_ia32e info.vaddr);
                pgd_value = v;
              };
            } in
            ground (arith, at, megpage_lem va v, at_pte-walk info' (read_at here s).1)
      ]

  at_pdpte-walk :
      (info : PageInfo) (s : S)
      → info.vaddr ≡ va
      → outcome (at_pdpte m conf npt npm va info s) ≡ walk_from 2 (base 52 info.x86.pml4e_value) s
  unfolding at_pdpte radix_walk outcome ia32e
  at_pdpte-walk info s h =
      let at = pdpt_slot va info.x86.pml4e_value in
      let here = base 52 info.x86.pml4e_value + va / 2 ^ 30 % 512 * 8 in
      elim (Option-cases (read_at here s).0) [
        | inl e ↦ ground (arith, at)
        | inr (v, e) ↦
            let info' : PageInfo = record info {
              x86 = record (info.x86) {
                pdpte_location =
                    bit_or (bit_and info.x86.pml4e_value (bit_mask 12 51))
                      (get_pdpt_index_ia32e info.vaddr);
                pdpte_value = v;
              };
            } in
            ground (arith, at, gigpage_lem va v, at_pde-walk info' (read_at here s).1)
      ]

  at_pml4e-walk :
      (info : PageInfo) (s : S)
      → info.vaddr ≡ va
      → outcome (at_pml4e m conf npt npm va info s) ≡ walk_from 3 (base 52 info.pt) s
  unfolding at_pml4e radix_walk outcome ia32e
  at_pml4e-walk info s h =
      let at = pml4_slot va info.pt in
      let here = base 52 info.pt + va / 2 ^ 39 % 512 * 8 in
      elim (Option-cases (read_at here s).0) [
        | inl e ↦ ground (arith, at)
        | inr (v, e) ↦
            let info' : PageInfo = record info {
              x86 = record (info.x86) {
                pml4e_location =
                    bit_or (bit_and info.pt (bit_mask 12 51)) (get_pml4_index info.vaddr);
                pml4e_value = v;
              };
            } in
            ground (arith, at, at_pdpte-walk info' (read_at here s).1)
      ]

-- Without a nested page mode, v2p_ia32e gives exactly what the four-level radix walk from the page
-- table `pt` gives: the same answer, or a failure where that has none, after the same reads.
pub v2p_ia32e-eq-radix_walk :
    {S : Type 0} (m : Machine S) (conf : Conf) (npt npm pt va : ℕ) (info : PageInfo) (s : S)
    → valid_npm npm ≡ false
    → outcome (v2p_ia32e m conf npt npm pt va info s)
      ≡ radix_walk
          (ia32e conf.transition_pages)
          (λ addr s'. vmi_read_64 m (table_context npt npm addr) s')
          3
          (base 52 pt)
          va
          s
unfolding v2p_ia32e
v2p_ia32e-eq-radix_walk m conf npt npm pt va info s plain =
    let info' : PageInfo = record info {
      npt = npt;
      npm = npm;
      pt = pt;
      pm = PageMode.ia32e;
      vaddr = va;
    } in
    ground (arith, plain, at_pml4e-walk m conf npt npm va info' s)
