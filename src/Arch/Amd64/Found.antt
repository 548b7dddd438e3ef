-- ===== src/Arch/Amd64/Found.antt =====
-- get_pages_ia32e of libvmi/arch/amd64.c lists pages that the four-level radix walk finds.
use mathlib.Core.Path.{subst}
use libvmi.Common.{
  ℕ, ◌+◌, ◌*◌, ◌/◌, ◌%◌, ◌^◌, ◌<◌, bit_and, bit_or, not, Bool, true, false, if_elim, List, [],
  Option, some, ◌≡◌, refl, sym, ap, ◌∙◌, arith,
}
use libvmi.Bits.{bit_mask, bit_and-field}
use libvmi.Types.{Conf, PageInfo, X86Entries, Machine, no_entries}
use libvmi.Access.Window.{window}
use libvmi.Arch.Entry.{entry_present, page_size, canonical_addr}
use libvmi.Arch.Radix.{base}
use libvmi.Arch.Pages.{Listing, os_is_known, each, with_table}
use libvmi.Arch.Amd64.Walk.{paddr_lem, gigpage_lem, megpage_lem}
use libvmi.Arch.Amd64.Pages.{list_pte, list_pgde, list_pdpte, list_pml4e, get_pages_ia32e}
use libvmi.Arch.Amd64.Listing.{
  All, each-All, join_two, join_three, join_four, canonical_low, IsStatic, walk, value,
  with_table_lem, descend, large, last,
}

-- The address of the table that an entry points to.
pub table_lem : (v : ℕ) → bit_and v (bit_mask 12 51) ≡ base 52 v
table_lem v = bit_and-field 40 12 v

pub negate : (b : Bool) → not b ≡ false → b ≡ true
negate true e = refl
negate false e = absurd (ground (arith, e))

module _ {S : Type 0} (m : Machine S) (conf : Conf) (npt npm dtb : ℕ) (mem : ℕ → ℕ)
    (ok : ℕ → ℕ → Bool) (static : IsStatic m npt npm mem ok)
    (same : conf.transition_pages ≡ os_is_known conf) where
  abbrev from : ℕ → ℕ → ℕ → S → Option (ℕ × ℕ) × S
  from = walk m conf npt npm dtb mem ok static

  abbrev at : ℕ → ℕ → ℕ
  at = value m conf npt npm dtb mem ok static

  -- A listed page is one that the walk finds, with its address and its size.
  abbrev IsFound : PageInfo → Type 0
  IsFound info = (s : S) → from 3 (base 52 dtb) info.vaddr s ≡ (some (info.paddr, info.size), s)

  present_lem :
      (v : ℕ)
      → entry_present (os_is_known conf) v ≡ true
      → entry_present conf.transition_pages v ≡ true
  present_lem v y = ap (λ (b : Bool). entry_present b v) same ∙ y

  -- The walk to the table `t` behind the entries `a`, `b` and `c`.
  abbrev Reach0 : ℕ → ℕ → ℕ → ℕ → Type 0
  Reach0 a b c t =
      (va : ℕ) (s : S)
      → va / 2 ^ 39 % 512 ≡ a
      → va / 2 ^ 30 % 512 ≡ b
      → va / 2 ^ 21 % 512 ≡ c
      → from 3 (base 52 dtb) va s ≡ from 0 t va s

  abbrev Reach1 : ℕ → ℕ → ℕ → Type 0
  Reach1 a b t =
      (va : ℕ) (s : S)
      → va / 2 ^ 39 % 512 ≡ a
      → va / 2 ^ 30 % 512 ≡ b
      → from 3 (base 52 dtb) va s ≡ from 1 t va s

  abbrev Reach2 : ℕ → ℕ → Type 0
  Reach2 a t = (va : ℕ) (s : S) → va / 2 ^ 39 % 512 ≡ a → from 3 (base 52 dtb) va s ≡ from 2 t va s

  module _ (a b c i : ℕ) (p : a < 512) (q : b < 512) (r : c < 512) (u : i < 512) where
    pte_lem :
        (t : ℕ) (x86 : X86Entries) (acc : List PageInfo) (s : S)
        → ok t 4096 ≡ true
        → Reach0 a b c t
        → All IsFound acc
        → All IsFound
            (list_pte m conf npt npm dtb
              (bit_or (bit_or (a * 2 ^ 39) (b * 2 ^ 30)) (c * 2 ^ 21))
              x86
              t
              (window mem t 4096)
              i
              acc
              s).1
    unfolding list_pte
    pte_lem t x86 acc s readable reach all =
        let v = at t i in
        let low = bit_or (bit_or (bit_or (a * 2 ^ 39) (b * 2 ^ 30)) (c * 2 ^ 21)) (i * 2 ^ 12) in
        let va = canonical_addr low in
        let joined = join_four a b c i p q r u in
        let kept = canonical_low low (omega (arith, joined, p, q, r, u)) in
        let found = λ (y : entry_present (os_is_known conf) v ≡ true) (s' : S).
          reach va s' (omega (arith, kept, joined, p, q, r, u))
            (omega (arith, kept, joined, p, q, r, u)) (omega (arith, kept, joined, p, q, r, u))
          ∙ last m conf npt npm dtb mem ok static t i va s' readable u
              (omega (arith, kept, joined, p, q, r, u)) (present_lem v y)
          ∙ ap (λ (f : ℕ). (some (f, 4096), s')) (sym (paddr_lem va v)) in
        if_elim (λ (k : Listing S). All IsFound (k acc s).1) (entry_present (os_is_known conf) v) _
          _ (λ y. (found y, all)) (λ n. all)

  module _ (a b i : ℕ) (p : a < 512) (q : b < 512) (r : i < 512) where
    pgde_lem :
        (t : ℕ) (x86 : X86Entries) (acc : List PageInfo) (s : S)
        → ok t 4096 ≡ true
        → Reach1 a b t
        → All IsFound acc
        → All IsFound
            (list_pgde m conf npt npm dtb
              (bit_or (a * 2 ^ 39) (b * 2 ^ 30))
              x86
              t
              (window mem t 4096)
              i
              acc
              s).1
    unfolding list_pgde
    pgde_lem t x86 acc s readable reach all =
        let v = at t i in
        let low = bit_or (bit_or (a * 2 ^ 39) (b * 2 ^ 30)) (i * 2 ^ 21) in
        let va = canonical_addr low in
        let joined = join_three a b i 0 p q r (omega arith) in
        let kept = canonical_low low (omega (arith, joined, p, q, r)) in
        let found =
          λ (y : not (entry_present (os_is_known conf) v) ≡ false) (leaf : page_size v ≡ true)
              (s' : S).
            reach va s' (omega (arith, kept, joined, p, q, r))
              (omega (arith, kept, joined, p, q, r))
            ∙ large m conf npt npm dtb mem ok static t i va s' readable r 0 (omega arith)
                (omega (arith, kept, joined, p, q, r)) (present_lem v (negate _ y)) leaf
            ∙ ap (λ (f : ℕ). (some (f, 2 ^ 21), s')) (sym (megpage_lem va v)) in
        let below =
          λ (y : not (entry_present (os_is_known conf) v) ≡ false) (inner : page_size v ≡ false).
            with_table_lem m conf npt npm dtb mem ok static IsFound (bit_and v (bit_mask 12 51))
              (λ bytes.
                each
                  (list_pte m conf npt npm dtb low
                    (record x86 { pgd_location = t + i * 8; pgd_value = v })
                    (bit_and v (bit_mask 12 51)) bytes)
                  0 512)
              acc s all
              (λ readable'.
                each-All IsFound _ 0 512 512 acc s (omega arith)
                  (λ j acc' s' u all'.
                    pte_lem a b i j p q r u (bit_and v (bit_mask 12 51)) _ acc' s' readable'
                      (λ va' s'' e f g.
                        reach va' s'' e f
                        ∙ descend m conf npt npm dtb mem ok static t i va' s'' readable r 0 g
                            (present_lem v (negate _ y)) inner
                        ∙ ap (λ (l : ℕ). from 0 l va' s'') (sym (table_lem v)))
                      all')
                  all) in
        if_elim (λ (k : Listing S). All IsFound (k acc s).1)
          (not (entry_present (os_is_known conf) v)) _ _ (λ n. all)
          (λ y.
            if_elim (λ (k : Listing S). All IsFound (k acc s).1) (page_size v) _ _
              (λ leaf. (found y leaf, all)) (λ inner. below y inner))

  module _ (a i : ℕ) (p : a < 512) (q : i < 512) where
    pdpte_lem :
        (t : ℕ) (x86 : X86Entries) (acc : List PageInfo) (s : S)
        → ok t 4096 ≡ true
        → Reach2 a t
        → All IsFound acc
        → All IsFound
            (list_pdpte m conf npt npm dtb (a * 2 ^ 39) x86 t (window mem t 4096) i acc s).1
    unfolding list_pdpte
    pdpte_lem t x86 acc s readable reach all =
        let v = at t i in
        let low = bit_or (a * 2 ^ 39) (i * 2 ^ 30) in
        let va = canonical_addr low in
        let joined = join_two a i 0 0 p q (omega arith) (omega arith) in
        let kept = canonical_low low (omega (arith, joined, p, q)) in
        let found =
          λ (y : not (entry_present conf.transition_pages v) ≡ false) (leaf : page_size v ≡ true)
              (s' : S).
            reach va s' (omega (arith, kept, joined, p, q))
            ∙ large m conf npt npm dtb mem ok static t i va s' readable q 1 (omega arith)
                (omega (arith, kept, joined, p, q)) (negate _ y) leaf
            ∙ ap (λ (f : ℕ). (some (f, 2 ^ 30), s')) (sym (gigpage_lem va v)) in
        let below =
          λ (y : not (entry_present conf.transition_pages v) ≡ false) (inner : page_size v ≡ false).
            with_table_lem m conf npt npm dtb mem ok static IsFound (bit_and v (bit_mask 12 51))
              (λ bytes.
                each
                  (list_pgde m conf npt npm dtb low
                    (record x86 { pdpte_location = t + i; pdpte_value = v })
                    (bit_and v (bit_mask 12 51)) bytes)
                  0 512)
              acc s all
              (λ readable'.
                each-All IsFound _ 0 512 512 acc s (omega arith)
                  (λ j acc' s' u all'.
                    pgde_lem a i j p q u (bit_and v (bit_mask 12 51)) _ acc' s' readable'
                      (λ va' s'' e f.
                        reach va' s'' e
                        ∙ descend m conf npt npm dtb mem ok static t i va' s'' readable q 1 f
                            (negate _ y) inner
                        ∙ ap (λ (l : ℕ). from 1 l va' s'') (sym (table_lem v)))
                      all')
                  all) in
        if_elim (λ (k : Listing S). All IsFound (k acc s).1)
          (not (entry_present conf.transition_pages v)) _ _ (λ n. all)
          (λ y.
            if_elim (λ (k : Listing S). All IsFound (k acc s).1) (page_size v) _ _
              (λ leaf. (found y leaf, all)) (λ inner. below y inner))

  pml4e_lem :
      (i : ℕ) (acc : List PageInfo) (s : S)
      → i < 512
      → ok (base 52 dtb) 4096 ≡ true
      → All IsFound acc
      → All IsFound
          (list_pml4e m conf npt npm dtb (base 52 dtb) (window mem (base 52 dtb) 4096) i acc s).1
  unfolding list_pml4e
  pml4e_lem i acc s p readable all =
      let t = base 52 dtb in
      let v = at t i in
      let x86 : X86Entries = record no_entries { pml4e_location = t + i * 8; pml4e_value = v } in
      if_elim (λ (k : Listing S). All IsFound (k acc s).1)
        (not (entry_present conf.transition_pages v)) _ _ (λ n. all)
        (λ y.
          with_table_lem m conf npt npm dtb mem ok static IsFound (bit_and v (bit_mask 12 51))
            (λ bytes.
              each
                (list_pdpte m conf npt npm dtb (i * 2 ^ 39) x86 (bit_and v (bit_mask 12 51)) bytes)
                0 512)
            acc s all
            (λ readable'.
              each-All IsFound _ 0 512 512 acc s (omega arith)
                (λ j acc' s' q all'.
                  pdpte_lem i j p q (bit_and v (bit_mask 12 51)) x86 acc' s' readable'
                    (λ va' s'' e.
                      descend m conf npt npm dtb mem ok static t i va' s'' readable p 2 e
                        (negate _ y) refl
                      ∙ ap (λ (l : ℕ). from 2 l va' s'') (sym (table_lem v)))
                    all')
                all))

  -- All that get_pages_ia32e lists is found by the walk.
  pub listed_lem : (s : S) → All IsFound (get_pages_ia32e m conf npt npm dtb s).0
  unfolding get_pages_ia32e
  listed_lem s =
      subst
        (λ (t : ℕ).
          All IsFound
            (with_table m npt npm t 4096
              (λ bytes. each (list_pml4e m conf npt npm dtb t bytes) 0 512) [] s).1)
        (sym (table_lem dtb))
        (with_table_lem m conf npt npm dtb mem ok static IsFound (base 52 dtb)
          (λ bytes. each (list_pml4e m conf npt npm dtb (base 52 dtb) bytes) 0 512) [] s tt
          (λ readable.
            each-All IsFound _ 0 512 512 [] s (omega arith)
              (λ j acc s' p all. pml4e_lem j acc s' p readable all) tt))
