-- ===== src/Arch/Amd64/Grows.antt =====
-- The loops of get_pages_ia32e in libvmi/arch/amd64.c go on and keep the pages that they have listed,
-- where every table that they lead to can be read.
use mathlib.Core.Path.{subst}
use libvmi.Common.{
  ℕ, zero, suc, ◌+◌, ◌*◌, ◌/◌, ◌%◌, ◌^◌, ◌<◌, bit_and, bit_or, not, Bool, true, false, if_elim,
  List, [], ◌∷◌, Option, ◌⊎◌, inr, ◌≡◌, refl, sym, ap, ◌∙◌, arith,
}
use libvmi.Bits.{bit_mask}
use libvmi.Types.{Status, success, Conf, PageInfo, X86Entries, Machine, no_entries}
use libvmi.Access.Window.{window}
use libvmi.Arch.Entry.{entry_present, page_size}
use libvmi.Arch.Pages.{Listing, entry, os_is_known, each, with_table}
use libvmi.Arch.Amd64.Pages.{list_pte, list_pgde, list_pdpte, list_pml4e}
use libvmi.Arch.Amd64.Listing.{IsStatic, AreTables, walk, value}

-- Some page of a list.
abbrev pub Any : (PageInfo → Type 0) → List PageInfo → Type 0
Any P [] = ⊥
Any P (info ∷ rest) = P info ⊎ Any P rest

-- An address lies in a page, up to the bits above bit 47.
abbrev pub Covers : ℕ → PageInfo → Type 0
Covers va info = info.vaddr % 2 ^ 48 ≡ va % 2 ^ 48 / info.size * info.size

module _ {S : Type 0} (P : PageInfo → Type 0) where
  -- A listing that goes on and keeps the pages that there are.
  abbrev pub Grows : Listing S → Type 0
  Grows f =
      (acc : List PageInfo) (s : S) → ((f acc s).0 ≡ success) × (Any P acc → Any P (f acc s).1)

  abbrev pub Hits : Listing S → Type 0
  Hits f = (acc : List PageInfo) (s : S) → Any P (f acc s).1

  pub each_step :
      (step : ℕ → Listing S) (i left : ℕ) (acc : List PageInfo) (s : S)
      → (step i acc s).0 ≡ success
      → each step i (suc left) acc s ≡ each step (i + 1) left (step i acc s).1 (step i acc s).2
  unfolding each
  each_step step i left acc s e = ground (arith, e)

  pub each-Grows :
      (step : ℕ → Listing S) (i left : ℕ)
      → ((j : ℕ) → j < i + left → Grows (step j))
      → Grows (each step i left)
  unfolding each
  each-Grows step i zero grows acc s = (refl, λ any. any)
  each-Grows step i (suc left) grows acc s =
      let (e, keeps) = grows i (omega arith) acc s in
      let (e', keeps') =
        each-Grows step (i + 1) left (λ j h. grows j (omega (arith, h))) (step i acc s).1
          (step i acc s).2 in
      let next = sym (each_step step i left acc s e) in
      (
        subst (λ (r : Status × List PageInfo × S). r.0 ≡ success) next e',
        λ any. subst (λ (r : Status × List PageInfo × S). Any P r.1) next (keeps' (keeps any)),
      )

  pub each-Hits :
      (step : ℕ → Listing S) (i d left : ℕ)
      → ((j : ℕ) → j < i + left → Grows (step j))
      → Hits (step (i + d))
      → d < left
      → Hits (each step i left)
  each-Hits step i d zero grows hits h acc s = absurd (omega (arith, h))
  each-Hits step i zero (suc left) grows hits h acc s =
      let here : Hits (step i) = subst (λ (j : ℕ). Hits (step j)) (omega arith) hits in
      subst (λ (r : Status × List PageInfo × S). Any P r.1)
        (sym (each_step step i left acc s (grows i (omega arith) acc s).0))
        ((each-Grows step (i + 1) left (λ j q. grows j (omega (arith, q))) (step i acc s).1
            (step i acc s).2).1
          (here acc s))
  each-Hits step i (suc d) (suc left) grows hits h acc s =
      let there : Hits (step (i + 1 + d)) = subst (λ (j : ℕ). Hits (step j)) (omega arith) hits in
      subst (λ (r : Status × List PageInfo × S). Any P r.1)
        (sym (each_step step i left acc s (grows i (omega arith) acc s).0))
        (each-Hits step (i + 1) d left (λ j q. grows j (omega (arith, q))) there (omega (arith, h))
          (step i acc s).1 (step i acc s).2)

module _ {S : Type 0} (m : Machine S) (conf : Conf) (npt npm dtb : ℕ) (mem : ℕ → ℕ)
    (ok : ℕ → ℕ → Bool) (static : IsStatic m npt npm mem ok)
    (same : conf.transition_pages ≡ os_is_known conf) (va : ℕ) where
  abbrev from : ℕ → ℕ → S → Option (ℕ × ℕ) × S
  from l t s = walk m conf npt npm dtb mem ok static l t va s

  abbrev at : ℕ → ℕ → ℕ
  at = value m conf npt npm dtb mem ok static

  abbrev pub P : PageInfo → Type 0
  P = Covers va

  -- The table is there.
  pub table_read :
      (t : ℕ) (k : List ℕ → Listing S) (acc : List PageInfo) (s : S)
      → ok t 4096 ≡ true
      → with_table m npt npm t 4096 k acc s ≡ k (window mem t 4096) acc s
  unfolding with_table
  table_read t k acc s there = ground (arith, static.read t 4096 s, there)

  abbrev pub Tables : ℕ → ℕ → Type 0
  Tables = AreTables m conf npt npm dtb mem ok static

  pub table_there : (l t : ℕ) → Tables l t → ok t 4096 ≡ true
  table_there zero t tables = tables
  table_there (suc l) t tables = tables.0

  pub table-Grows :
      (t : ℕ) (step : List ℕ → ℕ → Listing S)
      → ok t 4096 ≡ true
      → ((j : ℕ) → j < 512 → Grows P (step (window mem t 4096) j))
      → Grows P (with_table m npt npm t 4096 (λ bytes. each (step bytes) 0 512))
  table-Grows t step there grows acc s =
      let (e, keeps) = each-Grows P (step (window mem t 4096)) 0 512 grows acc s in
      let next = sym (table_read t (λ bytes. each (step bytes) 0 512) acc s there) in
      (
        subst (λ (r : Status × List PageInfo × S). r.0 ≡ success) next e,
        λ any. subst (λ (r : Status × List PageInfo × S). Any P r.1) next (keeps any),
      )

  pub pte-Grows :
      (low : ℕ) (x86 : X86Entries) (t : ℕ) (page : List ℕ) (i : ℕ)
      → Grows P (list_pte m conf npt npm dtb low x86 t page i)
  unfolding list_pte
  pte-Grows low x86 t page i acc s =
      if_elim (λ (k : Listing S). ((k acc s).0 ≡ success) × (Any P acc → Any P (k acc s).1))
        (entry_present (os_is_known conf) (entry 8 i page)) _ _ (λ y. (refl, λ any. inr any))
        (λ n. (refl, λ any. any))

  -- The test of the lower levels is that of the walk.
  same_test :
      (v : ℕ)
      → not (entry_present (os_is_known conf) v) ≡ false
      → entry_present conf.transition_pages v ≡ true
  same_test v y = ap (λ (b : Bool). entry_present b v) same ∙ ground (arith, y)

  pub pgde-Grows :
      (low : ℕ) (x86 : X86Entries) (t i : ℕ)
      → Tables 1 t
      → i < 512
      → Grows P (list_pgde m conf npt npm dtb low x86 t (window mem t 4096) i)
  unfolding list_pgde
  pgde-Grows low x86 t i tables h acc s =
      let v = at t i in
      let table = bit_and v (bit_mask 12 51) in
      let x86' : X86Entries = record x86 { pgd_location = t + i * 8; pgd_value = v } in
      let step = list_pte m conf npt npm dtb (bit_or low (i * 2 ^ 21)) x86' table in
      if_elim (λ (k : Listing S). ((k acc s).0 ≡ success) × (Any P acc → Any P (k acc s).1))
        (not (entry_present (os_is_known conf) v)) _ _ (λ n. (refl, λ any. any))
        (λ y.
          if_elim (λ (k : Listing S). ((k acc s).0 ≡ success) × (Any P acc → Any P (k acc s).1))
            (page_size v) _ _ (λ leaf. (refl, λ any. inr any))
            (λ inner.
              table-Grows table step (tables.1 i h (same_test v y) inner)
                (λ j q. pte-Grows _ x86' table (window mem table 4096) j) acc s))

  pub pdpte-Grows :
      (low : ℕ) (x86 : X86Entries) (t i : ℕ)
      → Tables 2 t
      → i < 512
      → Grows P (list_pdpte m conf npt npm dtb low x86 t (window mem t 4096) i)
  unfolding list_pdpte
  pdpte-Grows low x86 t i tables h acc s =
      let v = at t i in
      let table = bit_and v (bit_mask 12 51) in
      let x86' : X86Entries = record x86 { pdpte_location = t + i; pdpte_value = v } in
      let step = list_pgde m conf npt npm dtb (bit_or low (i * 2 ^ 30)) x86' table in
      if_elim (λ (k : Listing S). ((k acc s).0 ≡ success) × (Any P acc → Any P (k acc s).1))
        (not (entry_present conf.transition_pages v)) _ _ (λ n. (refl, λ any. any))
        (λ y.
          if_elim (λ (k : Listing S). ((k acc s).0 ≡ success) × (Any P acc → Any P (k acc s).1))
            (page_size v) _ _ (λ leaf. (refl, λ any. inr any))
            (λ inner.
              let below = tables.1 i h (ground (arith, y)) inner in
              table-Grows table step below.0 (λ j q. pgde-Grows _ x86' table j below q) acc s))

  pub pml4e-Grows :
      (t i : ℕ)
      → Tables 3 t
      → i < 512
      → Grows P (list_pml4e m conf npt npm dtb t (window mem t 4096) i)
  unfolding list_pml4e
  pml4e-Grows t i tables h acc s =
      let v = at t i in
      let table = bit_and v (bit_mask 12 51) in
      let x86 : X86Entries = record no_entries { pml4e_location = t + i * 8; pml4e_value = v } in
      let step = list_pdpte m conf npt npm dtb (i * 2 ^ 39) x86 table in
      if_elim (λ (k : Listing S). ((k acc s).0 ≡ success) × (Any P acc → Any P (k acc s).1))
        (not (entry_present conf.transition_pages v)) _ _ (λ n. (refl, λ any. any))
        (λ y.
          let below = tables.1 i h (ground (arith, y)) refl in
          table-Grows table step below.0 (λ j q. pdpte-Grows _ x86 table j below q) acc s)
