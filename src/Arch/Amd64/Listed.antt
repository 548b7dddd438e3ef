-- ===== src/Arch/Amd64/Listed.antt =====
-- get_pages_ia32e of libvmi/arch/amd64.c against v2p_ia32e: it lists what the lookup finds.
use libvmi.Common.{ℕ, Bool, false, List, [], ◌∷◌, Option, some, none, ◌≡◌, ◌≢◌, ap, ◌∙◌, arith}
use libvmi.Types.{Status, success, failure, Conf, PageInfo, Machine, no_info}
use libvmi.PageMode.{valid_npm}
use libvmi.Arch.Radix.{base, outcome}
use libvmi.Arch.Pages.{os_is_known}
use libvmi.Arch.Amd64.Walk.{v2p_ia32e-eq-radix_walk}
use libvmi.Arch.Amd64.Lookup.{v2p_ia32e}
use libvmi.Arch.Amd64.Pages.{get_pages_ia32e}
use libvmi.Arch.Amd64.Listing.{All, IsStatic, AreTables}
use libvmi.Arch.Amd64.Found.{listed_lem}
use libvmi.Arch.Amd64.Grows.{Any, Covers}
use libvmi.Arch.Amd64.Covered.{covered_lem}

All-map :
    (P Q : PageInfo → Type 0) (pages : List PageInfo)
    → ((info : PageInfo) → P info → Q info)
    → All P pages
    → All Q pages
All-map P Q [] f all = tt
All-map P Q (info ∷ rest) f (here, all) = (f info here, All-map P Q rest f all)

succeeded : {S : Type 0} (r : Status × PageInfo × S) → r.0 ≡ success → (outcome r).0 ≢ none
unfolding outcome
succeeded (success, info, s) e = λ n. ground (arith, n)
succeeded (failure, info, s) e = absurd (ground (arith, e))

module _ {S : Type 0} (m : Machine S) (conf : Conf) (npt npm dtb : ℕ) (mem : ℕ → ℕ)
    (ok : ℕ → ℕ → Bool) (static : IsStatic m npt npm mem ok)
    (same : conf.transition_pages ≡ os_is_known conf) (plain : valid_npm npm ≡ false) where
  -- The page that a lookup gives.
  abbrev pub IsLookedUp : PageInfo → Type 0
  IsLookedUp info =
      (s : S)
      → outcome (v2p_ia32e m conf npt npm dtb info.vaddr no_info s)
        ≡ (some (info.paddr, info.size), s)

  -- Every page that get_pages_ia32e lists is what v2p_ia32e finds for its address: the same physical
  -- address and size. This is without a nested page mode, for tables in a memory that does not
  -- change, of which some may not be readable, and where transition_pages is set just when the
  -- operating system is known, whose type the two lower levels test in its place.
  pub get_pages_ia32e-IsLookedUp : (s : S) → All IsLookedUp (get_pages_ia32e m conf npt npm dtb s).0
  get_pages_ia32e-IsLookedUp s =
      All-map _ IsLookedUp (get_pages_ia32e m conf npt npm dtb s).0
        (λ info found s'.
          v2p_ia32e-eq-radix_walk m conf npt npm dtb info.vaddr no_info s' plain ∙ found s')
        (listed_lem m conf npt npm dtb mem ok static same s)

  -- And none is missing: under the same conditions, where the top table and every table that present
  -- entries lead to can be read, each address for which v2p_ia32e succeeds lies in a page that
  -- get_pages_ia32e lists, up to the bits above bit 47.
  pub get_pages_ia32e-Covers :
      (va : ℕ) (s : S)
      → AreTables m conf npt npm dtb mem ok static 3 (base 52 dtb)
      → ((s' : S) → (v2p_ia32e m conf npt npm dtb va no_info s').0 ≡ success)
      → Any (Covers va) (get_pages_ia32e m conf npt npm dtb s).0
  get_pages_ia32e-Covers va s readable found =
      covered_lem m conf npt npm dtb mem ok static same va s readable (λ s' n.
        succeeded (v2p_ia32e m conf npt npm dtb va no_info s') (found s') (
          ap (λ (r : Option (ℕ × ℕ) × S). r.0)
            (v2p_ia32e-eq-radix_walk m conf npt npm dtb va no_info s' plain)
          ∙ n))
