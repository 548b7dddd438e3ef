-- ===== src/Tests/Writes.antt =====
-- vmi_write of libvmi/write.c across two pages that do not follow one another.
use libvmi.Common.{
  ℕ, zero, suc, ◌+◌, ◌-◌, ◌*◌, ◌%◌, ◌≤◌, ◌<◌, List, [], ◌∷◌, none, some, ltb, get_elem?,
  if◌then◌else◌, ◌≡◌, ◌≢◌, refl, ap, ◌∙◌, arith,
}
use libvmi.PageMode
use libvmi.Types.{success, AccessContext}
use libvmi.Tests.{conf}
use libvmi.Access.Env.{Env, Start, resolve}
use libvmi.Access.Window.{window}
use libvmi.Access.Paging.{IsMapped}
use libvmi.Access.Write.{write_start, vmi_write}
use libvmi.Access.Write.Laws.{IsWritable, vmi_write-stored}

-- Physical memory is the state.
pub written : ℕ → List ℕ → (ℕ → ℕ) → ℕ → ℕ
written paddr buf m p =
    if ltb p paddr then m p else elim (get_elem? buf (p - paddr)) [ none ↦ m p | some b ↦ b ]

-- Page 0 stands at physical page 2, every other page one page below.
abbrev pub tr : ℕ → ℕ
tr a = if ltb a 4096 then a + 8192 else a - 4096

abbrev pub env : Env (ℕ → ℕ)
env = record {
  lookup = λ npt npm pt pm va s. (success, (tr va, 0), s);
  read_page = λ pfn s. (some (window s (pfn * 4096) 4096), s);
  write = λ paddr buf s. (success, written paddr buf s);
  ksym2v = λ sym s. (none, s);
  pid_to_dtb = λ pid s. (none, s);
}

abbrev pub ctx : AccessContext
ctx = record { tm = 1; pm = 0; npm = 0; npt = 0; addr = 4094; pt = 0x1000; ksym = [] }

abbrev pub start : Start
start = record { pt = 0x1000; pm = PageMode.ia32e; addr = 4094 }

unfoldable pub program : Unit {0}
unfolding window write_start resolve PageMode.valid_npm PageMode.valid_pm
program = tt

get-window : (f : ℕ → ℕ) (a n i : ℕ) → i < n → get_elem? (window f a n) i ≡ some (f (a + i))
unfolding window
get-window f a zero i h = elim h [ ]
get-window f a (suc n) zero h = ap (λ (t : ℕ). some (f t)) (omega arith)
get-window f a (suc n) (suc i) h =
    get-window f (a + 1) n i (omega arith) ∙ ap (λ (t : ℕ). some (f t)) (omega arith)

get-window-none : (f : ℕ → ℕ) (a n i : ℕ) → n ≤ i → get_elem? (window f a n) i ≡ none
unfolding window
get-window-none f a zero i h = refl
get-window-none f a (suc n) zero h = elim h [ ]
get-window-none f a (suc n) (suc i) h = get-window-none f (a + 1) n i (omega arith)

abbrev pub IsGood : (ℕ → ℕ) → Type 0
IsGood s = Unit {0}

pub env-IsWritable : IsWritable env IsGood (λ s. s)
unfolding written
env-IsWritable = record {
  write = λ paddr f a n s good.
      (written paddr (window f a n) s, refl, here paddr f a n s, frame paddr f a n s, tt);
}
  where
    back : (paddr i : ℕ) → paddr + i - paddr ≡ i
    back paddr i = omega arith

    here :
        (paddr : ℕ) (f : ℕ → ℕ) (a n : ℕ) (s : ℕ → ℕ) (i : ℕ)
        → i < n
        → written paddr (window f a n) s (paddr + i) ≡ f (a + i)
    here paddr f a n s i h = ground (arith, get-window f a n i h, back paddr i)

    frame :
        (paddr : ℕ) (f : ℕ → ℕ) (a n : ℕ) (s : ℕ → ℕ) (p : ℕ)
        → ((i : ℕ) → i < n → p ≢ paddr + i)
        → written paddr (window f a n) s p ≡ s p
    frame paddr f a n s p avoid =
        ground (arith, get-window-none f a n (p - paddr), avoid (p - paddr))

pub env-IsMapped : (count : ℕ) → IsMapped env conf ctx start IsGood tr 4094 count
unfolding program
env-IsMapped count = record {
  found = λ a s lo hi good. (s, refl, tt);
  contiguous = λ a i lo hi within. contiguous a i within;
}
  where
    contiguous : (a i : ℕ) → tr a % 4096 + i < 4096 → tr (a + i) ≡ tr a + i
    contiguous a i within = ground arith

pub apart : (i j : ℕ) → i < 8 → j < 8 → tr (4094 + i) ≡ tr (4094 + j) → i ≡ j
apart i j hi hj e = ground arith

vmi_write-stored_example :
    (s' : ℕ → ℕ) × (vmi_write env conf ctx 4 (7 ∷ 8 ∷ 9 ∷ 10 ∷ []) (λ p. 0) ≡ (success, some 4, s'))
    × ((i : ℕ) → i < 4 → s' (tr (4094 + i)) ≡ 7 + i)
    × ((p : ℕ) → ((i : ℕ) → i < 4 → p ≢ tr (4094 + i)) → s' p ≡ 0)
    × Unit {0}
unfolding program
vmi_write-stored_example =
    vmi_write-stored env conf ctx start IsGood (λ i. 7 + i) tr (λ s. s) 4 (refl, omega arith)
      env-IsWritable (env-IsMapped 4) (λ a s. refl)
      (λ i j hi hj. apart i j (omega (arith, hi)) (omega (arith, hj))) (omega arith) (omega arith)
      (omega arith) (λ p. 0) (λ p. 0) refl tt
