-- ===== src/Tests/Strings.antt =====
-- vmi_read_str of libvmi/read.c on physical memory that does not change.
use libvmi.Common.{
  ℕ, ◌+◌, ◌*◌, ◌<◌, ltb, Bool, true, ◌==◌, [], ◌∷◌, none, some, if◌then◌else◌, ◌≡◌, ◌≢◌, refl,
  arith,
}
use libvmi.PageMode.{valid_npm, valid_pm}
use libvmi.Types.{failure}
use libvmi.Access.Env.{Env, Start, resolve}
use libvmi.Access.Window.{window}
use libvmi.Access.Paging.{IsMapped, IsBacked}
use libvmi.Access.Read.{read_start, start_ok}
use libvmi.Access.Sized.{pa_context}
use libvmi.Access.Strings.{vmi_read_str}
use libvmi.Access.Strings.Laws.{copies, vmi_read_str-window, vmi_read_str-copies}
use libvmi.Tests.{conf}

abbrev env : (ℕ → ℕ) → Env (Unit {0})
env mem = record {
  lookup = λ npt npm pt pm va s. (failure, (0, 0), s);
  read_page = λ pfn s. (some (window mem (pfn * 4096) 4096), s);
  write = λ paddr buf s. (failure, s);
  ksym2v = λ sym s. (none, s);
  pid_to_dtb = λ pid s. (none, s);
}

abbrev start : ℕ → Start
start a = record { pt = 0; pm = 0; addr = a }

abbrev IsGood : Unit {0} → Type 0
IsGood s = Unit {0}

abbrev realloc : ℕ → Unit {0} → Bool × Unit {0}
realloc n s = (true, s)

program : Unit {0}
unfolding resolve valid_npm valid_pm read_start start_ok
program = tt

backed : (mem : ℕ → ℕ) (a n : ℕ) → IsBacked (env mem) conf IsGood mem (λ p. p) a n
backed mem a n p s lo hi good = (s, refl, tt)

mapped :
    (mem : ℕ → ℕ) (a n : ℕ) → IsMapped (env mem) conf (pa_context a) (start a) IsGood (λ p. p) a n
unfolding program
mapped mem a n = record {
  found = λ p s lo hi good. (s, refl, tt);
  contiguous = λ p i lo hi within. refl;
}

-- "ABC" near the end of a page.
abbrev text : ℕ → ℕ
text a = if a == 8188 then 65 else if a == 8189 then 66 else if a == 8190 then 67 else 0

abbrev letters : ℕ → ℕ
letters a = 65

before : (i : ℕ) → i < 3 → text (8188 + i) ≢ 0
before i h = ground arith

vmi_read_str-window_example :
    (s : Unit {0}) × (vmi_read_str (env text) conf realloc 1 (pa_context 8188) tt
      ≡ some (some (65 ∷ 66 ∷ 67 ∷ []), s))
    × Unit {0}
unfolding program window
vmi_read_str-window_example =
    vmi_read_str-window (env text) conf realloc (pa_context 8188) (start 8188) IsGood text (λ p. p)
      (refl, omega arith) (omega arith) (λ s good. (s, refl, tt)) refl (omega arith) refl
      (backed text 8188 4) (mapped text 8188 4) 3 0 tt (omega arith) before refl
      (λ n s good. (refl, tt)) tt

-- An allocator that has no block of more than 8193 bytes.
abbrev small_heap : ℕ → Unit {0} → Bool × Unit {0}
small_heap n s = (ltb n 8194, s)

vmi_read_str-copies_example :
    (s : Unit {0}) × (vmi_read_str (env letters) conf small_heap 3 (pa_context 4096) tt
      ≡ some (copies 2 (window letters 4096 4096), s))
    × Unit {0}
unfolding program
vmi_read_str-copies_example =
    vmi_read_str-copies (env letters) conf small_heap (pa_context 4096) (start 4096) IsGood letters
      (λ p. p) (refl, omega arith) (omega arith) (λ s good. (s, refl, tt)) refl (omega arith) refl
      (backed letters 4096 4096) (mapped letters 4096 4096) refl (λ i h. omega arith) 2
      (omega arith) (λ n s h good. (ground (arith, h), tt)) (λ s good. (refl, tt)) tt tt
