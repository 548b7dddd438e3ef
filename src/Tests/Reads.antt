-- ===== src/Tests/Reads.antt =====
-- vmi_read of libvmi/read.c across two pages that do not follow one another.
use libvmi.Common.{
  ℕ, ◌+◌, ◌-◌, ◌*◌, ◌%◌, ◌<◌, [], ◌∷◌, none, some, ltb, if◌then◌else◌, ◌≡◌, refl, arith,
}
use libvmi.PageMode
use libvmi.Types.{success, failure, AccessContext}
use libvmi.Tests.{conf}
use libvmi.Access.Env.{Env, Start, resolve, part_len}
use libvmi.Access.Window.{window}
use libvmi.Access.Read.{read_start, start_ok, vmi_read}
use libvmi.Access.Paging.{IsPaged, IsBacked, IsMapped}
use libvmi.Access.Read.Laws.{vmi_read-window}
use libvmi.Access.Read.Bounds.{IsReported, vmi_read-IsReported}
use libvmi.Common.{List, ◌∙◌, sym, ap, length}
use mathlib.Core.Option.{some-injective}
use libvmi.Access.Window.{length-window}

program : Unit {0}
unfolding window read_start start_ok resolve part_len PageMode.valid_npm PageMode.valid_pm
program = tt

-- Page 0 stands at physical page 2, every other page one page below.
abbrev tr : ℕ → ℕ
tr a = if ltb a 4096 then a + 8192 else a - 4096

abbrev bytes : ℕ → ℕ
bytes p = p % 251

abbrev env : Env (Unit {0})
env = record {
  lookup = λ npt npm pt pm va s. (success, (tr va, 0), s);
  read_page = λ pfn s. (some (window bytes (pfn * 4096) 4096), s);
  write = λ paddr buf s. (failure, s);
  ksym2v = λ sym s. (none, s);
  pid_to_dtb = λ pid s. (none, s);
}

abbrev ctx : AccessContext
ctx = record { tm = 1; pm = 0; npm = 0; npt = 0; addr = 4094; pt = 0x1000; ksym = [] }

abbrev start : Start
start = record { pt = 0x1000; pm = PageMode.ia32e; addr = 4094 }

conf-IsPaged : IsPaged conf
conf-IsPaged = (refl, omega arith)

abbrev IsGood : Unit {0} → Type 0
IsGood s = Unit {0}

env-IsBacked : IsBacked env conf IsGood bytes tr 4094 4
env-IsBacked a s lo hi good = (s, refl, tt)

env-IsMapped : IsMapped env conf ctx start IsGood tr 4094 4
unfolding program
env-IsMapped = record {
  found = λ a s lo hi good. (s, refl, tt);
  contiguous = λ a i lo hi within. contiguous a i within;
}
  where
    contiguous : (a i : ℕ) → tr a % 4096 + i < 4096 → tr (a + i) ≡ tr a + i
    contiguous a i within = ground arith

vmi_read-window_example :
    (s' : Unit {0}) × (vmi_read env conf ctx 4 tt
      ≡ (success, 12286 % 251 ∷ 12287 % 251 ∷ 0 ∷ 1 ∷ [], s'))
    × Unit {0}
unfolding program
vmi_read-window_example =
    vmi_read-window env conf ctx start IsGood bytes tr 4 conf-IsPaged env-IsBacked env-IsMapped
      (omega arith) (omega arith) (omega arith) tt tt refl refl tt

pages_whole :
    (pfn : ℕ) (s : Unit {0}) (page : List ℕ)
    → (env.read_page pfn s).0 ≡ some page
    → length page ≡ conf.page_size
pages_whole pfn s page e =
    ap length (sym (some-injective (window bytes (pfn * 4096) 4096) page e))
    ∙ length-window bytes (pfn * 4096) 4096

vmi_read-IsReported_example : IsReported 4 (vmi_read env conf ctx 4 tt)
vmi_read-IsReported_example =
    vmi_read-IsReported env conf ctx conf-IsPaged (omega arith) pages_whole 4 tt (omega arith)
      (omega arith)
