-- ===== src/Tests/Processes.antt =====
-- libvmi/os/linux/memory.c and libvmi/os/freebsd/memory.c on small kernels.
use mathlib.Core.Path.{subst}
use libvmi.Common.{
  ℕ, ◌*◌, ◌/◌, ◌%◌, ◌^◌, ◌<◌, ltb, ◌||◌, ◌==◌, [], ◌∷◌, none, some, if◌then◌else◌, inl, ◌≡◌, refl,
  ap, arith,
}
use libvmi.PageMode.{valid_npm, valid_pm}
use libvmi.Types.{Status, success, failure, Conf, le_word}
use libvmi.Access.Env.{Env, start_pid, resolve, part_len}
use libvmi.Access.Window.{window}
use libvmi.Access.Read.{read_start, start_ok, read_loop, vmi_read}
use libvmi.Access.Sized.{le_bytes, overwrite, into, vmi_read_va, vmi_read_32_va, vmi_read_addr_va}
use libvmi.Os.Kernel.{as_int, add_addr, sub_addr}
use libvmi.Os.Linux.{
  LinuxInstance, is_pgd, linux_get_taskstruct_addr_from_pid, linux_pid_to_pgd, linux_pgd_to_pid,
}
use libvmi.Os.Linux.Ring.{Task, find_pid, find_pgd, IsRing, IsBroken}
use libvmi.Os.Linux.Spaces.{IsSpace, IsUser, IsUnmapped}
use libvmi.Os.Linux.Laws.{
  linux_pid_to_pgd-find, linux_pgd_to_pid-linux_pid_to_pgd,
  linux_get_taskstruct_addr_from_pid-never,
}
use libvmi.Os.Freebsd.{FreebsdInstance, freebsd_pid_to_pgd, freebsd_pgd_to_pid}
use libvmi.Os.Freebsd.Laws.{Proc, find_proc, AreProcs, freebsd_pgd_to_pid-freebsd_pid_to_pgd}
use libvmi.Tests.{conf}

-- Pages of 16 bytes; the kernel is mapped from 16 on, each address to itself, but for `hole`.
abbrev small_pages : Conf
small_pages = record conf { page_size = 16; page_shift = 4 }

abbrev memory : (ℕ → ℕ) → ℕ → ℕ
memory word a = word (a / 8 * 8) / 256 ^ (a % 8) % 256

abbrev env_but : ℕ → (ℕ → ℕ) → Env (Unit {0})
env_but hole word = record {
  lookup = λ npt npm pt pm va s.
      ((if ltb va 16 || va == hole || ltb (2 ^ 48) va then failure else success), (va, 0), s);
  read_page = λ pfn s. (some (window (memory word) (pfn * 16) 16), s);
  write = λ paddr buf s. (failure, s);
  ksym2v = λ sym s. (none, s);
  pid_to_dtb = λ pid s. (none, s);
}

abbrev env : (ℕ → ℕ) → Env (Unit {0})
env = env_but 0

abbrev IsGood : Unit {0} → Type 0
IsGood s = Unit {0}

program : Unit {0}
unfolding resolve valid_npm valid_pm start_pid part_len read_start start_ok read_loop vmi_read
    window le_word le_bytes overwrite into vmi_read_va vmi_read_32_va vmi_read_addr_va as_int
    add_addr sub_addr is_pgd find_pid find_pgd find_proc
program = tt

-- A variable that no byte is copied to keeps its value.
old_word :
    (old : ℕ) {s : Unit {0}}
    → old < 2 ^ 64
    → ◌≡◌ {A = Status × ℕ × Unit {0}} (failure, overwrite 8 old [], s) (failure, old, s)
unfolding overwrite le_bytes le_word
old_word old {s} small = ap (λ (v : ℕ). (failure, v, s)) (omega (arith, small))

old_half :
    (old : ℕ) {s : Unit {0}}
    → old < 2 ^ 32
    → ◌≡◌ {A = Status × ℕ × Unit {0}} (failure, overwrite 4 old [], s) (failure, old, s)
unfolding overwrite le_bytes le_word
old_half old {s} small = ap (λ (v : ℕ). (failure, v, s)) (omega (arith, small))

-- A thread of the kernel at 32 and process 7 at 64.
abbrev linux : LinuxInstance
linux = record { tasks_offset = 8; mm_offset = 16; pid_offset = 0; pgd_offset = 8 }

abbrev swapper : Task
swapper = record { addr = 32; pid = 0; mm = 0; pgd = 0; dtb = 0 }

abbrev shell : Task
shell = record { addr = 64; pid = 7; mm = 96; pgd = 0x40000; dtb = 0x20000 }

abbrev two_tasks : ℕ → ℕ
two_tasks a =
    if a == 40
    then 72
    else if a == 64
    then 7
    else if a == 72
    then 40
    else if a == 80
    then 96
    else if a == 104
    then 0x40000
    else 0

abbrev kv2p : ℕ → ℕ → Unit {0} → Status × ℕ × Unit {0}
kv2p v out s = if v == 0x40000 then (success, 0x20000, s) else (failure, 0, s)

ring : IsRing (env two_tasks) small_pages linux IsGood 40 swapper (shell ∷ [])
unfolding program
ring = (
  (omega arith, omega arith, λ old s good. (tt, refl, tt)),
  λ old s good. (tt, refl, tt),
  omega arith,
  ((omega arith, omega arith, λ old s good. (tt, refl, tt)), λ old s good. (tt, refl, tt)),
)

low : IsUnmapped (env two_tasks) small_pages kv2p linux IsGood 0
low = (omega arith, λ out s good. (tt, refl, tt))

swapper-IsSpace : IsSpace (env two_tasks) small_pages kv2p linux IsGood swapper
unfolding program
swapper-IsSpace = (
  λ old s good. (tt, refl, tt),
  λ e old s small good. (old, tt, old_word old small, inl refl, tt),
  λ has_mm. elim (has_mm refl) [ ],
)

shell-IsSpace : IsSpace (env two_tasks) small_pages kv2p linux IsGood shell
unfolding program
shell-IsSpace = (
  λ old s good. (tt, refl, tt),
  λ e. absurd (omega (arith, e)),
  λ has_mm. (
    λ old s good. (tt, refl, tt),
    λ old s good. (tt, refl, tt),
    (omega arith, λ old s good. (tt, refl, tt)),
  ),
)

found-IsUser :
    (t : Task)
    → find_pid 7 (swapper ∷ shell ∷ []) ≡ some t
    → IsUser (env two_tasks) small_pages kv2p linux IsGood t
unfolding program
found-IsUser t e =
    let same : shell ≡ t = ground (arith, e) in
    subst (IsUser (env two_tasks) small_pages kv2p linux IsGood) same (
      omega arith,
      λ old s good. (tt, refl, tt),
      λ old s good. (tt, refl, tt),
      λ old s good. (tt, refl, tt),
    )

linux_pid_to_pgd-find_example :
    (s : Unit {0}) × (linux_pid_to_pgd (env two_tasks) small_pages kv2p (some linux) 32 2 7 0 tt
      ≡ some (success, 0x20000, s))
    × Unit {0}
unfolding program
linux_pid_to_pgd-find_example =
    linux_pid_to_pgd-find (env two_tasks) small_pages kv2p linux swapper (shell ∷ []) IsGood ring 2
      7 0 tt (omega arith) found-IsUser tt

linux_pgd_to_pid-linux_pid_to_pgd_example :
    (s₁ s₂ : Unit {0}) × (linux_pid_to_pgd (env two_tasks) small_pages kv2p (some linux) 32 2 7 0 tt
      ≡ some (success, 0x20000, s₁))
    × (linux_pgd_to_pid (env two_tasks) small_pages kv2p (some linux) 32 2 0x20000 9 s₁
        ≡ some (success, 7, s₂))
    × Unit {0}
unfolding program
linux_pgd_to_pid-linux_pid_to_pgd_example =
    linux_pgd_to_pid-linux_pid_to_pgd (env two_tasks) small_pages kv2p linux swapper (shell ∷ [])
      IsGood ring 2 7 0 9 shell tt (omega arith) (swapper-IsSpace, (shell-IsSpace, tt)) low refl
      refl (omega arith) refl tt

-- The entry of the second task cannot be read.
broken : IsBroken (env_but 72 two_tasks) small_pages linux IsGood 40 swapper (shell ∷ [])
unfolding program
broken = (
  (omega arith, omega arith, λ old s good. (tt, refl, tt)),
  λ old s good. (tt, refl, tt),
  omega arith,
  (
    (omega arith, omega arith, λ old s good. (tt, refl, tt)),
    omega arith,
    omega arith,
    omega arith,
    λ old s small good. (old, tt, old_word old small, inl refl, tt),
    λ old s small good. (old, tt, old_word old small, inl refl, tt),
    λ old s small good. (tt, old_half old small, tt),
  ),
)

linux_get_taskstruct_addr_from_pid-never_example :
    linux_get_taskstruct_addr_from_pid
      (env_but 72 two_tasks)
      small_pages
      kv2p
      (some linux)
      32
      1000000
      9
      tt
    ≡ none
unfolding program
linux_get_taskstruct_addr_from_pid-never_example =
    linux_get_taskstruct_addr_from_pid-never (env_but 72 two_tasks) small_pages kv2p linux swapper
      (shell ∷ []) IsGood 1000000 9 tt broken refl tt

-- Two processes, at 32 and at 64.
abbrev freebsd : FreebsdInstance
freebsd = record { pid_offset = 8; vmspace_offset = 16; pmap_offset = 4; pgd_offset = 4 }

abbrev kernel_proc : Proc
kernel_proc = record { addr = 32; pid = 0; vmspace = 96; root = 0x3000 }

abbrev init_proc : Proc
init_proc = record { addr = 64; pid = 1; vmspace = 112; root = 0x5000 }

abbrev two_procs : ℕ → ℕ
two_procs a =
    if a == 32
    then 64
    else if a == 48
    then 96
    else if a == 104
    then 0x3000
    else if a == 72
    then 1
    else if a == 80
    then 112
    else if a == 120
    then 0x5000
    else 0

procs : AreProcs (env two_procs) small_pages freebsd IsGood kernel_proc (init_proc ∷ [])
unfolding program
procs = (
  (
    omega arith,
    λ old s good. (tt, refl, tt),
    λ old s good. (tt, refl, tt),
    λ old s good. (tt, refl, tt),
  ),
  λ old s good. (tt, refl, tt),
  (
    (
      omega arith,
      λ old s good. (tt, refl, tt),
      λ old s good. (tt, refl, tt),
      λ old s good. (tt, refl, tt),
    ),
    λ old s good. (tt, refl, tt),
  ),
)

freebsd_pgd_to_pid-freebsd_pid_to_pgd_example :
    (s₁ s₂ : Unit {0}) × (freebsd_pid_to_pgd (env two_procs) small_pages (some freebsd) 32 2 1 0 tt
      ≡ some (success, 0x5000, s₁))
    × (freebsd_pgd_to_pid (env two_procs) small_pages (some freebsd) 32 2 0x5000 9 s₁
        ≡ some (success, 1, s₂))
    × Unit {0}
unfolding program
freebsd_pgd_to_pid-freebsd_pid_to_pgd_example =
    freebsd_pgd_to_pid-freebsd_pid_to_pgd (env two_procs) small_pages freebsd IsGood kernel_proc
      (init_proc ∷ []) procs 2 1 0 9 init_proc tt (omega arith) refl refl tt
