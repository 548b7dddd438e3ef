-- ===== src/Os/Linux/Laws.antt =====
-- libvmi/os/linux/memory.c: processes and page directories on a well-formed ring of tasks, and on a
-- list that breaks off.
use mathlib.Core.Path.{subst}
use libvmi.Common.{
  ℕ, ◌-◌, ◌^◌, ◌<◌, false, not, ◌&&◌, ◌==◌, Bool-cases, List, [], ◌∷◌, length, Option, none, some,
  inl, inr, ◌≡◌, ◌≢◌, refl, ap, ◌∙◌, arith,
}
use libvmi.Types.{Status, success, failure, Conf}
use libvmi.Access.Env.{Env}
use libvmi.Os.Kernel.{as_int}
use libvmi.Os.Linux.{
  LinuxInstance, is_pgd, pgd_of_mm, pgd_of_task, linux_get_taskstruct_addr_from_pid,
  linux_get_taskstruct_addr_from_pgd, linux_pid_to_pgd, linux_pgd_to_pid,
}
use libvmi.Os.Linux.Ring.{
  Task, find_pid, find_pgd, address, entry, IsTask, IsRing, IsBroken, ring_small, loop_lem,
  broken_lem,
}
use libvmi.Os.Linux.Spaces.{IsSpace, IsUser, AreSpaces, IsUnmapped, spaces_lem}

-- A status and the value of the variable: for a task its page directory or its number.
abbrev pub reply : {S : Type 0} → (Task → ℕ) → ℕ → Option Task → S → Status × ℕ × S
reply value old none s = (failure, old, s)
reply value old (some t) s = (success, value t, s)

module _ {S : Type 0} (env : Env S) (conf : Conf) (kv2p : ℕ → ℕ → S → Status × ℕ × S)
    (os : LinuxInstance) (init : Task) (rest : List Task) (IsGood : S → Type 0) where
  abbrev Ring : Type 0
  Ring = IsRing env conf os IsGood (entry env conf os IsGood init) init rest

  abbrev IsReadable : Task → Type 0
  IsReadable = IsTask env conf os IsGood

  pid_task :
      (head : ℕ) (u : Task) (us : List Task) (pid : ℕ) (t : Task)
      → IsRing env conf os IsGood head u us
      → find_pid pid (u ∷ us) ≡ some t
      → IsReadable t × (t.pid ≡ pid)
  unfolding find_pid
  pid_task head u [] pid t (task, link) e = elim (Bool-cases (u.pid == pid)) [
    | inl y ↦ (subst IsReadable {x = u} {y = t} (ground (arith, y, e)) task, ground (arith, y, e))
    | inr n ↦ absurd (ground (arith, n, e))
  ]
  pid_task head u (v ∷ us) pid t (task, link, other, ring) e = elim (Bool-cases (u.pid == pid)) [
    | inl y ↦ (subst IsReadable {x = u} {y = t} (ground (arith, y, e)) task, ground (arith, y, e))
    | inr n ↦ pid_task head v us pid t ring (ground (arith, n, e))
  ]

  pgd_task :
      (head : ℕ) (u : Task) (us : List Task) (pgd : ℕ) (t : Task)
      → IsRing env conf os IsGood head u us
      → find_pgd pgd (u ∷ us) ≡ some t
      → IsReadable t
  unfolding find_pgd
  pgd_task head u [] pgd t (task, link) e =
      elim (Bool-cases (not (u.mm == 0) && is_pgd pgd u.dtb)) [
        | inl y ↦ subst IsReadable {x = u} {y = t} (ground (arith, y, e)) task
        | inr n ↦ absurd (ground (arith, n, e))
      ]
  pgd_task head u (v ∷ us) pgd t (task, link, other, ring) e =
      elim (Bool-cases (not (u.mm == 0) && is_pgd pgd u.dtb)) [
        | inl y ↦ subst IsReadable {x = u} {y = t} (ground (arith, y, e)) task
        | inr n ↦ pgd_task head v us pgd t ring (ground (arith, n, e))
      ]

  space_of :
      (pid : ℕ) (us : List Task) (t : Task)
      → AreSpaces env conf kv2p os IsGood us
      → find_pid pid us ≡ some t
      → IsSpace env conf kv2p os IsGood t
  unfolding find_pid
  space_of pid [] t spaces e = absurd (ground (arith, e))
  space_of pid (u ∷ us) t (space, spaces) e = elim (Bool-cases (u.pid == pid)) [
    | inl y ↦ subst (IsSpace env conf kv2p os IsGood) {x = u} {y = t} (ground (arith, y, e)) space
    | inr n ↦ space_of pid us t spaces (ground (arith, n, e))
  ]

  -- The page directory of a user process.
  pgd_of_task_lem :
      (t : Task) (pgd : ℕ) (s : S)
      → IsReadable t
      → IsUser env conf kv2p os IsGood t
      → IsGood s
      → (s' : S) × (pgd_of_task env conf kv2p
            (as_int os.mm_offset)
            (as_int os.pgd_offset)
            t.addr
            pgd
            s
          ≡ (success, t.dtb, s'))
        × IsGood s'
  unfolding pgd_of_task pgd_of_mm
  pgd_of_task_lem t pgd s (small, real, number) (has_mm, mm, root, translated) good =
      let (s₁, e₁, good₁) = mm 0 s good in
      let (s₂, e₂, good₂) = root pgd s₁ good₁ in
      let (s₃, e₃, good₃) = translated t.pgd s₂ good₂ in
      (s₃, ground (arith, real, has_mm, e₁, e₂, e₃), good₃)

  module _ (ring : Ring) where
    from_pid :
        (fuel pid : ℕ) (s : S)
        → length rest < fuel
        → IsGood s
        → (s' : S) × (linux_get_taskstruct_addr_from_pid env conf kv2p
              (some os)
              init.addr
              fuel
              pid
              s
            ≡ some (address (find_pid pid (init ∷ rest)), s'))
          × IsGood s'
    unfolding linux_get_taskstruct_addr_from_pid
    from_pid fuel pid s enough good =
        loop_lem env conf os IsGood pid (entry env conf os IsGood init) fuel init rest (2 ^ 32 - 1)
          s ring enough good

    -- On a well-formed ring of tasks linux_pid_to_pgd ends within as many rounds as there are tasks:
    -- it succeeds with the physical address of the page directory of the first task that has the
    -- number, and fails, with *pgd as it was, if none has it. Each task must have a task_struct that
    -- is not at 0 and whose number can be read, links must lead from task to task and back to the
    -- first, and the task that is found must be a user process: it has a memory descriptor, and the
    -- page directory of that can be read and translated. Addresses have 64 bits.
    pub linux_pid_to_pgd-find :
        (fuel pid pgd : ℕ) (s : S)
        → length rest < fuel
        → ((t : Task) → find_pid pid (init ∷ rest) ≡ some t → IsUser env conf kv2p os IsGood t)
        → IsGood s
        → (s' : S) × (linux_pid_to_pgd env conf kv2p (some os) init.addr fuel pid pgd s
            ≡ some (reply (λ t. t.dtb) pgd (find_pid pid (init ∷ rest)) s'))
          × IsGood s'
    unfolding linux_pid_to_pgd pgd_of_task
    linux_pid_to_pgd-find fuel pid pgd s enough space good =
        let (s₁, e, good₁) = from_pid fuel pid s enough good in
        let task = pid_task (entry env conf os IsGood init) init rest pid in
        (elim (find_pid pid (init ∷ rest))
            as (λ o.
              find_pid pid (init ∷ rest) ≡ o
              → (s' : S) × (linux_pid_to_pgd env conf kv2p (some os) init.addr fuel pid pgd s
                  ≡ some (reply (λ t. t.dtb) pgd o s'))
                × IsGood s') [
                  | none ↦ λ is. (s₁, ground (arith, e, is), good₁)
                  | some t ↦ λ is.
                      let (s', e', good') =
                        pgd_of_task_lem t pgd s₁ (task t ring is).0 (space t is) good₁ in
                      (s', ground (arith, e, is, e'), good')
                ])
          refl

    -- On such a ring, on which every task is a user process whose page directory can be read and
    -- translated or a thread of the kernel without a memory descriptor, linux_pgd_to_pid ends within
    -- as many rounds as there are tasks: it succeeds with the number of the first process whose page
    -- directory is the one asked for, with or without its low 13 bits, and fails, with *pid as it
    -- was, if there is none. The address asked for must have a bit above these, and neither 0 nor a
    -- page directory's physical address may be mapped as an address of the kernel: a translation of
    -- it fails and leaves 0.
    pub linux_pgd_to_pid-find :
        (fuel pgd pid : ℕ) (s : S)
        → length rest < fuel
        → AreSpaces env conf kv2p os IsGood (init ∷ rest)
        → IsUnmapped env conf kv2p os IsGood 0
        → is_pgd pgd 0 ≡ false
        → IsGood s
        → (s' : S) × (linux_pgd_to_pid env conf kv2p (some os) init.addr fuel pgd pid s
            ≡ some (reply (λ t. t.pid) pid (find_pgd pgd (init ∷ rest)) s'))
          × IsGood s'
    unfolding linux_pgd_to_pid linux_get_taskstruct_addr_from_pgd
    linux_pgd_to_pid-find fuel pgd pid s enough spaces low not_low good =
        let (s₁, e, good₁) =
          spaces_lem env conf kv2p os IsGood pgd not_low low init
            (ring_small env conf os IsGood (entry env conf os IsGood init) init rest ring) fuel init
            rest 0 s ring spaces low enough good in
        let task = pgd_task (entry env conf os IsGood init) init rest pgd in
        (elim (find_pgd pgd (init ∷ rest))
            as (λ o.
              find_pgd pgd (init ∷ rest) ≡ o
              → (s' : S) × (linux_pgd_to_pid env conf kv2p (some os) init.addr fuel pgd pid s
                  ≡ some (reply (λ t. t.pid) pid o s'))
                × IsGood s') [
                  | none ↦ λ is. (s₁, ground (arith, e, is), good₁)
                  | some t ↦ λ is.
                      let (small, real, number) = task t ring is in
                      let (s', e', good') = number pid s₁ good₁ in
                      (s', ground (arith, e, is, real, e'), good')
                ])
          refl

    -- The two are inverse to each other: on such a ring, for the number of a user process that is the
    -- first task with that number and the first with its page directory, linux_pid_to_pgd succeeds
    -- with an address from which linux_pgd_to_pid, called next, succeeds with the number. Every task
    -- is a user process whose page directory can be read and translated, or a thread of the kernel
    -- without a memory descriptor. At the offset of pgd in a descriptor at 0 nothing can be read,
    -- which leaves the variable as it was or sets it to 0. A translation of 0, or of a page
    -- directory's physical address, as an address of the kernel fails and leaves 0; and the page
    -- directory of the process has a bit above its low 13.
    pub linux_pgd_to_pid-linux_pid_to_pgd :
        (fuel pid pgd old : ℕ) (t : Task) (s : S)
        → length rest < fuel
        → AreSpaces env conf kv2p os IsGood (init ∷ rest)
        → IsUnmapped env conf kv2p os IsGood 0
        → is_pgd t.dtb 0 ≡ false
        → find_pid pid (init ∷ rest) ≡ some t
        → t.mm ≢ 0
        → find_pgd t.dtb (init ∷ rest) ≡ some t
        → IsGood s
        → (s₁ s₂ : S) × (linux_pid_to_pgd env conf kv2p (some os) init.addr fuel pid pgd s
            ≡ some (success, t.dtb, s₁))
          × (linux_pgd_to_pid env conf kv2p (some os) init.addr fuel t.dtb old s₁
              ≡ some (success, pid, s₂))
          × IsGood s₂
    linux_pgd_to_pid-linux_pid_to_pgd fuel pid pgd old t s enough spaces low not_low is has_mm is'
          good =
        let of_found = λ (u : Task) (e : find_pid pid (init ∷ rest) ≡ some u).
          let same : t ≡ u = ground (arith, e, is) in
          let real : u.mm ≢ 0 = subst (λ v. v.mm ≢ 0) same has_mm in
          let (mm, thread, user) = space_of pid (init ∷ rest) u spaces e in
          let (root, translated, unmapped) = user real in
          let both : IsUser env conf kv2p os IsGood u = (real, mm, root, translated) in both in
        let (s₁, e₁, good₁) = linux_pid_to_pgd-find fuel pid pgd s enough of_found good in
        let (s₂, e₂, good₂) =
          linux_pgd_to_pid-find fuel t.dtb old s₁ enough spaces low not_low good₁ in
        let number = pid_task (entry env conf os IsGood init) init rest pid t ring is in
        (
          s₁,
          s₂,
          e₁ ∙ ap (λ o. some (reply (λ u. u.dtb) pgd o s₁)) is,
          e₂
              ∙ ap (λ o. some (reply (λ u. u.pid) old o s₂)) is'
              ∙ ap (λ n. some (success, n, s₂)) number.1,
          good₂,
        )

  -- When the links lead to a task from whose entry nothing can be read, and no task up to it has the
  -- number, linux_get_taskstruct_addr_from_pid does not end, however many rounds it has: whether the
  -- failed read leaves the link as it was or sets it to 0, as it does where addresses have 32 bits.
  -- Up to that task every task_struct has a number that can be read and is not at 0; the entry of the
  -- first task is not at 0 either, and nothing can be read at 0, nor where the number of a task with
  -- its entry at 0 would be. Addresses have 64 bits, and the number of the last task has 32.
  pub linux_get_taskstruct_addr_from_pid-never :
      (fuel pid : ℕ) (s : S)
      → IsBroken env conf os IsGood (entry env conf os IsGood init) init rest
      → find_pid pid (init ∷ rest) ≡ none
      → IsGood s
      → linux_get_taskstruct_addr_from_pid env conf kv2p (some os) init.addr fuel pid s ≡ none
  unfolding linux_get_taskstruct_addr_from_pid
  linux_get_taskstruct_addr_from_pid-never fuel pid s broken absent good =
      broken_lem env conf os IsGood pid (entry env conf os IsGood init) fuel init rest (2 ^ 32 - 1)
        s broken absent good
