-- ===== src/Os/Linux.antt =====
-- libvmi/os/linux/memory.c: from a process's number to its page directory and back, along the ring
-- of task_struct. Loops stand on fuel: `none` is a loop that has not ended.
pub mod Ring
pub mod Spaces
pub mod Laws
use libvmi.Common.{
  ℕ, zero, suc, ◌-◌, ◌^◌, bit_and, Bool, ◌||◌, ◌==◌, Option, none, some, if◌then◌else◌,
}
use libvmi.PageMode
use libvmi.Types.{Status, success, failure, Conf}
use libvmi.Access.Env.{Env}
use libvmi.Access.Sized.{vmi_read_32_va, vmi_read_addr_va}
use libvmi.Os.Kernel.{and_then, as_int, add_addr, sub_addr}

-- The offsets of a linux_instance_t that the searches use, each an addr_t.
pub record LinuxInstance : Type 0 where
  pub tasks_offset : ℕ
  pub mm_offset : ℕ
  pub pid_offset : ℕ
  pub pgd_offset : ℕ

-- The switch over the page mode: how far active_mm stands behind mm, `none` being the default.
unfoldable pub pointer_width : ℕ → Option ℕ
pointer_width pm =
    if pm == PageMode.aarch64 || pm == PageMode.ia32e
    then some 8
    else if (pm == PageMode.aarch32 || pm == PageMode.legacy) || pm == PageMode.pae
    then some 4
    else none

-- The page directory of a task is the one asked for, with or without the bits of PCID and KPTI.
unfoldable pub is_pgd : ℕ → ℕ → Bool
is_pgd pgd task_pgd = task_pgd == pgd || task_pgd == bit_and pgd (2 ^ 64 - 2 ^ 13)

module _ {S : Type 0} (env : Env S) (conf : Conf) where
  -- The do-while loop of linux_get_taskstruct_addr_from_pid; `tasks` and `pid_at` are its offsets. A
  -- pid is the bit pattern of an int32_t, and a read that fails leaves its variable as it is.
  unfoldable pub pid_loop : (tasks pid_at pid list_head : ℕ) → ℕ → ℕ → ℕ → ℕ → S → Option (ℕ × S)
  pid_loop tasks pid_at pid list_head zero curr_proc curr_entry task_pid s = none
  pid_loop tasks pid_at pid list_head (suc fuel) curr_proc curr_entry task_pid s =
      let (got, task_pid', s₁) = vmi_read_32_va env conf (add_addr curr_proc pid_at) 0 task_pid s in
      let (next, curr_entry', s₂) = vmi_read_addr_va env conf curr_entry 0 curr_entry s₁ in
      let curr_proc' = sub_addr curr_entry' tasks in
      let rest = pid_loop tasks pid_at pid list_head fuel curr_proc' curr_entry' task_pid' s₂ in
      if task_pid' == pid
      then some (curr_proc, s₁)
      else if list_head == curr_entry'
      then some (0, s₂)
      else rest

  -- `kv2p vaddr out` is vmi_translate_kv2p: a status, and *paddr, which was `out`.
  module _ (kv2p : ℕ → ℕ → S → Status × ℕ × S) where
    -- The do-while loop of linux_get_taskstruct_addr_from_pgd.
    unfoldable pub pgd_loop :
        (tasks mm_at pgd_at pgd list_head : ℕ) → ℕ → ℕ → ℕ → S → Option (ℕ × S)
    pgd_loop tasks mm_at pgd_at pgd list_head zero next_process task_pgd s = none
    pgd_loop tasks mm_at pgd_at pgd list_head (suc fuel) next_process task_pgd s =
        let (r₁, ptr, s₁) = vmi_read_addr_va env conf (add_addr next_process mm_at) 0 0 s in
        let (r₂, virt, s₂) = vmi_read_addr_va env conf (add_addr ptr pgd_at) 0 task_pgd s₁ in
        let (r₃, task_pgd', s₃) = kv2p virt virt s₂ in
        let (r₄, entry, s₄) =
          vmi_read_addr_va env conf (add_addr next_process tasks) 0 next_process s₃ in
        let next_process' = sub_addr entry tasks in
        let rest = pgd_loop tasks mm_at pgd_at pgd list_head fuel next_process' task_pgd' s₄ in
        if is_pgd pgd task_pgd'
        then some (next_process, s₃)
        else if list_head == next_process'
        then some (0, s₄)
        else rest

    -- The end of linux_pid_to_pgd, from the memory descriptor on.
    unfoldable pub pgd_of_mm : ℕ → ℕ → ℕ → S → Status × ℕ × S
    pgd_of_mm pgd_at ptr pgd s =
        let (rc, pgd', s') = vmi_read_addr_va env conf (add_addr ptr pgd_at) 0 pgd s in
        elim rc [ failure ↦ (failure, pgd', s') | success ↦ kv2p pgd' pgd' s' ]

    -- The fallback to active_mm.
    unfoldable pub active_mm : (mm_at pgd_at : ℕ) → ℕ → ℕ → S → Status × ℕ × S
    active_mm mm_at pgd_at ts_addr pgd s = elim (pointer_width conf.page_mode) [
      | none ↦ (success, pgd, s)
      | some width ↦
          let (rc, ptr, s') =
            vmi_read_addr_va env conf (add_addr (add_addr ts_addr mm_at) width) 0 0 s in
          elim rc [
            | failure ↦ (failure, pgd, s')
            | success ↦ if ptr == 0 then (success, pgd, s') else pgd_of_mm pgd_at ptr pgd s'
          ]
    ]

    -- What linux_pid_to_pgd does with the address of a task_struct.
    unfoldable pub pgd_of_task : (mm_at pgd_at : ℕ) → ℕ → ℕ → S → Status × ℕ × S
    pgd_of_task mm_at pgd_at ts_addr pgd s =
        let (rc, ptr, s') = vmi_read_addr_va env conf (add_addr ts_addr mm_at) 0 0 s in
        if ts_addr == 0 then (failure, pgd, s) else (elim rc [
          | failure ↦ (failure, pgd, s')
          | success ↦
              if ptr == 0
              then active_mm mm_at pgd_at ts_addr pgd s'
              else pgd_of_mm pgd_at ptr pgd s'
        ])

    -- `os_data` is none when it is NULL.
    module _ (os_data : Option LinuxInstance) (init_task : ℕ) where
      unfoldable pub linux_get_taskstruct_addr_from_pid : ℕ → ℕ → S → Option (ℕ × S)
      linux_get_taskstruct_addr_from_pid fuel pid s = elim os_data [
        | none ↦ some (0, s)
        | some os ↦
            let curr_entry = add_addr init_task (as_int os.tasks_offset) in
            pid_loop (as_int os.tasks_offset) (as_int os.pid_offset) pid curr_entry fuel init_task
              curr_entry (2 ^ 32 - 1) s
      ]

      unfoldable pub linux_get_taskstruct_addr_from_pgd : ℕ → ℕ → S → Option (ℕ × S)
      linux_get_taskstruct_addr_from_pgd fuel pgd s = elim os_data [
        | none ↦ some (0, s)
        | some os ↦
            pgd_loop (as_int os.tasks_offset) (as_int os.mm_offset) (as_int os.pgd_offset) pgd
              init_task fuel init_task 0 s
      ]

      -- A status, and *pgd, which was `pgd`.
      unfoldable pub linux_pid_to_pgd : ℕ → ℕ → ℕ → S → Option (Status × ℕ × S)
      linux_pid_to_pgd fuel pid pgd s = elim os_data [
        | none ↦ some (failure, pgd, s)
        | some os ↦ and_then (linux_get_taskstruct_addr_from_pid fuel pid s) (λ (found : ℕ × S).
            some (pgd_of_task (as_int os.mm_offset) (as_int os.pgd_offset) found.0 pgd found.1))
      ]

      -- A status, and *pid, which was `pid`.
      unfoldable pub linux_pgd_to_pid : ℕ → ℕ → ℕ → S → Option (Status × ℕ × S)
      linux_pgd_to_pid fuel pgd pid s = elim os_data [
        | none ↦ some (failure, pid, s)
        | some os ↦ and_then (linux_get_taskstruct_addr_from_pgd fuel pgd s) (λ (found : ℕ × S).
            if found.0 == 0
            then some (failure, pid, found.1)
            else some
                (vmi_read_32_va env conf (add_addr found.0 (as_int os.pid_offset)) 0 pid found.1))
      ]
