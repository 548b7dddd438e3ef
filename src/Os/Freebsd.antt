-- ===== src/Os/Freebsd.antt =====
-- libvmi/os/freebsd/memory.c: from a process's number to its page directory and back, along the
-- list of struct proc, which ends with NULL. Loops stand on fuel: `none` is a loop that has not
-- ended.
pub mod Laws
use libvmi.Common.{ℕ, zero, suc, ◌-◌, ◌^◌, ◌==◌, Option, none, some, if◌then◌else◌}
use libvmi.Types.{Status, success, failure, Conf}
use libvmi.Access.Env.{Env}
use libvmi.Access.Sized.{vmi_read_32_va, vmi_read_addr_va}
use libvmi.Os.Kernel.{and_then, as_int, add_addr}

-- The offsets of a freebsd_instance_t that the searches use, each an addr_t.
pub record FreebsdInstance : Type 0 where
  pub pid_offset : ℕ
  pub vmspace_offset : ℕ
  pub pmap_offset : ℕ
  pub pgd_offset : ℕ

module _ {S : Type 0} (env : Env S) (conf : Conf) where
  -- The do-while loop of freebsd_get_taskstruct_addr_from_pid.
  unfoldable pub pid_loop : (pid_at pid : ℕ) → ℕ → ℕ → ℕ → S → Option (ℕ × S)
  pid_loop pid_at pid zero next_process task_pid s = none
  pid_loop pid_at pid (suc fuel) next_process task_pid s =
      let (got, task_pid', s₁) =
        vmi_read_32_va env conf (add_addr next_process pid_at) 0 task_pid s in
      let (next, next_process', s₂) = vmi_read_addr_va env conf next_process 0 next_process s₁ in
      let rest = pid_loop pid_at pid fuel next_process' task_pid' s₂ in
      if task_pid' == pid
      then some (next_process, s₁)
      else if next_process' == 0
      then some (0, s₂)
      else rest

  -- The do-while loop of freebsd_get_taskstruct_addr_from_pgd; `root_at` is pmap_offset + pgd_offset.
  unfoldable pub pgd_loop : (vmspace_at root_at pgd : ℕ) → ℕ → ℕ → ℕ → S → Option (ℕ × S)
  pgd_loop vmspace_at root_at pgd zero next_process task_pgd s = none
  pgd_loop vmspace_at root_at pgd (suc fuel) next_process task_pgd s =
      let (r₁, ptr, s₁) = vmi_read_addr_va env conf (add_addr next_process vmspace_at) 0 0 s in
      let (r₂, task_pgd', s₂) = vmi_read_addr_va env conf (add_addr ptr root_at) 0 task_pgd s₁ in
      let (r₃, next_process', s₃) = vmi_read_addr_va env conf next_process 0 next_process s₂ in
      let rest = pgd_loop vmspace_at root_at pgd fuel next_process' task_pgd' s₃ in
      if task_pgd' == pgd
      then some (next_process, s₂)
      else if next_process' == 0
      then some (0, s₃)
      else rest

  -- What freebsd_pid_to_pgd does with the address of a struct proc.
  unfoldable pub pgd_of_proc : (vmspace_at root_at : ℕ) → ℕ → ℕ → S → Status × ℕ × S
  pgd_of_proc vmspace_at root_at proc_addr pgd s =
      let (rc, ptr, s₁) = vmi_read_addr_va env conf (add_addr proc_addr vmspace_at) 0 0 s in
      if proc_addr == 0 then (failure, pgd, s) else (elim rc [
        | failure ↦ (failure, pgd, s₁)
        | success ↦ vmi_read_addr_va env conf (add_addr ptr root_at) 0 pgd s₁
      ])

  -- `os_data` is none when it is NULL.
  module _ (os_data : Option FreebsdInstance) (init_task : ℕ) where
    unfoldable pub freebsd_get_taskstruct_addr_from_pid : ℕ → ℕ → S → Option (ℕ × S)
    freebsd_get_taskstruct_addr_from_pid fuel pid s = elim os_data [
      | none ↦ some (0, s)
      | some os ↦ pid_loop (as_int os.pid_offset) pid fuel init_task (2 ^ 32 - 1) s
    ]

    unfoldable pub freebsd_get_taskstruct_addr_from_pgd : ℕ → ℕ → S → Option (ℕ × S)
    freebsd_get_taskstruct_addr_from_pgd fuel pgd s = elim os_data [
      | none ↦ some (0, s)
      | some os ↦
          pgd_loop (as_int os.vmspace_offset)
            (add_addr (as_int os.pmap_offset) (as_int os.pgd_offset)) pgd fuel init_task 0 s
    ]

    -- A status, and *pgd, which was `pgd`. Without os_data the function returns 0, which is success.
    unfoldable pub freebsd_pid_to_pgd : ℕ → ℕ → ℕ → S → Option (Status × ℕ × S)
    freebsd_pid_to_pgd fuel pid pgd s = elim os_data [
      | none ↦ some (success, pgd, s)
      | some os ↦ and_then (freebsd_get_taskstruct_addr_from_pid fuel pid s) (λ (found : ℕ × S).
          some (
            pgd_of_proc (as_int os.vmspace_offset)
              (add_addr (as_int os.pmap_offset) (as_int os.pgd_offset)) found.0 pgd found.1))
    ]

    -- A status, and *pid, which was `pid`.
    unfoldable pub freebsd_pgd_to_pid : ℕ → ℕ → ℕ → S → Option (Status × ℕ × S)
    freebsd_pgd_to_pid fuel pgd pid s = elim os_data [
      | none ↦ some (failure, pid, s)
      | some os ↦ and_then (freebsd_get_taskstruct_addr_from_pgd fuel pgd s) (λ (found : ℕ × S).
          if found.0 == 0
          then some (failure, pid, found.1)
          else some
              (vmi_read_32_va env conf (add_addr found.0 (as_int os.pid_offset)) 0 pid found.1))
    ]
