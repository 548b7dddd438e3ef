-- ===== src/Access/Env.antt =====
-- What libvmi/read.c and libvmi/write.c call: the page table lookup of libvmi/accessors.c, the
-- driver's pages, and the two translations of names and processes.
use libvmi.Common.{
  ℕ, ◌+◌, ◌-◌, ◌%◌, ◌^◌, not, ◌||◌, ◌==◌, ltb, List, Option, none, some, if◌then◌else◌,
}
use libvmi.Types.{Status, success, failure, Conf, AccessContext}
use libvmi.PageMode.{valid_pm, valid_npm}

-- `lookup npt npm pt pm vaddr` is vmi_nested_pagetable_lookup: a status, and what it leaves in
-- *paddr and *naddr; `read_page` and `write` are the driver's functions, `none` is NULL;
-- `ksym2v` is vmi_translate_ksym2v and `pid_to_dtb` is vmi_pid_to_dtb.
pub record Env (S : Type 0) : Type 0 where
  pub lookup : ℕ → ℕ → ℕ → ℕ → ℕ → S → Status × (ℕ × ℕ) × S
  pub read_page : ℕ → S → Option (List ℕ) × S
  pub write : ℕ → List ℕ → S → Status × S
  pub ksym2v : List ℕ → S → Option ℕ × S
  pub pid_to_dtb : ℕ → S → Option ℕ × S

-- pt, pm and start_addr of vmi_read and vmi_write.
pub record Start : Type 0 where
  pub pt : ℕ
  pub pm : ℕ
  pub addr : ℕ

-- `if (!pm) pm = vmi->page_mode;`
abbrev pub or_mode : Conf → ℕ → ℕ
or_mode conf pm = if pm == 0 then conf.page_mode else pm

-- How much of `count` bytes lies in a page behind an offset.
unfoldable pub part_len : Conf → ℕ → ℕ → ℕ
part_len conf offset count =
    if ltb conf.page_size ((offset + count) % 2 ^ 64) then conf.page_size - offset else count

module _ {S : Type 0} (env : Env S) (conf : Conf) where
  -- The case VMI_TM_KERNEL_SYMBOL, with the safety check.
  unfoldable pub start_ksym : AccessContext → ℕ → S → Option Start × S
  start_ksym ctx pm s =
      let (va, s') = env.ksym2v ctx.ksym s in
      if not conf.has_os_interface || conf.kpgd == 0 then (none, s) else (
        elim va [
          | none ↦ none
          | some addr ↦ some (record { pt = conf.kpgd; pm = or_mode conf pm; addr = addr })
        ],
        s',
      )

  -- The case VMI_TM_PROCESS_PID, with the safety check: `pid` is an int32_t, and a negative one
  -- leaves `pt` as it is.
  unfoldable pub start_pid : AccessContext → ℕ → S → Option Start × S
  start_pid ctx pm s =
      let pid = ctx.pt % 2 ^ 32 in
      let found = λ (pt : ℕ).
        if pt == 0
        then none
        else some (record { pt = pt; pm = or_mode conf pm; addr = ctx.addr }) in
      let (dtb, s') = env.pid_to_dtb pid s in
      if not conf.has_os_interface
      then (none, s)
      else if pid == 0
      then (found conf.kpgd, s)
      else if ltb pid (2 ^ 31)
      then (elim dtb [ none ↦ none | some pt ↦ found pt ], s')
      else (found ctx.pt, s)

  -- How the loops of vmi_read and vmi_write find the physical address of a byte.
  unfoldable pub resolve : AccessContext → Start → ℕ → S → Option ℕ × S
  resolve ctx start addr s =
      let (status, (paddr, naddr), s') = env.lookup ctx.npt ctx.npm start.pt start.pm addr s in
      let (nested, (paddr', naddr'), s'') = env.lookup 0 0 ctx.npt ctx.npm addr s in
      if valid_pm start.pm
      then (
        elim status [
          | success ↦ some (if valid_npm ctx.npm then naddr else paddr)
          | failure ↦ none
        ],
        s',
      )
      else if valid_npm ctx.npm
      then (elim nested [ success ↦ some paddr' | failure ↦ none ], s'')
      else (some addr, s)
