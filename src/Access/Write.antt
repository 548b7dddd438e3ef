-- ===== src/Access/Write.antt =====
-- libvmi/write.c: vmi_write, with ENABLE_SAFETY_CHECKS, for a context that is not NULL.
pub mod Laws
use libvmi.Common.{
  ℕ, zero, suc, ◌+◌, ◌-◌, ◌/◌, ◌%◌, ◌^◌, bit_and, Bool, not, ◌&&◌, ◌||◌, ◌==◌, List, [], ◌++◌, take,
  drop, length, Option, none, some, if◌then◌else◌,
}
use libvmi.Types.{Status, success, failure, Conf, AccessContext}
use libvmi.Access.Env.{Env, Start, start_ksym, start_pid, or_mode, resolve, part_len}

-- What the switch over the translation mechanism does: go on, `goto done`, or `return 0`.
pub data Begun : Type 0 where
  go : Start → Begun
  done : Begun
  undefined : Begun

unfoldable pub begin : Option Start → Begun
begin none = done
begin (some start) = go start

module _ {S : Type 0} (env : Env S) (conf : Conf) (ctx : AccessContext) where
  -- The switch: `pm` is the page mode of the instance, whatever the context says.
  unfoldable pub write_start : S → Begun × S
  write_start s =
      if ctx.tm == 0
      then (go (record { pt = 0; pm = 0; addr = ctx.addr }), s)
      else if ctx.tm == 3
      then (let (start, s') = start_ksym env conf ctx conf.page_mode s in (begin start, s'))
      else if ctx.tm == 2
      then (let (start, s') = start_pid env conf ctx conf.page_mode s in (begin start, s'))
      else if ctx.tm == 1
      then (go (record { pt = ctx.pt; pm = or_mode conf conf.page_mode; addr = ctx.addr }), s)
      else (undefined, s)

  -- `while (count > 0)`: `buf` is the whole buffer and `at` is buf_offset, which the result
  -- gives as *bytes_written. The fuel is spent by the rounds.
  unfoldable pub write_loop : ℕ → Start → ℕ → ℕ → List ℕ → S → Status × ℕ × S
  write_loop zero start count at buf s = (if count == 0 then success else failure, at, s)
  write_loop (suc fuel) start count at buf s =
      let (found, s₁) = resolve env conf ctx start ((start.addr + at) % 2 ^ 64) s in
      let rest : Status × ℕ × S = elim found [
        | none ↦ (failure, at, s₁)
        | some paddr ↦
            let offset = bit_and (conf.page_size - 1) paddr in
            let write_len = part_len conf offset count in
            let (written, s₂) = env.write paddr (take write_len (drop at buf)) s₁ in
            elim written [
              | success ↦ write_loop fuel start (count - write_len) (at + write_len) buf s₂
              | failure ↦ (failure, at, s₂)
            ]
      ] in
      if count == 0 then (success, at, s) else rest

  -- A status and *bytes_written, which the default case leaves as it is: `none`.
  unfoldable pub vmi_write : ℕ → List ℕ → S → Status × Option ℕ × S
  vmi_write count buf s =
      let (begun, s') = write_start s in
      elim begun [
        | go start ↦
            let (status, at, s'') = write_loop count start count 0 buf s' in (status, some at, s'')
        | done ↦ (failure, some 0, s')
        | undefined ↦ (success, none, s')
      ]
