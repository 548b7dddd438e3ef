-- ===== src/Access/Read.antt =====
-- libvmi/read.c: vmi_read, with ENABLE_SAFETY_CHECKS, for a context that is not NULL.
pub mod Laws
pub mod Bounds
use libvmi.Common.{
  ℕ, zero, suc, ◌+◌, ◌-◌, ◌/◌, ◌%◌, ◌^◌, bit_and, Bool, not, ◌&&◌, ◌||◌, ◌==◌, List, [], ◌++◌, take,
  drop, length, Option, none, some, if◌then◌else◌,
}
use libvmi.Types.{Status, success, failure, Conf, AccessContext}
use libvmi.PageMode.{valid_pm, valid_npm}
use libvmi.Access.Env.{Env, Start, start_ksym, start_pid, or_mode, resolve, part_len}

module _ {S : Type 0} (env : Env S) (conf : Conf) (ctx : AccessContext) where
  -- The switch over the translation mechanism.
  unfoldable pub read_start : S → Option Start × S
  read_start s =
      if ctx.tm == 0
      then (some (record { pt = 0; pm = 0; addr = ctx.addr }), s)
      else if ctx.tm == 3
      then start_ksym env conf ctx ctx.pm s
      else if ctx.tm == 2
      then start_pid env conf ctx ctx.pm s
      else if ctx.tm == 1
      then (some (record { pt = ctx.pt; pm = or_mode conf ctx.pm; addr = ctx.addr }), s)
      else (none, s)

  -- The two checks behind it.
  unfoldable pub start_ok : Start → Bool
  start_ok start = (start.pt == 0 || valid_pm start.pm) && (ctx.npt == 0 || valid_npm ctx.npm)

  -- `while (count > 0)`: the bytes read so far stand in `buf`. The fuel is spent by the rounds.
  unfoldable pub read_loop : ℕ → Start → ℕ → List ℕ → S → Status × List ℕ × S
  read_loop zero start count buf s = (if count == 0 then success else failure, buf, s)
  read_loop (suc fuel) start count buf s =
      let (found, s₁) = resolve env conf ctx start ((start.addr + length buf) % 2 ^ 64) s in
      let rest : Status × List ℕ × S = elim found [
        | none ↦ (failure, buf, s₁)
        | some paddr ↦
            let (memory, s₂) = env.read_page (paddr / 2 ^ conf.page_shift) s₁ in
            let offset = bit_and (conf.page_size - 1) paddr in
            let read_len = part_len conf offset count in
            elim memory [
              | none ↦ (failure, buf, s₂)
              | some page ↦
                  read_loop fuel start (count - read_len) (buf ++ take read_len (drop offset page))
                    s₂
            ]
      ] in
      if count == 0 then (success, buf, s) else rest

  -- A status, and the bytes that stand in the caller's buffer; *bytes_read is their number.
  unfoldable pub vmi_read : ℕ → S → Status × List ℕ × S
  unfolding read_start start_ok read_loop resolve part_len
  vmi_read count s =
      let (start, s') = read_start s in
      elim start [
        | none ↦ (failure, [], s')
        | some start ↦
            if start_ok start then read_loop count start count [] s' else (failure, [], s')
      ]
