-- ===== src/Access/Sized.antt =====
-- The functions of libvmi/read.c and libvmi/write.c that build a context and read or write a number
-- of a fixed width, for pointers that are not NULL.
pub mod RoundTrip
use libvmi.Common.{
  ℕ, zero, suc, ◌+◌, ◌*◌, ◌/◌, ◌%◌, ◌^◌, Bool, ◌||◌, ◌==◌, List, [], ◌∷◌, ◌++◌, drop, length,
  Option, none, some, if◌then◌else◌,
}
use libvmi.PageMode
use libvmi.Types.{Status, success, failure, Conf, AccessContext, table_context, le_word}
use libvmi.Access.Env.{Env}
use libvmi.Access.Read.{vmi_read}
use libvmi.Access.Write.{vmi_write}

-- ACCESS_CONTEXT(ctx, .addr = paddr)
abbrev pub pa_context : ℕ → AccessContext
pa_context paddr = table_context 0 0 paddr

-- The context of an address of a process; `pid` is the bit pattern of an int32_t.
abbrev pub va_context : ℕ → ℕ → AccessContext
va_context vaddr pid = record (table_context 0 0 vaddr) { tm = 2; pt = pid }

abbrev pub ksym_context : ℕ → List ℕ → AccessContext
ksym_context page_mode sym = record (table_context 0 0 0) { tm = 3; pm = page_mode; ksym = sym }

-- The bytes of a number, the lowest first.
unfoldable pub le_bytes : ℕ → ℕ → List ℕ
le_bytes zero v = []
le_bytes (suc w) v = v % 256 ∷ le_bytes w (v / 256)

-- What a variable of `w` bytes holds when bytes are copied to its start.
unfoldable pub overwrite : ℕ → ℕ → List ℕ → ℕ
unfolding le_bytes le_word
overwrite w old bytes = le_word (bytes ++ drop (length bytes) (le_bytes w old))

abbrev pub is_64_bit : ℕ → Bool
is_64_bit pm = pm == PageMode.aarch64 || pm == PageMode.ia32e

abbrev pub is_32_bit : ℕ → Bool
is_32_bit pm = (pm == PageMode.aarch32 || pm == PageMode.legacy) || pm == PageMode.pae

module _ {S : Type 0} (env : Env S) (conf : Conf) where
  unfoldable pub vmi_read_pa : ℕ → ℕ → S → Status × List ℕ × S
  vmi_read_pa paddr count s = vmi_read env conf (pa_context paddr) count s

  unfoldable pub vmi_read_va : ℕ → ℕ → ℕ → S → Status × List ℕ × S
  vmi_read_va vaddr pid count s = vmi_read env conf (va_context vaddr pid) count s

  unfoldable pub vmi_read_ksym : List ℕ → ℕ → S → Status × List ℕ × S
  vmi_read_ksym sym count s = vmi_read env conf (ksym_context conf.page_mode sym) count s

  -- A status and the value of the variable, which was `old`.
  unfoldable pub into : ℕ → ℕ → Status × List ℕ × S → Status × ℕ × S
  into w old (status, bytes, s) = (status, overwrite w old bytes, s)

  unfoldable pub vmi_read_8 : AccessContext → ℕ → S → Status × ℕ × S
  vmi_read_8 ctx old s = into 1 old (vmi_read env conf ctx 1 s)

  unfoldable pub vmi_read_16 : AccessContext → ℕ → S → Status × ℕ × S
  vmi_read_16 ctx old s = into 2 old (vmi_read env conf ctx 2 s)

  unfoldable pub vmi_read_32 : AccessContext → ℕ → S → Status × ℕ × S
  vmi_read_32 ctx old s = into 4 old (vmi_read env conf ctx 4 s)

  unfoldable pub vmi_read_64 : AccessContext → ℕ → S → Status × ℕ × S
  vmi_read_64 ctx old s = into 8 old (vmi_read env conf ctx 8 s)

  unfoldable pub vmi_read_addr : AccessContext → ℕ → S → Status × ℕ × S
  vmi_read_addr ctx old s =
      if is_64_bit conf.page_mode
      then into 8 old (vmi_read env conf ctx 8 s)
      else if is_32_bit conf.page_mode
      then into 4 0 (vmi_read env conf ctx 4 s)
      else (failure, old, s)

  unfoldable pub vmi_read_8_pa : ℕ → ℕ → S → Status × ℕ × S
  vmi_read_8_pa paddr old s = into 1 old (vmi_read_pa paddr 1 s)

  unfoldable pub vmi_read_16_pa : ℕ → ℕ → S → Status × ℕ × S
  vmi_read_16_pa paddr old s = into 2 old (vmi_read_pa paddr 2 s)

  unfoldable pub vmi_read_32_pa : ℕ → ℕ → S → Status × ℕ × S
  vmi_read_32_pa paddr old s = into 4 old (vmi_read_pa paddr 4 s)

  unfoldable pub vmi_read_64_pa : ℕ → ℕ → S → Status × ℕ × S
  vmi_read_64_pa paddr old s = into 8 old (vmi_read_pa paddr 8 s)

  unfoldable pub vmi_read_addr_pa : ℕ → ℕ → S → Status × ℕ × S
  vmi_read_addr_pa paddr old s =
      if is_64_bit conf.page_mode
      then into 8 old (vmi_read_pa paddr 8 s)
      else if is_32_bit conf.page_mode
      then into 4 0 (vmi_read_pa paddr 4 s)
      else (failure, old, s)

  unfoldable pub vmi_read_8_va : ℕ → ℕ → ℕ → S → Status × ℕ × S
  vmi_read_8_va vaddr pid old s = into 1 old (vmi_read_va vaddr pid 1 s)

  unfoldable pub vmi_read_16_va : ℕ → ℕ → ℕ → S → Status × ℕ × S
  vmi_read_16_va vaddr pid old s = into 2 old (vmi_read_va vaddr pid 2 s)

  unfoldable pub vmi_read_32_va : ℕ → ℕ → ℕ → S → Status × ℕ × S
  vmi_read_32_va vaddr pid old s = into 4 old (vmi_read_va vaddr pid 4 s)

  unfoldable pub vmi_read_64_va : ℕ → ℕ → ℕ → S → Status × ℕ × S
  vmi_read_64_va vaddr pid old s = into 8 old (vmi_read_va vaddr pid 8 s)

  unfoldable pub vmi_read_addr_va : ℕ → ℕ → ℕ → S → Status × ℕ × S
  vmi_read_addr_va vaddr pid old s =
      if is_64_bit conf.page_mode
      then into 8 old (vmi_read_va vaddr pid 8 s)
      else if is_32_bit conf.page_mode
      then into 4 0 (vmi_read_va vaddr pid 4 s)
      else (failure, old, s)

  unfoldable pub vmi_read_8_ksym : List ℕ → ℕ → S → Status × ℕ × S
  vmi_read_8_ksym sym old s = into 1 old (vmi_read_ksym sym 1 s)

  unfoldable pub vmi_read_16_ksym : List ℕ → ℕ → S → Status × ℕ × S
  vmi_read_16_ksym sym old s = into 2 old (vmi_read_ksym sym 2 s)

  unfoldable pub vmi_read_32_ksym : List ℕ → ℕ → S → Status × ℕ × S
  vmi_read_32_ksym sym old s = into 4 old (vmi_read_ksym sym 4 s)

  unfoldable pub vmi_read_64_ksym : List ℕ → ℕ → S → Status × ℕ × S
  vmi_read_64_ksym sym old s = into 8 old (vmi_read_ksym sym 8 s)

  unfoldable pub vmi_read_addr_ksym : List ℕ → ℕ → S → Status × ℕ × S
  vmi_read_addr_ksym sym old s =
      if is_64_bit conf.page_mode
      then into 8 old (vmi_read_ksym sym 8 s)
      else if is_32_bit conf.page_mode
      then into 4 0 (vmi_read_ksym sym 4 s)
      else (failure, old, s)

  unfoldable pub vmi_write_pa : ℕ → ℕ → List ℕ → S → Status × Option ℕ × S
  vmi_write_pa paddr count buf s = vmi_write env conf (pa_context paddr) count buf s

  unfoldable pub vmi_write_va : ℕ → ℕ → ℕ → List ℕ → S → Status × Option ℕ × S
  vmi_write_va vaddr pid count buf s = vmi_write env conf (va_context vaddr pid) count buf s

  unfoldable pub vmi_write_ksym : List ℕ → ℕ → List ℕ → S → Status × Option ℕ × S
  vmi_write_ksym sym count buf s =
      let (va, s') = env.ksym2v sym s in
      elim va [ none ↦ (failure, some 0, s') | some vaddr ↦ vmi_write_va vaddr 0 count buf s' ]

  -- bytes_written is NULL.
  unfoldable pub status_of_write : Status × Option ℕ × S → Status × S
  status_of_write (status, written, s) = (status, s)

  unfoldable pub vmi_write_8 : AccessContext → ℕ → S → Status × S
  vmi_write_8 ctx value s = status_of_write (vmi_write env conf ctx 1 (le_bytes 1 value) s)

  unfoldable pub vmi_write_16 : AccessContext → ℕ → S → Status × S
  vmi_write_16 ctx value s = status_of_write (vmi_write env conf ctx 2 (le_bytes 2 value) s)

  unfoldable pub vmi_write_32 : AccessContext → ℕ → S → Status × S
  vmi_write_32 ctx value s = status_of_write (vmi_write env conf ctx 4 (le_bytes 4 value) s)

  unfoldable pub vmi_write_64 : AccessContext → ℕ → S → Status × S
  vmi_write_64 ctx value s = status_of_write (vmi_write env conf ctx 8 (le_bytes 8 value) s)

  -- On a 32-bit page mode the low half of the value is written.
  unfoldable pub vmi_write_addr : AccessContext → ℕ → S → Status × S
  vmi_write_addr ctx value s =
      if is_64_bit conf.page_mode
      then status_of_write (vmi_write env conf ctx 8 (le_bytes 8 value) s)
      else if is_32_bit conf.page_mode
      then status_of_write (vmi_write env conf ctx 4 (le_bytes 8 value) s)
      else (failure, s)

  unfoldable pub vmi_write_8_pa : ℕ → ℕ → S → Status × S
  vmi_write_8_pa paddr value s = status_of_write (vmi_write_pa paddr 1 (le_bytes 1 value) s)

  unfoldable pub vmi_write_16_pa : ℕ → ℕ → S → Status × S
  vmi_write_16_pa paddr value s = status_of_write (vmi_write_pa paddr 2 (le_bytes 2 value) s)

  unfoldable pub vmi_write_32_pa : ℕ → ℕ → S → Status × S
  vmi_write_32_pa paddr value s = status_of_write (vmi_write_pa paddr 4 (le_bytes 4 value) s)

  unfoldable pub vmi_write_64_pa : ℕ → ℕ → S → Status × S
  vmi_write_64_pa paddr value s = status_of_write (vmi_write_pa paddr 8 (le_bytes 8 value) s)

  unfoldable pub vmi_write_8_va : ℕ → ℕ → ℕ → S → Status × S
  vmi_write_8_va vaddr pid value s = status_of_write (vmi_write_va vaddr pid 1 (le_bytes 1 value) s)

  unfoldable pub vmi_write_16_va : ℕ → ℕ → ℕ → S → Status × S
  vmi_write_16_va vaddr pid value s =
      status_of_write (vmi_write_va vaddr pid 2 (le_bytes 2 value) s)

  unfoldable pub vmi_write_32_va : ℕ → ℕ → ℕ → S → Status × S
  vmi_write_32_va vaddr pid value s =
      status_of_write (vmi_write_va vaddr pid 4 (le_bytes 4 value) s)

  unfoldable pub vmi_write_64_va : ℕ → ℕ → ℕ → S → Status × S
  vmi_write_64_va vaddr pid value s =
      status_of_write (vmi_write_va vaddr pid 8 (le_bytes 8 value) s)

  unfoldable pub vmi_write_8_ksym : List ℕ → ℕ → S → Status × S
  vmi_write_8_ksym sym value s = status_of_write (vmi_write_ksym sym 1 (le_bytes 1 value) s)

  unfoldable pub vmi_write_16_ksym : List ℕ → ℕ → S → Status × S
  vmi_write_16_ksym sym value s = status_of_write (vmi_write_ksym sym 2 (le_bytes 2 value) s)

  unfoldable pub vmi_write_32_ksym : List ℕ → ℕ → S → Status × S
  vmi_write_32_ksym sym value s = status_of_write (vmi_write_ksym sym 4 (le_bytes 4 value) s)

  unfoldable pub vmi_write_64_ksym : List ℕ → ℕ → S → Status × S
  vmi_write_64_ksym sym value s = status_of_write (vmi_write_ksym sym 8 (le_bytes 8 value) s)

  unfoldable pub vmi_write_addr_pa : ℕ → ℕ → S → Status × S
  vmi_write_addr_pa paddr value s = vmi_write_addr (pa_context paddr) value s

  unfoldable pub vmi_write_addr_va : ℕ → ℕ → ℕ → S → Status × S
  vmi_write_addr_va vaddr pid value s = vmi_write_addr (va_context vaddr pid) value s

  unfoldable pub vmi_write_addr_ksym : List ℕ → ℕ → S → Status × S
  vmi_write_addr_ksym sym value s = vmi_write_addr (ksym_context 0 sym) value s
