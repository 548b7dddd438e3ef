-- ===== src/Access/Strings.antt =====
-- libvmi/read.c: vmi_read_str and the functions that build a context for it, for a context that is
-- not NULL and that has an address and not a symbol.
pub mod Laws
use libvmi.Common.{
  ℕ, zero, suc, ◌+◌, ◌-◌, ◌^◌, ◌%◌, bit_and, Bool, true, false, not, ◌&&◌, ◌||◌, ◌==◌, List, [],
  ◌∷◌, ◌++◌, length, Option, none, some, if◌then◌else◌,
}
use libvmi.Bits.{bit_mask}
use libvmi.Types.{Status, success, failure, Conf, AccessContext}
use libvmi.Access.Env.{Env}
use libvmi.Access.Read.{vmi_read}
use libvmi.Access.Sized.{pa_context, va_context}

-- The bytes before the first NUL, and whether there is one.
unfoldable pub until_nul : List ℕ → List ℕ
until_nul [] = []
until_nul (b ∷ bs) = if b == 0 then [] else b ∷ until_nul bs

unfoldable pub has_nul : List ℕ → Bool
has_nul [] = false
has_nul (b ∷ bs) = (b == 0) || has_nul bs

-- The characters that a string has so far; NULL is `none`.
unfoldable pub old : Option (List ℕ) → List ℕ
old none = []
old (some str) = str

-- A read that failed and read nothing.
unfoldable pub is_lost : Status → List ℕ → Bool
is_lost success buf = false
is_lost failure buf = length buf == 0

-- `realloc size` says whether the memory is there.
module _ {S : Type 0} (env : Env S) (conf : Conf) (realloc : ℕ → S → Bool × S) where
  -- The loop, on fuel: `none` is a loop that has not ended. `ret` is the string, NULL being `none`.
  unfoldable pub read_str : ℕ → AccessContext → Option (List ℕ) → S → Option (Option (List ℕ) × S)
  read_str zero ctx ret s = none
  read_str (suc fuel) ctx ret s =
      let offset = bit_and ctx.addr (bit_mask 0 11) in
      let (status, buf, s₁) = vmi_read env conf ctx (4096 - offset) s in
      let ret' = old ret ++ until_nul buf in
      let (grown, s₂) = realloc ((length ret' + 1) % 2 ^ 64) s₁ in
      let next = record ctx { addr = (ctx.addr + offset) % 2 ^ 64 } in
      let rest = read_str fuel next (some ret') s₂ in
      if is_lost status buf
      then some (ret, s₁)
      else if not grown
      then some (ret, s₂)
      else if has_nul buf
      then some (some ret', s₂)
      else rest

  unfoldable pub vmi_read_str : ℕ → AccessContext → S → Option (Option (List ℕ) × S)
  vmi_read_str fuel ctx s = read_str fuel ctx none s

  unfoldable pub vmi_read_str_pa : ℕ → ℕ → S → Option (Option (List ℕ) × S)
  vmi_read_str_pa fuel paddr s = vmi_read_str fuel (pa_context paddr) s

  unfoldable pub vmi_read_str_va : ℕ → ℕ → ℕ → S → Option (Option (List ℕ) × S)
  vmi_read_str_va fuel vaddr pid s = vmi_read_str fuel (va_context vaddr pid) s
