-- ===== src/Os/Windows/Exports/Search.antt =====
-- libvmi/os/windows/peparse.c: the linear search through the names of a table that can be read.
use Prim.Native.Nat.{Ordering}
use libvmi.Common.{
  ℕ, zero, suc, ◌+◌, ◌*◌, ◌≤◌, ◌<◌, Bool, Bool-cases, List, length, Option, none, some,
  if◌then◌else◌, inl, inr, ◌≡◌, ◌≢◌, refl, arith,
}
use libvmi.Types.{success, Conf, AccessContext}
use libvmi.Access.Env.{Env}
use libvmi.Access.Sized.{vmi_read_16, vmi_read_32}
use libvmi.Access.Strings.{vmi_read_str}
use libvmi.Os.Windows.Names.{strcmp, strncmp_same}
use libvmi.Os.Windows.Exports.{ExportTable, at, name_at, linear_loop}

-- What stands in the three arrays of a table: each name at an RVA of its own, which is not 0.
pub record HasExports {S : Type 0} (env : Env S) (conf : Conf) (realloc : ℕ → S → Bool × S)
    (rounds : ℕ) (ctx : AccessContext) (et : ExportTable) (IsGood : S → Type 0) (names : ℕ → List ℕ)
    (name_rva ordinals functions : ℕ → ℕ) : Type 0 where
  pub real : (i : ℕ) → i < et.number_of_names → name_rva i ≢ 0
  pub pointer :
      (i : ℕ) (s : S)
      → i < et.number_of_names
      → IsGood s
      → (s' : S) × (vmi_read_32 env conf (at ctx (ctx.addr + et.address_of_names + i * 4)) 0 s
          ≡ (success, name_rva i, s'))
        × IsGood s'
  pub text :
      (i : ℕ) (s : S)
      → i < et.number_of_names
      → IsGood s
      → (s' : S) × (vmi_read_str env conf realloc rounds (at ctx (ctx.addr + name_rva i)) s
          ≡ some (some (names i), s'))
        × IsGood s'
  pub ordinal :
      (i : ℕ) (s : S)
      → i < et.number_of_names
      → IsGood s
      → (s' : S) × (vmi_read_16 env conf
            (at ctx (ctx.addr + et.address_of_name_ordinals + i * 2))
            0
            s
          ≡ (success, ordinals i, s'))
        × IsGood s'
  pub function :
      (i : ℕ) (s : S)
      → i < et.number_of_names
      → IsGood s
      → (s' : S) × (vmi_read_32 env conf
            (at ctx (ctx.addr + et.address_of_functions + ordinals i * 4))
            0
            s
          ≡ (success, functions (ordinals i), s'))
        × IsGood s'

-- Names in the strict order of strcmp.
abbrev pub IsSorted : (ℕ → List ℕ) → ℕ → Type 0
IsSorted names n = (i j : ℕ) → i < j → j < n → strcmp (names i) (names j) ≡ Ordering.lt

-- The first of the names from `i` on that is a prefix of the symbol.
unfoldable pub first_prefix : (ℕ → List ℕ) → List ℕ → ℕ → ℕ → Option ℕ
first_prefix names symbol i zero = none
first_prefix names symbol i (suc left) =
    if strncmp_same (names i) symbol (length (names i))
    then some i
    else first_prefix names symbol (i + 1) left

-- An index that has the symbol, or none has it.
abbrev pub Locates : (ℕ → List ℕ) → List ℕ → ℕ → ℕ → Option ℕ → Type 0
Locates names symbol low above none = (i : ℕ) → low ≤ i → i < above → names i ≢ symbol
Locates names symbol low above (some i) = (low ≤ i) × (i < above) × (names i ≡ symbol)

module _ {S : Type 0} (env : Env S) (conf : Conf) (realloc : ℕ → S → Bool × S) (rounds : ℕ)
    (ctx : AccessContext) (et : ExportTable) (IsGood : S → Type 0) (names : ℕ → List ℕ)
    (name_rva ordinals functions : ℕ → ℕ)
    (has : HasExports env conf realloc rounds ctx et IsGood names name_rva ordinals functions)
    (symbol : List ℕ) where
  abbrev count : ℕ
  count = et.number_of_names

  abbrev array : ℕ
  array = ctx.addr + et.address_of_names

  pub name_lem :
      (i : ℕ) (s : S)
      → i < et.number_of_names
      → IsGood s
      → (s' : S) × (name_at env conf realloc rounds ctx (ctx.addr + et.address_of_names) i s
          ≡ some (some (names i), s'))
        × IsGood s'
  unfolding name_at
  name_lem i s h good =
      let (s₁, e₁, good₁) = has.pointer i s h good in
      let (s₂, e₂, good₂) = has.text i s₁ h good₁ in
      (s₂, ground (arith, e₁, e₂, has.real i h), good₂)

  pub linear_lem :
      (i left : ℕ) (s : S)
      → i + left ≡ count
      → IsGood s
      → (s' : S) × (linear_loop env conf realloc rounds ctx array symbol i left s
          ≡ some (first_prefix names symbol i left, s'))
        × IsGood s'
  unfolding linear_loop first_prefix
  linear_lem i zero s e good = (s, refl, good)
  linear_lem i (suc left) s e good =
      let (s₁, e₁, good₁) = name_lem i s (omega (arith, e)) good in
      let (s', e', good') = linear_lem (i + 1) left s₁ (omega (arith, e)) good₁ in
      elim (Bool-cases (strncmp_same (names i) symbol (length (names i)))) [
        | inl y ↦ (s₁, ground (arith, e₁, y), good₁)
        | inr n ↦ (s', ground (arith, e₁, e', n), good')
      ]
