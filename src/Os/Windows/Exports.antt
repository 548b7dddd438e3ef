-- ===== src/Os/Windows/Exports.antt =====
-- libvmi/os/windows/peparse.c: the search for an exported symbol. `none` on the outside is a loop
-- that has not ended, or an undefined read outside a buffer.
pub mod Search
pub mod Binary
pub mod Laws
use Prim.Native.Nat.{Ordering}
use libvmi.Common.{
  ℕ, zero, suc, ◌+◌, ◌-◌, ◌*◌, ◌/◌, ◌%◌, ◌^◌, bit_and, ltb, leb, Bool, true, false, not, ◌&&◌, ◌||◌,
  ◌==◌, List, [], ◌∷◌, ◌++◌, take, drop, length, Option, none, some, if◌then◌else◌,
}
use libvmi.Types.{Status, success, failure, Conf, AccessContext, le_word}
use libvmi.Access.Env.{Env}
use libvmi.Access.Read.{vmi_read}
use libvmi.Access.Sized.{vmi_read_16, vmi_read_32}
use libvmi.Access.Strings.{vmi_read_str}
use libvmi.Os.Kernel.{and_then}
use libvmi.Os.Windows.Names.{strcmp, strncmp_same}
use libvmi.Os.Windows.Peparse.{
  Headers, peparse_validate_pe_image, peparse_assign_headers, peparse_get_idd_rva,
  peparse_get_idd_size,
}

-- struct export_table
pub record ExportTable : Type 0 where
  pub export_flags : ℕ
  pub time_date_stamp : ℕ
  pub major_version : ℕ
  pub minor_version : ℕ
  pub name : ℕ
  pub base : ℕ
  pub number_of_functions : ℕ
  pub number_of_names : ℕ
  pub address_of_functions : ℕ
  pub address_of_names : ℕ
  pub address_of_name_ordinals : ℕ

-- A context with another address.
abbrev pub at : AccessContext → ℕ → AccessContext
at ctx a = record ctx { addr = a % 2 ^ 64 }

-- The 40 bytes of a table.
unfoldable pub table_of_bytes : List ℕ → ExportTable
table_of_bytes bytes =
    let word = λ (w a : ℕ). le_word (take w (drop a bytes)) in
    record {
      export_flags = word 4 0;
      time_date_stamp = word 4 4;
      major_version = word 2 8;
      minor_version = word 2 10;
      name = word 4 12;
      base = word 4 16;
      number_of_functions = word 4 20;
      number_of_names = word 4 24;
      address_of_functions = word 4 28;
      address_of_names = word 4 32;
      address_of_name_ordinals = word 4 36;
    }

-- A result that is there when the status is success.
abbrev pub on_success : {A : Type 0} → Status → A → Option A
on_success success a = some a
on_success failure a = none

-- The sanity check.
unfoldable pub is_sane : ExportTable → Bool
is_sane et = et.export_flags == 0 && not (et.name == 0)

-- An RVA in the export section, which is that of a forwarded symbol.
unfoldable pub is_forwarded : ℕ → ℕ → ℕ → Bool
is_forwarded et_rva et_size rva = leb et_rva rva && ltb rva (et_rva + et_size)

-- `rounds` bounds the loop of vmi_read_str; `ctx` gives the base of the image.
module _ {S : Type 0} (env : Env S) (conf : Conf) (realloc : ℕ → S → Bool × S) (rounds : ℕ)
    (ctx : AccessContext) where
  -- A status, and *rva, which was `rva`.
  unfoldable pub get_export_rva : ℕ → ℕ → ExportTable → S → Status × ℕ × S
  get_export_rva rva aof_index et s =
      let (status, tmp, s') =
        vmi_read_32 env conf (at ctx (ctx.addr + et.address_of_functions + aof_index * 4)) 0 s in
      elim status [ success ↦ (success, tmp, s') | failure ↦ (failure, rva, s') ]

  -- -1 is `none`.
  unfoldable pub get_aof_index : ℕ → ExportTable → S → Option ℕ × S
  get_aof_index aon_index et s =
      let (status, aof_index, s') =
        vmi_read_16 env conf (at ctx (ctx.addr + et.address_of_name_ordinals + aon_index * 2)) 0
          s in
      (on_success status aof_index, s')

  -- The name at an index of the array of names at `names`: `none` on the inside when the array or
  -- the name cannot be read, or the array has 0.
  unfoldable pub name_at : ℕ → ℕ → S → Option (Option (List ℕ) × S)
  name_at names i s =
      let (status, str_rva, s') = vmi_read_32 env conf (at ctx (names + i * 4)) 0 s in
      let str = vmi_read_str env conf realloc rounds (at ctx (ctx.addr + str_rva)) s' in
      elim status [
        | failure ↦ some (none, s')
        | success ↦ if str_rva == 0 then some (none, s') else str
      ]

  -- The loop of get_aon_index_linear, with `left` names left.
  unfoldable pub linear_loop : ℕ → List ℕ → ℕ → ℕ → S → Option (Option ℕ × S)
  linear_loop names symbol i zero s = some (none, s)
  linear_loop names symbol i (suc left) s =
      and_then (name_at names i s) (λ (got : Option (List ℕ) × S).
        let rest = linear_loop names symbol (i + 1) left got.1 in
        elim got.0 [
          | none ↦ rest
          | some rva ↦ if strncmp_same rva symbol (length rva) then some (some i, got.1) else rest
        ])

  unfoldable pub get_aon_index_linear : List ℕ → ExportTable → S → Option (Option ℕ × S)
  get_aon_index_linear symbol et s =
      linear_loop (ctx.addr + et.address_of_names) symbol 0 et.number_of_names s

  -- `above` is high + 1, so that it is not negative. The sum of the bounds is an int: one that does
  -- not fit is undefined.
  unfoldable pub find_aon_idx_bin : List ℕ → ℕ → ℕ → ℕ → ℕ → S → Option (Option ℕ × S)
  find_aon_idx_bin symbol aon_base zero low above s = none
  find_aon_idx_bin symbol aon_base (suc fuel) low above s =
      let mid = (low + (above - 1)) / 2 in
      let search : Option (Option ℕ × S) =
        and_then (name_at aon_base mid s) (λ (got : Option (List ℕ) × S).
          let lower = find_aon_idx_bin symbol aon_base fuel low mid got.1 in
          let upper = find_aon_idx_bin symbol aon_base fuel (mid + 1) above got.1 in
          elim got.0 [
            | none ↦ some (none, got.1)
            | some name ↦ elim (strcmp symbol name) [
              | Ordering.lt ↦ lower
              | Ordering.gt ↦ upper
              | Ordering.eq ↦ some (some mid, got.1)
            ]
          ]) in
      if leb above low
      then some (none, s)
      else if ltb (low + (above - 1)) (2 ^ 31)
      then search
      else none

  -- The number of names is kept in an int: from 2 ^ 31 on it is negative, and 2 ^ 31 itself cannot be
  -- lowered by one, which is undefined.
  unfoldable pub get_aon_index_binary : ℕ → List ℕ → ExportTable → S → Option (Option ℕ × S)
  get_aon_index_binary fuel symbol et s =
      let search =
        find_aon_idx_bin symbol (ctx.addr + et.address_of_names) fuel 0
          (if ltb et.number_of_names (2 ^ 31) then et.number_of_names else 0) s in
      if et.number_of_names == 2 ^ 31 then none else search

  unfoldable pub get_aon_index : ℕ → List ℕ → ExportTable → S → Option (Option ℕ × S)
  get_aon_index fuel symbol et s =
      and_then (get_aon_index_binary fuel symbol et s) (λ (index : Option ℕ × S).
        let linear = get_aon_index_linear symbol et index.1 in
        elim index.0 [ some i ↦ some index | none ↦ linear ])

  unfoldable pub peparse_get_image : ℕ → S → Option (Option (List ℕ) × S)
  peparse_get_image len s =
      let (status, image, s') = vmi_read env conf ctx len s in
      elim status [
        | failure ↦ some (none, s')
        | success ↦
            and_then (peparse_validate_pe_image image len)
              (λ (valid : Status). some (on_success valid image, s'))
      ]

  -- The second part of peparse_get_export_table: the table at `header`, read again without its first
  -- field when that stands at the end of a page of 4KB.
  unfoldable pub read_table : ℕ → S → Option ExportTable × S
  read_table header s =
      let (status, bytes, s₁) = vmi_read env conf (at ctx header) 40 s in
      let (status', bytes', s₂) = vmi_read env conf (at ctx (header % 2 ^ 64 + 4)) 36 s₁ in
      elim status [
        | success ↦ (some (table_of_bytes bytes), s₁)
        | failure ↦
            if bit_and ((header % 2 ^ 64 + 4) % 2 ^ 64) 0xfff == 0
            then (on_success status' (table_of_bytes (0 ∷ 0 ∷ 0 ∷ 0 ∷ bytes')), s₂)
            else (none, s₁)
      ]

  -- The table, and its RVA and size as the directory has them; `none` on the inside is a failure.
  unfoldable pub peparse_get_export_table : S → Option (Option (ExportTable × ℕ × ℕ) × S)
  peparse_get_export_table s = and_then (peparse_get_image 1024 s) (λ (got : Option (List ℕ) × S).
      elim got.0 [
        | none ↦ some (none, got.1)
        | some image ↦ and_then (peparse_assign_headers image) (λ (h : Headers).
            let magic = some h.optional_header_type in
            let header = some h.optional_pe_header in
            and_then (peparse_get_idd_rva 0 magic header none none image) (λ (rva : ℕ).
              and_then (peparse_get_idd_size 0 magic header none none image) (λ (size : ℕ).
                let (table, s') = read_table (ctx.addr + rva) got.1 in
                some (elim table [
                  | none ↦ (none, s')
                  | some et ↦ ((if is_sane et then some (et, rva, size) else none), s')
                ]))))
      ])

  -- windows_export_to_rva, from the table on.
  unfoldable pub rva_of_symbol : ℕ → List ℕ → ℕ → ExportTable × ℕ × ℕ → S → Option (Status × ℕ × S)
  rva_of_symbol fuel symbol rva (et, et_rva, et_size) s =
      and_then (get_aon_index fuel symbol et s) (λ (aon : Option ℕ × S). some (elim aon.0 [
        | none ↦ (failure, rva, aon.1)
        | some aon_index ↦
            let (aof, s₁) = get_aof_index aon_index et aon.1 in
            elim aof [
              | none ↦ (failure, rva, s₁)
              | some aof_index ↦
                  let (status, rva', s₂) = get_export_rva rva aof_index et s₁ in
                  elim status [
                    | failure ↦ (failure, rva', s₂)
                    | success ↦
                        ((if is_forwarded et_rva et_size rva' then failure else success), rva', s₂)
                  ]
            ]
      ]))

  -- A status, and *rva, which was `rva`.
  unfoldable pub windows_export_to_rva : ℕ → List ℕ → ℕ → S → Option (Status × ℕ × S)
  windows_export_to_rva fuel symbol rva s =
      and_then (peparse_get_export_table s) (λ (got : Option (ExportTable × ℕ × ℕ) × S).
        elim got.0 [
          | none ↦ some (failure, rva, got.1)
          | some table ↦ rva_of_symbol fuel symbol rva table got.1
        ])

  -- The end of windows_rva_to_export, for the index whose function has the RVA.
  unfoldable pub exported_name : ℕ → ExportTable → S → Option (Option (List ℕ) × S)
  exported_name i et s =
      let named = name_at (ctx.addr + et.address_of_names) i s in
      if ltb i et.number_of_names then named else some (none, s)

  -- Its loop, with `left` indices left; NULL is `none` on the inside.
  unfoldable pub export_loop : ℕ → ExportTable → ℕ → ℕ → S → Option (Option (List ℕ) × S)
  export_loop rva et i zero s = some (none, s)
  export_loop rva et i (suc left) s =
      let (status, ordinal, s₁) =
        vmi_read_16 env conf (at ctx (ctx.addr + et.address_of_name_ordinals + i * 2)) 0 s in
      let (status', loc, s₂) =
        vmi_read_32 env conf (at ctx (ctx.addr + et.address_of_functions + ordinal * 4)) 0 s₁ in
      let found = exported_name i et s₂ in
      let s' : S = elim status [ failure ↦ s₁ | success ↦ s₂ ] in
      let rest = export_loop rva et (i + 1) left s' in
      elim status [
        | failure ↦ rest
        | success ↦ elim status' [ failure ↦ rest | success ↦ if loc == rva then found else rest ]
      ]

  unfoldable pub windows_rva_to_export : ℕ → S → Option (Option (List ℕ) × S)
  windows_rva_to_export rva s =
      and_then (peparse_get_export_table s) (λ (got : Option (ExportTable × ℕ × ℕ) × S).
        elim got.0 [
          | none ↦ some (none, got.1)
          | some (et, et_rva, et_size) ↦
              if is_forwarded et_rva et_size rva
              then some (none, got.1)
              else export_loop rva et 0 et.number_of_functions got.1
        ])
