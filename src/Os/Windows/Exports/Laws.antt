-- ===== src/Os/Windows/Exports/Laws.antt =====
-- libvmi/os/windows/peparse.c: from the name of an exported symbol to its address and back.
use libvmi.Common.{
  ℕ, zero, suc, ◌+◌, ◌^◌, ◌≤◌, ◌<◌, ltb, Bool, false, Bool-cases, List, some, if◌then◌else◌, inl,
  inr, ◌≡◌, ◌≢◌, refl, sym, ap, ◌∙◌, arith,
}
use libvmi.Types.{Status, success, failure, Conf, AccessContext}
use libvmi.Access.Env.{Env}
use libvmi.Os.Windows.Names.{strcmp_ne}
use libvmi.Os.Windows.Exports.{
  ExportTable, get_export_rva, get_aof_index, get_aon_index, peparse_get_export_table, is_forwarded,
  rva_of_symbol, windows_export_to_rva, exported_name, export_loop, windows_rva_to_export,
}
use libvmi.Os.Windows.Exports.Search.{HasExports, IsSorted, first_prefix, name_lem}
use libvmi.Os.Windows.Exports.Binary.{get_aon_index-Answers}

module _ {S : Type 0} (env : Env S) (conf : Conf) (realloc : ℕ → S → Bool × S) (rounds : ℕ)
    (ctx : AccessContext) (et : ExportTable) (et_rva et_size : ℕ) (IsGood : S → Type 0)
    (names : ℕ → List ℕ) (name_rva ordinals functions : ℕ → ℕ)
    (has : HasExports env conf realloc rounds ctx et IsGood names name_rva ordinals functions)
    (sorted : IsSorted names et.number_of_names)
    (table : (s : S)
      → IsGood s
      → (s' : S) × (peparse_get_export_table env conf realloc rounds ctx s
          ≡ some (some (et, et_rva, et_size), s'))
        × IsGood s')
    (k : ℕ) (small : et.number_of_names < 2 ^ k) (int : et.number_of_names ≤ 2 ^ 30) where
  -- Sorted names differ.
  same_index :
      (i j : ℕ) → i < et.number_of_names → j < et.number_of_names → names i ≡ names j → i ≡ j
  same_index i j p q e = elim (Bool-cases (ltb i j)) [
    | inl y ↦ absurd (strcmp_ne (names i) (names j) (sorted i j (ground (arith, y)) q) e)
    | inr n ↦ elim (Bool-cases (ltb j i)) [
      | inl y ↦ absurd (strcmp_ne (names j) (names i) (sorted j i (ground (arith, y)) p) (sym e))
      | inr n' ↦ ground (arith, n, n')
    ]
  ]

  -- The status that windows_export_to_rva has for the address at an index.
  abbrev status_of : ℕ → Status
  status_of i = if is_forwarded et_rva et_size (functions (ordinals i)) then failure else success

  -- What stands behind the search for the index.
  rva_at :
      (symbol : List ℕ) (i rva : ℕ) (s s₁ : S)
      → get_aon_index env conf realloc rounds ctx (suc k) symbol et s ≡ some (some i, s₁)
      → i < et.number_of_names
      → IsGood s₁
      → (s' : S) × (rva_of_symbol env conf realloc rounds ctx
            (suc k)
            symbol
            rva
            (et, et_rva, et_size)
            s
          ≡ some (status_of i, functions (ordinals i), s'))
        × IsGood s'
  unfolding rva_of_symbol get_aof_index get_export_rva
  rva_at symbol i rva s s₁ e h good =
      let (s₂, e₂, good₂) = has.ordinal i s₁ h good in
      let (s₃, e₃, good₃) = has.function i s₂ h good₂ in (s₃, ground (arith, e, e₂, e₃), good₃)

  -- In an image whose export table can be read and has its names in the strict order of strcmp,
  -- windows_export_to_rva ends for each of these names, with the address of the function that the
  -- name's ordinal says: with success, unless the address lies in the export section. Fewer than
  -- 2 ^ k names take k + 1 calls of the search at most; there are 2 ^ 30 at most.
  pub windows_export_to_rva-names :
      (i rva : ℕ) (s : S)
      → i < et.number_of_names
      → IsGood s
      → (s' : S) × (windows_export_to_rva env conf realloc rounds ctx (suc k) (names i) rva s
          ≡ some (
            (if is_forwarded et_rva et_size (functions (ordinals i)) then failure else success),
            functions (ordinals i),
            s',
          ))
        × IsGood s'
  unfolding windows_export_to_rva
  windows_export_to_rva-names i rva s h good =
      let (s₁, e₁, good₁) = table s good in
      let (o, s₂, e₂, answers, good₂) =
        get_aon_index-Answers env conf realloc rounds ctx et IsGood names name_rva ordinals
          functions has (names i) sorted k s₁ small int good₁ in
      elim answers [
        | inl (j, is, q, same) ↦
            let (s', e', good') =
              rva_at (names i) j rva s₁ s₂ (e₂ ∙ ap (λ t. some (t, s₂)) is) q good₂ in
            (s', ground (arith, e₁, e', same_index j i q h same), good')
        | inr (nowhere, is) ↦ absurd (nowhere i (omega arith) h refl)
      ]

  -- A symbol that no name is, but that has a name as its prefix, is not rejected:
  -- windows_export_to_rva, on such an image of at most 2 ^ 30 names, answers with the address that the
  -- first such name has, with success unless it lies in the export section.
  pub windows_export_to_rva-prefix :
      (symbol : List ℕ) (i rva : ℕ) (s : S)
      → ((j : ℕ) → j < et.number_of_names → names j ≢ symbol)
      → first_prefix names symbol 0 et.number_of_names ≡ some i
      → i < et.number_of_names
      → IsGood s
      → (s' : S) × (windows_export_to_rva env conf realloc rounds ctx (suc k) symbol rva s
          ≡ some (
            (if is_forwarded et_rva et_size (functions (ordinals i)) then failure else success),
            functions (ordinals i),
            s',
          ))
        × IsGood s'
  unfolding windows_export_to_rva
  windows_export_to_rva-prefix symbol i rva s absent prefix h good =
      let (s₁, e₁, good₁) = table s good in
      let (o, s₂, e₂, answers, good₂) =
        get_aon_index-Answers env conf realloc rounds ctx et IsGood names name_rva ordinals
          functions has symbol sorted k s₁ small int good₁ in
      elim answers [
        | inl (j, is, q, same) ↦ absurd (absent j q same)
        | inr (nowhere, is) ↦
            let (s', e', good') =
              rva_at symbol i rva s₁ s₂ (e₂ ∙ ap (λ t. some (t, s₂)) (is ∙ prefix)) h good₂ in
            (s', ground (arith, e₁, e'), good')
      ]

  -- The loop of windows_rva_to_export up to the index that has the address.
  export_lem :
      (rva i d left : ℕ) (s : S)
      → i + d < et.number_of_names
      → d < left
      → functions (ordinals (i + d)) ≡ rva
      → ((j : ℕ) → j < i + d → functions (ordinals j) ≢ rva)
      → IsGood s
      → (s' : S) × (export_loop env conf realloc rounds ctx rva et i left s
          ≡ some (some (names (i + d)), s'))
        × IsGood s'
  unfolding export_loop exported_name
  export_lem rva i d zero s h enough is before good = absurd (omega (arith, enough))
  export_lem rva i zero (suc left) s h enough is before good =
      let here : i + zero ≡ i = omega arith in
      let (s₁, e₁, good₁) = has.ordinal i s (omega (arith, h)) good in
      let (s₂, e₂, good₂) = has.function i s₁ (omega (arith, h)) good₁ in
      let (s₃, e₃, good₃) =
        name_lem env conf realloc rounds ctx et IsGood names name_rva ordinals functions has
          (names i) i s₂ (omega (arith, h)) good₂ in
      (s₃, ground (arith, e₁, e₂, e₃, here, is, h), good₃)
  export_lem rva i (suc d) (suc left) s h enough is before good =
      let next : i + 1 + d ≡ i + suc d = omega arith in
      let (s₁, e₁, good₁) = has.ordinal i s (omega (arith, h)) good in
      let (s₂, e₂, good₂) = has.function i s₁ (omega (arith, h)) good₁ in
      let (s', e', good') =
        export_lem rva (i + 1) d left s₂ (omega (arith, h)) (omega (arith, enough))
          (ap (λ (t : ℕ). functions (ordinals t)) next ∙ is) (λ j q. before j (omega (arith, q)))
          good₂ in
      (s', ground (arith, e₁, e₂, e', next, before i (omega arith)), good')

  -- The way back: on such an image of at most 2 ^ 30 names, for a name whose address no name before it has and does not lie
  -- in the export section, and with as many functions as names at least, windows_export_to_rva
  -- succeeds with an address for which windows_rva_to_export, called next, gives the name.
  pub windows_rva_to_export-windows_export_to_rva :
      (i rva : ℕ) (s : S)
      → i < et.number_of_names
      → et.number_of_names ≤ et.number_of_functions
      → is_forwarded et_rva et_size (functions (ordinals i)) ≡ false
      → ((j : ℕ) → j < i → functions (ordinals j) ≢ functions (ordinals i))
      → IsGood s
      → (s₁ s₂ : S) × (windows_export_to_rva env conf realloc rounds ctx (suc k) (names i) rva s
          ≡ some (success, functions (ordinals i), s₁))
        × (windows_rva_to_export env conf realloc rounds ctx (functions (ordinals i)) s₁
            ≡ some (some (names i), s₂))
        × IsGood s₂
  unfolding windows_rva_to_export
  windows_rva_to_export-windows_export_to_rva i rva s h many outside first good =
      let (s₁, e₁, good₁) = windows_export_to_rva-names i rva s h good in
      let (s₂, e₂, good₂) = table s₁ good₁ in
      let here : 0 + i ≡ i = omega arith in
      let (s₃, e₃, good₃) =
        export_lem (functions (ordinals i)) 0 i et.number_of_functions s₂ (omega (arith, h))
          (omega (arith, h, many)) (ap (λ (t : ℕ). functions (ordinals t)) here)
          (λ j q. first j (omega (arith, q))) good₂ in
      (s₁, s₃, ground (arith, e₁, outside), ground (arith, e₂, outside, e₃, here), good₃)
