-- ===== src/Os/Windows/Exports/Binary.antt =====
-- libvmi/os/windows/peparse.c: the binary search through sorted names, and what stands in for it
-- when it finds nothing.
use Prim.Native.Nat.{Ordering}
use libvmi.Common.{
  ℕ, zero, suc, ◌+◌, ◌-◌, ◌/◌, ◌^◌, ◌≤◌, ◌<◌, ltb, leb, Bool, Bool-cases, List, Option, none, some,
  ◌⊎◌, inl, inr, ◌≡◌, refl, sym, ap, ◌∙◌, arith,
}
use libvmi.Types.{Conf, AccessContext}
use libvmi.Access.Env.{Env}
use libvmi.Os.Windows.Names.{strcmp, strcmp_eq, strcmp_flip, strcmp_trans, strcmp_ne}
use libvmi.Os.Windows.Exports.{
  ExportTable, name_at, get_aon_index_linear, find_aon_idx_bin, get_aon_index_binary, get_aon_index,
}
use libvmi.Os.Windows.Exports.Search.{
  HasExports, IsSorted, first_prefix, Locates, name_lem, linear_lem,
}

module _ {S : Type 0} (env : Env S) (conf : Conf) (realloc : ℕ → S → Bool × S) (rounds : ℕ)
    (ctx : AccessContext) (et : ExportTable) (IsGood : S → Type 0) (names : ℕ → List ℕ)
    (name_rva ordinals functions : ℕ → ℕ)
    (has : HasExports env conf realloc rounds ctx et IsGood names name_rva ordinals functions)
    (symbol : List ℕ) where
  abbrev count : ℕ
  count = et.number_of_names

  abbrev array : ℕ
  array = ctx.addr + et.address_of_names

  module _ (sorted : IsSorted names et.number_of_names) where
    abbrev bin : ℕ → ℕ → ℕ → S → Option (Option ℕ × S)
    bin = find_aon_idx_bin env conf realloc rounds ctx symbol array

    -- What one half tells about the whole.
    below :
        (low mid above : ℕ) (o : Option ℕ)
        → mid < above
        → above ≤ count
        → strcmp symbol (names mid) ≡ Ordering.lt
        → Locates names symbol low mid o
        → Locates names symbol low above o
    below low mid above (some i) inside few cmp (p, q, r) = (p, omega (arith, q, inside), r)
    below low mid above none inside few cmp nowhere = λ i from to e. elim (Bool-cases (ltb i mid)) [
      | inl y ↦ nowhere i from (ground (arith, y)) e
      | inr n ↦ elim (Bool-cases (ltb mid i)) [
        | inl y ↦
            strcmp_ne symbol (names i)
              (strcmp_trans symbol (names mid) (names i) cmp
                (sorted mid i (ground (arith, y)) (omega (arith, to, few))))
              (sym e)
        | inr n' ↦
            let same : i ≡ mid = ground (arith, n, n') in
            strcmp_ne symbol (names mid) cmp (sym e ∙ ap names same)
      ]
    ]

    beyond :
        (low mid above : ℕ) (o : Option ℕ)
        → low ≤ mid
        → above ≤ count
        → mid < above
        → strcmp symbol (names mid) ≡ Ordering.gt
        → Locates names symbol (mid + 1) above o
        → Locates names symbol low above o
    beyond low mid above (some i) inside few in_range cmp (p, q, r) =
        (omega (arith, p, inside), q, r)
    beyond low mid above none inside few in_range cmp nowhere = λ i from to e.
        elim (Bool-cases (ltb mid i)) [
          | inl y ↦ nowhere i (ground (arith, y)) to e
          | inr n ↦ elim (Bool-cases (ltb i mid)) [
            | inl y ↦
                strcmp_ne (names i) symbol
                  (strcmp_trans (names i) (names mid) symbol
                    (sorted i mid (ground (arith, y)) (omega (arith, in_range, few)))
                    (strcmp_flip symbol (names mid) cmp))
                  e
            | inr n' ↦
                let same : i ≡ mid = ground (arith, n, n') in
                strcmp_ne (names mid) symbol (strcmp_flip symbol (names mid) cmp)
                  (sym (ap names same) ∙ e)
          ]
        ]

    -- What find_aon_idx_bin does in a range that is not empty.
    step_lem :
        (fuel low above : ℕ) (s s₁ : S)
        → low < above
        → low + (above - 1) < 2 ^ 31
        → let mid = (low + (above - 1)) / 2 in
          name_at env conf realloc rounds ctx array mid s ≡ some (some (names mid), s₁)
          → bin (suc fuel) low above s ≡ (elim (strcmp symbol (names mid)) [
            | Ordering.lt ↦ bin fuel low mid s₁
            | Ordering.gt ↦ bin fuel (mid + 1) above s₁
            | Ordering.eq ↦ some (some mid, s₁)
          ])
    unfolding find_aon_idx_bin
    step_lem fuel low above s s₁ h int e = ground (arith, h, int, e)

    Ordering-cases : (o : Ordering) → (o ≡ Ordering.lt) ⊎ (o ≡ Ordering.gt) ⊎ (o ≡ Ordering.eq)
    Ordering-cases Ordering.lt = inl refl
    Ordering-cases Ordering.gt = inr (inl refl)
    Ordering-cases Ordering.eq = inr (inr refl)

    empty_lem :
        (fuel low above : ℕ) (s : S) → above ≤ low → bin (suc fuel) low above s ≡ some (none, s)
    unfolding find_aon_idx_bin
    empty_lem fuel low above s h = ground (arith, h)

    abbrev Found : ℕ → ℕ → ℕ → S → Type 0
    Found fuel low above s =
        (o : Option ℕ) × (s' : S) × (bin fuel low above s ≡ some (o, s'))
        × Locates names symbol low above o
        × IsGood s'

    Found-none :
        (fuel low above : ℕ) (s : S) → above ≤ low → IsGood s → Found (suc fuel) low above s
    Found-none fuel low above s h good = (
      none,
      s,
      empty_lem fuel low above s h,
      λ i from to e. absurd (omega (arith, h, from, to)),
      good,
    )

    -- A range of fewer than 2 ^ k names is searched in k + 1 calls at most.
    bin_lem :
        (k low above : ℕ) (s : S)
        → above - low < 2 ^ k
        → above ≤ count
        → count ≤ 2 ^ 30
        → IsGood s
        → Found (suc k) low above s
    bin_lem zero low above s small few int good =
        Found-none zero low above s (omega (arith, small)) good
    bin_lem (suc k) low above s small few int good = elim (Bool-cases (leb above low)) [
      | inl y ↦ Found-none (suc k) low above s (ground (arith, y)) good
      | inr n ↦
          let h : low < above = ground (arith, n) in
          let mid = (low + (above - 1)) / 2 in
          let (s₁, e₁, good₁) =
            name_lem env conf realloc rounds ctx et IsGood names name_rva ordinals functions has
              symbol mid s (omega (arith, h, few)) good in
          let step = step_lem (suc k) low above s s₁ h (omega (arith, few, int, h)) e₁ in
          elim (Ordering-cases (strcmp symbol (names mid))) [
            | inl y ↦
                let (o, s', e, at_o, good') =
                  bin_lem k low mid s₁ (omega (arith, small, h)) (omega (arith, h, few)) int
                    good₁ in
                (
                  o,
                  s',
                  step ∙ ground (arith, y, e),
                  below low mid above o (omega (arith, h)) few y at_o,
                  good',
                )
            | inr (inl y) ↦
                let (o, s', e, at_o, good') =
                  bin_lem k (mid + 1) above s₁ (omega (arith, small, h)) few int good₁ in
                (
                  o,
                  s',
                  step ∙ ground (arith, y, e),
                  beyond low mid above o (omega (arith, h)) few (omega (arith, h)) y at_o,
                  good',
                )
            | inr (inr y) ↦ (
              some mid,
              s₁,
              step ∙ ground (arith, y),
              (omega (arith, h), omega (arith, h), sym (strcmp_eq symbol (names mid) y)),
              good₁,
            )
          ]
    ]

    -- On a table whose names are sorted, get_aon_index_binary ends: fewer than 2 ^ k names take k + 1
    -- calls at most. It gives an index that has the symbol, and -1 only if no name is the symbol.
    -- The names can be read and are in the strict order of strcmp, and there are 2 ^ 30 at most.
    pub get_aon_index_binary-Locates :
        (k : ℕ) (s : S)
        → et.number_of_names < 2 ^ k
        → et.number_of_names ≤ 2 ^ 30
        → IsGood s
        → (o : Option ℕ) × (s' : S) × (get_aon_index_binary env conf realloc rounds ctx
              (suc k)
              symbol
              et
              s
            ≡ some (o, s'))
          × Locates names symbol 0 et.number_of_names o
          × IsGood s'
    unfolding get_aon_index_binary
    get_aon_index_binary-Locates k s small int good =
        let (o, s', e, at_o, good') =
          bin_lem k 0 count s (omega (arith, small)) (omega arith) int good in
        (o, s', ground (arith, int, e), at_o, good')

    -- What get_aon_index gives for a table: an index that has the symbol, or else the first name that
    -- is a prefix of it, or -1 if there is none.
    abbrev pub Answers : Option ℕ → Type 0
    Answers o =
        ((i : ℕ) × (o ≡ some i) × (i < et.number_of_names) × (names i ≡ symbol))
        ⊎ (Locates names symbol 0 et.number_of_names none
            × (o ≡ first_prefix names symbol 0 et.number_of_names))

    fallback :
        (k : ℕ) (s : S) (o : Option ℕ) (s' : S)
        → get_aon_index_binary env conf realloc rounds ctx (suc k) symbol et s ≡ some (o, s')
        → Locates names symbol 0 et.number_of_names o
        → IsGood s'
        → (o' : Option ℕ) × (s'' : S) × (get_aon_index env conf realloc rounds ctx
              (suc k)
              symbol
              et
              s
            ≡ some (o', s''))
          × Answers o'
          × IsGood s''
    unfolding get_aon_index get_aon_index_linear
    fallback k s (some i) s' e (from, to, same) good =
        (some i, s', ground (arith, e), inl (i, refl, to, same), good)
    fallback k s none s' e nowhere good =
        let (s'', e', good') =
          linear_lem env conf realloc rounds ctx et IsGood names name_rva ordinals functions has
            symbol 0 count s' (omega arith) good in
        (first_prefix names symbol 0 count, s'', ground (arith, e, e'), inr (nowhere, refl), good')

    -- On such a table get_aon_index ends, with an index that has the symbol if there is one. Otherwise
    -- it gives the index of the first name that is a prefix of the symbol, and -1 if there is none.
    pub get_aon_index-Answers :
        (k : ℕ) (s : S)
        → et.number_of_names < 2 ^ k
        → et.number_of_names ≤ 2 ^ 30
        → IsGood s
        → (o : Option ℕ) × (s' : S) × (get_aon_index env conf realloc rounds ctx (suc k) symbol et s
            ≡ some (o, s'))
          × Answers o
          × IsGood s'
    get_aon_index-Answers k s small int good =
        let (o, s', e, at_o, good') = get_aon_index_binary-Locates k s small int good in
        fallback k s o s' e at_o good'
