-- ===== src/StrMatch/Shifts.antt =====
-- libvmi/strmatch.c: no shift of the two tables goes too far.
use libvmi.Common.{
  ℕ, zero, suc, ◌+◌, ◌-◌, ◌≤◌, ◌<◌, max, Bool, true, false, ◌&&◌, ◌==◌, ltb, leb, if◌then◌else◌,
  Bool-cases, inl, inr, ==_iff, ◌≡◌, refl, sym, ap, ◌∙◌, arith,
}
use libvmi.StrMatch.{set, fill_bc, pre_bm_bc, fill_gs, prefixes_loop, suffixes_gs}

module _ (x : ℕ → ℕ) (m : ℕ) (some_pattern : 0 < m) where
  fill_bc_bound :
      (n i : ℕ) (a : ℕ → ℕ) (c s : ℕ) → a c ≤ s → m - i - 1 ≤ s → fill_bc x m n i a c ≤ s
  unfolding fill_bc
  fill_bc_bound zero i a c s h le = h
  fill_bc_bound (suc n) i a c s h le =
      fill_bc_bound n (i + 1) (set a (x i) (m - i - 1)) c s (ground (arith, h, le))
        (omega (arith, le))

  fill_bc_lem :
      (n i : ℕ) (a : ℕ → ℕ) (p : ℕ) → i ≤ p → p < i + n → fill_bc x m n i a (x p) ≤ m - 1 - p
  unfolding fill_bc
  fill_bc_lem zero i a p lo hi = let bad : ⊥ = omega (arith, lo, hi) in elim bad [ ]
  fill_bc_lem (suc n) i a p lo hi = elim (Bool-cases (i == p)) [
    | inl at ↦
        let here : i ≡ p = ground (arith, at) in
        let same : x i ≡ x p = ap x here in
        fill_bc_bound n (i + 1) (set a (x i) (m - i - 1)) (x p) (m - 1 - p)
          (ground (arith, same, here)) (omega (arith, here))
    | inr later ↦
        fill_bc_lem n (i + 1) (set a (x i) (m - i - 1)) p (ground (arith, lo, later))
          (omega (arith, hi))
  ]

  -- The shift for a byte brings its last place in the pattern, the end apart, under it at most.
  pub pre_bm_bc_lem : (p : ℕ) → p < m - 1 → pre_bm_bc x m (x p) ≤ m - 1 - p
  unfolding pre_bm_bc
  pre_bm_bc_lem p h = fill_bc_lem (m - 1) 0 (λ c. m) p (omega arith) (omega (arith, h))

  pub pre_bm_bc_bound : (c : ℕ) → pre_bm_bc x m c ≤ m
  unfolding pre_bm_bc
  pre_bm_bc_bound c = fill_bc_bound (m - 1) 0 (λ c. m) c m (omega arith) (omega arith)

  fill_gs_lem :
      (n j v : ℕ) (a : ℕ → ℕ) (k : ℕ)
      → fill_gs x m n j v a k ≡ (if leb j k && ltb k (j + n) && a k == m then v else a k)
  unfolding fill_gs
  fill_gs_lem zero j v a k = ground arith
  fill_gs_lem (suc n) j v a k =
      let same : (j == k) ≡ true → a j ≡ a k = λ at. ap a ((==_iff j k).0 at) in
      ground (
        arith,
        fill_gs_lem n (j + 1) v (if a j == m then set a j v else a) k,
        same,
        Bool-cases (a j == m),
        Bool-cases (a k == m),
      )

  module _ (suff : ℕ → ℕ) where
    -- The table while prefixes are looked for down to `n`, of which the longest leaves `j` bytes.
    pub record IsFilled (n j : ℕ) (a : ℕ → ℕ) : Type 0 where
      pub room : j + n ≤ m
      pub low : (k : ℕ) → k < j → a k ≤ j
      pub high : (k : ℕ) → j ≤ k → a k ≡ m
      pub prefix : (i k : ℕ) → n ≤ i → i < m → suff i ≡ i + 1 → k < m - 1 - i → a k ≤ m - 1 - i

    prefix_lem :
        (i j : ℕ) (a : ℕ → ℕ)
        → IsFilled (suc i) j a
        → IsFilled i (max j (m - 1 - i)) (fill_gs x m (m - 1 - i - j) j (m - 1 - i) a)
    prefix_lem i j a filled =
        let v = m - 1 - i in
        let room = filled.room in
        let top : max j v ≡ v = omega (arith, room) in
        let a' = fill_gs x m (v - j) j v a in
        record {
          room = omega (arith, top, room);
          low = λ k h.
              ground
                (arith, room, fill_gs_lem (v - j) j v a k, filled.low k, filled.high k, h, top);
          high = λ k h. ground (arith, room, fill_gs_lem (v - j) j v a k, filled.high k, h, top);
          prefix = λ i' k lo hi e h. ground (
            arith,
            room,
            fill_gs_lem (v - j) j v a k,
            filled.low k,
            filled.high k,
            filled.prefix i' k,
            lo,
            hi,
            e,
            h,
          );
        }

    pub prefixes_loop_lem :
        (n j : ℕ) (a : ℕ → ℕ)
        → IsFilled n j a
        → (j' : ℕ) × IsFilled 0 j' (prefixes_loop x m suff n j a)
    unfolding prefixes_loop
    prefixes_loop_lem zero j a filled = (j, filled)
    prefixes_loop_lem (suc i) j a filled =
        let v = m - 1 - i in
        let is_prefix = suff i == i + 1 in
        elim is_prefix
            as (λ (b : Bool).
              is_prefix ≡ b
              → (j' : ℕ) × IsFilled 0 j' (
                  prefixes_loop x m suff i (if b then max j v else j)
                    (if b then fill_gs x m (v - j) j v a else a))) [
                      | true ↦ λ e.
                          prefixes_loop_lem i (max j v) (fill_gs x m (v - j) j v a)
                            (prefix_lem i j a filled)
                      | false ↦ λ e. prefixes_loop_lem i j a (record {
                        room = omega (arith, filled.room);
                        low = filled.low;
                        high = filled.high;
                        prefix = λ i' k lo hi s h. elim (Bool-cases (i' == i)) [
                          | inl at ↦
                              let here : i' ≡ i = ground (arith, at) in
                              let there : suff i ≡ i + 1 =
                                sym (ap suff here) ∙ s ∙ ap (λ (q : ℕ). q + 1) here in
                              let bad : ⊥ = ground (arith, e, there) in elim bad [ ]
                          | inr other ↦ filled.prefix i' k (ground (arith, other, lo)) hi s h
                        ];
                      })
                    ]
          refl

    suffixes_gs_bound :
        (n i : ℕ) (a : ℕ → ℕ) (k s : ℕ) → a k ≤ s → m - 1 - i ≤ s → suffixes_gs x m suff n i a k ≤ s
    unfolding suffixes_gs
    suffixes_gs_bound zero i a k s h le = h
    suffixes_gs_bound (suc n) i a k s h le =
        suffixes_gs_bound n (i + 1) (set a (m - 1 - suff i) (m - 1 - i)) k s (ground (arith, h, le))
          (omega (arith, le))

    pub suffixes_gs_lem :
        (n i : ℕ) (a : ℕ → ℕ) (p : ℕ)
        → i ≤ p
        → p < i + n
        → suffixes_gs x m suff n i a (m - 1 - suff p) ≤ m - 1 - p
    unfolding suffixes_gs
    suffixes_gs_lem zero i a p lo hi = let bad : ⊥ = omega (arith, lo, hi) in elim bad [ ]
    suffixes_gs_lem (suc n) i a p lo hi = elim (Bool-cases (i == p)) [
      | inl at ↦
          let here : i ≡ p = ground (arith, at) in
          let same : suff i ≡ suff p = ap suff here in
          suffixes_gs_bound n (i + 1) (set a (m - 1 - suff i) (m - 1 - i)) (m - 1 - suff p)
            (m - 1 - p) (ground (arith, same, here)) (omega (arith, here))
      | inr later ↦
          suffixes_gs_lem n (i + 1) (set a (m - 1 - suff i) (m - 1 - i)) p
            (ground (arith, lo, later)) (omega (arith, hi))
    ]

    pub suffixes_gs_kept :
        ((p : ℕ) → p < m → suff p ≤ p + 1)
        → (n i : ℕ) (a : ℕ → ℕ) (k s : ℕ) → i + n ≤ m - 1
        → k < s
        → a k ≤ s
        → suffixes_gs x m suff n i a k ≤ s
    unfolding suffixes_gs
    suffixes_gs_kept short zero i a k s le h at = at
    suffixes_gs_kept short (suc n) i a k s le h at =
        suffixes_gs_kept short n (i + 1) (set a (m - 1 - suff i) (m - 1 - i)) k s
          (omega (arith, le)) h (ground (arith, at, h, le, short i (omega (arith, le))))
