-- ===== src/StrMatch/Safe.antt =====
-- libvmi/strmatch.c: a shift by the good suffix passes over no place of the pattern.
use libvmi.Common.{
  ℕ, ◌+◌, ◌-◌, ◌≤◌, ◌<◌, ltb, Bool-cases, inl, inr, ◌≡◌, ◌≢◌, refl, sym, ap, ◌∙◌, arith,
}
use libvmi.StrMatch.{suffixes, suffixes_gs, prefixes_loop, pre_bm_gs}
use libvmi.StrMatch.Suffixes.{IsSuffix, suffixes-IsSuffix}
use libvmi.StrMatch.Shifts.{prefixes_loop_lem, suffixes_gs_lem, suffixes_gs_kept}

module _ (x : ℕ → ℕ) (m : ℕ) (some_pattern : 0 < m) (fresh : ℕ → ℕ) where
  abbrev suff : ℕ → ℕ
  suff = suffixes x m fresh

  -- The pattern may stand `s` further on, as far as its bytes from `i` on say: those behind `i` have
  -- matched, and that at `i` has not.
  pub record IsConsistent (i s : ℕ) : Type 0 where
    pub matched : (k : ℕ) → i < k → k < m → s ≤ k → x (k - s) ≡ x k
    pub other : s ≤ i → x (i - s) ≢ x i

  spec : (p : ℕ) → p < m → IsSuffix x m some_pattern p (suff p)
  spec = suffixes-IsSuffix x m some_pattern fresh

  -- A pattern whose common suffix ends within what matched cannot be consistent.
  reach_lem :
      (i s p : ℕ)
      → 0 < s
      → s + p ≡ m - 1
      → IsConsistent i s
      → suff p < p + 1
      → suff p < m - 1 - i
      → ⊥
  reach_lem i s p pos e consistent less less' =
      let v = suff p in
      let at = spec p (omega (arith, pos, e)) in
      elim at.longest [
        | inl all ↦ omega (arith, all, less)
        | inr ends ↦
            let index : m - 1 - v - s ≡ p - v = omega (arith, e) in
            ends (
              sym (ap x index)
              ∙ consistent.matched (m - 1 - v) (omega (arith, less')) (omega (arith, some_pattern))
                  (omega (arith, less, e)))
      ]

  -- Where the byte at `i` has a place s before it: the length of the common suffix is known.
  inner_lem : (i s : ℕ) → i < m → 0 < s → s ≤ i → IsConsistent i s → suff (m - 1 - s) ≡ m - 1 - i
  inner_lem i s h pos le consistent =
      let p = m - 1 - s in
      let v = suff p in
      let at = spec p (omega (arith, pos, h)) in
      elim (Bool-cases (ltb v (m - 1 - i))) [
        | inl less ↦
            let bad : ⊥ =
              reach_lem i s p pos (omega (arith, h, le)) consistent (ground (arith, less, h, le))
                (ground (arith, less)) in
            elim bad [ ]
        | inr enough ↦ elim (Bool-cases (ltb (m - 1 - i) v)) [
          | inr none_more ↦ ground (arith, enough, none_more)
          | inl more ↦
              let index : p - (m - 1 - i) ≡ i - s = omega (arith, h, le) in
              let index' : m - 1 - (m - 1 - i) ≡ i = omega (arith, h) in
              let bad : ⊥ =
                consistent.other le
                  (sym (ap x index) ∙ at.same (m - 1 - i) (ground (arith, more)) ∙ ap x index') in
              elim bad [ ]
        ]
      ]

  -- A shift by the good suffix is no longer than one with which the pattern may stand further on.
  pub pre_bm_gs_lem : (i s : ℕ) → i < m → 0 < s → IsConsistent i s → pre_bm_gs x m fresh i ≤ s
  unfolding pre_bm_gs
  pre_bm_gs_lem i s h pos consistent =
      let (j, filled) =
        prefixes_loop_lem x m some_pattern suff m 0 (λ k. m)
          (record {
            room = omega arith;
            low = λ k lt. let bad : ⊥ = omega (arith, lt) in elim bad [ ];
            high = λ k le. refl;
            prefix = λ i k lo hi. let bad : ⊥ = omega (arith, lo, hi) in elim bad [ ];
          }) in
      let table = prefixes_loop x m suff m 0 (λ k. m) in
      let kept =
        suffixes_gs_kept x m some_pattern suff (λ p lt. (spec p lt).short) (m - 1) 0 table i in
      elim (Bool-cases (ltb s m)) [
        | inr far ↦
            let all : table i ≤ m = ground (arith, filled.room, filled.low i, filled.high i) in
            let bound = kept m (omega arith) h all in ground (arith, bound, far)
        | inl near ↦
            let sm : s < m = ground (arith, near) in
            let p = m - 1 - s in
            elim (Bool-cases (ltb i s)) [
              | inl before ↦
                  let lt : i < s = ground (arith, before) in
                  let short = (spec p (omega (arith, sm))).short in
                  elim (Bool-cases (ltb (suff p) (p + 1))) [
                    | inl less ↦
                        let less' : suff p < p + 1 = ground (arith, less) in
                        let bad : ⊥ =
                          reach_lem i s p pos (omega (arith, sm)) consistent less'
                            (omega (arith, less', lt, sm)) in
                        elim bad [ ]
                    | inr whole ↦
                        let e : suff p ≡ p + 1 = ground (arith, whole, short) in
                        let at =
                          filled.prefix p i (omega arith) (omega (arith, sm)) e
                            (omega (arith, sm, lt)) in
                        kept s (omega arith) lt (omega (arith, at, sm))
                  ]
              | inr behind ↦
                  let le : s ≤ i = ground (arith, behind) in
                  let length = inner_lem i s h pos le consistent in
                  let index : m - 1 - suff p ≡ i = omega (arith, length, h) in
                  let bound =
                    suffixes_gs_lem x m some_pattern suff (m - 1) 0 table p (omega arith)
                      (omega (arith, pos, sm)) in
                  let there = ap (suffixes_gs x m suff (m - 1) 0 table) index in
                  omega (arith, bound, there, sm)
            ]
      ]
