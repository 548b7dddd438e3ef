-- ===== src/StrMatch/Laws.antt =====
-- libvmi/strmatch.c: the search ends, and what it finds is there.
use mathlib.Core.Path.{subst}
use libvmi.Common.{
  ℕ, zero, suc, ◌+◌, ◌-◌, ◌≤◌, ◌<◌, max, false, ◌==◌, ltb, leb, Option, none, some, if◌then◌else◌,
  Bool-cases, ◌⊎◌, inl, inr, if_elim, ==_iff, ◌≢◌, ◌≡◌, refl, sym, ap, ◌∙◌, arith,
}
use libvmi.StrMatch.Shifts.{pre_bm_bc_lem, pre_bm_bc_bound}
use libvmi.StrMatch.Safe.{IsConsistent, pre_bm_gs_lem}
use libvmi.StrMatch.{
  set, suffixes, fill_gs, prefixes_loop, suffixes_gs, pre_bm_gs, pre_bm_bc, BoyerMooreData,
  boyer_moore_init, mismatch, search, boyer_moore2, boyer_moore,
}

-- Every shift goes on.
abbrev pub IsShift : (ℕ → ℕ) → Type 0
IsShift a = (k : ℕ) → 0 < a k

set-IsShift : (a : ℕ → ℕ) (i v : ℕ) → 0 < v → IsShift a → IsShift (set a i v)
set-IsShift a i v h shift k = ground (arith, h, shift k)

module _ (x : ℕ → ℕ) (m : ℕ) (some_pattern : 0 < m) where
  fill_gs-IsShift :
      (n j v : ℕ) (a : ℕ → ℕ) → (0 < n → 0 < v) → IsShift a → IsShift (fill_gs x m n j v a)
  unfolding fill_gs
  fill_gs-IsShift zero j v a h shift = shift
  fill_gs-IsShift (suc n) j v a h shift =
      fill_gs-IsShift n (j + 1) v (if a j == m then set a j v else a) (λ more. h (omega arith))
        (if_elim IsShift (a j == m) (set a j v) a (λ e. set-IsShift a j v (h (omega arith)) shift)
          (λ e. shift))

  prefixes_loop-IsShift :
      (suff : ℕ → ℕ) (i j : ℕ) (a : ℕ → ℕ) → IsShift a → IsShift (prefixes_loop x m suff i j a)
  unfolding prefixes_loop
  prefixes_loop-IsShift suff zero j a shift = shift
  prefixes_loop-IsShift suff (suc i) j a shift =
      let v = m - 1 - i in
      prefixes_loop-IsShift suff i (if suff i == i + 1 then max j v else j)
        (if suff i == i + 1 then fill_gs x m (v - j) j v a else a)
        (if_elim IsShift (suff i == i + 1) (fill_gs x m (v - j) j v a) a
          (λ e. fill_gs-IsShift (v - j) j v a (λ more. omega (arith, more)) shift) (λ e. shift))

  suffixes_gs-IsShift :
      (suff : ℕ → ℕ) (n i : ℕ) (a : ℕ → ℕ)
      → i + n ≤ m - 1
      → IsShift a
      → IsShift (suffixes_gs x m suff n i a)
  unfolding suffixes_gs
  suffixes_gs-IsShift suff zero i a h shift = shift
  suffixes_gs-IsShift suff (suc n) i a h shift =
      suffixes_gs-IsShift suff n (i + 1) (set a (m - 1 - suff i) (m - 1 - i)) (omega (arith, h))
        (set-IsShift a (m - 1 - suff i) (m - 1 - i) (omega (arith, h)) shift)

  pub pre_bm_gs-IsShift : (fresh : ℕ → ℕ) → IsShift (pre_bm_gs x m fresh)
  unfolding pre_bm_gs
  pre_bm_gs-IsShift fresh =
      let suff = suffixes x m fresh in
      suffixes_gs-IsShift suff (m - 1) 0 (prefixes_loop x m suff m 0 (λ k. m)) (omega arith)
        (prefixes_loop-IsShift suff m 0 (λ k. m) (λ k. some_pattern))

-- The pattern stands at a position of the text.
abbrev pub IsMatch : (ℕ → ℕ) → ℕ → (ℕ → ℕ) → ℕ → ℕ → Type 0
IsMatch x m y n j = (j + m ≤ n) × ((i : ℕ) → i < m → x i ≡ y (i + j))

-- The place where a comparison has ended: what is behind it matches.
IsEnd : (ℕ → ℕ) → ℕ → (ℕ → ℕ) → ℕ → Option ℕ → Type 0
IsEnd x m y j none = (k : ℕ) → k < m → x k ≡ y (k + j)
IsEnd x m y j (some i) = (i < m) × (x i ≢ y (i + j)) × ((k : ℕ) → i < k → k < m → x k ≡ y (k + j))

mismatch_lem :
    (x y : ℕ → ℕ) (j m n : ℕ)
    → m ≤ n
    → ((k : ℕ) → m ≤ k → k < n → x k ≡ y (k + j))
    → IsEnd x n y j (mismatch x y j m)
unfolding mismatch IsEnd
mismatch_lem x y j zero n le known = λ k h. known k (omega arith) h
mismatch_lem x y j (suc m) n le known =
    if_elim (IsEnd x n y j) (x m == y (m + j)) (mismatch x y j m) (some m)
      (λ same. mismatch_lem x y j m n (omega (arith, le)) (λ k lo hi. elim (Bool-cases (k == m)) [
        | inl at ↦
            let here : k ≡ m = ground (arith, at) in
            ap x here ∙ (==_iff (x m) (y (m + j))).0 same ∙ ap (λ (q : ℕ). y (q + j)) (sym here)
        | inr other ↦ known k (ground (arith, other, lo)) hi
      ]))
      (λ other. (
        le,
        λ same. let bad : ⊥ = ground (arith, other, same) in elim bad [ ],
        λ k lo hi. known k (omega (arith, lo)) hi,
      ))

module _ (fresh x : ℕ → ℕ) (m : ℕ) (y : ℕ → ℕ) (n : ℕ) (some_pattern : 0 < m) where
  abbrev bm : BoyerMooreData
  bm = boyer_moore_init fresh x m

  -- The next position.
  abbrev shift_of : ℕ → ℕ → ℕ
  shift_of j i = max (pre_bm_gs x m fresh i) (pre_bm_bc x m (y (i + j)) + 1 + i - m)

  -- A search that gives -1 where the pattern is nowhere, or else the first position where it is.
  abbrev pub IsFirst : Option (Option ℕ) → Type 0
  IsFirst r =
      ((r ≡ some none) × ((j : ℕ) → IsMatch x m y n j → ⊥))
      ⊎ ((j : ℕ) × (r ≡ some (some j))
          × IsMatch x m y n j
          × ((k : ℕ) → k < j → IsMatch x m y n k → ⊥))

  -- A position that a shift passes over is none at which the pattern stands.
  skip_lem :
      (j i s : ℕ) → IsEnd x m y j (some i) → 0 < s → s < shift_of j i → IsMatch x m y n (j + s) → ⊥
  unfolding IsEnd
  skip_lem j i s (inside, differs, behind) pos less (fits, same) =
      let by_suffix : IsConsistent x m some_pattern fresh i s → pre_bm_gs x m fresh i ≤ s =
        λ consistent. pre_bm_gs_lem x m some_pattern fresh i s inside pos consistent in
      let consistent : IsConsistent x m some_pattern fresh i s = record {
        matched = λ k lo hi le.
            same (k - s) (omega (arith, hi)) ∙ ap y (omega (arith, le)) ∙ sym (behind k lo hi);
        other = λ le e.
            differs (sym e ∙ same (i - s) (omega (arith, inside)) ∙ ap y (omega (arith, le)));
      } in
      let bound = by_suffix consistent in
      let c = y (i + j) in
      let most = pre_bm_bc_bound x m some_pattern c in
      let near : s ≤ i = omega (arith, bound, less, most) in
      let place : x (i - s) ≡ c =
        same (i - s) (omega (arith, inside)) ∙ ap y (omega (arith, near)) in
      let low = pre_bm_bc_lem x m some_pattern (i - s) (omega (arith, pos, near, inside)) in
      let value = ap (pre_bm_bc x m) place in omega (arith, bound, less, low, value, near, inside)

  -- What a round gives for what it finds.
  round_lem :
      (fuel j : ℕ) (at : Option ℕ)
      → IsEnd x m y j at
      → j + m ≤ n
      → ((k : ℕ) → k < j → IsMatch x m y n k → ⊥)
      → ((i : ℕ) → IsEnd x m y j (some i) → IsFirst (search bm y n fuel (j + shift_of j i)))
      → IsFirst (elim at [ none ↦ some (some j) | some i ↦ search bm y n fuel (j + shift_of j i) ])
  unfolding IsEnd
  round_lem fuel j none ends inside clear rest = inr (j, refl, (inside, ends), clear)
  round_lem fuel j (some i) ends inside clear rest = rest i ends

  -- No position before the next one is missed.
  clear_lem :
      (j i : ℕ)
      → IsEnd x m y j (some i)
      → ((k : ℕ) → k < j → IsMatch x m y n k → ⊥)
      → (k : ℕ) → k < j + shift_of j i
      → IsMatch x m y n k
      → ⊥
  unfolding IsEnd
  clear_lem j i ends clear k h at = elim (Bool-cases (ltb k j)) [
    | inl before ↦ clear k (ground (arith, before)) at
    | inr later ↦ elim (Bool-cases (k == j)) [
      | inl here ↦
          let e : k ≡ j = ground (arith, here) in
          ends.1 (at.1 i ends.0 ∙ ap (λ (q : ℕ). y (i + q)) e)
      | inr over ↦
          let e : k ≡ j + (k - j) = ground (arith, later) in
          skip_lem j i (k - j) ends (ground (arith, later, over)) (ground (arith, later, h))
            (subst (IsMatch x m y n) e at)
    ]
  ]

  search_lem :
      (fuel j : ℕ)
      → n + 1 - j < fuel
      → ((k : ℕ) → k < j → IsMatch x m y n k → ⊥)
      → IsFirst (search bm y n fuel j)
  unfolding search boyer_moore_init
  search_lem zero j h clear = elim h [ ]
  search_lem (suc fuel) j h clear =
      if_elim IsFirst (leb (j + m) n)
        (elim (mismatch x y j m) [
          | none ↦ some (some j)
          | some i ↦ search bm y n fuel (j + shift_of j i)
        ])
        (some none)
        (λ inside.
          let le : j + m ≤ n = ground (arith, inside) in
          let ends =
            mismatch_lem x y j m m (omega arith)
              (λ k lo hi. let bad : ⊥ = omega (arith, lo, hi) in elim bad [ ]) in
          round_lem fuel j (mismatch x y j m) ends le clear (λ i here.
            search_lem fuel (j + shift_of j i)
              (omega (arith, h, le, pre_bm_gs-IsShift x m some_pattern fresh i))
              (clear_lem j i here clear)))
        (λ past. inl (
          refl,
          λ k at. elim (Bool-cases (ltb k j)) [
            | inl before ↦ clear k (ground (arith, before)) at
            | inr later ↦ omega (arith, at.0, after k j later past)
          ],
        ))
    where
      after : (k j : ℕ) → ltb k j ≡ false → leb (j + m) n ≡ false → n < k + m
      after k j later past = ground (arith, later, past)

  -- For a pattern that is not empty: boyer_moore ends, the search making no more than n + 2 rounds
  -- for a text of n bytes. It gives the first position at which the pattern stands in the text, or -1
  -- if there is none.
  pub boyer_moore-IsFirst : IsFirst (boyer_moore fresh x m y n)
  unfolding boyer_moore boyer_moore2
  boyer_moore-IsFirst =
      search_lem (n + 2) 0 (omega arith) (λ k h. let bad : ⊥ = omega (arith, h) in elim bad [ ])
