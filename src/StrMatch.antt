-- ===== src/StrMatch.antt =====
-- libvmi/strmatch.c: the search for a pattern of bytes by Boyer and Moore.
pub mod Laws
pub mod Suffixes
pub mod Shifts
pub mod Safe
use libvmi.Common.{
  ℕ, zero, suc, ◌+◌, ◌-◌, max, Bool, not, ◌&&◌, ◌==◌, ltb, leb, Option, none, some, if◌then◌else◌,
}

-- `a[i] = v`
abbrev pub set : (ℕ → ℕ) → ℕ → ℕ → ℕ → ℕ
set a i v k = if i == k then v else a k

module _ (x : ℕ → ℕ) (m : ℕ) where
  -- The second loop of preBmBc, with `n` rounds to go.
  unfoldable pub fill_bc : ℕ → ℕ → (ℕ → ℕ) → ℕ → ℕ
  fill_bc zero i bm_bc = bm_bc
  fill_bc (suc n) i bm_bc = fill_bc n (i + 1) (set bm_bc (x i) (m - i - 1))

  unfoldable pub pre_bm_bc : ℕ → ℕ
  pre_bm_bc = fill_bc (m - 1) 0 (λ c. m)

  -- `while (g >= 0 && x[g] == x[g + m - 1 - f]) --g;` where the argument and the result are g + 1.
  unfoldable pub back : ℕ → ℕ → ℕ
  back f zero = zero
  back f (suc g) = let rest = back f g in if x g == x (g + (m - 1 - f)) then rest else suc g

  -- The loop of suffixes, which goes down to 0 from the argument less one; `g` is the source's g + 1.
  unfoldable pub suffixes_loop : ℕ → ℕ → ℕ → (ℕ → ℕ) → ℕ → ℕ
  suffixes_loop zero f g suff = suff
  suffixes_loop (suc i) f g suff =
      let other = suff (i + (m - 1) - f) in
      let g' = back i (if ltb (i + 1) g then i + 1 else g) in
      let short = ltb g (i + 1) && ltb other (i + 1 - g) in
      suffixes_loop i (if short then f else i) (if short then g else g')
        (set suff i (if short then other else i + 1 - g'))

  unfoldable pub suffixes : (ℕ → ℕ) → ℕ → ℕ
  suffixes suff = suffixes_loop (m - 1) 0 m (set suff (m - 1) m)

  -- `for (; j < m - 1 - i; ++j)`, with `n` rounds to go: `v` is m - 1 - i.
  unfoldable pub fill_gs : ℕ → ℕ → ℕ → (ℕ → ℕ) → ℕ → ℕ
  fill_gs zero j v bm_gs = bm_gs
  fill_gs (suc n) j v bm_gs = fill_gs n (j + 1) v (if bm_gs j == m then set bm_gs j v else bm_gs)

  -- The second loop of preBmGs, down to 0 from the argument less one.
  unfoldable pub prefixes_loop : (ℕ → ℕ) → ℕ → ℕ → (ℕ → ℕ) → ℕ → ℕ
  prefixes_loop suff zero j bm_gs = bm_gs
  prefixes_loop suff (suc i) j bm_gs =
      let v = m - 1 - i in
      let is_prefix = suff i == i + 1 in
      prefixes_loop suff i (if is_prefix then max j v else j)
        (if is_prefix then fill_gs (v - j) j v bm_gs else bm_gs)

  -- Its last loop, with `n` rounds to go.
  unfoldable pub suffixes_gs : (ℕ → ℕ) → ℕ → ℕ → (ℕ → ℕ) → ℕ → ℕ
  suffixes_gs suff zero i bm_gs = bm_gs
  suffixes_gs suff (suc n) i bm_gs =
      suffixes_gs suff n (i + 1) (set bm_gs (m - 1 - suff i) (m - 1 - i))

  -- `fresh` is what the memory for suff holds.
  unfoldable pub pre_bm_gs : (ℕ → ℕ) → ℕ → ℕ
  pre_bm_gs fresh =
      let suff = suffixes fresh in suffixes_gs suff (m - 1) 0 (prefixes_loop suff m 0 (λ k. m))

-- boyer_moore_data_t
pub record BoyerMooreData : Type 0 where
  pub x : ℕ → ℕ
  pub m : ℕ
  pub bm_bc : ℕ → ℕ
  pub bm_gs : ℕ → ℕ

unfoldable pub boyer_moore_init : (ℕ → ℕ) → (ℕ → ℕ) → ℕ → BoyerMooreData
boyer_moore_init fresh x m = record {
  x = x;
  m = m;
  bm_bc = pre_bm_bc x m;
  bm_gs = pre_bm_gs x m fresh;
}

-- `for (i = m - 1; i >= 0 && x[i] == y[i + j]; --i) ;` from the argument less one: `none` for i < 0.
unfoldable pub mismatch : (ℕ → ℕ) → (ℕ → ℕ) → ℕ → ℕ → Option ℕ
mismatch x y j zero = none
mismatch x y j (suc i) = let rest = mismatch x y j i in if x i == y (i + j) then rest else some i

-- The loop of the search, on fuel: `none` if that has run out, `some none` for -1. The shift by the bad
-- character may be negative in the source, and is then less than the other one.
unfoldable pub search : BoyerMooreData → (ℕ → ℕ) → ℕ → ℕ → ℕ → Option (Option ℕ)
search bm y n zero j = none
search bm y n (suc fuel) j =
    let rest =
      λ (i : ℕ). search bm y n fuel (j + max (bm.bm_gs i) (bm.bm_bc (y (i + j)) + 1 + i - bm.m)) in
    if leb (j + bm.m) n
    then (elim (mismatch bm.x y j bm.m) [ none ↦ some (some j) | some i ↦ rest i ])
    else some none

unfoldable pub boyer_moore2 : BoyerMooreData → (ℕ → ℕ) → ℕ → Option (Option ℕ)
boyer_moore2 bm y n = search bm y n (n + 2) 0

unfoldable pub boyer_moore : (ℕ → ℕ) → (ℕ → ℕ) → ℕ → (ℕ → ℕ) → ℕ → Option (Option ℕ)
boyer_moore fresh x m y n = boyer_moore2 (boyer_moore_init fresh x m) y n
