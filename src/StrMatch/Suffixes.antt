-- ===== src/StrMatch/Suffixes.antt =====
-- libvmi/strmatch.c: what suffixes stores is the length of the longest common suffix.
use mathlib.Core.Path.{subst}
use libvmi.Common.{
  ℕ, zero, suc, ◌+◌, ◌-◌, ◌≤◌, ◌<◌, Bool, true, false, ◌&&◌, ◌==◌, ltb, if◌then◌else◌, Bool-cases,
  ◌⊎◌, inl, inr, if_elim, ==_iff, ◌≡◌, ◌≢◌, refl, sym, ap, ◌∙◌, arith,
}
use libvmi.StrMatch.{set, back, suffixes_loop, suffixes}

module _ (x : ℕ → ℕ) (m : ℕ) (some_pattern : 0 < m) where
  -- The pattern up to `p` has the last `v` bytes of the pattern for its own last ones, and no more.
  pub record IsSuffix (p v : ℕ) : Type 0 where
    pub short : v ≤ p + 1
    pub same : (k : ℕ) → k < v → x (p - k) ≡ x (m - 1 - k)
    pub longest : (v ≡ p + 1) ⊎ (x (p - v) ≢ x (m - 1 - v))

  record IsBack (f g g' : ℕ) : Type 0 where
    pub less : g' ≤ g
    pub same : (k : ℕ) → g' ≤ k → k < g → x k ≡ x (k + (m - 1 - f))
    pub last : (g' ≡ 0) ⊎ (x (g' - 1) ≢ x (g' - 1 + (m - 1 - f)))

  back_lem : (f g : ℕ) → IsBack f g (back x m f g)
  unfolding back
  back_lem f zero = record {
    less = omega arith;
    same = λ k lo hi. let bad : ⊥ = omega (arith, lo, hi) in elim bad [ ];
    last = inl refl;
  }
  back_lem f (suc g) =
      let rest = back_lem f g in
      let e = x g == x (g + (m - 1 - f)) in
      if_elim (IsBack f (suc g)) e (back x m f g) (suc g)
        (λ equal. record {
          less = omega (arith, rest.less);
          same = λ k lo hi. elim (Bool-cases (k == g)) [
            | inl at ↦
                let here : k ≡ g = ground (arith, at) in
                ap x here ∙ ground (arith, equal) ∙ ap (λ (q : ℕ). x (q + (m - 1 - f))) (sym here)
            | inr before ↦ rest.same k lo (ground (arith, before, hi))
          ];
          last = rest.last;
        })
        (λ other. record {
          less = omega arith;
          same = λ k lo hi. let bad : ⊥ = omega (arith, lo, hi) in elim bad [ ];
          last =
              inr (λ same.
                ground (arith, other, ap x (pred g) ∙ sym (ap x (pred g)), moved g f same));
        })
    where
      pred : (g : ℕ) → suc g - 1 ≡ g
      pred g = omega arith

      moved : (g f : ℕ) → x (suc g - 1) ≡ x (suc g - 1 + (m - 1 - f)) → x g ≡ x (g + (m - 1 - f))
      moved g f e = sym (ap x (pred g)) ∙ e ∙ ap (λ (q : ℕ). x (q + (m - 1 - f))) (pred g)

  IsDone : ℕ → (ℕ → ℕ) → Type 0
  IsDone n suff = (p : ℕ) → n ≤ p → p < m → IsSuffix p (suff p)

  -- The stretch from g to f, which is known to match what stands m - 1 - f behind it.
  IsStretch : ℕ → ℕ → Type 0
  IsStretch g f = (k : ℕ) → g ≤ k → k ≤ f → x k ≡ x (k + (m - 1 - f))

  IsStart : ℕ → ℕ → ℕ → Type 0
  IsStart n f g = (g ≡ m) ⊎ ((f < m - 1) × (n ≤ f))

  set-IsDone :
      (i v : ℕ) (suff : ℕ → ℕ) → IsDone (suc i) suff → IsSuffix i v → IsDone i (set suff i v)
  unfolding IsDone
  set-IsDone i v suff done here p lo hi =
      if_elim (IsSuffix p) (i == p) v (suff p)
        (λ at. subst (λ (q : ℕ). IsSuffix q v) ((==_iff i p).0 at) here)
        (λ other. done p (ground (arith, other, lo)) hi)

  -- The case in which a former length is used again.
  short_lem :
      (i f g : ℕ) (suff : ℕ → ℕ)
      → suc i ≤ m - 1
      → f < m - 1
      → suc i ≤ f
      → g < i + 1
      → suff (i + (m - 1) - f) < i + 1 - g
      → IsDone (suc i) suff
      → IsStretch g f
      → IsSuffix i (suff (i + (m - 1) - f))
  unfolding IsDone IsStretch
  short_lem i f g suff inside fm fi gi less done stretch =
      let q = i + (m - 1) - f in
      let other = suff q in
      let former = done q (omega (arith, fm, fi)) (omega (arith, fm, fi, inside)) in
      let at = λ (k : ℕ) (h : k < i + 1 - g).
        let index : i - k + (m - 1 - f) ≡ q - k = omega (arith, fm, fi, h) in
        stretch (i - k) (omega (arith, h)) (omega (arith, fi)) ∙ ap x index in
      record {
        short = omega (arith, less);
        same = λ k h. at k (omega (arith, h, less)) ∙ former.same k h;
        longest = elim former.longest [
          | inl all ↦ let bad : ⊥ = omega (arith, all, less, fm, fi) in elim bad [ ]
          | inr ends ↦ inr (λ e. ends (sym (at other less) ∙ e))
        ];
      }

  -- The other case, where the stretch is made longer from g₀.
  long_lem :
      (i g₀ g' : ℕ)
      → suc i ≤ m - 1
      → g₀ ≤ i + 1
      → ((k : ℕ) → g₀ ≤ k → k ≤ i → x k ≡ x (k + (m - 1 - i)))
      → IsBack i g₀ g'
      → IsStretch g' i × IsSuffix i (i + 1 - g')
  unfolding IsStretch
  long_lem i g₀ g' inside le known made =
      let stretch : (k : ℕ) → g' ≤ k → k ≤ i → x k ≡ x (k + (m - 1 - i)) = λ k lo hi.
        elim (Bool-cases (ltb k g₀)) [
          | inl before ↦ made.same k lo (ground (arith, before))
          | inr after ↦ known k (ground (arith, after)) hi
        ] in
      let low = made.less in
      (
        stretch,
        record {
          short = omega arith;
          same = λ k h.
              let index : i - k + (m - 1 - i) ≡ m - 1 - k = omega (arith, h, inside) in
              stretch (i - k) (omega (arith, h)) (omega arith) ∙ ap x index;
          longest = elim made.last [
            | inl all ↦ inl (omega (arith, all))
            | inr ends ↦ elim (Bool-cases (g' == 0)) [
              | inl at ↦ inl (ground (arith, at))
              | inr more ↦
                  let pos : 0 < g' = ground (arith, more) in
                  let index : i - (i + 1 - g') ≡ g' - 1 = omega (arith, pos, low, le) in
                  let index' : m - 1 - (i + 1 - g') ≡ g' - 1 + (m - 1 - i) =
                    omega (arith, pos, low, le, inside) in
                  inr (λ e. ends (sym (ap x index) ∙ e ∙ ap x index'))
            ]
          ];
        },
      )

  -- What is known where the long case begins.
  known_lem :
      (i f g : ℕ) (suff : ℕ → ℕ)
      → suc i ≤ m - 1
      → IsStart (suc i) f g
      → ltb g (i + 1) && ltb (suff (i + (m - 1) - f)) (i + 1 - g) ≡ false
      → IsDone (suc i) suff
      → IsStretch g f
      → (k : ℕ) → (if ltb (i + 1) g then i + 1 else g) ≤ k
      → k ≤ i
      → x k ≡ x (k + (m - 1 - i))
  unfolding IsDone IsStretch IsStart
  known_lem i f g suff inside start long done stretch k lo hi =
      let gk : g ≤ k = ground (arith, lo, hi) in
      elim start [
        | inl top ↦ let bad : ⊥ = omega (arith, top, gk, hi, inside) in elim bad [ ]
        | inr (fm, fi) ↦
            let q = i + (m - 1) - f in
            let former = done q (omega (arith, fm, fi)) (omega (arith, fm, fi, inside)) in
            let enough : i - k < suff q = ground (arith, long, gk, hi) in
            let index : k + (m - 1 - f) ≡ q - (i - k) = omega (arith, fm, fi, hi) in
            let index' : m - 1 - (i - k) ≡ k + (m - 1 - i) = omega (arith, hi, inside) in
            stretch k gk (omega (arith, hi, fi))
            ∙ ap x index
            ∙ former.same (i - k) enough
            ∙ ap x index'
      ]

  started :
      (i f g : ℕ) → suc i ≤ m - 1 → IsStart (suc i) f g → g < i + 1 → (f < m - 1) × (suc i ≤ f)
  unfolding IsStart
  started i f g inside (inl top) h = let bad : ⊥ = omega (arith, top, h, inside) in elim bad [ ]
  started i f g inside (inr later) h = later

  kept-IsStart : (i f g : ℕ) → f < m - 1 → i ≤ f → IsStart i f g
  unfolding IsStart
  kept-IsStart i f g fm fi = inr (fm, fi)

  suffixes_loop_lem :
      (n f g : ℕ) (suff : ℕ → ℕ)
      → n ≤ m - 1
      → IsStart n f g
      → IsDone n suff
      → IsStretch g f
      → IsDone 0 (suffixes_loop x m n f g suff)
  unfolding suffixes_loop
  suffixes_loop_lem zero f g suff inside start done stretch = done
  suffixes_loop_lem (suc i) f g suff inside start done stretch =
      let other = suff (i + (m - 1) - f) in
      let g₀ = if ltb (i + 1) g then i + 1 else g in
      let g' = back x m i g₀ in
      let short = ltb g (i + 1) && ltb other (i + 1 - g) in
      elim short
          as (λ (b : Bool).
            short ≡ b
            → IsDone 0 (
                suffixes_loop x m i (if b then f else i) (if b then g else g')
                  (set suff i (if b then other else i + 1 - g')))) [
                    | true ↦ λ e.
                        let (fm, fi) = started i f g inside start (ground (arith, e)) in
                        let here =
                          short_lem i f g suff inside fm fi (ground (arith, e)) (ground (arith, e))
                            done stretch in
                        suffixes_loop_lem i f g (set suff i other) (omega (arith, inside))
                          (kept-IsStart i f g fm (omega (arith, fi)))
                          (set-IsDone i other suff done here) stretch
                    | false ↦ λ e.
                        let (stretch', here) =
                          long_lem i g₀ g' inside (ground arith)
                            (known_lem i f g suff inside start e done stretch) (back_lem i g₀) in
                        suffixes_loop_lem i i g' (set suff i (i + 1 - g')) (omega (arith, inside))
                          (kept-IsStart i i g' (omega (arith, inside)) (omega arith))
                          (set-IsDone i (i + 1 - g') suff done here) stretch'
                  ]
        refl

  -- Every length is right, whatever the memory for them held.
  pub suffixes-IsSuffix : (fresh : ℕ → ℕ) (p : ℕ) → p < m → IsSuffix p (suffixes x m fresh p)
  unfolding suffixes IsDone IsStretch IsStart
  suffixes-IsSuffix fresh p h =
      suffixes_loop_lem (m - 1) 0 m (set fresh (m - 1) m) (omega arith) (inl refl)
        (λ q lo hi.
          let last : q ≡ m - 1 = omega (arith, lo, hi) in
          let value : set fresh (m - 1) m q ≡ m = ground (arith, last) in
          record {
            short = omega (arith, value, last, some_pattern);
            same = λ k lt. ap x (omega (arith, last));
            longest = inl (omega (arith, value, last, some_pattern));
          })
        (λ k lo hi. let bad : ⊥ = omega (arith, lo, hi, some_pattern) in elim bad [ ]) p
        (omega arith) h
