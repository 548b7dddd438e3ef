-- ===== src/Access/Window.antt =====
-- A stretch of memory as the list of its bytes.
use mathlib.Core.Path.{ap₂}
use libvmi.Common.{
  ℕ, zero, suc, ◌+◌, ◌-◌, ◌≤◌, ◌<◌, List, [], ◌∷◌, ◌++◌, take, drop, length, ◌≡◌, refl, sym, ap,
  ◌∙◌, arith,
}

unfoldable pub window : (ℕ → ℕ) → ℕ → ℕ → List ℕ
window mem a zero = []
window mem a (suc n) = mem a ∷ window mem (a + 1) n

module _ (mem : ℕ → ℕ) where
  pub window_same : (a b m n : ℕ) → a ≡ b → m ≡ n → window mem a m ≡ window mem b n
  window_same a b m n e f = ap₂ (window mem) e f

  pub length-window : (a n : ℕ) → length (window mem a n) ≡ n
  unfolding window
  length-window a zero = refl
  length-window a (suc n) = ap suc (length-window (a + 1) n)

  pub window-append : (a m n : ℕ) → window mem a (m + n) ≡ window mem a m ++ window mem (a + m) n
  unfolding window
  window-append a zero n = window_same a (a + 0) (0 + n) n (omega arith) (omega arith)
  window-append a (suc m) n =
      window_same a a (suc m + n) (suc (m + n)) (omega arith) (omega arith)
      ∙ ap (◌∷◌ (mem a)) (
          window-append (a + 1) m n
          ∙ ap (◌++◌ (window mem (a + 1) m))
              (window_same (a + 1 + m) (a + suc m) n n (omega arith) (omega arith)))

  pub take-window : (a m n : ℕ) → m ≤ n → take m (window mem a n) ≡ window mem a m
  unfolding window
  take-window a zero n h = refl
  take-window a (suc m) zero h = elim h [ ]
  take-window a (suc m) (suc n) h = ap (◌∷◌ (mem a)) (take-window (a + 1) m n (omega arith))

  pub drop-window : (a k n : ℕ) → drop k (window mem a (k + n)) ≡ window mem (a + k) n
  unfolding window
  drop-window a zero n = window_same a (a + 0) (0 + n) n (omega arith) (omega arith)
  drop-window a (suc k) n =
      ap (drop (suc k)) (window_same a a (suc k + n) (suc (k + n)) (omega arith) (omega arith))
      ∙ drop-window (a + 1) k n
      ∙ window_same (a + 1 + k) (a + suc k) n n (omega arith) (omega arith)

  -- Part of a stretch.
  pub window_part :
      (a k m n : ℕ) → k + m ≤ n → take m (drop k (window mem a n)) ≡ window mem (a + k) m
  window_part a k m n h =
      ap (λ (t : List ℕ). take m (drop k t))
        (window_same a a n (k + (n - k)) (omega arith) (omega arith))
      ∙ ap (take m) (drop-window a k (n - k))
      ∙ take-window (a + k) m (n - k) (omega arith)

-- Bytes that are the same one by one.
pub window_map :
    (f g : ℕ → ℕ) (a b n : ℕ)
    → ((i : ℕ) → i < n → f (a + i) ≡ g (b + i))
    → window f a n ≡ window g b n
unfolding window
window_map f g a b zero h = refl
window_map f g a b (suc n) h =
    ap₂ ◌∷◌ (ap f (at_zero a) ∙ h 0 (omega arith) ∙ ap g (sym (at_zero b))) (
      window_map f g (a + 1) (b + 1) n
        (λ i lt. ap f (shift a i) ∙ h (suc i) (omega arith) ∙ ap g (sym (shift b i))))
  where
    at_zero : (t : ℕ) → t ≡ t + 0
    at_zero t = omega arith

    shift : (t i : ℕ) → t + 1 + i ≡ t + suc i
    shift t i = omega arith
