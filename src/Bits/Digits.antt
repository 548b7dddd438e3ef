-- ===== src/Bits/Digits.antt =====
-- One equation for the lowest digit of `&` and `|`, from the digit recursion that the native
-- operations stand for, and what follows by going through the digits of a word.
use Prim.Native.Nat.{digits, bitwise, bit_and-bitwise, bit_or-bitwise}
use libvmi.Common.{
  ℕ, zero, suc, ◌+◌, ◌*◌, ◌/◌, ◌%◌, ◌≤◌, min, max, bit_and, bit_or, ◌≡◌, refl, arith,
}

-- The fuel of the recursion does not matter once it covers the first word.
module _ (on_zero : ℕ → ℕ) (join : ℕ → ℕ → ℕ) where
  enough_digits :
      (f g x y : ℕ) → x ≤ f → x ≤ g → digits on_zero join f x y ≡ digits on_zero join g x y
  enough_digits zero zero x y p q = refl
  enough_digits zero (suc g) zero y p q = refl
  enough_digits zero (suc g) (suc x) y p q = elim p [ ]
  enough_digits (suc f) zero zero y p q = refl
  enough_digits (suc f) zero (suc x) y p q = elim q [ ]
  enough_digits (suc f) (suc g) zero y p q = refl
  enough_digits (suc f) (suc g) (suc x) y p q =
      rw (enough_digits f g (suc x / 2) (y / 2) (omega arith) (omega arith))

  bitwise_step :
      (x y : ℕ)
      → bitwise on_zero join (suc x) y
        ≡ bitwise on_zero join (suc x / 2) (y / 2) * 2 + join (suc x % 2) (y % 2)
  bitwise_step x y =
      omega (arith, enough_digits x (suc x / 2) (suc x / 2) (y / 2) (omega arith) (omega arith))

pub bit_and_step : (x y : ℕ) → bit_and x y ≡ bit_and (x / 2) (y / 2) * 2 + min (x % 2) (y % 2)
bit_and_step zero y = simp bit_and-bitwise (omega arith)
bit_and_step (suc x) y = simp bit_and-bitwise (bitwise_step (λ t. 0) min x y)

pub bit_or_step : (x y : ℕ) → bit_or x y ≡ bit_or (x / 2) (y / 2) * 2 + max (x % 2) (y % 2)
bit_or_step zero y = simp bit_or-bitwise (omega arith)
bit_or_step (suc x) y = simp bit_or-bitwise (bitwise_step (λ t. t) max x y)

-- Neutral and absorbing words, by halving at most `f` times.
and_zero_below : (f x : ℕ) → x ≤ f → bit_and x 0 ≡ 0
and_zero_below zero zero p = refl
and_zero_below zero (suc x) p = elim p [ ]
and_zero_below (suc f) x p =
    ground (arith, bit_and_step x 0, and_zero_below f (x / 2), zero_bit_and x)
  where
    zero_bit_and : (x : ℕ) → x ≡ 0 → bit_and x 0 ≡ 0
    zero_bit_and x e = rw e refl

or_zero_below : (f x : ℕ) → x ≤ f → bit_or x 0 ≡ x
or_zero_below zero zero p = refl
or_zero_below zero (suc x) p = elim p [ ]
or_zero_below (suc f) x p = ground (arith, bit_or_step x 0, or_zero_below f (x / 2), zero_bit_or x)
  where
    zero_bit_or : (x : ℕ) → x ≡ 0 → bit_or x 0 ≡ x
    zero_bit_or x e = rw e refl

pub bit_and-zero : (x : ℕ) → bit_and x 0 ≡ 0
bit_and-zero x = and_zero_below x x (omega arith)

pub bit_or-zero : (x : ℕ) → bit_or x 0 ≡ x
bit_or-zero x = or_zero_below x x (omega arith)

pub zero-bit_and : (y : ℕ) → bit_and 0 y ≡ 0
zero-bit_and y = simp bit_and-bitwise

pub zero-bit_or : (y : ℕ) → bit_or 0 y ≡ y
zero-bit_or y = simp bit_or-bitwise
