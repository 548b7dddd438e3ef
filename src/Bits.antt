-- ===== src/Bits.antt =====
-- The bit macros of libvmi/libvmi.h, and the laws that read a masked word as a quotient and a
-- remainder by powers of two.
mod Digits
use Digits.{bit_and_step, bit_or_step, bit_and-zero, bit_or-zero, zero-bit_or, zero-bit_and}
use mathlib.Core.WellFounded
use native.Mathlib.Nat.{
  pow-suc, pow-succ', one-le-pow, div-add-mod', div-div-eq-div-mul, div-one, mul-one,
}
use libvmi.Common.{
  ℕ, zero, suc, ◌+◌, ◌-◌, ◌*◌, ◌/◌, ◌%◌, ◌^◌, ◌≤◌, ◌<◌, min, max, bit_and, bit_or, ◌≡◌, refl, sym,
  ap, ◌∙◌, Bool, not, ◌==◌, arith,
}

-- VMI_BIT_MASK(a, b)
abbrev pub bit_mask : ℕ → ℕ → ℕ
bit_mask a b = bit_and ((2 ^ 64 - 1) / 2 ^ (63 - b)) (2 ^ 64 - 1 - (2 ^ a - 1))

-- VMI_GET_BIT(reg, bit)
unfoldable pub get_bit : ℕ → ℕ → Bool
get_bit reg bit = not (bit_and reg (2 ^ bit) == 0)

div-pow_suc : (x a : ℕ) → x / 2 ^ suc a ≡ x / 2 / 2 ^ a
div-pow_suc x a = ap (λ (p : ℕ). x / p) (pow-succ' 2 a) ∙ sym (div-div-eq-div-mul x 2 (2 ^ a))

mul-pow_suc : (x a : ℕ) → x * 2 ^ suc a ≡ x * 2 ^ a * 2
mul-pow_suc x a = omega (arith, ap (λ (p : ℕ). x * p) (pow-suc 2 a))

mod-pow_suc : (x a : ℕ) → x % 2 ^ suc a ≡ x / 2 % 2 ^ a * 2 + x % 2
mod-pow_suc x a = omega (
  arith,
  div-add-mod' x (2 ^ suc a),
  div-add-mod' (x / 2) (2 ^ a),
  mul-pow_suc (x / 2 / 2 ^ a) a,
  ap (λ (q : ℕ). q * 2 ^ suc a) (div-pow_suc x a),
)

half_mask : (k : ℕ) → (2 ^ suc k - 1) / 2 ≡ 2 ^ k - 1
half_mask k = omega (arith, pow-suc 2 k, one-le-pow k 2)

half_field : (m a : ℕ) → m * 2 ^ suc a / 2 ≡ m * 2 ^ a
half_field m a = omega (arith, mul-pow_suc m a)

-- A mask of `k` low bits keeps the remainder.
pub bit_and-low : (k x : ℕ) → bit_and x (2 ^ k - 1) ≡ x % 2 ^ k
bit_and-low zero x = omega (arith, bit_and-zero x)
bit_and-low (suc k) x = omega (
  arith,
  bit_and_step x (2 ^ suc k - 1),
  bit_and-low k (x / 2),
  mod-pow_suc x k,
  pow-suc 2 k,
  one-le-pow k 2,
  ap (λ (m : ℕ). bit_and (x / 2) m) (half_mask k),
)

-- A mask whose lowest bit is `a` keeps a multiple of `2 ^ a`.
pub bit_and-high : (a x m : ℕ) → bit_and x (m * 2 ^ a) ≡ bit_and (x / 2 ^ a) m * 2 ^ a
bit_and-high zero x m =
    omega (arith, ap (λ (t : ℕ). bit_and x t) (mul-one m), ap (λ (t : ℕ). bit_and t m) (div-one x))
bit_and-high (suc a) x m = omega (
  arith,
  bit_and_step x (m * 2 ^ suc a),
  bit_and-high a (x / 2) m,
  mul-pow_suc m a,
  mul-pow_suc (bit_and (x / 2 ^ suc a) m) a,
  ap (λ (t : ℕ). bit_and (x / 2) t) (half_field m a),
  ap (λ (t : ℕ). bit_and t m * 2 ^ a) (div-pow_suc x a),
)

-- A field of `k` bits from bit `a` up.
pub bit_and-field : (k a x : ℕ) → bit_and x ((2 ^ k - 1) * 2 ^ a) ≡ x / 2 ^ a % 2 ^ k * 2 ^ a
bit_and-field k a x =
    bit_and-high a x (2 ^ k - 1) ∙ ap (λ (t : ℕ). t * 2 ^ a) (bit_and-low k (x / 2 ^ a))

-- A disjoint `|` is a sum.
pub bit_or-add : (a q r : ℕ) → r < 2 ^ a → bit_or (q * 2 ^ a) r ≡ q * 2 ^ a + r
bit_or-add zero q r h =
    omega (arith, bit_or-zero (q * 1), ap (λ (t : ℕ). bit_or (q * 1) t) (below_one r h))
  where
    below_one : (r : ℕ) → r < 2 ^ 0 → r ≡ 0
    below_one r h = omega arith
bit_or-add (suc a) q r h = omega (
  arith,
  bit_or_step (q * 2 ^ suc a) r,
  bit_or-add a q (r / 2) (omega (arith, pow-suc 2 a)),
  mul-pow_suc q a,
  ap (λ (t : ℕ). bit_or t (r / 2)) (half_field q a),
)

-- The same with the low word first.
pub bit_or-add_left : (a q r : ℕ) → r < 2 ^ a → bit_or r (q * 2 ^ a) ≡ q * 2 ^ a + r
bit_or-add_left zero q r h =
    omega (arith, zero-bit_or (q * 1), ap (λ (t : ℕ). bit_or t (q * 1)) (below_one r h))
  where
    below_one : (r : ℕ) → r < 2 ^ 0 → r ≡ 0
    below_one r h = omega arith
bit_or-add_left (suc a) q r h = omega (
  arith,
  bit_or_step r (q * 2 ^ suc a),
  bit_or-add_left a q (r / 2) (omega (arith, pow-suc 2 a)),
  mul-pow_suc q a,
  ap (bit_or (r / 2)) (half_field q a),
)

pub bit_and-low_left : (k x : ℕ) → bit_and (2 ^ k - 1) x ≡ x % 2 ^ k
bit_and-low_left zero x = omega (arith, zero-bit_and x)
bit_and-low_left (suc k) x = omega (
  arith,
  bit_and_step (2 ^ suc k - 1) x,
  bit_and-low_left k (x / 2),
  mod-pow_suc x k,
  pow-suc 2 k,
  one-le-pow k 2,
  ap (λ (m : ℕ). bit_and m (x / 2)) (half_mask k),
)
