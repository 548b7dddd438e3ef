-- ===== src/Os/Windows/Names.antt =====
-- strcmp and strncmp of the C library, which libvmi/os/windows/peparse.c calls, on strings as the
-- lists of their bytes without the NUL.
use Prim.Native.Nat.{compare, Ordering}
use libvmi.Common.{
  ℕ, zero, suc, Bool, true, false, ◌&&◌, ◌==◌, List, [], ◌∷◌, ◌≡◌, ◌≢◌, refl, arith,
}

-- The sign of strcmp's result.
unfoldable pub strcmp : List ℕ → List ℕ → Ordering
strcmp [] [] = Ordering.eq
strcmp [] (b ∷ bs) = Ordering.lt
strcmp (a ∷ as') [] = Ordering.gt
strcmp (a ∷ as') (b ∷ bs) = elim (compare a b) [
  | Ordering.lt ↦ Ordering.lt
  | Ordering.gt ↦ Ordering.gt
  | Ordering.eq ↦ strcmp as' bs
]

-- Whether strncmp's result is 0.
unfoldable pub strncmp_same : List ℕ → List ℕ → ℕ → Bool
strncmp_same as' bs zero = true
strncmp_same [] [] (suc n) = true
strncmp_same [] (b ∷ bs) (suc n) = false
strncmp_same (a ∷ as') [] (suc n) = false
strncmp_same (a ∷ as') (b ∷ bs) (suc n) = (a == b) && strncmp_same as' bs n

pub strcmp_refl : (a : List ℕ) → strcmp a a ≡ Ordering.eq
unfolding strcmp
strcmp_refl [] = refl
strcmp_refl (x ∷ a) = ground (arith, strcmp_refl a)

pub strcmp_eq : (a b : List ℕ) → strcmp a b ≡ Ordering.eq → a ≡ b
unfolding strcmp
strcmp_eq [] [] e = refl
strcmp_eq [] (y ∷ b) e = absurd (ground (arith, e))
strcmp_eq (x ∷ a) [] e = absurd (ground (arith, e))
strcmp_eq (x ∷ a) (y ∷ b) e = ground (arith, e, strcmp_eq a b)

pub strcmp_flip : (a b : List ℕ) → strcmp a b ≡ Ordering.gt → strcmp b a ≡ Ordering.lt
unfolding strcmp
strcmp_flip [] [] e = absurd (ground (arith, e))
strcmp_flip [] (y ∷ b) e = absurd (ground (arith, e))
strcmp_flip (x ∷ a) [] e = refl
strcmp_flip (x ∷ a) (y ∷ b) e = ground (arith, e, strcmp_flip a b)

pub strcmp_trans :
    (a b c : List ℕ)
    → strcmp a b ≡ Ordering.lt
    → strcmp b c ≡ Ordering.lt
    → strcmp a c ≡ Ordering.lt
unfolding strcmp
strcmp_trans [] [] c e f = absurd (ground (arith, e))
strcmp_trans [] (y ∷ b) [] e f = absurd (ground (arith, f))
strcmp_trans [] (y ∷ b) (z ∷ c) e f = refl
strcmp_trans (x ∷ a) [] c e f = absurd (ground (arith, e))
strcmp_trans (x ∷ a) (y ∷ b) [] e f = absurd (ground (arith, f))
strcmp_trans (x ∷ a) (y ∷ b) (z ∷ c) e f = ground (arith, e, f, strcmp_trans a b c)

-- Strings of which one is below the other are not the same.
pub strcmp_ne : (a b : List ℕ) → strcmp a b ≡ Ordering.lt → a ≢ b
strcmp_ne a b e same = ground (arith, e, same, strcmp_refl b)
