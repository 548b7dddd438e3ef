-- ===== src/Cache/Assoc.antt =====
-- An association list as a hash table of libvmi/cache.c: it has every law of the interface.
use libvmi.Common.{
  ℕ, Bool, true, Bool-cases, Option, none, some, List, [], ◌∷◌, length, if◌then◌else◌, ◌==◌, inl,
  inr, ◌≡◌, refl, sym, ap, ◌∙◌, arith, ==_refl, ==_iff,
}
use libvmi.Cache.Table.{GHashTable, is_some}
use libvmi.Cache.Keys.{Key128, key_128_equals}

module _ {K : Type 0} (equal : K → K → Bool) (sound : (a b : K) → equal a b ≡ true → a ≡ b)
    (complete : (a : K) → equal a a ≡ true) where
  same : (k x j : K) → equal k x ≡ true → equal k j ≡ equal x j
  same k x j e = ap (λ (y : K). equal y j) (sound k x e)

  meet : (k x j : K) → equal k j ≡ true → equal x j ≡ true → equal k x ≡ true
  meet k x j e f = ap (equal k) (sound x j f ∙ sym (sound k j e)) ∙ complete k

module _ {K V : Type 0} (equal : K → K → Bool) where
  unfoldable pub find : List (K × V) → K → Option V
  find [] j = none
  find ((k, v) ∷ t) j = if equal k j then some v else find t j

  unfoldable pub erase : List (K × V) → K → List (K × V)
  erase [] j = []
  erase ((k, v) ∷ t) j = if equal j k then erase t j else (k, v) ∷ erase t j

  pub find_new : (j : K) → find [] j ≡ none
  unfolding find
  find_new j = refl

module _ {K V : Type 0} (equal : K → K → Bool) (sound : (a b : K) → equal a b ≡ true → a ≡ b)
    (complete : (a : K) → equal a a ≡ true) where
  pub find-erase :
      (t : List (K × V)) (k j : K)
      → find equal (erase equal t k) j ≡ (if equal k j then none else find equal t j)
  unfolding find erase
  find-erase [] k j = ground arith
  find-erase ((x, v) ∷ t) k j = elim (Bool-cases (equal k x)) [
    | inl e ↦ ground (arith, find-erase t k j, same equal sound complete k x j)
    | inr e ↦ ground (arith, find-erase t k j, meet equal sound complete k x j)
  ]

  pub find-empty : (t : List (K × V)) (j : K) → length t ≡ 0 → find equal t j ≡ none
  unfolding find
  find-empty [] j h = refl
  find-empty (x ∷ t) j h = let bad : ⊥ = omega (arith, h) in elim bad [ ]

  pub find-insert :
      (t : List (K × V)) (k : K) (v : V) (j : K)
      → find equal ((k, v) ∷ erase equal t k) j ≡ (if equal k j then some v else find equal t j)
  unfolding find
  find-insert t k v j = ground (arith, find-erase t k j)

  abbrev pub assoc_table : GHashTable K V equal
  assoc_table = record {
    Table = List (K × V);
    new = [];
    lookup = find equal;
    insert = λ t k v. (k, v) ∷ erase equal t k;
    remove = λ t k. (is_some (find equal t k), erase equal t k);
    remove_all = λ t. [];
    size = length;
    lookup-new = λ j. find_new equal j;
    lookup-insert = λ t k v j. find-insert t k v j;
    lookup-remove = find-erase;
    remove-found = λ t k. refl;
    lookup-remove_all = λ t j. find_new equal j;
    lookup-empty = find-empty;
  }

-- Tables of numbers and of 128-bit keys.
abbrev pub number_table : (V : Type 0) → GHashTable ℕ V ◌==◌
number_table V = assoc_table ◌==◌ (λ a b. (==_iff a b).0) ==_refl

pub key_128_equals_sound : (a b : Key128) → key_128_equals a b ≡ true → a ≡ b
key_128_equals_sound a b h = ground arith

pub key_128_equals_refl : (a : Key128) → key_128_equals a a ≡ true
key_128_equals_refl a = ground arith

abbrev pub key_table : (V : Type 0) → GHashTable Key128 V key_128_equals
key_table V = assoc_table key_128_equals key_128_equals_sound key_128_equals_refl
