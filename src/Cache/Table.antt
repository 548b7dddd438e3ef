-- ===== src/Cache/Table.antt =====
-- GHashTable, which glib implements: the operations that libvmi/cache.c calls, and what their
-- documentation says of them. A table is made for a test of equality of its keys.
use libvmi.Common.{ℕ, Bool, true, false, Option, none, some, ◌≡◌, if◌then◌else◌}

abbrev pub is_some {ℓ} : {A : Type ℓ} → Option A → Bool
is_some none = false
is_some (some a) = true

pub record GHashTable (K V : Type 0) (equal : K → K → Bool) : Type 1 where
  pub Table : Type 0
  pub new : Table
  pub lookup : Table → K → Option V
  pub insert : Table → K → V → Table
  pub remove : Table → K → Bool × Table
  pub remove_all : Table → Table
  pub size : Table → ℕ
  pub lookup-new : (j : K) → lookup new j ≡ none
  pub lookup-insert :
      (t : Table) (k : K) (v : V) (j : K)
      → lookup (insert t k v) j ≡ (if equal k j then some v else lookup t j)
  pub lookup-remove :
      (t : Table) (k j : K) → lookup (remove t k).1 j ≡ (if equal k j then none else lookup t j)
  pub remove-found : (t : Table) (k : K) → (remove t k).0 ≡ is_some (lookup t k)
  pub lookup-remove_all : (t : Table) (j : K) → lookup (remove_all t) j ≡ none
  pub lookup-empty : (t : Table) (j : K) → size t ≡ 0 → lookup t j ≡ none
