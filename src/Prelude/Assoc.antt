-- ===== src/Prelude/Assoc.antt =====
-- Go's maps, and `sync.Map`, as association lists with one entry for a key. The order of the list
-- is the order in which `range` and `Range` visit the entries, which Go leaves open.
use Prim.Native.Nat.{ℕ}
use mathlib.Core.Path.{◌≡◌, refl}
use mathlib.Core.Logic.{◌↔◌}
use mathlib.Core.Bool.{Bool, true}
use mathlib.Core.List.{List, [], ◌∷◌}
use mathlib.Core.Option.{Option, none, some}
use native.Mathlib.Omega.{arith}
use smb_mem_lib.Prelude.Tests.{◌==◌, ==_iff, if◌then◌else◌, Bytes, bytes_eq, bytes_eq_iff}

-- What a key type must have.
pub record Key (K : Type 0) : Type 0 where
  pub same : K → K → Bool
  pub same_iff : (a b : K) → (same a b ≡ true) ↔ (a ≡ b)

instance abbrev pub nat_key : Key ℕ
nat_key = record { same = ◌==◌; same_iff = ==_iff }

instance abbrev pub bytes_key : Key Bytes
bytes_key = record { same = bytes_eq; same_iff = bytes_eq_iff }

abbrev pub Assoc : Type 0 → Type 0 → Type 0
Assoc K V = List (K × V)

module _ {K : Type 0} ⦃e : Key K⦄ where
  pub same_refl : (k : K) → e.same k k ≡ true
  same_refl k = (e.same_iff k k).1 refl

module _ {K V : Type 0} ⦃e : Key K⦄ where
  -- m[k], or m.Load(k)
  unfoldable pub load : K → Assoc K V → Option V
  load k [] = none
  load k ((j, v) ∷ m) = if e.same j k then some v else load k m

  -- delete(m, k)
  unfoldable pub delete : K → Assoc K V → Assoc K V
  delete k [] = []
  delete k ((j, v) ∷ m) = let rest = delete k m in if e.same j k then rest else (j, v) ∷ rest

  -- m[k] = v
  unfoldable pub store : K → V → Assoc K V → Assoc K V
  store k v m = (k, v) ∷ delete k m

  pub load-delete :
      (k j : K) (m : Assoc K V) → load j (delete k m) ≡ (if e.same k j then none else load j m)
  unfolding load delete
  load-delete k j [] = ground arith
  load-delete k j ((i, v) ∷ m) =
      ground (arith, load-delete k j m, e.same_iff i k, e.same_iff i j, e.same_iff k j)

  pub load-store :
      (k j : K) (v : V) (m : Assoc K V)
      → load j (store k v m) ≡ (if e.same k j then some v else load j m)
  unfolding load store
  load-store k j v m = ground (arith, load-delete k j m)

  -- One entry for a key.
  abbrev pub Distinct : Assoc K V → Type 0
  Distinct [] = Unit
  Distinct ((k, v) ∷ m) = (load k m ≡ none) × Distinct m

  pub Distinct-delete : (k : K) (m : Assoc K V) → Distinct m → Distinct (delete k m)
  unfolding delete
  Distinct-delete k [] h = h
  Distinct-delete k ((j, v) ∷ m) h = ground (arith, load-delete k j m, Distinct-delete k m h.1)

  pub Distinct-store : (k : K) (v : V) (m : Assoc K V) → Distinct m → Distinct (store k v m)
  unfolding store
  Distinct-store k v m h = ground (arith, load-delete k k m, same_refl k, Distinct-delete k m h)

  pub delete_absent : (k : K) (m : Assoc K V) → load k m ≡ none → delete k m ≡ m
  unfolding load delete
  delete_absent k [] h = refl
  delete_absent k ((j, v) ∷ m) h = ground (arith, delete_absent k m)

pub ruleset assoc_laws = (load-delete, load-store, same_refl)
