-- ===== src/Common/Map.antt =====
-- Go's maps as association lists: `m[k]`, `m[k] = v`, `delete(m, k)` and `len(m)`.
use Prim.Native.Nat.{◌+◌, ◌≤◌}
use mathlib.Core.Bool.{Bool}
use mathlib.Core.List.{List, [], ◌∷◌}
use mathlib.Core.Option.{Option, none, some}
use mathlib.Core.Path.{◌≡◌, refl}
use native.Mathlib.Omega.{arith}
use ida_pilot.Common.Keys.{Key, ◌==◌, same_self}
use ida_pilot.Common.Lists.{length}
use ida_pilot.Common.Tests.{if◌then◌else◌, is_some}

abbrev pub Map {ℓ} : (K V : Type ℓ) → Type ℓ
Map K V = List (K × V)

module _ {ℓ} {K V : Type ℓ} ⦃key : Key K⦄ where
  unfoldable pub lookup : K → Map K V → Option V
  lookup wanted [] = none
  lookup wanted ((k, v) ∷ rest) = if k == wanted then some v else lookup wanted rest

  unfoldable pub insert : K → V → Map K V → Map K V
  insert new x [] = (new, x) ∷ []
  insert new x ((k, v) ∷ rest) =
      let behind = insert new x rest in if k == new then (new, x) ∷ rest else (k, v) ∷ behind

  unfoldable pub delete : K → Map K V → Map K V
  delete gone [] = []
  delete gone ((k, v) ∷ rest) =
      let behind = delete gone rest in if k == gone then behind else (k, v) ∷ behind

  abbrev pub has : K → Map K V → Bool
  has k m = is_some (lookup k m)

  -- Each key stands once.
  abbrev pub IsMap : Map K V → Type ℓ
  IsMap [] = Unit
  IsMap ((j, v) ∷ m) = (lookup j m ≡ none) × IsMap m

module _ {ℓ} {K V : Type ℓ} ⦃key : Key K⦄ where
  pub lookup-insert :
      (new wanted : K) (x : V) (m : Map K V)
      → lookup wanted (insert new x m) ≡ (if new == wanted then some x else lookup wanted m)
  unfolding lookup insert
  lookup-insert new wanted x [] = refl
  lookup-insert new wanted x ((k, v) ∷ rest) = ground (
    arith,
    key.same_iff k new,
    key.same_iff k wanted,
    key.same_iff new wanted,
    lookup-insert new wanted x rest,
  )

  pub lookup-delete :
      (k j : K) (m : Map K V) → lookup j (delete k m) ≡ (if k == j then none else lookup j m)
  unfolding lookup delete
  lookup-delete k j [] = ground arith
  lookup-delete k j ((i, w) ∷ m) =
      ground (arith, key.same_iff i k, key.same_iff i j, key.same_iff k j, lookup-delete k j m)

  pub lookup-insert_self : (k : K) (v : V) (m : Map K V) → lookup k (insert k v m) ≡ some v
  lookup-insert_self k v m = ground (arith, lookup-insert k k v m, same_self k)

  pub lookup-delete_self : (k : K) (m : Map K V) → lookup k (delete k m) ≡ none
  lookup-delete_self k m = ground (arith, lookup-delete k k m, same_self k)

  pub insert-IsMap : (k : K) (v : V) (m : Map K V) → IsMap m → IsMap (insert k v m)
  unfolding insert lookup
  insert-IsMap k v [] h = (refl, tt)
  insert-IsMap k v ((i, w) ∷ m) h =
      ground
        (arith, key.same_iff i k, key.same_iff k i, lookup-insert k i v m, insert-IsMap k v m h.1)

  pub delete-IsMap : (k : K) (m : Map K V) → IsMap m → IsMap (delete k m)
  unfolding delete
  delete-IsMap k [] h = tt
  delete-IsMap k ((i, w) ∷ m) h = ground (arith, lookup-delete k i m, delete-IsMap k m h.1)

  pub delete_absent : (k : K) (m : Map K V) → lookup k m ≡ none → delete k m ≡ m
  unfolding delete lookup
  delete_absent k [] h = refl
  delete_absent k ((i, w) ∷ m) h = ground (arith, delete_absent k m)

  pub length-insert :
      (k : K) (v : V) (m : Map K V)
      → length (insert k v m) ≡ (if has k m then length m else length m + 1)
  unfolding insert lookup
  length-insert k v [] = omega arith
  length-insert k v ((i, w) ∷ m) = ground (arith, length-insert k v m)

  pub length-delete :
      (k : K) (m : Map K V) → IsMap m → length m ≡ (if has k m then 1 else 0) + length (delete k m)
  unfolding delete lookup
  length-delete k [] h = omega arith
  length-delete k ((i, w) ∷ m) h =
      ground (arith, key.same_iff i k, delete_absent k m, length-delete k m h.1)

  pub length-delete-le : (k : K) (m : Map K V) → length (delete k m) ≤ length m
  unfolding delete
  length-delete-le k [] = omega arith
  length-delete-le k ((i, w) ∷ m) = ground (arith, length-delete-le k m)
