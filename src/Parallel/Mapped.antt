-- ===== src/Parallel/Mapped.antt =====
-- `parallelMap` gives the results in the order of the items, in whatever order its goroutines end.
use ida_pilot.Common.{
  number_key, ◌==◌, ◌≡◌, ◌∙◌, refl, sym, ap, Bool, true, false, List, [], ◌∷◌, Option, none, ℕ,
  zero, suc, ◌+◌, ◌<◌, some, arith, if◌then◌else◌, get_elem?, set, ◌⊎◌, inl, inr, Bool-cases,
  eq_of_same, map, replicate, length,
}
use ida_pilot.Common.Map
use ida_pilot.Common.Map.{Map}
use ida_pilot.Parallel.{Arrives, all_ended, ends, spawn, write_all, parallel_map}
use ida_pilot.Parallel.Labeled.{Takes-IsMap}

-- A place that a goroutine is to write, with what it writes.
abbrev written : {T R : Type 0} → (T → R) → Option T → Option R → Option R
written fn (some x) (some old) = some (fn x)
written fn (some x) none = none
written fn none old = old

get_elem?-set :
    {R : Type 0} (results : List R) (i j : ℕ) (v : R)
    → get_elem? (set results i v) j ≡ (
        if i == j
        then written (λ (x : R). x) (some v) (get_elem? results j)
        else get_elem? results j)
get_elem?-set [] i j v = ground arith
get_elem?-set (x ∷ xs) zero zero v = refl
get_elem?-set (x ∷ xs) zero (suc j) v = ground arith
get_elem?-set (x ∷ xs) (suc i) zero v = ground arith
get_elem?-set (x ∷ xs) (suc i) (suc j) v = ground (arith, get_elem?-set xs i j v)

written_again :
    {T R : Type 0} (fn : T → R) (b : Bool) (x : T) (o : Option T) (old : Option R)
    → o ≡ none ⊎ (b ≡ false)
    → written fn o (if b then written (λ (y : R). y) (some (fn x)) old else old)
      ≡ written fn (if b then some x else o) old
written_again fn true x o none (inl e) = rw e refl
written_again fn true x o (some r) (inl e) = rw e refl
written_again fn true x o old (inr e) = absurd (cc)
written_again fn false x o old h = refl

module _ {T R : Type 0} (fn : T → R) where
  write_all_lem :
      {pending order : List (ℕ × T)}
      → Arrives pending order
      → Map.IsMap pending
      → (results : List R) (j : ℕ)
      → get_elem? (write_all fn order results) j
        ≡ written fn (Map.lookup j pending) (get_elem? results j)
  unfolding write_all Map.lookup
  write_all_lem all_ended h results j = refl
  write_all_lem (ends {x = (i, x)} {rest = rest} t more) h results j =
      let (good, gone, split) = Takes-IsMap t h in
      write_all_lem more good (set results i (fn x)) j
      ∙ ap (written fn (Map.lookup j rest)) (get_elem?-set results i j (fn x))
      ∙ written_again fn (i == j) x (Map.lookup j rest) (get_elem? results j)
          (elim (Bool-cases (i == j)) [
            | inl e ↦ inl (ap (λ k. Map.lookup k rest) (sym (eq_of_same i j e)) ∙ gone)
            | inr e ↦ inr e
          ])
      ∙ ap (λ o. written fn o (get_elem? results j)) (sym (split j))

below : {T : Type 0} (i j : ℕ) (xs : List T) → j < i → Map.lookup j (spawn i xs) ≡ none
unfolding spawn Map.lookup
below i j [] h = refl
below i j (x ∷ xs) h = ground (arith, below (suc i) j xs)

spawn-IsMap : {T : Type 0} (i : ℕ) (xs : List T) → Map.IsMap (spawn i xs)
unfolding spawn Map.lookup
spawn-IsMap i [] = tt
spawn-IsMap i (x ∷ xs) = (below (suc i) i xs (omega arith), spawn-IsMap (suc i) xs)

lookup-spawn :
    {T : Type 0} (i j : ℕ) (xs : List T) → Map.lookup (i + j) (spawn i xs) ≡ get_elem? xs j
unfolding spawn Map.lookup
lookup-spawn i j [] = refl
lookup-spawn i zero (x ∷ xs) = ground arith
lookup-spawn i (suc j) (x ∷ xs) =
    let e : i + suc j ≡ suc i + j = omega arith in
    ground (arith, ap (λ k. Map.lookup k (spawn (suc i) xs)) e ∙ lookup-spawn (suc i) j xs)

module _ {A : Type 0} where
  ext : (xs ys : List A) → ((j : ℕ) → get_elem? xs j ≡ get_elem? ys j) → xs ≡ ys
  ext [] [] h = refl
  ext [] (y ∷ ys) h = absurd (let e : none ≡ some y = h 0 in (cc))
  ext (x ∷ xs) [] h = absurd (let e : some x ≡ none = h 0 in (cc))
  ext (x ∷ xs) (y ∷ ys) h =
      let e : some x ≡ some y = h 0 in
      let rest : xs ≡ ys = ext xs ys (λ j. h (suc j)) in ground arith

written-map :
    {T R : Type 0} (fn : T → R) (z : R) (xs : List T) (j : ℕ)
    → written fn (get_elem? xs j) (get_elem? (replicate (length xs) z) j) ≡ get_elem? (map fn xs) j
written-map fn z [] j = refl
written-map fn z (x ∷ xs) zero = refl
written-map fn z (x ∷ xs) (suc j) = written-map fn z xs j

-- In whatever order the goroutines end, `parallelMap` returns what a loop over the items would: the
-- result of each item, in the order of the items.
pub parallel_map-map :
    {T R : Type 0} (zero_value : R) (fn : T → R) (items : List T) (order : List (ℕ × T))
    → Arrives (spawn 0 items) order
    → parallel_map zero_value fn items order ≡ map fn items
unfolding parallel_map
parallel_map-map z fn items order a =
    ext (write_all fn order (replicate (length items) z)) (map fn items) (λ j.
      write_all_lem fn a (spawn-IsMap 0 items) (replicate (length items) z) j
      ∙ ap (λ o. written fn o (get_elem? (replicate (length items) z) j))
          (ap (λ k. Map.lookup k (spawn 0 items)) (omega arith) ∙ lookup-spawn 0 j items)
      ∙ written-map fn z items j)
