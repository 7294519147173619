-- ===== src/Decomp/Bounds.antt =====
-- The bound on the cache, and runs of operations from an empty cache.
use ida_pilot.Common.{
  number_key, not, ℕ, suc, ◌≡◌, refl, ◌∙◌, String, Bool, List, [], ◌∷◌, some, arith, length,
  Option-cases, inl, inr, ap, ◌≤◌, ◌<◌, true, length-keep-le,
}
use ida_pilot.Common.Map
use ida_pilot.Decomp.{
  DecompCache, mem, remove, move_to_front, back, new_decomp_cache, get, push_front, evict, set,
  delete, delete_where,
}
use ida_pilot.Decomp.Order.{length-remove}
use ida_pilot.Decomp.Spec.{Recent, spec_get, spec_set, keep_where}
use ida_pilot.Decomp.Invariant.{IsWell, new-IsWell, get-IsWell, set-IsWell, delete-IsWell}
use ida_pilot.Decomp.Purge.{delete_where-Purged}
use ida_pilot.Decomp.Refine.{
  back-none, view, get_refines, set_refines, delete_refines, delete_where_refines,
}

abbrev pub IsBounded : DecompCache → Type 0
IsBounded c = (0 < c.cap) × (length c.order ≤ c.cap)

length-remove-le : (r : ℕ) (l : List ℕ) → length (remove r l) ≤ length l
unfolding remove
length-remove-le r [] = omega arith
length-remove-le r (x ∷ l) = ground (arith, length-remove-le r l)

length-move_to_front : (r : ℕ) (l : List ℕ) → length (move_to_front r l) ≡ length l
unfolding move_to_front
length-move_to_front r l = ground (arith, length-remove r l)

back-mem : (r : ℕ) (l : List ℕ) → back l ≡ some r → mem r l ≡ true
unfolding back mem
back-mem r [] h = absurd (cc)
back-mem r (x ∷ []) h = ground arith
back-mem r (x ∷ y ∷ l) h = ground (arith, back-mem r (y ∷ l) h)

-- After the eviction there is room for one more.
evict-room : (c : DecompCache) → IsBounded c → suc (length (evict c).order) ≤ c.cap
unfolding evict
evict-room c b = elim (Option-cases (back c.order)) [
  | inl e ↦ rw (e, evict) (ground (arith, ap length (back-none c.order e)))
  | inr (r, e) ↦ rw (e, evict) (ground (arith, length-remove r c.order (back-mem r c.order e)))
]

cap-evict : (c : DecompCache) → (evict c).cap ≡ c.cap
unfolding evict
cap-evict c = ground arith

get-IsBounded : (c : DecompCache) (a : ℕ) → IsBounded c → IsBounded (get c a).0
unfolding get
get-IsBounded c a b = elim (Option-cases (Map.lookup a c.entries)) [
  | inl miss ↦ rw (miss, get) b
  | inr (r, hit) ↦ rw (hit, get) (b.0, omega (arith, length-move_to_front r c.order, b.1))
]

-- `set` never lets the cache grow over its capacity.
pub set-IsBounded :
    (c : DecompCache) (a : ℕ) (code : String) → IsBounded c → IsBounded (set c a code)
unfolding set push_front
set-IsBounded c a code b = elim (Option-cases (Map.lookup a c.entries)) [
  | inl miss ↦ rw (miss, set) (rw (cap-evict c) b.0, omega (arith, evict-room c b, cap-evict c))
  | inr (r, hit) ↦ rw (hit, set) (b.0, omega (arith, length-move_to_front r c.order, b.1))
]

delete-IsBounded : (c : DecompCache) (a : ℕ) → IsBounded c → IsBounded (delete c a)
unfolding delete
delete-IsBounded c a b = elim (Option-cases (Map.lookup a c.entries)) [
  | inl miss ↦ rw (miss, delete) b
  | inr (r, hit) ↦ rw (hit, delete) (b.0, omega (arith, length-remove-le r c.order, b.1))
]

pub data Op : Type 0 where
  gets : ℕ → Op
  sets : ℕ → String → Op
  deletes : ℕ → Op
  purges : (String → Bool) → Op

unfoldable pub step : DecompCache → Op → DecompCache
step c (gets a) = (get c a).0
step c (sets a code) = set c a code
step c (deletes a) = delete c a
step c (purges p) = (delete_where c p).0

unfoldable pub spec_step : ℕ → Recent → Op → Recent
spec_step limit m (gets a) = spec_get a m
spec_step limit m (sets a code) = spec_set limit a code m
spec_step limit m (deletes a) = Map.delete a m
spec_step limit m (purges p) = keep_where p m

unfoldable pub run : DecompCache → List Op → DecompCache
run c [] = c
run c (o ∷ os) = run (step c o) os

unfoldable pub spec_run : ℕ → Recent → List Op → Recent
spec_run limit m [] = m
spec_run limit m (o ∷ os) = spec_run limit (spec_step limit m o) os

-- What holds of the cache after any operations, against the list `m` of the specification.
pub record Implements (limit : ℕ) (c : DecompCache) (m : Recent) : Type 0 where
  pub well : IsWell c
  pub bounded : length c.order ≤ limit
  pub capacity : c.cap ≡ limit
  pub shows : view c ≡ m

module _ {limit : ℕ} {c : DecompCache} {m : Recent} (positive : 0 < limit)
    (i : Implements limit c m) where
  bounds : IsBounded c
  bounds = (omega (arith, i.capacity), omega (arith, i.bounded, i.capacity))

  cap-step : (o : Op) → (step c o).cap ≡ c.cap
  unfolding step get set delete push_front
  cap-step (gets a) = ground arith
  cap-step (sets a code) = ground (arith, cap-evict c)
  cap-step (deletes a) = ground arith
  cap-step (purges p) = (delete_where-Purged c p i.well).cap_kept

  step-IsBounded : (o : Op) → IsBounded (step c o)
  unfolding step
  step-IsBounded (gets a) = get-IsBounded c a bounds
  step-IsBounded (sets a code) = set-IsBounded c a code bounds
  step-IsBounded (deletes a) = delete-IsBounded c a bounds
  step-IsBounded (purges p) =
      let q = delete_where-Purged c p i.well in
      (
        rw q.cap_kept bounds.0,
        omega (
          arith,
          ap length q.order,
          length-keep-le (λ r. not (p (c.value r).code)) c.order,
          q.cap_kept,
          bounds,
        ),
      )

  step-IsWell : (o : Op) → IsWell (step c o)
  unfolding step
  step-IsWell (gets a) = get-IsWell c a i.well
  step-IsWell (sets a code) = set-IsWell c a code i.well
  step-IsWell (deletes a) = delete-IsWell c a i.well
  step-IsWell (purges p) = (delete_where-Purged c p i.well).well

  view-step : (o : Op) → view (step c o) ≡ spec_step limit m o
  unfolding step spec_step
  view-step (gets a) = (get_refines c a i.well).1 ∙ ap (spec_get a) i.shows
  view-step (sets a code) =
      set_refines c a code i.well
      ∙ ap (λ k. spec_set k a code (view c)) i.capacity
      ∙ ap (spec_set limit a code) i.shows
  view-step (deletes a) = delete_refines c a i.well ∙ ap (Map.delete a) i.shows
  view-step (purges p) = (delete_where_refines c p i.well).0 ∙ ap (keep_where p) i.shows

  pub step-Implements : (o : Op) → Implements limit (step c o) (spec_step limit m o)
  step-Implements o = record {
    well = step-IsWell o;
    bounded = omega (arith, step-IsBounded o, cap-step o, i.capacity);
    capacity = cap-step o ∙ i.capacity;
    shows = view-step o;
  }

run-Implements_from :
    (limit : ℕ) (os : List Op) (c : DecompCache) (m : Recent)
    → 0 < limit
    → Implements limit c m
    → Implements limit (run c os) (spec_run limit m os)
unfolding run spec_run
run-Implements_from limit [] c m positive i = i
run-Implements_from limit (o ∷ os) c m positive i =
    run-Implements_from limit os (step c o) (spec_step limit m o) positive
      (step-Implements positive i o)

-- After any sequence of gets, sets, deletes and purges on a new cache of a positive capacity, the map
-- and the list of the cache agree, there are never more than `limit` entries, and the entries are
-- those of the specification in its order of use.
pub run-Implements :
    (limit : ℕ) (os : List Op)
    → 0 < limit
    → Implements limit (run (new_decomp_cache limit) os) (spec_run limit [] os)
unfolding new_decomp_cache
run-Implements limit os positive =
    run-Implements_from limit os (new_decomp_cache limit) [] positive
      (record { well = new-IsWell limit; bounded = omega arith; capacity = refl; shows = refl })
