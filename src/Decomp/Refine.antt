-- ===== src/Decomp/Refine.antt =====
-- The cache implements the list of recently used entries.
use ida_pilot.Common.{
  number_key, ℕ, suc, ◌≡◌, refl, ◌∙◌, Bool, false, String, List, [], ◌∷◌, none, some, arith, length,
  if◌then◌else◌, Option-cases, inl, inr, ap, map, leb, is_some,
}
use mathlib.Core.Option
use ida_pilot.Common.Map
use ida_pilot.Common.Map.{Map, delete_absent}
use ida_pilot.Decomp.{
  DecompCache, DecompEntry, mem, remove, move_to_front, back, update, get, push_front, evict, set,
  delete, has, delete_where,
}
use ida_pilot.Decomp.Order.{
  index, Separate, index-addr, index-mem, mem_of_none, back-index, mem-Below-false, index-remove,
}
use ida_pilot.Decomp.Spec.{Recent, drop_last, spec_get, spec_set, count_where, keep_where}
use ida_pilot.Decomp.Invariant.{IsWell, evict-IsWell}
use ida_pilot.Decomp.Purge.{kept, hits, delete_where-Purged}

abbrev pub entry_of : (ℕ → DecompEntry) → ℕ → ℕ × String
entry_of f r = ((f r).addr, (f r).code)

abbrev pub items : (ℕ → DecompEntry) → List ℕ → Recent
items f = map (entry_of f)

-- The entries, the most recently used first.
abbrev pub view : DecompCache → Recent
view c = items c.value c.order

module _ (f : ℕ → DecompEntry) where
  pub lookup-items :
      (a : ℕ) (l : List ℕ) → Map.lookup a (items f l) ≡ Option.map (λ r. (f r).code) (index f a l)
  unfolding Map.lookup index
  lookup-items a [] = refl
  lookup-items a (r ∷ l) = ground (arith, lookup-items a l)

  items-remove :
      (a r : ℕ) (l : List ℕ)
      → Separate f l
      → index f a l ≡ some r
      → items f (remove r l) ≡ Map.delete a (items f l)
  unfolding index remove Map.delete
  items-remove a r [] s h = absurd (cc)
  items-remove a r (x ∷ l) s h = ground (
    arith,
    index-addr f a r l,
    items-remove a r l s.1,
    lookup-items a l,
    delete_absent a (items f l),
  )

  items-remove-back :
      (r : ℕ) (l : List ℕ)
      → Separate f l
      → back l ≡ some r
      → items f (remove r l) ≡ drop_last (items f l)
  unfolding index remove back drop_last
  items-remove-back r [] s h = absurd (cc)
  items-remove-back r (x ∷ []) s h = ground arith
  items-remove-back r (x ∷ y ∷ l) s h =
      ground (arith, items-remove-back r (y ∷ l) s.1, back-index f r (y ∷ l) s.1)

items-update_absent :
    (f : ℕ → DecompEntry) (n : ℕ) (e : DecompEntry) (l : List ℕ)
    → mem n l ≡ false
    → items (update f n e) l ≡ items f l
unfolding mem
items-update_absent f n e [] h = refl
items-update_absent f n e (x ∷ l) h = ground (arith, items-update_absent f n e l)

length-items : (f : ℕ → DecompEntry) (l : List ℕ) → length (items f l) ≡ length l
length-items f [] = refl
length-items f (x ∷ l) = ap suc (length-items f l)

-- A move to the front, at an address that is in the list.
items-move_to_front :
    (f : ℕ → DecompEntry) (a r : ℕ) (l : List ℕ)
    → Separate f l
    → index f a l ≡ some r
    → items f (move_to_front r l) ≡ (a, (f r).code) ∷ Map.delete a (items f l)
unfolding move_to_front
items-move_to_front f a r l s h =
    ground (arith, index-mem f a r l, index-addr f a r l, items-remove f a r l s)

-- `get` returns the code of the address, if there is one, and makes the entry the first.
pub get_refines :
    (c : DecompCache) (a : ℕ)
    → IsWell c
    → ((get c a).1 ≡ Map.lookup a (view c)) × (view (get c a).0 ≡ spec_get a (view c))
unfolding get spec_get
get_refines c a w = ground (
  arith,
  w.agree a,
  lookup-items c.value a c.order,
  Option-cases (index c.value a c.order),
  items-move_to_front c.value a (Option.get_or (index c.value a c.order) 0) c.order w.separate,
)

pub back-none : (l : List ℕ) → back l ≡ none → l ≡ []
unfolding back
back-none [] h = refl
back-none (x ∷ []) h = absurd (cc)
back-none (x ∷ y ∷ l) h = let e = back-none (y ∷ l) h in absurd (cc)

-- The eviction drops the last entry of a full cache.
view-evict :
    (c : DecompCache)
    → IsWell c
    → view (evict c) ≡ (if leb c.cap (length (view c)) then drop_last (view c) else view c)
unfolding evict drop_last
view-evict c w = elim (Option-cases (back c.order)) [
  | inl b ↦
      let e = back-none c.order b in
      rw (b, evict) (ground (arith, ap (items c.value) e, ap drop_last (ap (items c.value) e)))
  | inr (r, b) ↦
      rw (b, evict)
        (ground
          (arith, length-items c.value c.order, items-remove-back c.value r c.order w.separate b))
]

view-push_front :
    (c : DecompCache) (a : ℕ) (code : String)
    → IsWell c
    → view (push_front c a code) ≡ (a, code) ∷ view c
unfolding push_front
view-push_front c a code w = ground (
  arith,
  items-update_absent c.value c.next (record { addr = a; code = code }) c.order,
  mem-Below-false c.next c.order w.below,
)

mem-remove :
    (f : ℕ → DecompEntry) (a r : ℕ) (l : List ℕ)
    → Separate f l
    → index f a l ≡ some r
    → mem r (remove r l) ≡ false
mem-remove f a r l s h =
    mem_of_none f a r (remove r l) (ground (arith, index-remove f a a r l s)) (index-addr f a r l h)

-- New code for an address that is in the list.
items-renew :
    (f : ℕ → DecompEntry) (a r : ℕ) (code : String) (l : List ℕ)
    → Separate f l
    → index f a l ≡ some r
    → items (update f r (record { addr = (f r).addr; code = code })) (move_to_front r l)
      ≡ (a, code) ∷ Map.delete a (items f l)
unfolding move_to_front
items-renew f a r code l s h = ground (
  arith,
  index-mem f a r l,
  index-addr f a r l,
  items-remove f a r l s,
  mem-remove f a r l s,
  items-update_absent f r (record { addr = (f r).addr; code = code }) (remove r l),
)

-- `set` puts the entry first, and drops the least recently used one if the cache is full and the
-- address is new.
pub set_refines :
    (c : DecompCache) (a : ℕ) (code : String)
    → IsWell c
    → view (set c a code) ≡ spec_set c.cap a code (view c)
unfolding set spec_set
set_refines c a code w = elim (Option-cases (Map.lookup a c.entries)) [
  | inl miss ↦
      rw (miss, set)
        (ground (
          arith,
          w.agree a,
          lookup-items c.value a c.order,
          view-push_front (evict c) a code (evict-IsWell c w),
          view-evict c w,
        ))
  | inr (r, hit) ↦
      rw (hit, set)
        (ground (
          arith,
          w.agree a,
          lookup-items c.value a c.order,
          items-renew c.value a r code c.order w.separate,
        ))
]

-- `delete` removes the address, and nothing else.
pub delete_refines :
    (c : DecompCache) (a : ℕ) → IsWell c → view (delete c a) ≡ Map.delete a (view c)
unfolding delete
delete_refines c a w = elim (Option-cases (Map.lookup a c.entries)) [
  | inl miss ↦
      rw (miss, delete)
        (ground (arith, w.agree a, lookup-items c.value a c.order, delete_absent a (view c)))
  | inr (r, hit) ↦
      rw (hit, delete) (ground (arith, w.agree a, items-remove c.value a r c.order w.separate))
]

-- `has` tells whether the address is in the list.
pub has_refines : (c : DecompCache) (a : ℕ) → IsWell c → has c a ≡ is_some (Map.lookup a (view c))
unfolding has
has_refines c a w =
    ground
      (arith, w.agree a, lookup-items c.value a c.order, Option-cases (index c.value a c.order))

items-keep :
    (f : ℕ → DecompEntry) (p : String → Bool) (l : List ℕ)
    → items f (kept p f l) ≡ keep_where p (items f l)
items-keep f p [] = refl
items-keep f p (r ∷ l) = ground (arith, items-keep f p l)

hits-items :
    (f : ℕ → DecompEntry) (p : String → Bool) (l : List ℕ) → hits p f l ≡ count_where p (items f l)
unfolding hits count_where
hits-items f p [] = refl
hits-items f p (r ∷ l) = omega (arith, hits-items f p l)

-- `deleteWhere` removes the entries that satisfy the predicate, keeps the order of the others, and
-- returns how many it removed.
pub delete_where_refines :
    (c : DecompCache) (p : String → Bool)
    → IsWell c
    → (view (delete_where c p).0 ≡ keep_where p (view c))
      × ((delete_where c p).1 ≡ count_where p (view c))
delete_where_refines c p w =
    let q = delete_where-Purged c p w in
    (
      rw (q.value, q.order) (items-keep c.value p c.order),
      q.count ∙ omega (arith, hits-items c.value p c.order),
    )
