-- ===== src/Decomp/Invariant.antt =====
-- The map and the list of the cache agree, through every operation.
use ida_pilot.Common.{
  number_key, ℕ, ◌≡◌, refl, ◌∙◌, sym, String, List, [], ◌∷◌, none, some, arith, Option-cases, inl,
  inr,
}
use ida_pilot.Common.Map
use ida_pilot.Common.Map.{lookup-insert, lookup-delete}
use ida_pilot.Decomp.{
  DecompCache, DecompEntry, remove, move_to_front, back, update, new_decomp_cache, get, push_front,
  evict, set, delete,
}
use ida_pilot.Decomp.Order.{
  index, Separate, Below, index-addr, index-mem, index-remove, remove-Separate, back-index,
  remove-Below, Below-suc, mem-Below, index-update_absent, Separate-update_absent, mem-Below-false,
}

pub record IsWell (c : DecompCache) : Type 0 where
  pub agree : (a : ℕ) → Map.lookup a c.entries ≡ index c.value a c.order
  pub separate : Separate c.value c.order
  pub below : Below c.next c.order

pub new-IsWell : (cap : ℕ) → IsWell (new_decomp_cache cap)
unfolding new_decomp_cache index Map.lookup
new-IsWell cap = record { agree = λ a. refl; separate = tt; below = tt }

-- Moving the element of an address to the front keeps every index.
index-move_to_front :
    (f : ℕ → DecompEntry) (a b r : ℕ) (l : List ℕ)
    → Separate f l
    → index f a l ≡ some r
    → index f b (move_to_front r l) ≡ index f b l
unfolding move_to_front index
index-move_to_front f a b r l s h =
    ground (arith, index-mem f a r l, index-addr f a r l, index-remove f a b r l s)

move_to_front-Separate :
    (f : ℕ → DecompEntry) (a r : ℕ) (l : List ℕ)
    → Separate f l
    → index f a l ≡ some r
    → Separate f (move_to_front r l)
unfolding move_to_front
move_to_front-Separate f a r l s h = ground (
  arith,
  index-mem f a r l,
  index-addr f a r l,
  index-remove f a a r l s,
  remove-Separate f a r l s,
)

move_to_front-Below : (n r : ℕ) (l : List ℕ) → Below n l → Below n (move_to_front r l)
unfolding move_to_front
move_to_front-Below n r l b = ground (arith, mem-Below n r l b, remove-Below n r l b)

-- A write that keeps each address keeps each index.
index-update_addr :
    (f : ℕ → DecompEntry) (r a : ℕ) (code : String) (l : List ℕ)
    → index (update f r (record { addr = (f r).addr; code = code })) a l ≡ index f a l
unfolding index
index-update_addr f r a code [] = refl
index-update_addr f r a code (x ∷ l) = ground (arith, index-update_addr f r a code l)

Separate-update_addr :
    (f : ℕ → DecompEntry) (r : ℕ) (code : String) (l : List ℕ)
    → Separate f l
    → Separate (update f r (record { addr = (f r).addr; code = code })) l
Separate-update_addr f r code [] s = tt
Separate-update_addr f r code (x ∷ l) s =
    ground (arith, index-update_addr f r (f x).addr code l, Separate-update_addr f r code l s.1)

pub get-IsWell : (c : DecompCache) (a : ℕ) → IsWell c → IsWell (get c a).0
unfolding get
get-IsWell c a w = elim (Option-cases (Map.lookup a c.entries)) [
  | inl miss ↦ rw (miss, get) w
  | inr (r, hit) ↦
      let h : index c.value a c.order ≡ some r = sym (w.agree a) ∙ hit in
      rw (hit, get)
        (record {
          agree = λ b. w.agree b ∙ sym (index-move_to_front c.value a b r c.order w.separate h);
          separate = move_to_front-Separate c.value a r c.order w.separate h;
          below = move_to_front-Below c.next r c.order w.below;
        })
]

-- Removing an element from the map and the list at once.
pub removed-IsWell :
    (c : DecompCache) (a r : ℕ)
    → IsWell c
    → index c.value a c.order ≡ some r
    → IsWell (record c { entries = Map.delete a c.entries; order = remove r c.order })
removed-IsWell c a r w h = record {
  agree = λ b. ground (
    arith,
    lookup-delete a b c.entries,
    index-remove c.value a b r c.order w.separate,
    w.agree b,
  );
  separate = remove-Separate c.value a r c.order w.separate h;
  below = remove-Below c.next r c.order w.below;
}

pub delete-IsWell : (c : DecompCache) (a : ℕ) → IsWell c → IsWell (delete c a)
unfolding delete
delete-IsWell c a w = elim (Option-cases (Map.lookup a c.entries)) [
  | inl miss ↦ rw (miss, delete) w
  | inr (r, hit) ↦ rw (hit, delete) (removed-IsWell c a r w (sym (w.agree a) ∙ hit))
]

pub evict-IsWell : (c : DecompCache) → IsWell c → IsWell (evict c)
unfolding evict
evict-IsWell c w = elim (Option-cases (back c.order)) [
  | inl e ↦ rw (e, evict) (ground arith)
  | inr (r, e) ↦
      rw (e, evict)
        (ground (
          arith,
          removed-IsWell c (c.value r).addr r w (back-index c.value r c.order w.separate e),
        ))
]

push_front-IsWell :
    (c : DecompCache) (a : ℕ) (code : String)
    → IsWell c
    → Map.lookup a c.entries ≡ none
    → IsWell (push_front c a code)
unfolding push_front index
push_front-IsWell c a code w fresh = record {
  agree = λ b. ground (
    arith,
    lookup-insert a b c.next c.entries,
    index-update_absent c.value c.next b (record { addr = a; code = code }) c.order,
    mem-Below-false c.next c.order w.below,
    w.agree b,
  );
  separate = ground (
    arith,
    index-update_absent c.value c.next a (record { addr = a; code = code }) c.order,
    Separate-update_absent c.value c.next (record { addr = a; code = code }) c.order,
    mem-Below-false c.next c.order w.below,
    w.agree a,
    w.separate,
  );
  below = (omega arith, Below-suc c.next c.order w.below);
}

-- What is absent stays absent.
pub lookup-evict-none :
    (c : DecompCache) (a : ℕ)
    → Map.lookup a c.entries ≡ none
    → Map.lookup a (evict c).entries ≡ none
unfolding evict
lookup-evict-none c a h = elim (Option-cases (back c.order)) [
  | inl e ↦ rw (e, evict) (ground arith)
  | inr (r, e) ↦ rw (e, evict) (ground (arith, lookup-delete (c.value r).addr a c.entries))
]

pub set-IsWell : (c : DecompCache) (a : ℕ) (code : String) → IsWell c → IsWell (set c a code)
unfolding set
set-IsWell c a code w = elim (Option-cases (Map.lookup a c.entries)) [
  | inl miss ↦
      rw (miss, set)
        (push_front-IsWell (evict c) a code (evict-IsWell c w) (lookup-evict-none c a miss))
  | inr (r, hit) ↦
      let h : index c.value a c.order ≡ some r = sym (w.agree a) ∙ hit in
      let o : List ℕ = move_to_front r c.order in
      rw (hit, set)
        (record {
          agree = λ b.
              w.agree b
              ∙ sym (index-move_to_front c.value a b r c.order w.separate h)
              ∙ sym (index-update_addr c.value r b code o);
          separate =
              Separate-update_addr c.value r code o
                (move_to_front-Separate c.value a r c.order w.separate h);
          below = move_to_front-Below c.next r c.order w.below;
        })
]
