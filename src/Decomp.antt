-- ===== src/Decomp.antt =====
-- internal/server/cache.go, the decompilation cache: `decompEntry`, `decompCache` and its methods.
-- A `*list.Element` is a number, and `value` is the store of what the elements hold; `order` is the
-- container/list, front first, and `entries` the map from an address to its element.
pub mod Order
pub mod Spec
pub mod Invariant
pub mod Purge
pub mod Refine
pub mod Bounds
mod Tests
use ida_pilot.Common.{
  number_key, ℕ, suc, ◌+◌, String, Bool, true, false, List, [], ◌∷◌, Option, none, some, length,
  leb, ltb, eqb, is_some, if◌then◌else◌,
}
use ida_pilot.Common.Map
use ida_pilot.Common.Map.{Map}

abbrev pub max_decomp_cache_entries : ℕ
max_decomp_cache_entries = 200

pub record DecompEntry : Type 0 where
  pub addr : ℕ
  pub code : String

pub record DecompCache : Type 0 where
  pub cap : ℕ
  pub entries : Map ℕ ℕ
  pub order : List ℕ
  pub value : ℕ → DecompEntry
  pub next : ℕ

-- What container/list does.
unfoldable pub mem : ℕ → List ℕ → Bool
mem r [] = false
mem r (x ∷ l) = if eqb x r then true else mem r l

unfoldable pub remove : ℕ → List ℕ → List ℕ
remove r [] = []
remove r (x ∷ l) = if eqb x r then l else x ∷ remove r l

-- `MoveToFront` does nothing to an element that is not in the list.
unfoldable pub move_to_front : ℕ → List ℕ → List ℕ
move_to_front r l = if mem r l then r ∷ remove r l else l

unfoldable pub back : List ℕ → Option ℕ
back [] = none
back (r ∷ []) = some r
back (r ∷ s ∷ l) = back (s ∷ l)

-- A write to the store.
abbrev pub update : (ℕ → DecompEntry) → ℕ → DecompEntry → ℕ → DecompEntry
update f r e q = if eqb q r then e else f q

unfoldable pub new_decomp_cache : ℕ → DecompCache
new_decomp_cache cap = record {
  cap = cap;
  entries = [];
  order = [];
  value = λ r. record { addr = 0; code = "" };
  next = 0;
}

-- `none` is Go's ("", false).
unfoldable pub get : DecompCache → ℕ → DecompCache × Option String
get c addr = elim (Map.lookup addr c.entries) [
  | none ↦ (c, none)
  | some el ↦ (record c { order = move_to_front el c.order }, some (c.value el).code)
]

unfoldable pub push_front : DecompCache → ℕ → String → DecompCache
push_front c addr code = record c {
  entries = Map.insert addr c.next c.entries;
  order = c.next ∷ c.order;
  value = update c.value c.next (record { addr = addr; code = code });
  next = suc c.next;
}

-- The eviction in `set`: nothing if the cache is not full or the list is empty.
unfoldable pub evict : DecompCache → DecompCache
evict c =
    if leb c.cap (length c.order)
    then elim (back c.order) [
      | none ↦ c
      | some oldest ↦ record c {
        entries = Map.delete (c.value oldest).addr c.entries;
        order = remove oldest c.order;
      }
    ]
    else c

unfoldable pub set : DecompCache → ℕ → String → DecompCache
set c addr code = elim (Map.lookup addr c.entries) [
  | none ↦ push_front (evict c) addr code
  | some el ↦ record c {
    value = update c.value el (record { addr = (c.value el).addr; code = code });
    order = move_to_front el c.order;
  }
]

unfoldable pub delete : DecompCache → ℕ → DecompCache
delete c addr = elim (Map.lookup addr c.entries) [
  | none ↦ c
  | some el ↦ record c { order = remove el c.order; entries = Map.delete addr c.entries }
]

unfoldable pub has : DecompCache → ℕ → Bool
has c addr = is_some (Map.lookup addr c.entries)

-- The loop of `deleteWhere` over the elements from the front on: `el.Next()` is read before the
-- element is removed, so the loop runs over the elements that stood in the list at its start.
unfoldable pub delete_loop : (String → Bool) → List ℕ → DecompCache → ℕ → DecompCache × ℕ
delete_loop predicate [] c count = (c, count)
delete_loop predicate (el ∷ rest) c count =
    let entry = c.value el in
    let hit =
      delete_loop predicate rest
        (record c { order = remove el c.order; entries = Map.delete entry.addr c.entries })
        (count + 1) in
    let miss = delete_loop predicate rest c count in if predicate entry.code then hit else miss

unfoldable pub delete_where : DecompCache → (String → Bool) → DecompCache × ℕ
unfolding delete_loop
delete_where c predicate = delete_loop predicate c.order c 0
