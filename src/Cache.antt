-- ===== src/Cache.antt =====
-- internal/server/cache.go: `sessionCache`, what the server keeps of one session's database, with its
-- loaders, its invalidations and its notes.
-- A nil slice, map or cache is `none`. An `Item` is a message that the worker sends; a mutex makes each
-- method one step, except `loadCached`, which looks at its slot twice.
pub mod Loading
pub mod Fetching
pub mod Entries
pub mod Notes
mod Tests
use ida_pilot.Common.{
  number_key, string_key, ◌==◌, ℕ, suc, ◌+◌, String, Bool, true, false, List, [], ◌∷◌, Option, none,
  some, eqb, is_some, if◌then◌else◌,
}
use ida_pilot.Common.Map
use ida_pilot.Common.Map.{Map}
use ida_pilot.Text.{Text, codes, contains}
use ida_pilot.Decomp
use ida_pilot.Decomp.{DecompCache, new_decomp_cache, max_decomp_cache_entries, delete_where}

pub record AnalysisNote : Type 0 where
  pub timestamp : ℕ
  pub note : String

-- What a loader returns: an error, or a slice that may be nil.
pub data Fetched {ℓ} (A : Type ℓ) : Type ℓ where
  fails : Fetched A
  fetched : Option (List A) → Fetched A

-- What `loadCached` returns: an error, or the data and whether it was a hit.
pub data Loaded {ℓ} (A : Type ℓ) : Type ℓ where
  load_error : Loaded A
  loaded : Option (List A) → Bool → Loaded A

-- Under the write lock: the slot is looked at again, and the loader runs only if it is still nil. The
-- loader is a call of the worker, whose state it changes.
unfoldable pub store_fetched {ℓ} :
    {A World : Type ℓ} → World → Fetched A → (Option (List A) × World) × Loaded A
store_fetched w fails = ((none, w), load_error)
store_fetched w (fetched items) = ((items, w), loaded items false)

unfoldable pub load_locked {ℓ} :
    {A World : Type ℓ}
    → (World → World × Fetched A)
    → Option (List A)
    → World
    → (Option (List A) × World) × Loaded A
unfolding store_fetched
load_locked loader (some items) w = ((some items, w), loaded (some items) false)
load_locked loader none w = store_fetched (loader w).0 (loader w).1

-- `loadCached`: `seen` is the slot as the read lock showed it, `slot` the slot when the write lock was
-- taken. Between the two another call may have filled it.
unfoldable pub load_cached {ℓ} :
    {A World : Type ℓ}
    → (World → World × Fetched A)
    → (seen slot : Option (List A)) → World
    → (Option (List A) × World) × Loaded A
unfolding load_locked
load_cached loader (some items) slot w = ((slot, w), loaded (some items) true)
load_cached loader none slot w = load_locked loader slot w

-- `range` over a nil map, and a read of it, see an empty one; a write makes it first.
abbrev pub or_empty : {V : Type 0} → Option (Map ℕ V) → Map ℕ V
or_empty none = []
or_empty (some m) = m

unfoldable pub find_in : {V : Type 0} → Option (Map ℕ V) → ℕ → Option V
find_in none addr = none
find_in (some m) addr = Map.lookup addr m

unfoldable pub drop_from : {V : Type 0} → Option (Map ℕ V) → ℕ → Option (Map ℕ V) × ℕ
drop_from none addr = (none, 0)
drop_from (some m) addr = if Map.has addr m then (some (Map.delete addr m), 1) else (some m, 0)

-- A visit without a note keeps the note that is there.
unfoldable pub visit : Option AnalysisNote → ℕ → String → AnalysisNote
visit none ts note = record { timestamp = ts; note = note }
visit (some existing) ts note =
    if note == ""
    then record existing { timestamp = ts }
    else record { timestamp = ts; note = note }

-- The pseudocode cache of a session, which is made when it is first written to.
unfoldable pub get_from : Option DecompCache → ℕ → Option DecompCache × Option String
get_from none addr = (none, none)
get_from (some d) addr = (some (Decomp.get d addr).0, (Decomp.get d addr).1)

unfoldable pub set_in : Option DecompCache → ℕ → String → Option DecompCache
set_in none addr code = some (Decomp.set (new_decomp_cache max_decomp_cache_entries) addr code)
set_in (some d) addr code = some (Decomp.set d addr code)

unfoldable pub delete_from : Option DecompCache → ℕ → Option DecompCache
delete_from none addr = none
delete_from (some d) addr = some (Decomp.delete d addr)

unfoldable pub purge_from : Option DecompCache → (String → Bool) → Option DecompCache × ℕ
purge_from none p = (none, 0)
purge_from (some d) p = (some (delete_where d p).0, (delete_where d p).1)

unfoldable pub prune_from : Option DecompCache → ℕ → Option DecompCache × ℕ
prune_from none addr = (none, 0)
prune_from (some d) addr =
    if Decomp.has d addr then (some (Decomp.delete d addr), 1) else (some d, 0)

module _ (Item : Type 0) where
  pub record XrefsEntry : Type 0 where
    pub to : List Item
    pub from : List Item

  pub record SessionCache : Type 0 where
    pub strings : Option (List Item)
    pub functions : Option (List Item)
    pub imports : Option (List Item)
    pub exports : Option (List Item)
    pub segments : Option (List Item)
    pub decomp : Option DecompCache
    pub xrefs : Option (Map ℕ XrefsEntry)
    pub visited : Option (Map ℕ AnalysisNote)

  -- `&sessionCache{}`.
  abbrev pub new_session_cache : SessionCache
  new_session_cache = record {
    strings = none;
    functions = none;
    imports = none;
    exports = none;
    segments = none;
    decomp = none;
    xrefs = none;
    visited = none;
  }

module _ {Item : Type 0} where
  -- The two accesses to the server's map of caches: a missing cache is made.
  unfoldable pub get_session_cache :
      Map String (SessionCache Item) → String → Map String (SessionCache Item) × SessionCache Item
  get_session_cache caches id = elim (Map.lookup id caches) [
    | some cache ↦ (caches, cache)
    | none ↦ (Map.insert id (new_session_cache Item) caches, new_session_cache Item)
  ]

  unfoldable pub delete_session_cache :
      Map String (SessionCache Item) → String → Map String (SessionCache Item)
  delete_session_cache caches id = Map.delete id caches

  unfoldable pub invalidate_functions : SessionCache Item → SessionCache Item
  invalidate_functions c = record c { functions = none }

  unfoldable pub get_decomp : SessionCache Item → ℕ → SessionCache Item × Option String
  unfolding get_from
  get_decomp c addr = let r = get_from c.decomp addr in (record c { decomp = r.0 }, r.1)

  unfoldable pub set_decomp : SessionCache Item → ℕ → String → SessionCache Item
  unfolding set_in
  set_decomp c addr code = record c { decomp = set_in c.decomp addr code }

  unfoldable pub invalidate_decomp : SessionCache Item → ℕ → SessionCache Item
  unfolding delete_from
  invalidate_decomp c addr = record c { decomp = delete_from c.decomp addr }

  -- The entries whose text contains the old name, and how many there were.
  unfoldable pub invalidate_decomp_by_old_name : SessionCache Item → String → SessionCache Item × ℕ
  unfolding purge_from
  invalidate_decomp_by_old_name c old_name =
      let r = purge_from c.decomp (λ code. contains (codes code) (codes old_name)) in
      if old_name == "" then (c, 0) else (record c { decomp = r.0 }, r.1)

  unfoldable pub any_at : (Item → ℕ) → ℕ → List Item → Bool
  any_at address addr [] = false
  any_at address addr (f ∷ fs) = if eqb (address f) addr then true else any_at address addr fs

  unfoldable pub is_cached_function : (Item → ℕ) → SessionCache Item → ℕ → Bool
  unfolding any_at
  is_cached_function address c addr = elim c.functions [
    | none ↦ false
    | some fs ↦ any_at address addr fs
  ]

  unfoldable pub invalidate_all_decomp : SessionCache Item → SessionCache Item
  invalidate_all_decomp c = record c { decomp = none }

  unfoldable pub get_xrefs : SessionCache Item → ℕ → Option (XrefsEntry Item)
  unfolding find_in
  get_xrefs c addr = find_in c.xrefs addr

  unfoldable pub set_xrefs : SessionCache Item → ℕ → XrefsEntry Item → SessionCache Item
  set_xrefs c addr entry = record c { xrefs = some (Map.insert addr entry (or_empty c.xrefs)) }

  unfoldable pub invalidate_all_xrefs : SessionCache Item → SessionCache Item
  invalidate_all_xrefs c = record c { xrefs = none }

  unfoldable pub mark_visited : SessionCache Item → ℕ → ℕ → String → SessionCache Item
  unfolding visit
  mark_visited c addr ts note =
      let m = or_empty c.visited in
      record c { visited = some (Map.insert addr (visit (Map.lookup addr m) ts note) m) }

  unfoldable pub set_note : SessionCache Item → ℕ → ℕ → String → SessionCache Item
  set_note c addr ts note = record c {
    visited = some (Map.insert addr (record { timestamp = ts; note = note }) (or_empty c.visited));
  }

  unfoldable pub get_visited : SessionCache Item → Option (Map ℕ AnalysisNote)
  get_visited c = c.visited

  unfoldable pub prune_decomp : SessionCache Item → ℕ → SessionCache Item × ℕ
  unfolding prune_from
  prune_decomp c addr = let r = prune_from c.decomp addr in (record c { decomp = r.0 }, r.1)

  unfoldable pub prune_xrefs : SessionCache Item → ℕ → SessionCache Item × ℕ
  unfolding drop_from
  prune_xrefs c addr = let r = drop_from c.xrefs addr in (record c { xrefs = r.0 }, r.1)

  -- The loop of `pruneNotedFunctions`, over the visited addresses in the order in which the map is
  -- ranged over.
  unfoldable pub prune_loop : Map ℕ AnalysisNote → SessionCache Item → ℕ → SessionCache Item × ℕ
  unfolding prune_decomp prune_xrefs
  prune_loop [] c count = (c, count)
  prune_loop ((addr, n) ∷ rest) c count =
      let a = prune_decomp c addr in
      let b = prune_xrefs a.0 addr in
      let skip = prune_loop rest c count in
      let pruned = prune_loop rest b.0 (count + a.1 + b.1) in if n.note == "" then skip else pruned

  unfoldable pub prune_noted_functions : SessionCache Item → SessionCache Item × ℕ
  unfolding prune_loop
  prune_noted_functions c = prune_loop (or_empty c.visited) c 0
