-- ===== src/Composite/Batch.antt =====
-- internal/server/composite.go: `analyzeFunctions`, which analyzes up to ten functions at the same time.
-- The goroutines end in any order; each has its own order of tasks, and works on the cache that those
-- before it left.
use ida_pilot.Common.{
  string_key, ◌≡◌, ◌∙◌, refl, ap, ℕ, ◌≤◌, Bool, true, false, List, [], ◌∷◌, arith, ltb,
  if◌then◌else◌, set, length, replicate, map,
}
use ida_pilot.Text.{Text}
use ida_pilot.Address.{Parsed, AddrError, ok, err, parse_addr}
use ida_pilot.Cache.{SessionCache}
use ida_pilot.Parallel.{Arrives, spawn, write_all, parallel_map}
use ida_pilot.Parallel.Mapped.{parallel_map-map}
use ida_pilot.Composite.{Worker, CacheItem, ResultEntry, Task, all_tasks}
use ida_pilot.Composite.Result.{not_empty}
use ida_pilot.Composite.Single.{analyze_single_function}
use ida_pilot.Composite.Shown.{fresh_result}
use ida_pilot.Composite.Faithful.{Faithful}
use ida_pilot.Composite.Fresh.{analyze_single_function-fresh}

abbrev pub max_batch_analyze : ℕ
max_batch_analyze = 10

-- A slot of the results: nil, the error of an address, or what the analysis gives.
pub data Slot : Type 0 where
  nothing : Slot
  bad_address : Text → AddrError → Slot
  analyzed : List ResultEntry → Slot

pub data Analyzed : Type 0 where
  addresses_required : Analyzed
  too_many : Analyzed
  unresolved : Analyzed
  functions : List Slot → Analyzed

-- The order in which the tasks of a goroutine end, and its two calls for references, and the time.
pub record Schedule : Type 0 where
  pub order : List Task
  pub to_first : Bool
  pub now : ℕ

module _ {Item : Type 0} where
  unfoldable pub analyze_slot :
      Worker
      → Schedule
      → SessionCache (CacheItem Item)
      → Text
      → Parsed
      → SessionCache (CacheItem Item) × Slot
  unfolding analyze_single_function
  analyze_slot w k c a (err e) = (c, bad_address a e)
  analyze_slot w k c a (ok addr) =
      let r = analyze_single_function w k.order k.to_first k.now c addr in (r.0, analyzed r.1)

  -- The goroutines in the order in which they end, each with its index and its address.
  unfoldable pub analyze_each :
      Worker
      → (ℕ → Schedule)
      → List (ℕ × Text)
      → SessionCache (CacheItem Item)
      → List Slot
      → SessionCache (CacheItem Item) × List Slot
  unfolding analyze_slot
  analyze_each w course [] c results = (c, results)
  analyze_each w course ((i, a) ∷ rest) c results =
      let r = analyze_slot w (course i) c a (parse_addr a) in
      analyze_each w course rest r.0 (set results i r.1)

  unfoldable pub analyze_functions :
      Worker
      → (ℕ → Schedule)
      → (ended : List (ℕ × Text)) → (resolved : Bool) → SessionCache (CacheItem Item)
      → List Text
      → SessionCache (CacheItem Item) × Analyzed
  unfolding analyze_each
  analyze_functions w course ended resolved c addresses =
      let r = analyze_each w course ended c (replicate (length addresses) nothing) in
      if not_empty addresses
      then if ltb max_batch_analyze (length addresses)
        then (c, too_many)
        else if resolved
        then (r.0, functions r.1)
        else (c, unresolved)
      else (c, addresses_required)

-- The slot of an address, from the worker's replies alone.
abbrev pub fresh_parsed : Worker → Text → Parsed → Slot
fresh_parsed w a (err e) = bad_address a e
fresh_parsed w a (ok addr) = analyzed (fresh_result w addr)

abbrev pub fresh_slot : Worker → Text → Slot
fresh_slot w a = fresh_parsed w a (parse_addr a)

module _ {Item : Type 0} where
  analyze_slot-fresh :
      (w : Worker) (k : Schedule) (c : SessionCache (CacheItem Item)) (a : Text) (p : Parsed)
      → Arrives all_tasks k.order
      → Faithful w c
      → ((analyze_slot w k c a p).1 ≡ fresh_parsed w a p) × Faithful w (analyze_slot w k c a p).0
  unfolding analyze_slot
  analyze_slot-fresh w k c a (err e) h f = (refl, f)
  analyze_slot-fresh w k c a (ok addr) h f =
      let r = analyze_single_function-fresh w k.order k.to_first k.now c addr h f in
      (ap analyzed r.0, r.1)

  analyze_each-fresh :
      (w : Worker) (course : ℕ → Schedule) (ended : List (ℕ × Text))
      (c : SessionCache (CacheItem Item)) (results : List Slot)
      → ((i : ℕ) → Arrives all_tasks (course i).order)
      → Faithful w c
      → ((analyze_each w course ended c results).1 ≡ write_all (fresh_slot w) ended results)
        × Faithful w (analyze_each w course ended c results).0
  unfolding analyze_each write_all
  analyze_each-fresh w course [] c results h f = (refl, f)
  analyze_each-fresh w course ((i, a) ∷ rest) c results h f =
      let now = analyze_slot-fresh w (course i) c a (parse_addr a) (h i) f in
      let c' = (analyze_slot w (course i) c a (parse_addr a)).0 in
      let slot = (analyze_slot w (course i) c a (parse_addr a)).1 in
      let later = analyze_each-fresh w course rest c' (set results i slot) h now.1 in
      (later.0 ∙ ap (λ s. write_all (fresh_slot w) rest (set results i s)) now.0, later.1)

  -- A session whose cache holds only what its worker replies, and one to ten addresses, some of them
  -- twice or malformed: in whatever order the goroutines and their tasks end, the slot of each address
  -- shows its error or the worker's replies, in the order of the addresses, whatever is cached; and the
  -- cache still holds only what the worker replies.
  pub analyze_functions-fresh :
      (w : Worker) (course : ℕ → Schedule) (ended : List (ℕ × Text))
      (c : SessionCache (CacheItem Item)) (a : Text) (more : List Text)
      → length (a ∷ more) ≤ max_batch_analyze
      → Arrives (spawn 0 (a ∷ more)) ended
      → ((i : ℕ) → Arrives all_tasks (course i).order)
      → Faithful w c
      → let r = analyze_functions w course ended true c (a ∷ more) in
        (r.1 ≡ functions (map (fresh_slot w) (a ∷ more))) × Faithful w r.0
  unfolding analyze_functions not_empty parallel_map
  analyze_functions-fresh w course ended c a more few arrive tasks f =
      let e : ltb max_batch_analyze (length (a ∷ more)) ≡ false = ground arith in
      let r = analyze_each-fresh w course ended c (replicate (length (a ∷ more)) nothing) tasks f in
      let m = parallel_map-map nothing (fresh_slot w) (a ∷ more) ended arrive in
      rw e (ap functions (r.0 ∙ m), r.1)
